-- ===== src/Permissions/Creation.antt =====
-- What `perm_create_task`, `perm_inherit` and `perm_destroy_task` do to the table.
use ne_xs_operate_system.Base.{
  ℕ, ◌+◌, ◌%◌, ◌^◌, ◌≤◌, ◌<◌, ◌≡◌, ◌≢◌, ◌↔◌, ◌⊎◌, refl, sym, ◌∙◌, bit_and, bit_or, true, false,
  arith, length-set,
}
use ne_xs_operate_system.Base.Bits.{
  complement, bit_and-le_left, bit_and-or_left, bit_and-or_distrib, bit_and-clear, bit_or-zero,
}
use ne_xs_operate_system.Permissions.{
  PermState, TaskPerms, entry, put, max_tasks, perm_none, perm_task_create, perm_kernel_mode,
  administrative, granted, denied, returned, panic, perm_check, perm_inherit, register,
  perm_create_task, perm_destroy_task,
}
use ne_xs_operate_system.Permissions.Invariant.{IsSound, entry-put_self, entry-put_ne}
use ne_xs_operate_system.Permissions.Rights.{perm_check_ext}

-- `perm_create_task` panics exactly when an id lies outside the table, and answers 0 exactly when
-- the parent passes the check for PERM_TASK_CREATE and the slot is free. On -1 nothing changes.
pub perm_create_task_cases :
    (s : PermState) (task parent perms : ℕ)
    → ((perm_create_task s task parent perms ≡ panic) ↔ ((max_tasks ≤ task) ⊎ (max_tasks ≤ parent)))
      × (((s' : PermState) × (perm_create_task s task parent perms ≡ returned granted s')) ↔ (
          (task < max_tasks)
          × (perm_check s parent perm_task_create ≡ true)
          × ((entry s task).active ≡ false)))
      × ((perm_create_task s task parent perms ≡ returned denied s) ↔ (
          (task < max_tasks)
          × (parent < max_tasks)
          × ((perm_check s parent perm_task_create ≡ false) ⊎ ((entry s task).active ≡ true))))
unfolding perm_create_task perm_check
perm_create_task_cases s task parent perms = (
  (ground arith, ground arith),
  (
    λ (s', e). ground arith,
    λ (t, c, a). (perm_inherit (register s task parent perms) task parent, ground arith),
  ),
  (ground arith, ground arith),
)

-- What a parent's mask hands down.
abbrev inheritable : PermState → ℕ → ℕ
inheritable s parent = bit_and (entry s parent).capabilities (complement 16 administrative)

-- The state that a creation ends in.
abbrev created : PermState → ℕ → ℕ → ℕ → TaskPerms
created s task parent perms = record {
  task_id = task;
  capabilities = bit_or perms (inheritable s parent);
  parent_id = parent;
  granted_time = (s.timestamp + 1) % 2 ^ 64;
  active = true;
}

-- What a creation that answers 0 has tested.
record Admitted (s s' : PermState) (task parent perms : ℕ) : Type 0 where
  task_in : task < max_tasks
  parent_in : parent < max_tasks
  parent_active : (entry s parent).active ≡ true
  slot_free : (entry s task).active ≡ false
  result : s' ≡ perm_inherit (register s task parent perms) task parent

create_Admitted :
    (s s' : PermState) (task parent perms : ℕ)
    → perm_create_task s task parent perms ≡ returned granted s'
    → Admitted s s' task parent perms
unfolding perm_create_task perm_check
create_Admitted s s' task parent perms e = ground arith

module _ (s : PermState) (task parent perms : ℕ) (v : IsSound s) where
  abbrev registered : TaskPerms
  registered = record (created s task parent perms) { capabilities = perms }

  entry-register_self : task < max_tasks → entry (register s task parent perms) task ≡ registered
  entry-register_self h =
      entry-put_self (record s { timestamp = (s.timestamp + 1) % 2 ^ 64 }) task registered
        (omega (arith, v.sized))

  entry-register_ne : (i : ℕ) → i ≢ task → entry (register s task parent perms) i ≡ entry s i
  entry-register_ne i n =
      entry-put_ne (record s { timestamp = (s.timestamp + 1) % 2 ^ 64 }) task i registered
        (λ e. n (sym e))

  inherit_lands :
      {s' : PermState}
      → Admitted s s' task parent perms
      → s' ≡ put (register s task parent perms) task (created s task parent perms)
  unfolding perm_inherit
  inherit_lands a =
      let other : parent ≢ task = λ e. ground arith in
      ground (arith, entry-register_self a.task_in, entry-register_ne parent other, a.result)

create_lands :
    (s s' : PermState) (task parent perms : ℕ)
    → IsSound s
    → perm_create_task s task parent perms ≡ returned granted s'
    → (entry s' task ≡ created s task parent perms) × ((i : ℕ) → i ≢ task → entry s' i ≡ entry s i)
create_lands s s' task parent perms v e =
    let a = create_Admitted s s' task parent perms e in
    let r = register s task parent perms in
    let c = created s task parent perms in
    rw (inherit_lands s task parent perms v a) (
      entry-put_self r task c (
          omega (
            arith,
            v.sized,
            a.task_in,
            length-set s.table task (record c { capabilities = perms }),
          )),
      λ i n. entry-put_ne r task i c (λ e. n (sym e)) ∙ entry-register_ne s task parent perms v i n,
    )

module _ (s : PermState) (parent perms : ℕ) (v : IsSound s) (h : perms < 2 ^ 16) where
  inherited-lt : inheritable s parent < 2 ^ 16
  inherited-lt = omega (
    arith,
    v.words parent,
    bit_and-le_left 16 (entry s parent).capabilities (complement 16 administrative)
        (v.words parent),
  )

  mask_of_created :
      bit_and (bit_or perms (inheritable s parent)) administrative ≡ bit_and perms administrative
  mask_of_created = ground (
    arith,
    inherited-lt,
    bit_and-or_distrib 16 perms (inheritable s parent) administrative,
    bit_and-clear 16 (entry s parent).capabilities administrative (v.words parent),
    bit_or-zero 16 (bit_and perms administrative),
    bit_and-le_left 16 perms administrative,
  )

  check_of_created :
      (s' : PermState) (task : ℕ)
      → task < max_tasks
      → entry s' task ≡ created s task parent perms
      → perm_check s' task perms ≡ true
  unfolding perm_check
  check_of_created s' task t own =
      rw own (ground (arith, inherited-lt, bit_and-or_left 16 perms (inheritable s parent)))

-- A creation with 16-bit rights in a sound table that answers 0: of the capabilities PERM_PERM_GRANT, PERM_PERM_REVOKE and
-- PERM_KERNEL_MODE the new task holds exactly those in `initial_perms`; it passes the check for
-- `initial_perms`, it is active under its parent, and the answers for all other tasks are the same.
pub perm_create_task_effect :
    (s s' : PermState) (task parent perms other q : ℕ)
    → IsSound s
    → perms < 2 ^ 16
    → other ≢ task
    → perm_create_task s task parent perms ≡ returned granted s'
    → (bit_and (entry s' task).capabilities administrative ≡ bit_and perms administrative)
      × (perm_check s' task perms ≡ true)
      × ((entry s' task).active ≡ true)
      × ((entry s' task).parent_id ≡ parent)
      × (perm_check s' other q ≡ perm_check s other q)
perm_create_task_effect s s' task parent perms other q v h n e =
    let (own, others) = create_lands s s' task parent perms v e in
    (
      rw own (mask_of_created s parent perms v h),
      check_of_created s parent perms v h s' task (create_Admitted s s' task parent perms e).task_in
          own,
      rw own,
      rw own,
      perm_check_ext s s' other q (others other n),
    )

kernel_mode_passes :
    (s : PermState) (parent : ℕ)
    → IsSound s
    → (s' : PermState) (task : ℕ) → task < max_tasks
    → entry s' task ≡ created s task parent perm_kernel_mode
    → (q : ℕ) → perm_check s' task q ≡ true
unfolding perm_check
kernel_mode_passes s parent v s' task t own q = rw own (
    ground (
      arith,
      inherited-lt s parent 0 v (omega arith),
      bit_and-or_left 16 perm_kernel_mode (inheritable s parent) (omega arith),
    ))

inactive_fails : (s : PermState) (i q : ℕ) → (entry s i).active ≡ false → perm_check s i q ≡ false
unfolding perm_check
inactive_fails s i q a = ground arith

-- In a sound table, a task that passes the check for PERM_TASK_CREATE, and holds nothing more, can create a task in a
-- free slot with PERM_KERNEL_MODE: the new task then passes every check.
pub perm_create_task_escalates :
    (s : PermState) (task parent : ℕ)
    → IsSound s
    → task < max_tasks
    → perm_check s parent perm_task_create ≡ true
    → (entry s task).active ≡ false
    → (s' : PermState) × (perm_create_task s task parent perm_kernel_mode ≡ returned granted s')
      × ((q : ℕ) → perm_check s' task q ≡ true)
perm_create_task_escalates s task parent v t c a =
    let (s', e) = (perm_create_task_cases s task parent perm_kernel_mode).1.1 (t, c, a) in
    let (own, others) = create_lands s s' task parent perm_kernel_mode v e in
    (s', e, λ q. kernel_mode_passes s parent v s' task t own q)

destroy_lands :
    (s : PermState) (task : ℕ)
    → 0 < task
    → task < max_tasks
    → perm_destroy_task s task
      ≡ (let e = entry s task in put s task (record e { active = false; capabilities = perm_none }))
unfolding perm_destroy_task
destroy_lands s task pos t = ground arith

-- In a sound table, `perm_destroy_task` of an id of it other than 0 makes every check of that task fail and
-- leaves the answers for the others.
perm_destroy_task_effect :
    (s : PermState) (task other q : ℕ)
    → IsSound s
    → 0 < task
    → task < max_tasks
    → other ≢ task
    → (perm_check (perm_destroy_task s task) task q ≡ false)
      × (perm_check (perm_destroy_task s task) other q ≡ perm_check s other q)
perm_destroy_task_effect s task other q v pos t n = rw (destroy_lands s task pos t) (
  inactive_fails (put s task gone) task q
      (rw (entry-put_self s task gone (omega (arith, v.sized))) refl),
  perm_check_ext s (put s task gone) other q (entry-put_ne s task other gone λ e. n (sym e)),
)
  where
    gone : TaskPerms
    gone = let e = entry s task in record e { active = false; capabilities = perm_none }
