-- ===== src/Permissions/Invariant.antt =====
-- The invariant of the table of capabilities, and that every function keeps it.
use ne_xs_operate_system.Base.{
  ℕ, zero, suc, ◌+◌, ◌%◌, ◌^◌, ◌<◌, ◌≡◌, ◌≢◌, ◌∙◌, refl, bit_and, bit_or, true, false, List, [],
  ◌∷◌, arith, length, get_or, length-set, get_or-set_self, get_or-set_ne,
}
use ne_xs_operate_system.Base.Bits.{complement, bit_or-lt, bit_and-le_left, bit_or-full}
use ne_xs_operate_system.Permissions.{
  TaskPerms, PermState, blank, entry, put, max_tasks, Status, Outcome, returned, panic, perm_init,
  cleared, perm_inherit, register, perm_create_task, perm_destroy_task, perm_grant, perm_revoke,
  Call, create, destroy, grant, revoke, step, run, administrative,
}

-- The table has its 64 entries, each capability mask is a `uint16_t`, and the kernel, task 0, is
-- active with every capability.
pub record IsSound (s : PermState) : Type 0 where
  pub sized : length s.table ≡ max_tasks
  pub kernel_active : (entry s 0).active ≡ true
  pub kernel_full : (entry s 0).capabilities ≡ 0xffff
  pub words : (i : ℕ) → (entry s i).capabilities < 2 ^ 16

pub entry-put_self :
    (s : PermState) (i : ℕ) (e : TaskPerms) → i < length s.table → entry (put s i e) i ≡ e
entry-put_self s i e h = get_or-set_self s.table i e blank h

pub entry-put_ne :
    (s : PermState) (i j : ℕ) (e : TaskPerms) → i ≢ j → entry (put s i e) j ≡ entry s j
entry-put_ne s i j e h = get_or-set_ne s.table i j e blank h

-- An entry is replaced by one with a mask of 16 bits, which for task 0 stays active and full.
put-IsSound :
    (s : PermState) (i : ℕ) (e : TaskPerms) (t : ℕ)
    → IsSound s
    → i < max_tasks
    → e.capabilities < 2 ^ 16
    → (i ≡ 0 → (e.active ≡ true) × (e.capabilities ≡ 0xffff))
    → IsSound (put (record s { timestamp = t }) i e)
put-IsSound s i e t v h w k = record {
  sized = length-set s.table i e ∙ v.sized;
  kernel_active = ground (arith, entry-put_self s i e, entry-put_ne s i 0 e);
  kernel_full = ground (arith, entry-put_self s i e, entry-put_ne s i 0 e);
  words = λ j. ground (arith, entry-put_self s i e, entry-put_ne s i j e, v.words j);
}

-- A task keeps its entry, with another mask.
mask-IsSound :
    (s : PermState) (i caps time t : ℕ)
    → IsSound s
    → i < max_tasks
    → caps < 2 ^ 16
    → (i ≡ 0 → caps ≡ 0xffff)
    → IsSound (
        let e = entry s i in
        put (record s { timestamp = t }) i (record e { capabilities = caps; granted_time = time }))
mask-IsSound s i caps time t v h w k =
    put-IsSound s i _ t v h w λ e. (ground (arith, v.kernel_active), k e)

init-IsSound : IsSound perm_init
unfolding perm_init
init-IsSound = record {
  sized = refl;
  kernel_active = refl;
  kernel_full = refl;
  words = words_of_init;
}
  where
    words_of_cleared : (n k i : ℕ) → (get_or (cleared n k) i blank).capabilities ≡ 0
    words_of_cleared zero k i = refl
    words_of_cleared (suc n) k zero = refl
    words_of_cleared (suc n) k (suc i) = words_of_cleared n (k + 1) i

    words_of_init : (i : ℕ) → (entry perm_init i).capabilities < 2 ^ 16
    words_of_init zero = omega arith
    words_of_init (suc i) = omega (arith, words_of_cleared 63 1 i)

perm_inherit-IsSound :
    (s : PermState) (child parent : ℕ) → IsSound s → IsSound (perm_inherit s child parent)
unfolding perm_inherit
perm_inherit-IsSound s child parent v =
    let inheritable = bit_and (entry s parent).capabilities (complement 16 administrative) in
    let e = entry s child in
    ground (
      arith,
      v.words child,
      v.words parent,
      bit_and-le_left 16 (entry s parent).capabilities (complement 16 administrative),
      bit_or-lt 16 e.capabilities inheritable,
      bit_or-full 16 inheritable,
      mask-IsSound s child (bit_or e.capabilities inheritable) e.granted_time s.timestamp v,
    )

perm_create_task-IsSound :
    (s : PermState) (task parent perms : ℕ)
    → IsSound s
    → perms < 2 ^ 16
    → (t : Status) (s' : PermState) → perm_create_task s task parent perms ≡ returned t s'
    → IsSound s'
unfolding perm_create_task
perm_create_task-IsSound s task parent perms v h t s' e =
    let now = (s.timestamp + 1) % 2 ^ 64 in
    let fresh : TaskPerms = record {
      task_id = task;
      capabilities = perms;
      parent_id = parent;
      granted_time = now;
      active = true;
    } in
    let r = register s task parent perms in
    ground
      (arith, v.kernel_active, put-IsSound s task fresh now v, perm_inherit-IsSound r task parent)

perm_destroy_task-IsSound :
    (s : PermState) (task : ℕ) → IsSound s → IsSound (perm_destroy_task s task)
unfolding perm_destroy_task
perm_destroy_task-IsSound s task v =
    let e = entry s task in
    ground (arith, put-IsSound s task (record e { active = false; capabilities = 0 }) s.timestamp v)

perm_grant-IsSound :
    (s : PermState) (granter target perms : ℕ)
    → IsSound s
    → perms < 2 ^ 16
    → IsSound (perm_grant s granter target perms).1
unfolding perm_grant
perm_grant-IsSound s granter target perms v h =
    let caps = bit_or (entry s target).capabilities perms in
    let now = (s.timestamp + 1) % 2 ^ 64 in
    ground (
      arith,
      v.words target,
      bit_or-lt 16 (entry s target).capabilities perms,
      bit_or-full 16 perms,
      mask-IsSound s target caps now now v,
    )

perm_revoke-IsSound :
    (s : PermState) (revoker target perms : ℕ)
    → IsSound s
    → IsSound (perm_revoke s revoker target perms).1
unfolding perm_revoke
perm_revoke-IsSound s revoker target perms v =
    let caps = bit_and (entry s target).capabilities (complement 16 perms) in
    let now = (s.timestamp + 1) % 2 ^ 64 in
    ground (
      arith,
      v.words target,
      bit_and-le_left 16 (entry s target).capabilities (complement 16 perms),
      mask-IsSound s target caps now now v,
    )

-- The arguments of a call fit their C types.
abbrev pub Fits : Call → Type 0
Fits (create task parent perms) = perms < 2 ^ 16
Fits (destroy task) = Unit
Fits (grant granter target perms) = perms < 2 ^ 16
Fits (revoke revoker target perms) = perms < 2 ^ 16

abbrev pub AllFit : List Call → Type 0
AllFit [] = Unit
AllFit (c ∷ cs) = Fits c × AllFit cs

pub step-IsSound :
    (s : PermState) (c : Call)
    → IsSound s
    → Fits c
    → (t : Status) (s' : PermState) → step s c ≡ returned t s'
    → IsSound s'
step-IsSound s (create task parent perms) v h t s' e =
    perm_create_task-IsSound s task parent perms v h t s' e
step-IsSound s (destroy task) v h t s' e = ground (arith, perm_destroy_task-IsSound s task v)
step-IsSound s (grant granter target perms) v h t s' e =
    ground (arith, perm_grant-IsSound s granter target perms v h)
step-IsSound s (revoke revoker target perms) v h t s' e =
    ground (arith, perm_revoke-IsSound s revoker target perms v)

run-IsSound : (s : PermState) (cs : List Call) → IsSound s → AllFit cs → IsSound (run s cs)
run-IsSound s [] v h = v
run-IsSound s (c ∷ cs) v h = go (step s c) refl (λ s' w. run-IsSound s' cs w h.1)
  where
    go :
        (o : Outcome)
        → step s c ≡ o
        → ((s' : PermState) → IsSound s' → IsSound (run s' cs))
        → IsSound (elim o [ returned _ s' ↦ run s' cs | panic ↦ s ])
    go (returned t s') e rest = rest s' (step-IsSound s c v h.0 t s' e)
    go panic e rest = v

-- After any calls with arguments that fit their C types, the table has 64 entries, every
-- mask fits 16 bits, and the kernel is active with all capabilities.
pub run-init-IsSound : (cs : List Call) → AllFit cs → IsSound (run perm_init cs)
run-init-IsSound cs h = run-IsSound perm_init cs init-IsSound h
