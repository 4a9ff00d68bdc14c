-- ===== src/Permissions/Tests.antt =====
-- Runs of permissions.c, and its theorems at concrete states.
use ne_xs_operate_system.Base.{
  ℕ, ◌≡◌, ◌<◌, ◌≤◌, ◌↔◌, ◌⊎◌, refl, bit_and, true, false, List, [], ◌∷◌, arith,
}
use ne_xs_operate_system.Permissions.{
  PermState, entry, max_tasks, perm_perm_grant, perm_task_create, perm_kernel_mode, administrative,
  granted, denied, returned, panic, perm_init, perm_check, perm_inherit, perm_create_task,
  perm_grant, perm_revoke, perm_get, Call, create, grant, revoke, run,
}
use ne_xs_operate_system.Permissions.Invariant.{IsSound, run-init-IsSound}
use ne_xs_operate_system.Permissions.Rights.{perm_grant-granted_iff, perm_revoke_effect}
use ne_xs_operate_system.Permissions.Creation.{
  perm_create_task_cases, perm_create_task_effect, perm_create_task_escalates,
}

-- The demonstration task of `kernel_main`, given PERM_TASK_CREATE besides, and a child of it.
abbrev calls : List Call
calls = create 1 0 0x2133 ∷ create 2 1 0x0001 ∷ grant 0 2 0x0400 ∷ revoke 0 2 0x0001 ∷ []

abbrev one_task : PermState
one_task = run perm_init (create 1 0 0x2133 ∷ [])

after_calls :
    (perm_get (run perm_init calls) 1 ≡ 0xe3ff)
    × (perm_get (run perm_init calls) 2 ≡ 0xe7fe)
    × (perm_check (run perm_init calls) 2 perm_kernel_mode ≡ false)
unfolding perm_init perm_check perm_inherit perm_create_task perm_grant perm_revoke perm_get
after_calls = (refl, refl, refl)

run-init-IsSound_example : IsSound (run perm_init calls)
run-init-IsSound_example = run-init-IsSound calls (omega arith)

one_task-IsSound : IsSound one_task
one_task-IsSound = run-init-IsSound (create 1 0 0x2133 ∷ []) (omega arith)

perm_grant-granted_iff_example :
    (((perm_grant one_task 1 0 1).0 ≡ granted) ↔ (
      (perm_check one_task 1 perm_perm_grant ≡ true)
      × (0 < max_tasks)
      × ((entry one_task 0).active ≡ true)))
    × ((perm_grant one_task 1 0 1 ≡ (denied, one_task)) ⊎ ((perm_grant one_task 1 0 1).0 ≡ granted))
perm_grant-granted_iff_example = perm_grant-granted_iff one_task 1 0 1

perm_revoke_effect_example : perm_check (perm_revoke one_task 0 1 0x0003).1 1 0x0001 ≡ false
unfolding perm_init perm_check perm_inherit perm_create_task perm_revoke
perm_revoke_effect_example =
    perm_revoke_effect one_task 0 1 0x0003 0x0001 one_task-IsSound (omega arith) (omega arith) refl
      (omega arith) refl

perm_create_task_cases_example :
    let s = one_task in
    ((perm_create_task s 2 1 7 ≡ panic) ↔ ((max_tasks ≤ 2) ⊎ (max_tasks ≤ 1)))
    × (((s' : PermState) × (perm_create_task s 2 1 7 ≡ returned granted s')) ↔ (
        (2 < max_tasks) × (perm_check s 1 perm_task_create ≡ true) × ((entry s 2).active ≡ false)))
    × ((perm_create_task s 2 1 7 ≡ returned denied s) ↔ (
        (2 < max_tasks)
        × (1 < max_tasks)
        × ((perm_check s 1 perm_task_create ≡ false) ⊎ ((entry s 2).active ≡ true))))
perm_create_task_cases_example = perm_create_task_cases one_task 2 1 7

abbrev two_tasks : PermState
two_tasks = run one_task (create 2 1 7 ∷ [])

perm_create_task_effect_example :
    (bit_and (entry two_tasks 2).capabilities administrative ≡ bit_and 7 administrative)
    × (perm_check two_tasks 2 7 ≡ true)
    × ((entry two_tasks 2).active ≡ true)
    × ((entry two_tasks 2).parent_id ≡ 1)
    × (perm_check two_tasks 0 1 ≡ perm_check one_task 0 1)
unfolding perm_init perm_check perm_inherit perm_create_task
perm_create_task_effect_example =
    perm_create_task_effect one_task two_tasks 2 1 7 0 1 one_task-IsSound (omega arith)
      (omega arith) refl

perm_create_task_escalates_example :
    (s' : PermState) × (perm_create_task one_task 2 1 perm_kernel_mode ≡ returned granted s')
    × ((q : ℕ) → perm_check s' 2 q ≡ true)
unfolding perm_init perm_check perm_inherit perm_create_task
perm_create_task_escalates_example =
    perm_create_task_escalates one_task 2 1 one_task-IsSound (omega arith) refl refl
