-- ===== src/Syscalls/Keeping.antt =====
-- That a system call of kernel/syscall.c changes no queue and no rights: what this says, and the
-- calls without a pointer.
use ne_xs_operate_system.Base.{
  ℕ, zero, suc, ◌≡◌, refl, ap, Option, none, some, List, [], ◌∷◌, Bool-cases, inl, inr, set,
}
use ne_xs_operate_system.Scheduler.{Scheduler, Task, task_at, sleep_until, mark_terminated}
use ne_xs_operate_system.Syscalls.{
  System, SystemOutcome, returns, yields, ends, waits_for_key, panics, out_of_fuel, has_right,
  perm_msg_receive, minus_one, sys_msgrcv, yield_if,
}

abbrev pub mask_at : List Task → ℕ → ℕ
mask_at tasks i = (task_at tasks i).perm_mask

-- A change of one task that keeps its mask.
mask_at-set :
    (tasks : List Task) (c i : ℕ) (t : Task)
    → t.perm_mask ≡ mask_at tasks c
    → mask_at (set tasks c t) i ≡ mask_at tasks i
mask_at-set [] c i t e = refl
mask_at-set (x ∷ tasks) zero zero t e = e
mask_at-set (x ∷ tasks) zero (suc i) t e = refl
mask_at-set (x ∷ tasks) (suc c) zero t e = refl
mask_at-set (x ∷ tasks) (suc c) (suc i) t e = mask_at-set tasks c i t e

pub sys_sleep-masks :
    (x : Scheduler) (ms now i : ℕ) → mask_at (sleep_until x ms now).tasks i ≡ mask_at x.tasks i
unfolding sleep_until
sys_sleep-masks x ms now i = by_task x.current_task refl
  where
    by_task :
        (c : Option ℕ)
        → x.current_task ≡ c
        → mask_at (sleep_until x ms now).tasks i ≡ mask_at x.tasks i
    by_task none e = rw (sleep_until, e) refl
    by_task (some c) e = rw (sleep_until, e) (mask_at-set x.tasks c i _ refl)

pub exit-masks : (x : Scheduler) (i : ℕ) → mask_at (mark_terminated x).tasks i ≡ mask_at x.tasks i
unfolding mark_terminated
exit-masks x i = by_task x.current_task refl
  where
    by_task :
        (c : Option ℕ)
        → x.current_task ≡ c
        → mask_at (mark_terminated x).tasks i ≡ mask_at x.tasks i
    by_task none e = rw (mark_terminated, e) refl
    by_task (some c) e = rw (mark_terminated, e) (mask_at-set x.tasks c i _ refl)

module _ {M : Type 0} where
  -- The queues are the same, and every task has the rights that it had.
  pub record Keeps (s s' : System M) : Type 0 where
    pub queues : s'.ipc ≡ s.ipc
    pub masks : (i : ℕ) → mask_at s'.scheduler.tasks i ≡ mask_at s.scheduler.tasks i

  pub data Kept (s : System M) : SystemOutcome M → Type 0 where
    kept_returns : (ret : ℕ) (s' : System M) → Keeps s s' → Kept s (returns ret s')
    kept_yields : (ret : ℕ) (s' : System M) → Keeps s s' → Kept s (yields ret s')
    kept_ends : (s' : System M) → Keeps s s' → Kept s (ends s')
    kept_waits : (s' : System M) → Keeps s s' → Kept s (waits_for_key s')
    kept_panics : Kept s panics
    kept_fuel : Kept s out_of_fuel

  pub Keeps-same : (s s' : System M) → s'.ipc ≡ s.ipc → s'.scheduler ≡ s.scheduler → Keeps s s'
  Keeps-same s s' ipc scheduler = record {
    queues = ipc;
    masks = λ i. ap (λ x. mask_at x.tasks i) scheduler;
  }

  pub same-Kept : (ret : ℕ) (s : System M) → Kept s (returns ret s)
  same-Kept ret s = kept_returns ret s (Keeps-same s s refl refl)

  pub sys_msgrcv-Kept : (task_id : ℕ) (s : System M) → Kept s (sys_msgrcv task_id s)
  unfolding sys_msgrcv
  sys_msgrcv-Kept task_id s = elim (Bool-cases (has_right perm_msg_receive s)) [
    | inl held ↦ rw (sys_msgrcv, held) (same-Kept _ s)
    | inr missing ↦ rw (sys_msgrcv, missing) (same-Kept minus_one s)
  ]

  pub yield_if-Kept : (c : Option ℕ) (s s' : System M) → Keeps s s' → Kept s (yield_if c s')
  yield_if-Kept none s s' k = kept_returns 0 s' k
  yield_if-Kept (some c) s s' k = kept_yields 0 s' k
