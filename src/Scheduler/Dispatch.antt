-- ===== src/Scheduler/Dispatch.antt =====
-- What `scheduler_switch` of kernel/scheduler.c promises.
use ne_xs_operate_system.Base.{
  ℕ, ◌+◌, ◌%◌, ◌≤◌, ◌<◌, ◌≡◌, ◌≢◌, ◌⊎◌, Bool, true, false, some, List, length, set,
}
use ne_xs_operate_system.Scheduler.{
  running, Task, Scheduler, task_at, stack_magic, is_running, is_runnable, wake, charge, spend,
}
use ne_xs_operate_system.Scheduler.Scan.{IsFirstBest}

-- A current task is set, the lock is free, and the canary of its stack is intact.
pub record CanSwitch (s : Scheduler) (c : ℕ) : Type 0 where
  pub current : s.current_task ≡ some c
  pub in_list : c < length s.tasks
  pub unlocked : s.sched_lock ≡ false
  pub canary :
      ((task_at s.tasks c).stack_base ≡ 0) ⊎ (s.memory (task_at s.tasks c).stack_base ≡ stack_magic)

-- The tasks with the tick charged to the current one, and each of them after its wake-up.
abbrev pub ticked : Scheduler → ℕ → ℕ → List Task
ticked s c rsp = set s.tasks c (spend (charge (task_at s.tasks c) rsp))

abbrev pub woken : Scheduler → ℕ → ℕ → ℕ → ℕ → Task
woken s c rsp now i = wake now (task_at (ticked s c rsp) i)

abbrev pub after_current : Scheduler → ℕ → ℕ
after_current s c = (c + 1) % length s.tasks

abbrev pub can_run : Scheduler → ℕ → ℕ → ℕ → ℕ → Bool
can_run s c rsp now i = is_runnable (woken s c rsp now i).state

-- `chosen` has the processor in `s'`, to be resumed at `out`, after a tick in which `c` had it in `s`.
pub record Dispatched (s : Scheduler) (c rsp now chosen out : ℕ) (s' : Scheduler) : Type 0 where
  pub is_current : s'.current_task ≡ some chosen
  pub in_list : chosen < length s.tasks
  pub sized : length s'.tasks ≡ length s.tasks
  pub unlocked : s'.sched_lock ≡ false
  pub resumed : out ≡ (task_at s'.tasks chosen).rsp
  -- Some task can run: then the chosen one can, and no other is more urgent.
  pub urgent :
      (i : ℕ)
      → i < length s.tasks
      → can_run s c rsp now i ≡ true
      → (can_run s c rsp now chosen ≡ true)
        × ((woken s c rsp now chosen).priority ≤ (woken s c rsp now i).priority)
  -- A switch goes to the first of the best in ring order, which runs with a full quantum.
  pub switched :
      chosen ≢ c
      → IsFirstBest (length s.tasks) (after_current s c) (woken s c rsp now) (length s.tasks) chosen
        × ((task_at s'.tasks chosen).state ≡ running)
        × ((task_at s'.tasks chosen).quantum ≡ (woken s c rsp now chosen).base_quantum)
        × (is_running (task_at s'.tasks c).state ≡ false)
  -- The current task goes on only with a quantum left or if every other is less urgent.
  pub kept :
      chosen ≡ c
      → (0 < (woken s c rsp now c).quantum)
        ⊎ ((i : ℕ)
            → i < length s.tasks
            → i ≢ c
            → can_run s c rsp now i ≡ true
            → (woken s c rsp now c).priority < (woken s c rsp now i).priority)
  -- No other task changes but by its wake-up.
  pub others :
      (i : ℕ) → i < length s.tasks → i ≢ c → i ≢ chosen → task_at s'.tasks i ≡ woken s c rsp now i
