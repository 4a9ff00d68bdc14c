-- ===== src/Scheduler/Tests.antt =====
-- Runs of kernel/scheduler.c, and its theorems at concrete states.
use ne_xs_operate_system.Base.{
  ℕ, ◌+◌, ◌≡◌, ◌≢◌, ◌⊎◌, inl, refl, none, some, [], ◌∷◌, arith, leb, if◌then◌else◌,
}
use ne_xs_operate_system.Allocator.{Allocator}
use ne_xs_operate_system.Scheduler.{
  running, ready, Scheduler, zeroed, task_at, wake, better, visit, search_loop, settle, switch_from,
  resume, scheduler_switch, get_quantum,
}
use ne_xs_operate_system.Scheduler.Create.{
  task_size, task_stack_size, started, push_words, default_perms, list_add, spawn, scheduler_init,
  task_create_full,
}
use ne_xs_operate_system.Scheduler.Frame.{IsRefused, IsSpawned, task_create_full_lem}
use ne_xs_operate_system.Scheduler.Dispatch.{CanSwitch, Dispatched}
use ne_xs_operate_system.Scheduler.Choice.{scheduler_switch_lem}
use ne_xs_operate_system.Scheduler.Invariant.{IsSafe}
use ne_xs_operate_system.Scheduler.Reach.{tick, create, unstarted, Reach, init, next, Reach-IsSafe}

-- Blocks one after another, up to the address 0x20000.
abbrev bump : Allocator
bump = record {
  Memory = ℕ;
  alloc = λ m size. if leb (m + size) 0x20000 then (some m, m + size) else (none, m);
  free = λ m a. m;
}

abbrev no_words : ℕ → ℕ
no_words a = 0

abbrev entry_at : ℕ
entry_at = 0x400

-- The kernel's task, and with it a task of priority 100 of user 2.
abbrev one_task : Scheduler
one_task = record (unstarted no_words) {
  tasks =
      record zeroed {
        state = running;
        priority = 255;
        quantum = 200;
        base_quantum = 200;
        flags = 1;
        perm_mask = 0xffff_ffff;
      }
      ∷ [];
  next_pid = 1;
  current_task = some 0;
}

abbrev two_tasks : Scheduler
two_tasks = spawn one_task 0x10050 entry_at 100 2 0

scheduler_init_run : scheduler_init bump (unstarted no_words) 0x10000 0 ≡ started one_task 0x10050
unfolding scheduler_init list_add get_quantum
scheduler_init_run = refl

task_create_full_run :
    task_create_full bump one_task 0x10000 entry_at 100 2 0 ≡ (some 1, two_tasks, 0x11050)
unfolding task_create_full
task_create_full_run = refl

abbrev switched : Scheduler
switched = record two_tasks {
  tasks =
      record (task_at two_tasks.tasks 0) {
        rsp = 0x8000;
        cpu_time = 1;
        state = ready;
        quantum = 199;
      }
      ∷ record (task_at two_tasks.tasks 1) { state = running }
      ∷ [];
  current_task = some 1;
}

-- The tick switches to the new task, whose frame of 208 bytes ends its stack.
scheduler_switch_run : scheduler_switch two_tasks 0x8000 1 ≡ resume 0x10f80 switched
unfolding scheduler_switch switch_from search_loop visit wake better settle spawn push_words
    default_perms list_add
scheduler_switch_run = refl

two_tasks-CanSwitch : CanSwitch two_tasks 0
unfolding spawn push_words default_perms list_add
two_tasks-CanSwitch = record {
  current = refl;
  in_list = omega arith;
  unlocked = refl;
  canary = inl refl;
}

scheduler_switch_lem_example :
    (chosen out : ℕ) × (s' : Scheduler) × (scheduler_switch two_tasks 0x8000 1 ≡ resume out s')
    × Dispatched two_tasks 0 0x8000 1 chosen out s'
scheduler_switch_lem_example = scheduler_switch_lem two_tasks 0 0x8000 1 two_tasks-CanSwitch

task_create_full_lem_example :
    let (place, s', _) = task_create_full bump one_task 0x10000 entry_at 100 2 0 in
    ((place ≡ none) × (s' ≡ one_task) × IsRefused bump 0x10000 entry_at)
    ⊎ ((t stack : ℕ) × (place ≡ some t)
        × (entry_at ≢ 0)
        × ((bump.alloc (bump.alloc 0x10000 task_size).1 task_stack_size).0 ≡ some stack)
        × IsSpawned one_task s' entry_at 100 2 stack t)
task_create_full_lem_example = task_create_full_lem bump one_task 0x10000 0x400 100 2 0

-- The new task runs, and a word below its stack pointer lands on the canary.
abbrev overrun : Scheduler
overrun = record switched { memory = no_words }

reached : Reach bump switched
unfolding task_create_full spawn
reached =
    next _ _
      (next _ _ (init no_words 0x10000 0x10050 0 one_task scheduler_init_run)
        (create 0x10000 entry_at 100 2 0))
      (tick 0x8000 1 0x10f80 switched scheduler_switch_run)

Reach-IsSafe_example : IsSafe switched
Reach-IsSafe_example = Reach-IsSafe bump switched reached
