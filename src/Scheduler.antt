-- ===== src/Scheduler.antt =====
-- kernel/scheduler.c and kernel/process.h: task control blocks and the choice of the next task.
-- The circular list that starts at `task_list` is a list of tasks in ring order; a task pointer
-- is its place in that list. `memory` holds the 64-bit words of the task stacks, and of all else that
-- is no control block and no static variable of the file, by address; the program has all of these
-- in one memory, so that a stray pointer of a task could reach the others too.
pub mod Create
pub mod Pushes
pub mod Frame
pub mod Scan
pub mod Dispatch
pub mod Choice
pub mod Invariant
pub mod Reach
pub mod Tests
use ne_xs_operate_system.Base.{
  ℕ, zero, suc, ◌+◌, ◌-◌, ◌/◌, ◌%◌, ◌^◌, ◌≤◌, ◌<◌, ◌≡◌, Bool, true, false, not, ◌&&◌, ◌||◌, Option,
  none, some, List, [], ◌∷◌, ltb, leb, ◌==◌, if◌then◌else◌, length, get_or, set,
}

-- `enum task_state`
pub data TaskState : Type 0 where
  ready running sleeping waiting_msg blocked terminated : TaskState

-- `struct task`, less `cr3`, which nothing reads, and `next`
pub record Task : Type 0 where
  pub rsp : ℕ
  pub pid : ℕ
  pub state : TaskState
  pub uid : ℕ
  pub gid : ℕ
  pub priority : ℕ
  pub flags : ℕ
  pub quantum : ℕ
  pub base_quantum : ℕ
  pub sleep_expiry : ℕ
  pub cpu_time : ℕ
  pub start_time : ℕ
  pub stack_base : ℕ
  pub perm_mask : ℕ

-- The static variables of the file, with `current_task`.
pub record Scheduler : Type 0 where
  pub tasks : List Task
  pub current_task : Option ℕ
  pub next_pid : ℕ
  pub sched_lock : Bool
  pub memory : ℕ → ℕ

-- `memset(t, 0, sizeof(struct task))`; TASK_READY is 0.
abbrev pub zeroed : Task
zeroed = record {
  rsp = 0;
  pid = 0;
  state = ready;
  uid = 0;
  gid = 0;
  priority = 0;
  flags = 0;
  quantum = 0;
  base_quantum = 0;
  sleep_expiry = 0;
  cpu_time = 0;
  start_time = 0;
  stack_base = 0;
  perm_mask = 0;
}

abbrev pub task_at : List Task → ℕ → Task
task_at ts i = get_or ts i zeroed

abbrev pub stack_magic : ℕ
stack_magic = 0xdeadcafebabebeef

abbrev pub quantum_table : List ℕ
quantum_table = 1 ∷ 5 ∷ 10 ∷ 20 ∷ 50 ∷ 75 ∷ 100 ∷ 200 ∷ []

-- `quantum_table[priority >> 5]`
pub get_quantum : ℕ → ℕ
get_quantum priority = get_or quantum_table (priority / 2 ^ 5) 0

abbrev pub is_sleeping : TaskState → Bool
is_sleeping sleeping = true
is_sleeping _ = false

abbrev pub is_running : TaskState → Bool
is_running running = true
is_running _ = false

-- `t->state == TASK_READY || t->state == TASK_RUNNING`
abbrev pub is_runnable : TaskState → Bool
is_runnable ready = true
is_runnable running = true
is_runnable _ = false

-- The first test of the loop of `scheduler_switch`: a sleeper whose time has come is ready.
unfoldable pub wake : ℕ → Task → Task
wake now t =
    if is_sleeping t.state && leb t.sleep_expiry now
    then record t { state = ready; quantum = t.base_quantum }
    else t

-- The second: `!best || t->priority < best->priority` for a runnable task.
unfoldable pub better : List Task → Option ℕ → ℕ → Option ℕ
better ts none t = if is_runnable (task_at ts t).state then some t else none
better ts (some best) t =
    if is_runnable (task_at ts t).state && ltb (task_at ts t).priority (task_at ts best).priority
    then some t
    else some best

-- The loop's variables: the tasks, as the wake-ups leave them, and `best`.
pub record Search : Type 0 where
  pub seen : List Task
  pub best : Option ℕ

-- One round of the loop, at task `t`.
unfoldable pub visit : ℕ → Search → ℕ → Search
visit now s t =
    let ts = set s.seen t (wake now (task_at s.seen t)) in
    record { seen = ts; best = better ts s.best t }

-- `do { … t = t->next; } while (t != current_task->next)` on fuel; `none` means that it ran out.
unfoldable pub search_loop : ℕ → ℕ → ℕ → ℕ → Search → ℕ → Option Search
search_loop zero n now start s t = none
search_loop (suc fuel) n now start s t =
    let s' = visit now s t in
    let t' = (t + 1) % n in
    let rest = search_loop fuel n now start s' t' in if t' == start then some s' else rest

-- What `scheduler_switch` comes to: the stack pointer that it returns, or `PANIC`.
pub data Switched : Type 0 where
  resume : ℕ → Scheduler → Switched
  stack_overflow : Scheduler → Switched
  out_of_fuel : Switched

-- The first part: account the tick to the task that was interrupted.
abbrev pub charge : Task → ℕ → Task
charge t rsp = record t { rsp = rsp; cpu_time = (t.cpu_time + 1) % 2 ^ 64 }

abbrev pub spend : Task → Task
spend t = record t { quantum = t.quantum - 1 }

-- `!best || current_task->priority <= best->priority`
abbrev no_better : List Task → ℕ → Option ℕ → Bool
no_better ts c none = true
no_better ts c (some b) = leb (task_at ts c).priority (task_at ts b).priority

-- `if (!best) best = current_task;`
abbrev or_current : ℕ → Option ℕ → ℕ
or_current c none = c
or_current c (some b) = b

-- The last part: keep the current task, or switch to `best`.
unfoldable pub settle : Scheduler → ℕ → ℕ → Search → Switched
settle s c rsp found =
    let ts = found.seen in
    let cur = task_at ts c in
    let best = or_current c found.best in
    if (is_running cur.state && ltb 0 cur.quantum) && no_better ts c found.best
    then resume rsp (record s { tasks = ts })
    else if best == c
    then resume cur.rsp (record s { tasks = ts })
    else let paused =
        (if is_running cur.state then set ts c (record cur { state = ready }) else ts) in
      let next = task_at paused best in
      let resumed = record next { state = running; quantum = next.base_quantum } in
      resume resumed.rsp (record s { tasks = set paused best resumed; current_task = some best })

-- The body once the lock is taken; on every way out the lock is released again.
unfoldable pub switch_from : Scheduler → ℕ → ℕ → ℕ → Switched
switch_from s c rsp now =
    let n = length s.tasks in
    let charged = charge (task_at s.tasks c) rsp in
    let start = (c + 1) % n in
    let ts = set s.tasks c (spend charged) in
    let s' = record s { tasks = ts } in
    if not (charged.stack_base == 0) && not (s.memory charged.stack_base == stack_magic)
    then stack_overflow (record s { tasks = set s.tasks c charged })
    else elim (search_loop n n now start (record { seen = ts; best = none }) start) [
      | none ↦ out_of_fuel
      | some found ↦ settle s' c rsp found
    ]

-- `now` is what `get_timer_ticks()` gives.
pub scheduler_switch : Scheduler → ℕ → ℕ → Switched
scheduler_switch s rsp now = elim s.current_task [
  | none ↦ resume rsp s
  | some c ↦ if s.sched_lock then resume rsp s else switch_from s c rsp now
]

-- `task_set_priority` and the other accessors; `none` is the null pointer.
pub task_set_priority : Scheduler → Option ℕ → ℕ → Scheduler
task_set_priority s none p = s
task_set_priority s (some t) p =
    let x = task_at s.tasks t in
    record s { tasks = set s.tasks t (record x { priority = p; base_quantum = get_quantum p }) }

pub task_get_priority : Scheduler → Option ℕ → ℕ
task_get_priority s none = 255
task_get_priority s (some t) = (task_at s.tasks t).priority

pub task_set_uid : Scheduler → Option ℕ → ℕ → Scheduler
task_set_uid s none uid = s
task_set_uid s (some t) uid =
    let x = task_at s.tasks t in record s { tasks = set s.tasks t (record x { uid = uid }) }

pub task_get_uid : Scheduler → Option ℕ → ℕ
task_get_uid s none = 2
task_get_uid s (some t) = (task_at s.tasks t).uid

-- The part of `sleep` before its `yield`.
unfoldable pub sleep_until : Scheduler → ℕ → ℕ → Scheduler
sleep_until s ms now = elim s.current_task [
  | none ↦ s
  | some c ↦
      let x = task_at s.tasks c in
      record s {
        tasks = set s.tasks c (record x { state = sleeping; sleep_expiry = (now + ms) % 2 ^ 64 });
      }
]

-- The part of `exit` before its `yield`.
unfoldable pub mark_terminated : Scheduler → Scheduler
mark_terminated s = elim s.current_task [
  | none ↦ s
  | some c ↦
      let x = task_at s.tasks c in
      record s { tasks = set s.tasks c (record x { state = terminated }) }
]
