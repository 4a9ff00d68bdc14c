-- ===== src/Syscalls.antt =====
-- kernel/syscall.c: the dispatcher of INT 0x80 over the other components. The state of all of them
-- is a record; `heap` is the heap of kernel/buddy.c behind the allocator. `yield` is the timer
-- interrupt, so that a call that yields says so; `syscall_init`, which prints, and the wrappers,
-- which are inline assembly, are left out. The handlers store through the pointers in the
-- registers without a check, in the one memory that holds the kernel's data too: `Layout` says what
-- a byte at an address is.
pub mod Posting
pub mod Keeping
pub mod Rights
pub mod Tests
use ne_xs_operate_system.Base.{
  ℕ, zero, suc, ◌+◌, ◌-◌, ◌/◌, ◌%◌, ◌^◌, bit_and, Bool, true, false, not, Option, none, some, List,
  [], ◌∷◌, ltb, ◌==◌, if◌then◌else◌, length,
}
use ne_xs_operate_system.Allocator.{Allocator}
use ne_xs_operate_system.CString.{text_at}
use ne_xs_operate_system.Heap.{Heap, buddy_stats}
use ne_xs_operate_system.Keyboard.{
  Keyboard, Got, keyboard_available, keyboard_getchar, char, assert_failed, waits,
}
use ne_xs_operate_system.Memory.{Mem}
use ne_xs_operate_system.Messages.{Ipc, Status, success, failure, msg_available, pointer_bytes}
use ne_xs_operate_system.Messages.Calls.{msg_send}
use ne_xs_operate_system.Scheduler.{
  Scheduler, Task, TaskState, ready, running, sleeping, waiting_msg, blocked, terminated, task_at,
  sleep_until, mark_terminated,
}
use ne_xs_operate_system.Screen.{Screen, vga_puts}
use ne_xs_operate_system.Timer.{Timer, timer_get_ns, timer_get_ms, timer_get_freq, timer_get_ticks}

abbrev pub perm_msg_send : ℕ
perm_msg_send = 0x0010

abbrev pub perm_msg_receive : ℕ
perm_msg_receive = 0x0020

-- The value -1 as 64 bits.
abbrev pub minus_one : ℕ
minus_one = 2 ^ 64 - 1

-- The registers that the dispatcher reads and writes.
pub record Frame : Type 0 where
  pub rax : ℕ
  pub rdi : ℕ
  pub rsi : ℕ
  pub rdx : ℕ

-- The calls of the table; the number 62 is reserved and has no call.
pub data SystemCall : Type 0 where
  call_read call_write call_getpid call_exit call_yield call_sleep call_msgsnd call_msgrcv :
      SystemCall
  call_uptime call_meminfo call_taskinfo call_gettime_ns call_getfreq : SystemCall

abbrev pub numbers : List (ℕ × SystemCall)
numbers =
    (0, call_read)
    ∷ (1, call_write)
    ∷ (20, call_getpid)
    ∷ (60, call_exit)
    ∷ (24, call_yield)
    ∷ (35, call_sleep)
    ∷ (71, call_msgsnd)
    ∷ (72, call_msgrcv)
    ∷ (96, call_uptime)
    ∷ (97, call_meminfo)
    ∷ (98, call_taskinfo)
    ∷ (99, call_gettime_ns)
    ∷ (100, call_getfreq)
    ∷ []

-- The `switch`; `none` is its default.
unfoldable pub call_of : List (ℕ × SystemCall) → ℕ → Option SystemCall
call_of [] num = none
call_of ((n, call) ∷ rest) num =
    let other = call_of rest num in if num == n then some call else other

-- The values of `enum task_state`
abbrev pub state_code : TaskState → ℕ
state_code ready = 0
state_code running = 1
state_code sleeping = 2
state_code waiting_msg = 3
state_code blocked = 4
state_code terminated = 5

-- The loop of `sys_taskinfo` round the tasks, with `n` to go from the place `i` on, for the place.
unfoldable pub find_pid : ℕ → List Task → ℕ → ℕ → Option ℕ
find_pid zero tasks i pid = none
find_pid (suc n) tasks i pid =
    let rest = find_pid n tasks ((i + 1) % length tasks) pid in
    if (task_at tasks i).pid == pid then some i else rest

abbrev pub status_code : Status → ℕ
status_code success = 0
status_code failure = minus_one

pub record System (M : Type 0) : Type 0 where
  pub keyboard : Keyboard
  pub screen : Screen
  pub scheduler : Scheduler
  pub ipc : Ipc M
  pub timer : Timer
  -- The bytes that are data of none of these.
  pub other_memory : Mem

-- Where the linker and the allocator have put the data of the components, as far as it shows: the
-- byte that is read at an address, and the state after a byte is stored there, which may be a byte of
-- a control block or a queue as well as one of `other_memory`. A store keeps the places of the tasks
-- in their ring; pointers do not wrap.
pub record Layout (M : Type 0) : Type 0 where
  pub peek : System M → ℕ → ℕ
  pub poke : System M → ℕ → ℕ → System M

-- What a call comes to: it returns, it yields and returns when its task runs again, it has ended
-- its task, it waits for a key, the `ASSERT` of `keyboard_getchar` fails, or the fuel for a string
-- was too little.
pub data SystemOutcome (M : Type 0) : Type 0 where
  returns : ℕ → System M → SystemOutcome M
  yields : ℕ → System M → SystemOutcome M
  ends : System M → SystemOutcome M
  waits_for_key : System M → SystemOutcome M
  panics : SystemOutcome M
  out_of_fuel : SystemOutcome M

module _ {M : Type 0} where
  abbrev pub sys_getpid : System M → ℕ
  sys_getpid s = elim s.scheduler.current_task [
    | none ↦ 0
    | some c ↦ (task_at s.scheduler.tasks c).pid
  ]

  -- `sleep` yields if there is a task to put to sleep.
  abbrev pub yield_if : Option ℕ → System M → SystemOutcome M
  yield_if none s = returns 0 s
  yield_if (some c) s = yields 0 s

  abbrev pub sys_sleep : ℕ → System M → SystemOutcome M
  sys_sleep ms s =
      yield_if s.scheduler.current_task
        (record s { scheduler = sleep_until s.scheduler ms (timer_get_ticks s.timer) })

  -- Whether there is a current task with the right.
  unfoldable pub has_right : ℕ → System M → Bool
  has_right right s = elim s.scheduler.current_task [
    | none ↦ false
    | some c ↦ not (bit_and (task_at s.scheduler.tasks c).perm_mask right == 0)
  ]

  unfoldable pub sys_msgrcv : ℕ → System M → SystemOutcome M
  sys_msgrcv task_id s =
      if has_right perm_msg_receive s
      then returns (if msg_available task_id s.ipc then 1 else 0) s
      else returns minus_one s

  abbrev pub sys_uptime : ℕ → System M → SystemOutcome M
  sys_uptime now s = returns (timer_get_ms s.timer now) s

  abbrev pub sys_yield : System M → SystemOutcome M
  sys_yield s = yields 0 s

  abbrev pub sys_exit : System M → SystemOutcome M
  sys_exit s = ends (record s { scheduler = mark_terminated s.scheduler })

  abbrev pub sys_gettime_ns : ℕ → System M → SystemOutcome M
  sys_gettime_ns now s = returns (timer_get_ns s.timer now) s

  abbrev pub sys_getfreq : System M → SystemOutcome M
  sys_getfreq s = returns (timer_get_freq s.timer) s

-- The handlers with a pointer.
module _ {M : Type 0} (L : Layout M) where
  open L use {peek, poke}

  abbrev pub poke_bytes : System M → ℕ → List ℕ → System M
  poke_bytes s p [] = s
  poke_bytes s p (b ∷ bs) = poke_bytes (poke s p b) (p + 1) bs

  abbrev pub write_text : System M → Option (List ℕ) → SystemOutcome M
  write_text s none = out_of_fuel
  write_text s (some bs) = returns 0 (record s { screen = vga_puts bs s.screen })

  -- The whole string is read before the first character is drawn: it stands in no cell of the
  -- screen and not in the cursor.
  abbrev pub sys_write : ℕ → ℕ → System M → SystemOutcome M
  sys_write fuel buf s =
      if buf == 0 then returns minus_one s else write_text s (text_at fuel (peek s) buf)

  abbrev pub read_key : ℕ → System M → Got → SystemOutcome M
  read_key buf s (char c k pending) = returns 1 (poke (record s { keyboard = k }) buf c)
  read_key buf s assert_failed = panics
  read_key buf s (waits k) = waits_for_key (record s { keyboard = k })

  abbrev pub sys_read : ℕ → System M → SystemOutcome M
  sys_read buf s =
      if buf == 0
      then returns minus_one s
      else if not (keyboard_available s.keyboard)
      then returns 0 s
      else read_key buf s (keyboard_getchar s.keyboard [])

  -- `if (state) *state = t->state;` for the task at the place `i`
  abbrev pub store_state : ℕ → ℕ → System M → System M
  store_state state i s =
      let code = state_code (task_at s.scheduler.tasks i).state in
      if state == 0 then s else poke_bytes s state (pointer_bytes 4 code)

  -- `if (priority) *priority = t->priority;`
  abbrev pub store_priority : ℕ → ℕ → System M → System M
  store_priority priority i s =
      if priority == 0 then s else poke s priority ((task_at s.scheduler.tasks i).priority % 256)

  abbrev pub report : ℕ → ℕ → System M → Option ℕ → SystemOutcome M
  report state priority s none = returns minus_one s
  report state priority s (some i) = returns 0 (store_priority priority i (store_state state i s))

  abbrev pub info_from : Option ℕ → ℕ → ℕ → ℕ → System M → SystemOutcome M
  info_from none pid state priority s = returns minus_one s
  info_from (some c) pid state priority s =
      report state priority s (find_pid (length s.scheduler.tasks) s.scheduler.tasks c pid)

  abbrev pub sys_taskinfo : ℕ → ℕ → ℕ → System M → SystemOutcome M
  sys_taskinfo pid state priority s = info_from s.scheduler.current_task pid state priority s

  -- An assignment of `buddy_stats`, which passes over a null pointer.
  abbrev pub store_size : ℕ → ℕ → System M → System M
  store_size p v s = if p == 0 then s else poke_bytes s p (pointer_bytes 8 v)

module _ (A : Allocator) (heap : A.Memory → Heap) where
  open A use {Memory}

  unfoldable pub sys_msgsnd : ℕ → ℕ → ℕ → System Memory → SystemOutcome Memory
  sys_msgsnd dest kind data_ s =
      let now = timer_get_ticks s.timer in
      let (status, ipc') =
        msg_send A (sys_getpid s) dest kind (some (pointer_bytes 8 data_)) 8 now s.ipc in
      if has_right perm_msg_send s
      then returns (status_code status) (record s { ipc = ipc' })
      else returns minus_one s

module _ (A : Allocator) (heap : A.Memory → Heap) (L : Layout A.Memory) where
  open A use {Memory}

  abbrev pub sys_meminfo : ℕ → ℕ → ℕ → System Memory → SystemOutcome Memory
  sys_meminfo total used free_mem s =
      let s₁ = store_size L total (buddy_stats (heap s.ipc.heap)).0 s in
      let s₂ = store_size L used (buddy_stats (heap s₁.ipc.heap)).1 s₁ in
      returns 0 (store_size L free_mem (buddy_stats (heap s₂.ipc.heap)).2 s₂)

  -- One call, with the registers; `now` is what `rdtsc` gives and the fuel is for a string.
  unfoldable pub perform : SystemCall → ℕ → ℕ → Frame → System Memory → SystemOutcome Memory
  perform call_read fuel now f s = sys_read L f.rsi s
  perform call_write fuel now f s = sys_write L fuel f.rsi s
  perform call_getpid fuel now f s = returns (sys_getpid s) s
  perform call_exit fuel now f s = sys_exit s
  perform call_yield fuel now f s = sys_yield s
  perform call_sleep fuel now f s = sys_sleep f.rdi s
  perform call_msgsnd fuel now f s = sys_msgsnd A heap (f.rdi % 2 ^ 32) (f.rsi % 2 ^ 32) f.rdx s
  perform call_msgrcv fuel now f s = sys_msgrcv (f.rdi % 2 ^ 32) s
  perform call_uptime fuel now f s = sys_uptime now s
  perform call_meminfo fuel now f s = sys_meminfo f.rdi f.rsi f.rdx s
  perform call_taskinfo fuel now f s = sys_taskinfo L (f.rdi % 2 ^ 32) f.rsi f.rdx s
  perform call_gettime_ns fuel now f s = sys_gettime_ns now s
  perform call_getfreq fuel now f s = sys_getfreq s

  abbrev pub perform_if : Option SystemCall → ℕ → ℕ → Frame → System Memory → SystemOutcome Memory
  perform_if none fuel now f s = returns minus_one s
  perform_if (some call) fuel now f s = perform call fuel now f s

  -- The result that the `switch` comes to.
  unfoldable pub outcome_of : ℕ → ℕ → Frame → System Memory → SystemOutcome Memory
  outcome_of fuel now f s = perform_if (call_of numbers f.rax) fuel now f s

  -- The value that `frame->rax` is set to, if the handler returns.
  unfoldable pub syscall_handler : ℕ → ℕ → Frame → System Memory → Option ℕ × SystemOutcome Memory
  syscall_handler fuel now f s =
      let outcome = outcome_of fuel now f s in
      (
        elim outcome [
          | returns ret s' ↦ some ret
          | yields ret s' ↦ some ret
          | ends s' ↦ none
          | waits_for_key s' ↦ none
          | panics ↦ none
          | out_of_fuel ↦ none
        ],
        outcome,
      )
