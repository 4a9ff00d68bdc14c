-- ===== src/Scheduler/Frame.antt =====
-- What a successful `task_create_full` leaves: the new task, its stack and its first frame.
use mathlib.Core.Path.{subst}
use ne_xs_operate_system.Base.{
  ℕ, zero, suc, ◌+◌, ◌-◌, ◌*◌, ◌^◌, ◌%◌, ◌≤◌, ◌<◌, ◌≡◌, ◌≢◌, ◌⊎◌, inl, inr, refl, sym, ap, ◌∙◌,
  none, some, [], ◌∷◌, arith, ◌==◌, Bool-cases, Option-cases, length, get_or,
}
use ne_xs_operate_system.Allocator.{Allocator}
use ne_xs_operate_system.Scheduler.{
  Task, ready, Scheduler, zeroed, task_at, stack_magic, get_quantum,
}
use ne_xs_operate_system.Scheduler.Create.{
  task_size, task_stack_size, store, push_words, frame_words, default_perms, list_add, spawn,
  task_create_full,
}
use ne_xs_operate_system.Scheduler.Pushes.{
  Pushed, push_words-Pushed, get_or-zeros, task_at-list_add_last, task_at-list_add, length-list_add,
}

-- The permission mask and the flags of a new task: of the kernel, of an administrator, of a user.
pub data Defaults : ℕ → ℕ → ℕ → Type 0 where
  kernel : Defaults 0 0xffff_ffff 0x01
  administrator : Defaults 1 0xffff_fffe 0x02
  user : (uid : ℕ) → 2 ≤ uid → Defaults uid 0x0000_ffff 0

default_perms-Defaults : (uid : ℕ) → Defaults uid (default_perms uid).0 (default_perms uid).1
unfolding default_perms
default_perms-Defaults zero = kernel
default_perms-Defaults (suc zero) = administrator
default_perms-Defaults (suc (suc uid)) = user (suc (suc uid)) (omega arith)

-- The task at place `t` of `s'` is new, with its first frame in the order of
-- `struct interrupt_frame`: segments, registers with the numbers of the interrupt, RIP, CS, RFLAGS,
-- RSP, SS.
pub record IsSpawned (s s' : Scheduler) (entry priority uid stack t : ℕ) : Type 0 where
  pub place : t ≡ length s.tasks
  pub grown : length s'.tasks ≡ t + 1
  pub older : (i : ℕ) → i < t → task_at s'.tasks i ≡ task_at s.tasks i
  pub is_ready : (task_at s'.tasks t).state ≡ ready
  pub pid : (task_at s'.tasks t).pid ≡ s.next_pid
  pub full : (task_at s'.tasks t).quantum ≡ (task_at s'.tasks t).base_quantum
  pub level : ((task_at s'.tasks t).priority ≡ priority) × ((task_at s'.tasks t).uid ≡ uid)
  pub next : s'.next_pid ≡ (s.next_pid + 1) % 2 ^ 32
  pub rights : Defaults uid (task_at s'.tasks t).perm_mask (task_at s'.tasks t).flags
  pub base : (task_at s'.tasks t).stack_base ≡ stack
  -- The canary is in place, and the frame of 26 words fills the top of the stack.
  pub canary : s'.memory stack ≡ stack_magic
  pub frame_top : (task_at s'.tasks t).rsp + 208 ≡ stack + task_stack_size
  pub segments : (i : ℕ) → i < 4 → s'.memory ((task_at s'.tasks t).rsp + 8 * i) ≡ 0x10
  pub registers : (i : ℕ) → 4 ≤ i → i < 21 → s'.memory ((task_at s'.tasks t).rsp + 8 * i) ≡ 0
  pub rip : s'.memory ((task_at s'.tasks t).rsp + 168) ≡ entry
  pub code_segment : s'.memory ((task_at s'.tasks t).rsp + 176) ≡ 0x08
  pub interrupts_on : s'.memory ((task_at s'.tasks t).rsp + 184) ≡ 0x202
  pub stack_pointer : s'.memory ((task_at s'.tasks t).rsp + 192) ≡ stack + task_stack_size - 8
  pub stack_segment : s'.memory ((task_at s'.tasks t).rsp + 200) ≡ 0x10
  pub current : s'.current_task ≡ s.current_task
  pub lock : s'.sched_lock ≡ s.sched_lock
  -- No word of `memory` outside the stack changes.
  pub elsewhere : (a : ℕ) → (a < stack) ⊎ (stack + task_stack_size ≤ a) → s'.memory a ≡ s.memory a

module _ (s : Scheduler) (stack entry priority uid now : ℕ) where
  abbrev top : ℕ
  top = stack + task_stack_size

  abbrev pushed : ℕ × (ℕ → ℕ)
  pushed = push_words (frame_words top entry) top (store s.memory stack stack_magic)

  abbrev new_task : Task
  new_task = record zeroed {
    rsp = pushed.0;
    stack_base = stack;
    pid = s.next_pid;
    state = ready;
    uid = uid;
    gid = uid;
    priority = priority;
    quantum = get_quantum priority;
    base_quantum = get_quantum priority;
    start_time = now;
    perm_mask = (default_perms uid).0;
    flags = (default_perms uid).1;
  }

  frame_pushed : Pushed (frame_words top entry) top (store s.memory stack stack_magic) pushed
  frame_pushed =
      push_words-Pushed (frame_words top entry) top (store s.memory stack stack_magic) (omega arith)

  last : task_at (list_add s.tasks new_task) (length s.tasks) ≡ new_task
  last = task_at-list_add_last s.tasks new_task

  -- The word `i` of the frame from its lower end, which is where the task's stack pointer points.
  frame-word :
      (i j a : ℕ)
      → i + j ≡ 25
      → a ≡ 8 * i
      → pushed.1 ((task_at (list_add s.tasks new_task) (length s.tasks)).rsp + a)
        ≡ get_or (frame_words top entry) j 0
  frame-word i j a e d =
      let f = frame_pushed in
      let place : pushed.0 + a ≡ top - 8 * (j + 1) = omega (arith, f.pointer, e, d) in
      ap (λ (t : Task). pushed.1 (t.rsp + a)) last
      ∙ ap pushed.1 place
      ∙ f.words j (omega (arith, e))

  frame-segments :
      (i : ℕ)
      → i < 4
      → pushed.1 ((task_at (list_add s.tasks new_task) (length s.tasks)).rsp + 8 * i) ≡ 0x10
  frame-segments zero h = frame-word 0 25 0 refl refl
  frame-segments (suc zero) h = frame-word 1 24 8 refl refl
  frame-segments (suc (suc zero)) h = frame-word 2 23 16 refl refl
  frame-segments (suc (suc (suc zero))) h = frame-word 3 22 24 refl refl
  frame-segments (suc (suc (suc (suc i)))) h = absurd (omega arith)

  frame-registers :
      (i : ℕ)
      → 4 ≤ i
      → i < 21
      → pushed.1 ((task_at (list_add s.tasks new_task) (length s.tasks)).rsp + 8 * i) ≡ 0
  frame-registers i low high =
      frame-word i (suc (suc (suc (suc (suc (20 - i)))))) (8 * i) (omega arith) refl
      ∙ get_or-zeros 17 (20 - i) (0x10 ∷ 0x10 ∷ 0x10 ∷ 0x10 ∷ []) (omega arith)

  spawn_lem : spawn s stack entry priority uid now ≡ record s {
    tasks = list_add s.tasks new_task;
    next_pid = (s.next_pid + 1) % 2 ^ 32;
    memory = pushed.1;
  }
  unfolding spawn
  spawn_lem = refl

  -- The same, told of the task in its place instead of `new_task`.
  spawn-IsSpawned :
      IsSpawned s (spawn s stack entry priority uid now) entry priority uid stack (length s.tasks)
  spawn-IsSpawned =
      let f = frame_pushed in
      rw spawn_lem (record {
        place = refl;
        grown = length-list_add s.tasks new_task;
        older = λ i h. task_at-list_add s.tasks new_task i h;
        is_ready = ap (λ (t : Task). t.state) last;
        pid = ap (λ (t : Task). t.pid) last;
        full = ap (λ (t : Task). t.quantum) last ∙ sym (ap (λ (t : Task). t.base_quantum) last);
        level = (ap (λ (t : Task). t.priority) last, ap (λ (t : Task). t.uid) last);
        next = refl;
        rights =
            subst (λ (t : Task). Defaults uid t.perm_mask t.flags) (sym last)
              (default_perms-Defaults uid);
        base = ap (λ (t : Task). t.stack_base) last;
        canary = f.outside stack (inl (omega (arith, f.pointer))) ∙ ground arith;
        frame_top = omega (arith, ap (λ (t : Task). t.rsp) last, f.pointer);
        segments = frame-segments;
        registers = frame-registers;
        rip = frame-word 21 4 168 refl refl;
        code_segment = frame-word 22 3 176 refl refl;
        interrupts_on = frame-word 23 2 184 refl refl;
        stack_pointer = frame-word 24 1 192 refl refl;
        stack_segment = frame-word 25 0 200 refl refl;
        current = refl;
        lock = refl;
        elsewhere = λ a o. f.outside a (ground (arith, f.pointer)) ∙ ground arith;
      })

-- Why no task is created.
pub data IsRefused (A : Allocator) (mem : A.Memory) (entry : ℕ) : Type 0 where
  no_entry : entry ≡ 0 → IsRefused A mem entry
  no_block : (A.alloc mem task_size).0 ≡ none → IsRefused A mem entry
  no_stack : (A.alloc (A.alloc mem task_size).1 task_stack_size).0 ≡ none → IsRefused A mem entry

-- `task_create_full` answers NULL and leaves the tasks and their stacks alone, only for the entry
-- 0 or where the allocator has no control block or no stack for it. Or it answers a new task,
-- ready to run, with the next PID and the rights of its user, on a stack that the allocator gave,
-- with its canary and, at its stack pointer, the frame of `struct interrupt_frame` with RIP
-- `entry`, CS 0x08, RFLAGS 0x202, RSP 8 below the top of the stack, 0x10 in the other segment
-- registers and 0 in the rest. No older task changes, and of `memory`, which is apart from the
-- control blocks and the static variables, only words of the new stack.
pub task_create_full_lem :
    (A : Allocator) (s : Scheduler) (mem : A.Memory) (entry priority uid now : ℕ)
    → let (place, s', _) = task_create_full A s mem entry priority uid now in
      ((place ≡ none) × (s' ≡ s) × IsRefused A mem entry)
      ⊎ ((t stack : ℕ) × (place ≡ some t)
          × (entry ≢ 0)
          × ((A.alloc (A.alloc mem task_size).1 task_stack_size).0 ≡ some stack)
          × IsSpawned s s' entry priority uid stack t)
unfolding task_create_full
task_create_full_lem A s mem entry priority uid now =
    let (block, mem') = A.alloc mem task_size in
    let (stack, mem'') = A.alloc mem' task_stack_size in
    elim (Bool-cases (entry == 0)) [
      | inl k ↦ rw k (inl (refl, refl, no_entry (ground (arith, k))))
      | inr k ↦ elim (Option-cases block) [
        | inl e ↦ rw (k, e) (inl (refl, refl, no_block e))
        | inr (b, e) ↦ elim (Option-cases stack) [
          | inl f ↦ rw (k, e, f) (inl (refl, refl, no_stack f))
          | inr (base, f) ↦
              rw (k, e, f)
                (inr (
                  length s.tasks,
                  base,
                  refl,
                  ground arith,
                  refl,
                  spawn-IsSpawned s base entry priority uid now,
                ))
        ]
      ]
    ]
