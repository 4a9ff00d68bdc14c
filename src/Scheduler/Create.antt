-- ===== src/Scheduler/Create.antt =====
-- Tasks come into being: `scheduler_init` and `task_create_full` of kernel/scheduler.c, over the
-- allocator that gives the control blocks and the stacks.
use ne_xs_operate_system.Base.{
  ℕ, zero, suc, ◌+◌, ◌-◌, ◌^◌, ◌%◌, Option, none, some, List, [], ◌∷◌, ◌++◌, ◌==◌, if◌then◌else◌,
  length, replicate,
}
use ne_xs_operate_system.Allocator.{Allocator}
use ne_xs_operate_system.Scheduler.{
  Task, ready, running, Scheduler, zeroed, stack_magic, get_quantum,
}

-- `sizeof(struct task)`
abbrev pub task_size : ℕ
task_size = 80

abbrev pub task_stack_size : ℕ
task_stack_size = 4096

-- A word of memory is written.
abbrev pub store : (ℕ → ℕ) → ℕ → ℕ → ℕ → ℕ
store m a v x = if x == a then v else m x

-- `*(--sp) = v` for each `v`: the new stack pointer and memory.
unfoldable pub push_words : List ℕ → ℕ → (ℕ → ℕ) → ℕ × (ℕ → ℕ)
push_words [] sp m = (sp, m)
push_words (v ∷ vs) sp m = push_words vs (sp - 8) (store m (sp - 8) v)

-- The frame that the interrupt stub pops to start a task, in the order of the pushes: SS, RSP,
-- RFLAGS, CS, RIP, error code, interrupt number, 15 registers, four segment registers.
abbrev pub frame_words : ℕ → ℕ → List ℕ
frame_words stack_top entry =
    0x10 ∷ (stack_top - 8) ∷ 0x202 ∷ 0x08 ∷ entry ∷ 0 ∷ 0 ∷ replicate 15 0
    ++ (0x10 ∷ 0x10 ∷ 0x10 ∷ 0x10 ∷ [])

-- `switch (uid)`: the permission mask and the flags.
unfoldable pub default_perms : ℕ → ℕ × ℕ
default_perms zero = (0xffff_ffff, 0x01)
default_perms (suc zero) = (0xffff_fffe, 0x02)
default_perms uid = (0x0000_ffff, 0)

-- `list_add` at the end of the ring: the new task comes just before `task_list` again.
unfoldable pub list_add : List Task → Task → List Task
list_add ts t = ts ++ (t ∷ [])

-- The task with its stack at address `stack`, and its frame.
unfoldable pub spawn : Scheduler → ℕ → ℕ → ℕ → ℕ → ℕ → Scheduler
spawn s stack entry priority uid now =
    let (perms, flags) = default_perms uid in
    let top = stack + task_stack_size in
    let (sp, m) = push_words (frame_words top entry) top (store s.memory stack stack_magic) in
    record s {
      tasks = list_add s.tasks (record zeroed {
        rsp = sp;
        stack_base = stack;
        pid = s.next_pid;
        state = ready;
        uid = uid;
        gid = uid;
        priority = priority;
        quantum = get_quantum priority;
        base_quantum = get_quantum priority;
        start_time = now;
        perm_mask = perms;
        flags = flags;
      });
      next_pid = (s.next_pid + 1) % 2 ^ 32;
      memory = m;
    }

pub data Started (M : Type 0) : Type 0 where
  started : Scheduler → M → Started M
  no_memory : M → Started M

module _ (A : Allocator) where
  open A use {Memory, alloc, free}

  -- `no_memory` is the PANIC.
  unfoldable pub scheduler_init : Scheduler → Memory → ℕ → Started Memory
  scheduler_init s mem now =
      let (block, mem') = alloc mem task_size in
      elim block [
        | none ↦ no_memory mem'
        | some _ ↦
            started
              (record s {
                tasks = list_add s.tasks (record zeroed {
                  pid = s.next_pid;
                  state = running;
                  priority = 255;
                  quantum = get_quantum 255;
                  base_quantum = get_quantum 255;
                  flags = 0x01;
                  perm_mask = 0xffff_ffff;
                  start_time = now;
                });
                next_pid = (s.next_pid + 1) % 2 ^ 32;
                current_task = some (length s.tasks);
              })
              mem'
      ]

  -- The place of the new task, or `none` for NULL.
  unfoldable pub task_create_full :
      Scheduler → Memory → ℕ → ℕ → ℕ → ℕ → Option ℕ × Scheduler × Memory
  task_create_full s mem entry priority uid now =
      if entry == 0
      then (none, s, mem)
      else let (block, mem') = alloc mem task_size in
        elim block [
          | none ↦ (none, s, mem')
          | some t ↦
              let (stack, mem'') = alloc mem' task_stack_size in
              elim stack [
                | none ↦ (none, s, free mem'' t)
                | some base ↦ (some (length s.tasks), spawn s base entry priority uid now, mem'')
              ]
        ]

  unfoldable pub task_create_priority :
      Scheduler → Memory → ℕ → ℕ → ℕ → Option ℕ × Scheduler × Memory
  task_create_priority s mem entry priority now = task_create_full s mem entry priority 1 now

  unfoldable pub task_create : Scheduler → Memory → ℕ → ℕ → Option ℕ × Scheduler × Memory
  task_create s mem entry now = task_create_full s mem entry 127 2 now
