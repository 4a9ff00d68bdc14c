-- ===== src/Syscalls/Tests.antt =====
-- Runs of kernel/syscall.c, and its theorems with two tasks that send.
use ne_xs_operate_system.Base.{
  ℕ, ◌+◌, ◌*◌, ◌/◌, ◌%◌, Bool, ◌==◌, if◌then◌else◌, set, ◌≡◌, refl, true, false, some, List, [],
  ◌∷◌, arith,
}
use ne_xs_operate_system.Heap.{Heap, buddy_init}
use ne_xs_operate_system.Keyboard.{Keyboard}
use ne_xs_operate_system.Memory.{store_byte}
use ne_xs_operate_system.Messages.{
  msg_init, append_message, size_to_slab, copy_bytes, Message, fresh_message,
}
use ne_xs_operate_system.Messages.Calls.{
  msg_send, broadcast, deliver, get_queue, msg_alloc, take_slab,
}
use ne_xs_operate_system.Messages.Run.{started, IsOwned-Reached}
use ne_xs_operate_system.Messages.Owners.{IsOwned}
use ne_xs_operate_system.Allocator.Counter.{counter, counter_laws}
use ne_xs_operate_system.Scheduler.{Task, task_at, zeroed, running, ready}
use ne_xs_operate_system.Syscalls.{
  System, SystemOutcome, Layout, Frame, numbers, perform, find_pid, returns, has_right,
  perm_msg_send, perm_msg_receive, sys_msgsnd, sys_msgrcv, syscall_handler, call_of, outcome_of,
  minus_one,
}
use ne_xs_operate_system.Syscalls.Keeping.{Keeps, Kept}
use ne_xs_operate_system.Syscalls.Rights.{may_store, syscall_handler-Kept}
use ne_xs_operate_system.Syscalls.Posting.{sys_msgrcv-sys_msgsnd}
use ne_xs_operate_system.Timer.{timer_zero}

abbrev no_heap : List ℕ → Heap
no_heap m = buddy_init (λ a. record { level = 0; is_free = false; magic = 0 }) 0x200000 0x2000

abbrev first_task : Task
first_task = record zeroed { pid = 1; state = running; priority = 127; perm_mask = 0x30 }

abbrev second_task : Task
second_task = record zeroed { pid = 2; state = ready; perm_mask = 0 }

abbrev keys : Keyboard
keys = record {
  kbd_buffer = [];
  kbd_read_pos = 0;
  kbd_write_pos = 0;
  shift_pressed = false;
  ctrl_pressed = false;
  alt_pressed = false;
  caps_lock = false;
}

abbrev blank : ℕ → Message
blank a = fresh_message 0 0

-- The task of a number is the current one.
abbrev system : ℕ → System (List ℕ)
system current = record {
  keyboard = keys;
  screen = record { vga_buffer = λ a. 0; cursor_x = 0; cursor_y = 0; current_color = 7 };
  scheduler = record {
    tasks = first_task ∷ second_task ∷ [];
    current_task = some current;
    next_pid = 3;
    sched_lock = false;
    memory = λ a. 0;
  };
  ipc = msg_init [] blank;
  timer = timer_zero;
  other_memory = λ a. 0;
}

system-IsOwned : IsOwned counter counter_laws (system 0).ipc
system-IsOwned = IsOwned-Reached counter counter_laws (system 0).ipc (started [] blank)

-- The state after a call that returns.
abbrev after_call : System (List ℕ) → SystemOutcome (List ℕ) → System (List ℕ)
after_call s₀ (returns ret s) = s
after_call s₀ _ = s₀

abbrev after_post : System (List ℕ)
after_post = record (system 0) {
  ipc = (msg_send counter 1 2 9 (some (7 ∷ 1 ∷ 0 ∷ 0 ∷ 0 ∷ 0 ∷ 0 ∷ 0 ∷ [])) 8 0 (system 0).ipc).1;
}

posted : sys_msgsnd counter no_heap 2 9 263 (system 0) ≡ returns 0 after_post
unfolding sys_msgsnd has_right msg_send broadcast deliver get_queue msg_alloc take_slab size_to_slab
    copy_bytes append_message msg_init
posted = refl

may_receive : has_right perm_msg_receive (system 0) ≡ true
unfolding has_right
may_receive = refl

sys_msgrcv-sys_msgsnd_example : sys_msgrcv 2 after_post ≡ returns 1 after_post
sys_msgrcv-sys_msgsnd_example =
    sys_msgrcv-sys_msgsnd counter counter_laws no_heap 2 9 263 (system 0) after_post system-IsOwned
      (ground arith) may_receive posted

-- The lowest byte of the mask of a task with the byte stored.
abbrev with_byte : ℕ → Task → Task
with_byte v t = record t { perm_mask = t.perm_mask / 256 * 256 + v }

-- The lowest byte of the second task's mask is at 0x9000, and nothing else that shows is of the
-- kernel.
abbrev layout : Layout (List ℕ)
layout = record {
  peek = λ s a.
      if a == 0x9000 then (task_at s.scheduler.tasks 1).perm_mask % 256 else s.other_memory a;
  poke = λ s a v.
      if a == 0x9000
      then record s {
        scheduler = record s.scheduler {
          tasks = set s.scheduler.tasks 1 (with_byte v (task_at s.scheduler.tasks 1));
        };
      }
      else record s { other_memory = store_byte s.other_memory a v };
}

abbrev protects : ℕ → Bool
protects a = a == 0x9000

guarded : (s : System (List ℕ)) (a v : ℕ) → protects a ≡ false → Keeps s (layout.poke s a v)
guarded s a v free = rw free (record { queues = refl; masks = λ i. refl })

may_not_send : has_right perm_msg_send (system 1) ≡ false
unfolding has_right
may_not_send = refl

-- SYS_TASKINFO of the task 1, for its state and its priority.
abbrev info : ℕ → Frame
info priority = record { rax = 98; rdi = 1; rsi = 0x5000; rdx = priority }

info_apart : (a : ℕ) → may_store (call_of numbers 98) (info 0x6000) a ≡ true → protects a ≡ false
unfolding may_store call_of
info_apart a at = ground (arith, at)

syscall_handler-Kept_example :
    Kept (system 1) (syscall_handler counter no_heap layout 100 0 (info 0x6000) (system 1)).1
syscall_handler-Kept_example =
    syscall_handler-Kept counter no_heap layout protects guarded 100 0 (info 0x6000) (system 1)
      may_not_send info_apart

-- With the pointer at the mask the call gives its task the right to send: 127 is stored there.
right_taken :
    has_right perm_msg_send (
      after_call
        (system 1)
        (syscall_handler counter no_heap layout 100 0 (info 0x9000) (system 1)).1)
    ≡ true
unfolding syscall_handler outcome_of call_of perform find_pid has_right
right_taken = refl

-- A number that is not in the table.
reserved_number :
    (syscall_handler counter no_heap layout 100 0
      (record { rax = 62; rdi = 1; rsi = 9; rdx = 263 })
      (system 0)).0
    ≡ some minus_one
unfolding syscall_handler outcome_of call_of
reserved_number = refl
