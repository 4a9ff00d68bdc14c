-- ===== src/Messages/Tests.antt =====
-- Runs of kernel/messages.c, with an allocator that counts.
use ne_xs_operate_system.Base.{
  ℕ, ◌-◌, ◌+◌, ◌≡◌, refl, ap, false, none, some, List, [], ◌∷◌, arith, ◌≤◌,
}
use ne_xs_operate_system.Base.Counts.{count_of}
use ne_xs_operate_system.Allocator.{Allocator, Laws}
use ne_xs_operate_system.Allocator.Counter.{counter, counter_laws}
use ne_xs_operate_system.Heap.{Header}
use ne_xs_operate_system.Heap.Service.{served, served_laws, initial}
use ne_xs_operate_system.Messages.{
  Message, Ipc, success, fresh_message, msg_init, size_to_slab, msg_clear, append_message,
  copy_bytes,
}
use ne_xs_operate_system.Messages.Calls.{
  fill_data, fill_pointer, msg_send, msg_send_ptr, msg_receive, get_queue, take_slab, msg_alloc,
  deliver, broadcast,
}
use ne_xs_operate_system.Messages.Owners.{
  in_slab, in_queue, same_place, view, queued, lists, IsOwned,
}
use ne_xs_operate_system.Messages.Deliver.{Sent}
use ne_xs_operate_system.Messages.Broadcast.{Announced, msg_send-broadcast}
use ne_xs_operate_system.Messages.Receiving.{Taking, msg_receive_lem}
use ne_xs_operate_system.Messages.Order.{
  msg_send_lem, Gives, Hands, msg_receive-msg_send, msg_receive-msg_send_ptr,
}
use ne_xs_operate_system.Messages.Run.{
  Call, call, Cleared, msg_clear_lem, Reached, started, called, sends, Reached-apart,
  IsOwned-Reached,
}

abbrev blank : ℕ → Message
blank a = fresh_message 0 0

abbrev start : Ipc (List ℕ)
start = msg_init [] blank

start-IsOwned : IsOwned counter counter_laws start
start-IsOwned = IsOwned-Reached counter counter_laws start (started [] blank)

-- The state after one message of three bytes from the task 1 to the task 2.
abbrev one_sent : Ipc (List ℕ)
one_sent = (msg_send counter 1 2 7 (some (10 ∷ 20 ∷ 30 ∷ [])) 3 99 start).1

one_sent-Reached : Reached counter counter_laws one_sent
one_sent-Reached = called (sends 1 2 7 (some (10 ∷ 20 ∷ 30 ∷ [])) 3 99) start (started [] blank)

one_sent-IsOwned : IsOwned counter counter_laws one_sent
one_sent-IsOwned = IsOwned-Reached counter counter_laws one_sent one_sent-Reached

one_sent_run : (msg_send counter 1 2 7 (some (10 ∷ 20 ∷ 30 ∷ [])) 3 99 start).0 ≡ success
unfolding msg_send broadcast deliver get_queue msg_alloc take_slab size_to_slab copy_bytes
    append_message msg_init
one_sent_run = refl

msg_send_lem_example :
    Sent counter counter_laws 3 2
      (fill_data counter 1 3 7 (some (5 ∷ 6 ∷ [])) 2 100)
      one_sent
      (msg_send counter 1 3 7 (some (5 ∷ 6 ∷ [])) 2 100 one_sent)
msg_send_lem_example =
    msg_send_lem counter counter_laws 1 3 7 (some (5 ∷ 6 ∷ [])) 2 100 one_sent (ground arith)
      one_sent-IsOwned

start-empty : view start 2 ≡ []
unfolding view queued msg_init
start-empty = refl

msg_receive-msg_send_example :
    Gives counter counter_laws 1 2 7 99 (10 ∷ 20 ∷ 30 ∷ []) (msg_receive counter 2 one_sent)
msg_receive-msg_send_example =
    msg_receive-msg_send counter counter_laws 1 2 7 99 (10 ∷ 20 ∷ 30 ∷ []) start one_sent
      start-IsOwned (ground arith) start-empty (ap (λ t. (t, one_sent)) one_sent_run)

abbrev pointer_sent : Ipc (List ℕ)
pointer_sent = (msg_send_ptr counter 1 2 0x300000 8192 99 start).1

pointer_sent_run : (msg_send_ptr counter 1 2 0x300000 8192 99 start).0 ≡ success
unfolding msg_send_ptr deliver get_queue msg_alloc take_slab size_to_slab copy_bytes append_message
    msg_init
pointer_sent_run = refl

msg_receive-msg_send_ptr_example :
    Hands counter counter_laws
      (fill_pointer counter 1 2 0x300000 8192 99 (fresh_message 0 8))
      none
      (msg_receive counter 2 pointer_sent)
msg_receive-msg_send_ptr_example =
    msg_receive-msg_send_ptr counter counter_laws 1 2 0x300000 8192 99 start pointer_sent
      start-IsOwned (omega arith) start-empty (ap (λ t. (t, pointer_sent)) pointer_sent_run)

msg_receive_lem_example : Taking counter counter_laws 2 one_sent (msg_receive counter 2 one_sent)
msg_receive_lem_example = msg_receive_lem counter counter_laws 2 one_sent one_sent-IsOwned

three_bytes_class : size_to_slab 3 ≡ some 0
unfolding size_to_slab
three_bytes_class = refl

msg_send-broadcast_example :
    Announced counter counter_laws 1 0
      (λ j. (broadcast counter (j - 1) 1 1 7 (some (5 ∷ 6 ∷ 7 ∷ [])) 3 100 0 one_sent).1)
      (λ j. fill_data counter 1 j 7 (some (5 ∷ 6 ∷ 7 ∷ [])) 3 100 (fresh_message 0 3))
      one_sent
      (msg_send counter 1 0 7 (some (5 ∷ 6 ∷ 7 ∷ [])) 3 100 one_sent)
msg_send-broadcast_example =
    msg_send-broadcast counter counter_laws 1 7 0 (some (5 ∷ 6 ∷ 7 ∷ [])) 3 100 one_sent
      three_bytes_class one_sent-IsOwned

msg_clear_lem_example : Cleared counter counter_laws 2 one_sent (msg_clear 2 one_sent)
msg_clear_lem_example = msg_clear_lem counter counter_laws 2 one_sent (omega arith) one_sent-IsOwned

queue_and_slab : same_place (in_queue 2) (in_slab 0) ≡ false
unfolding same_place
queue_and_slab = refl

abbrev zeros : ℕ → Header
zeros a = record { level = 0; is_free = false; magic = 0 }

-- The heap of kernel/buddy.c, of 8 MB.
abbrev kernel_heap : Allocator
kernel_heap = served zeros 0x200000 0x800000

kernel_heap_laws : Laws kernel_heap
kernel_heap_laws = served_laws zeros 0x200000 0x800000 (omega arith) (omega arith)

abbrev first_send : Call kernel_heap kernel_heap_laws
first_send = sends 1 2 7 (some (10 ∷ 20 ∷ 30 ∷ [])) 3 99

abbrev kernel_sent : Ipc kernel_heap.Memory
kernel_sent =
    call kernel_heap kernel_heap_laws first_send (msg_init (initial zeros 0x200000 0x800000) blank)

Reached-apart_example :
    count_of 0x200018 (lists kernel_sent (in_queue 2))
      + count_of 0x200018 (lists kernel_sent (in_slab 0))
    ≤ 1
Reached-apart_example =
    Reached-apart kernel_heap kernel_heap_laws kernel_sent 0x200018 (in_queue 2) (in_slab 0)
      (called first_send (msg_init (initial zeros 0x200000 0x800000) blank)
        (started (initial zeros 0x200000 0x800000) blank))
      queue_and_slab
