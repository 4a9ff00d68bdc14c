-- ===== src/Messages.antt =====
-- kernel/messages.c: messages between tasks. A message is at its address; a list of free messages
-- is the list of their addresses in place of the `next` fields, which lie over `sender_id` and
-- `receiver_id`. A queue is with the task it belongs to. Counters of 32 bits that stay below 65
-- are not cut.
pub mod Blocks
pub mod Hearing
pub mod Broadcast
pub mod Bytes
pub mod Calls
pub mod Deliver
pub mod Order
pub mod Owners
pub mod Receiving
pub mod Rings
pub mod Run
pub mod Sending
pub mod Supply
pub mod Tests
use ne_xs_operate_system.Base.{
  ℕ, zero, suc, ◌+◌, ◌-◌, ◌*◌, ◌/◌, ◌%◌, ◌^◌, Bool, true, false, not, ◌&&◌, ◌||◌, Option, none,
  some, List, [], ◌∷◌, ◌++◌, ltb, leb, ◌==◌, if◌then◌else◌, length, get_or, set, take, replicate,
}
use ne_xs_operate_system.Permissions.{max_tasks}

abbrev pub slab_sizes : List ℕ
slab_sizes = 16 ∷ 64 ∷ 256 ∷ 1024 ∷ 4096 ∷ []

abbrev pub msg_max_size : ℕ
msg_max_size = 4096

abbrev pub msg_queue_size : ℕ
msg_queue_size = 64

abbrev pub msg_type_pointer : ℕ
msg_type_pointer = 5

-- `sizeof(struct message)` and `sizeof(struct msg_queue)`
abbrev pub message_size : ℕ
message_size = 32

abbrev pub queue_size : ℕ
queue_size = 528

-- `struct message`, less `flags`, which is always 0; `bytes` is the room behind it.
pub record Message : Type 0 where
  pub sender_id : ℕ
  pub receiver_id : ℕ
  pub kind : ℕ
  pub size : ℕ
  pub slab_class : ℕ
  pub timestamp : ℕ
  pub bytes : List ℕ

pub record MsgQueue : Type 0 where
  pub messages : List ℕ
  pub read_pos : ℕ
  pub write_pos : ℕ
  pub count : ℕ

-- What the functions return: 0 or -1.
pub data Status : Type 0 where
  success failure : Status

-- The loop of `size_to_slab`; `none` is -1.
abbrev pub size_to_slab_from : List ℕ → ℕ → ℕ → Option ℕ
size_to_slab_from [] i size = none
size_to_slab_from (s ∷ ss) i size =
    let rest = size_to_slab_from ss (i + 1) size in if leb size s then some i else rest

unfoldable pub size_to_slab : ℕ → Option ℕ
size_to_slab size = size_to_slab_from slab_sizes 0 size

abbrev pub slab_size : ℕ → ℕ
slab_size slab = get_or slab_sizes slab 0

-- The message after `memset` and the two assignments behind it.
abbrev pub fresh_message : ℕ → ℕ → Message
fresh_message slab size = record {
  sender_id = 0;
  receiver_id = 0;
  kind = 0;
  size = size;
  slab_class = slab;
  timestamp = 0;
  bytes = replicate (slab_size slab) 0;
}

-- `memcpy(msg->data, data, size)` into the room behind a message, if it fits there.
unfoldable pub copy_bytes : ℕ → List ℕ → List ℕ → List ℕ
copy_bytes zero src room = room
copy_bytes (suc n) [] room = room
copy_bytes (suc n) (b ∷ src) [] = []
copy_bytes (suc n) (b ∷ src) (r ∷ room) = b ∷ copy_bytes n src room

-- The bytes of a pointer, the lowest first.
abbrev pub pointer_bytes : ℕ → ℕ → List ℕ
pointer_bytes zero ptr = []
pointer_bytes (suc n) ptr = ptr % 256 ∷ pointer_bytes n (ptr / 256)

abbrev pub empty_queue : MsgQueue
empty_queue = record {
  messages = replicate msg_queue_size 0;
  read_pos = 0;
  write_pos = 0;
  count = 0;
}

-- The static variables, with the messages and the memory of the allocator.
pub record Ipc (M : Type 0) : Type 0 where
  pub slab_free : ℕ → List ℕ
  pub slab_alloc_count : ℕ → ℕ
  pub task_queues : ℕ → Option MsgQueue
  pub message : ℕ → Message
  pub heap : M

-- What `msg_receive` comes to: -1, it waits for an interrupt, or it copies out a message. The bytes
-- are `none` if `size` is more than the room behind the message, where it reads other memory.
pub data Received (M : Type 0) : Type 0 where
  refused : Ipc M → Received M
  waits : Ipc M → Received M
  got : Message → Option (List ℕ) → Ipc M → Received M

-- `queue->read_pos = (queue->read_pos + 1) % MSG_QUEUE_SIZE; queue->count--;`
abbrev pub advance : MsgQueue → MsgQueue
advance queue = record queue {
  read_pos = (queue.read_pos + 1) % msg_queue_size;
  count = queue.count - 1;
}

abbrev pub first_message : MsgQueue → ℕ
first_message queue = get_or queue.messages queue.read_pos 0

module _ {M : Type 0} where
  abbrev pub put_slab : Ipc M → ℕ → List ℕ → Ipc M
  put_slab s slab xs = record s { slab_free = λ c. if c == slab then xs else s.slab_free c }

  abbrev pub put_message : Ipc M → ℕ → Message → Ipc M
  put_message s a m = record s { message = λ b. if b == a then m else s.message b }

  abbrev pub put_queue : Ipc M → ℕ → MsgQueue → Ipc M
  put_queue s id q = record s { task_queues = λ i. if i == id then some q else s.task_queues i }

  -- `slab_alloc_count[slab]++`
  abbrev pub count_slab : Ipc M → ℕ → Ipc M
  count_slab s slab = record s {
    slab_alloc_count =
        λ c. if c == slab then (s.slab_alloc_count c + 1) % 2 ^ 32 else s.slab_alloc_count c;
  }

  unfoldable pub msg_init : M → (ℕ → Message) → Ipc M
  msg_init heap memory = record {
    slab_free = λ c. [];
    slab_alloc_count = λ c. 0;
    task_queues = λ i. none;
    message = memory;
    heap = heap;
  }

  unfoldable pub msg_free : ℕ → Ipc M → Ipc M
  msg_free msg s =
      if msg == 0
      then s
      else let slab = (s.message msg).slab_class in put_slab s slab (msg ∷ s.slab_free slab)

  -- The end of both ways to send: the message enters the queue.
  unfoldable pub append_message : ℕ → MsgQueue → ℕ → Ipc M → Ipc M
  append_message receiver queue msg s = put_queue s receiver (record queue {
    messages = set queue.messages queue.write_pos msg;
    write_pos = (queue.write_pos + 1) % msg_queue_size;
    count = queue.count + 1;
  })

  unfoldable pub msg_available : ℕ → Ipc M → Bool
  msg_available receiver s =
      if leb max_tasks receiver
      then false
      else elim (s.task_queues receiver) [ none ↦ false | some queue ↦ ltb 0 queue.count ]

  unfoldable pub msg_count : ℕ → Ipc M → ℕ
  msg_count receiver s =
      if leb max_tasks receiver
      then 0
      else elim (s.task_queues receiver) [ none ↦ 0 | some queue ↦ queue.count ]

  -- `while (queue->count > 0)`, with the count to go
  unfoldable pub clear_loop : ℕ → ℕ → MsgQueue → Ipc M → Ipc M
  clear_loop zero receiver queue s = s
  clear_loop (suc n) receiver queue s =
      let next = advance queue in
      clear_loop n receiver next (put_queue (msg_free (first_message queue) s) receiver next)

  unfoldable pub msg_clear : ℕ → Ipc M → Ipc M
  msg_clear receiver s = if leb max_tasks receiver then s else elim (s.task_queues receiver) [
    | none ↦ s
    | some queue ↦ clear_loop queue.count receiver queue s
  ]
