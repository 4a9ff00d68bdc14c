-- ===== src/Messages/Calls.antt =====
-- The functions of kernel/messages.c that allocate: sending and receiving.
use ne_xs_operate_system.Base.{
  ℕ, zero, suc, ◌+◌, ◌-◌, Bool, true, false, not, ◌&&◌, Option, none, some, List, [], ◌∷◌, ltb, leb,
  ◌==◌, if◌then◌else◌, length, take,
}
use ne_xs_operate_system.Permissions.{max_tasks}
use ne_xs_operate_system.Allocator.{Allocator}
use ne_xs_operate_system.Messages.{
  msg_max_size, msg_queue_size, msg_type_pointer, message_size, queue_size, Message, MsgQueue,
  Status, size_to_slab, slab_size, fresh_message, copy_bytes, pointer_bytes, empty_queue, Ipc,
  Received, advance, first_message, put_slab, put_message, put_queue, count_slab, msg_free,
  append_message, success, failure, refused, waits, got,
}

module _ (A : Allocator) where
  open A use {Memory, alloc}

  -- The block of a message: from the free list of its class, or from the allocator.
  unfoldable pub take_slab : ℕ → Ipc Memory → Option ℕ × Ipc Memory
  take_slab slab s = elim (s.slab_free slab) [
    | msg ∷ msgs ↦ (some msg, put_slab s slab msgs)
    | [] ↦
        let (place, heap') = alloc s.heap (message_size + slab_size slab) in
        let s' = record s { heap = heap' } in
        elim place [ none ↦ (none, s') | some msg ↦ (some msg, count_slab s' slab) ]
  ]

  unfoldable pub msg_alloc : ℕ → Ipc Memory → Option ℕ × Ipc Memory
  msg_alloc data_size s = elim (size_to_slab data_size) [
    | none ↦ (none, s)
    | some slab ↦
        let (place, s') = take_slab slab s in
        elim place [
          | none ↦ (none, s')
          | some msg ↦ (some msg, put_message s' msg (fresh_message slab data_size))
        ]
  ]

  unfoldable pub get_queue : ℕ → Ipc Memory → Option MsgQueue × Ipc Memory
  get_queue task_id s = if leb max_tasks task_id then (none, s) else elim (s.task_queues task_id) [
    | some queue ↦ (some queue, s)
    | none ↦
        let (place, heap') = alloc s.heap queue_size in
        let s' = record s { heap = heap' } in
        elim place [
          | none ↦ (none, s')
          | some a ↦ (some empty_queue, put_queue s' task_id empty_queue)
        ]
  ]

  -- A message of a size is filled by `fill` and enters the queue: what both ways to send share.
  unfoldable pub deliver : ℕ → ℕ → (Message → Message) → Ipc Memory → Status × Ipc Memory
  deliver receiver size fill s =
      let (queue, s₁) = get_queue receiver s in
      elim queue [
        | none ↦ (failure, s₁)
        | some q ↦
            let (place, s₂) = msg_alloc size s₁ in
            let sent : Status × Ipc Memory = elim place [
              | none ↦ (failure, s₂)
              | some msg ↦ (
                success,
                append_message receiver q msg (put_message s₂ msg (fill (s₂.message msg))),
              )
            ] in
            if leb msg_queue_size q.count then (failure, s₁) else sent
      ]

  -- The assignments of `msg_send` to a new message; `none` is a NULL `data`.
  abbrev pub fill_data : ℕ → ℕ → ℕ → Option (List ℕ) → ℕ → ℕ → Message → Message
  fill_data sender receiver kind bytes size now m = record m {
    sender_id = sender;
    receiver_id = receiver;
    kind = kind;
    timestamp = now;
    bytes = elim bytes [ none ↦ m.bytes | some src ↦ copy_bytes size src m.bytes ];
  }

  -- The assignments of `msg_send_ptr`
  abbrev pub fill_pointer : ℕ → ℕ → ℕ → ℕ → ℕ → Message → Message
  fill_pointer sender receiver ptr size now m = record m {
    sender_id = sender;
    receiver_id = receiver;
    kind = msg_type_pointer;
    size = size;
    timestamp = now;
    bytes = copy_bytes 8 (pointer_bytes 8 ptr) m.bytes;
  }

  -- `msg_send` to one receiver
  abbrev pub send_one : ℕ → ℕ → ℕ → Option (List ℕ) → ℕ → ℕ → Ipc Memory → Status × Ipc Memory
  send_one sender receiver kind bytes size now s =
      deliver receiver size (fill_data sender receiver kind bytes size now) s

  abbrev pub has_queue : Ipc Memory → ℕ → Bool
  has_queue s i = elim (s.task_queues i) [ none ↦ false | some queue ↦ true ]

  -- The loop of a broadcast, with `n` receivers to go from `i` on, and `success`
  unfoldable pub broadcast :
      ℕ → ℕ → ℕ → ℕ → Option (List ℕ) → ℕ → ℕ → ℕ → Ipc Memory → ℕ × Ipc Memory
  broadcast zero i sender kind bytes size now reached s = (reached, s)
  broadcast (suc n) i sender kind bytes size now reached s =
      let (status, s') = send_one sender i kind bytes size now s in
      let reached' : ℕ = elim status [ success ↦ reached + 1 | failure ↦ reached ] in
      let receives = not (i == sender) && has_queue s i in
      broadcast n (i + 1) sender kind bytes size now (if receives then reached' else reached)
        (if receives then s' else s)

  unfoldable pub msg_send : ℕ → ℕ → ℕ → Option (List ℕ) → ℕ → ℕ → Ipc Memory → Status × Ipc Memory
  msg_send sender receiver kind bytes size now s =
      let (reached, s') = broadcast (max_tasks - 1) 1 sender kind bytes size now 0 s in
      if ltb msg_max_size size
      then (failure, s)
      else if receiver == 0
      then (if ltb 0 reached then success else failure, s')
      else send_one sender receiver kind bytes size now s

  unfoldable pub msg_send_ptr : ℕ → ℕ → ℕ → ℕ → ℕ → Ipc Memory → Status × Ipc Memory
  msg_send_ptr sender receiver ptr size now s =
      deliver receiver 8 (fill_pointer sender receiver ptr size now) s

  -- `memcpy(out_msg, msg, sizeof(struct message) + msg->size)`
  abbrev pub copied_out : Message → Option (List ℕ)
  copied_out m = if leb m.size (length m.bytes) then some (take m.size m.bytes) else none

  -- `out_msg` is not NULL; a call that waits changes nothing further and is made again later.
  unfoldable pub msg_receive : ℕ → Ipc Memory → Received Memory
  msg_receive receiver s =
      let (queue, s₁) = get_queue receiver s in
      elim queue [
        | none ↦ refused s₁
        | some q ↦
            let m = s₁.message (first_message q) in
            if q.count == 0
            then waits s₁
            else got m (copied_out m)
                (put_queue (msg_free (first_message q) s₁) receiver (advance q))
      ]
