-- ===== src/Messages/Deliver.antt =====
-- The common part of the two ways to send of kernel/messages.c: what a call comes to.
use mathlib.Core.Path.{ap₂}
use ne_xs_operate_system.Base.{
  ℕ, ◌+◌, ◌≡◌, refl, sym, ap, ◌∙◌, false, Option, none, some, [], ◌∷◌, ◌++◌, arith, ◌≤◌, ◌<◌, leb,
  length, length-map, ◌==◌, if◌then◌else◌, ==_iff, Bool-cases, inl, inr,
}
use ne_xs_operate_system.Base.Ring.{length-window}
use ne_xs_operate_system.Permissions.{max_tasks}
use ne_xs_operate_system.Allocator.{Allocator, Laws}
use ne_xs_operate_system.Messages.{
  MsgQueue, Message, Ipc, Status, success, failure, put_message, fresh_message, size_to_slab,
  append_message, msg_queue_size, message_size, slab_size, queue_size,
}
use ne_xs_operate_system.Messages.Rings.{contents}
use ne_xs_operate_system.Messages.Owners.{queued, view, IsOwned}
use ne_xs_operate_system.Messages.Calls.{get_queue, msg_alloc, deliver}
use ne_xs_operate_system.Messages.Blocks.{IsOwned-kept, view-put_message}
use ne_xs_operate_system.Messages.Supply.{
  Alloced, too_large, no_message, message, msg_alloc-Alloced, Found, no_task, no_queue, queue,
  get_queue-Found,
}
use ne_xs_operate_system.Messages.Sending.{
  IsRing-queue, view-append_message, IsOwned-append_message,
}

module _ (A : Allocator) (laws : Laws A) where
  open A use {Memory, alloc}

  -- Why nothing is sent: the task, its queue, the size, or the allocator, which is asked for a queue
  -- where there is none, and for a message where no block of the class is free.
  pub data Reason (r size : ℕ) (s : Ipc Memory) : Type 0 where
    not_a_task : max_tasks ≤ r → Reason r size s
    no_room : length (view s r) ≡ msg_queue_size → Reason r size s
    no_class : size_to_slab size ≡ none → Reason r size s
    no_queue_memory :
        (heap' : Memory)
        → s.task_queues r ≡ none
        → alloc s.heap queue_size ≡ (none, heap')
        → Reason r size s
    no_message_memory :
        (slab : ℕ) (heap' : Memory)
        → size_to_slab size ≡ some slab
        → (get_queue A r s).1.slab_free slab ≡ []
        → alloc (get_queue A r s).1.heap (message_size + slab_size slab) ≡ (none, heap')
        → Reason r size s

  -- What a call comes to: no queue changes, or one has a new message of the size behind the others.
  -- The queues of the other tasks are the very same.
  pub data Sent (r size : ℕ) (fill : Message → Message) (s : Ipc Memory)
      : Status × Ipc Memory → Type 0 where
    dropped :
        (s' : Ipc Memory)
        → IsOwned A laws s'
        → ((i : ℕ) → view s' i ≡ view s i)
        → Reason r size s
        → ((j : ℕ) → (j == r) ≡ false → s'.task_queues j ≡ s.task_queues j)
        → Sent r size fill s (failure, s')
    appended :
        (slab : ℕ) (s' : Ipc Memory)
        → IsOwned A laws s'
        → r < max_tasks
        → size_to_slab size ≡ some slab
        → length (view s r) < msg_queue_size
        → ((i : ℕ)
            → view s' i
              ≡ (if i == r then view s i ++ fill (fresh_message slab size) ∷ [] else view s i))
        → ((j : ℕ) → (j == r) ≡ false → s'.task_queues j ≡ s.task_queues j)
        → Sent r size fill s (success, s')

  pub length-view :
      (s : Ipc Memory) (r : ℕ) (q : MsgQueue)
      → s.task_queues r ≡ some q
      → length (view s r) ≡ q.count
  unfolding view queued contents
  length-view s r q e =
      rw (queued, e)
        (length-map s.message (contents q) ∙ length-window 0 64 q.messages q.read_pos q.count)

  deliver-Alloced :
      (r size : ℕ) (fill : Message → Message) (s s₁ : Ipc Memory) (q : MsgQueue)
      → get_queue A r s ≡ (some q, s₁)
      → IsOwned A laws s₁
      → r < max_tasks
      → s₁.task_queues r ≡ some q
      → ((i : ℕ) → view s₁ i ≡ view s i)
      → ((j : ℕ) → (j == r) ≡ false → s₁.task_queues j ≡ s.task_queues j)
      → leb msg_queue_size q.count ≡ false
      → (c : Option ℕ × Ipc Memory) → msg_alloc A size s₁ ≡ c
      → Alloced A laws size s₁ c
      → Sent r size fill s (deliver A r size fill s)
  unfolding deliver view queued IsOwned-kept append_message
  deliver-Alloced r size fill s s₁ q e o lt f views kept room c g (too_large no_size) =
      rw (deliver, e, room, ap (λ x. x.1) e, g, ap (λ x. x.1) e, ap (λ x. x.1) g)
        (dropped s₁ o views (no_class no_size) kept)
  deliver-Alloced r size fill s s₁ q e o lt f views kept room c g
        (no_message slab heap' class_ empty refused o') =
      rw (deliver, e, room, ap (λ x. x.1) e, g, ap (λ x. x.1) e, ap (λ x. x.1) g)
        (dropped (record s₁ { heap = heap' }) o' views
          (no_message_memory slab heap' class_ (ap (λ x. x.1.slab_free slab) e ∙ empty)
            (ap (λ x. alloc x.1.heap (message_size + slab_size slab)) e ∙ refused))
          kept)
  deliver-Alloced r size fill s s₁ q e o lt f views kept room c g
        (message slab msg s₂ o₂ class_ gone held queues fresh views₂) =
      let m = fill (s₂.message msg) in
      let s₃ = put_message s₂ msg m in
      let o₃ = IsOwned-kept A laws s₂ s₃ refl refl (λ b free. free) o₂ in
      let f₃ : s₃.task_queues r ≡ some q = ap (λ x. x r) queues ∙ f in
      let lower : q.count < msg_queue_size = ground (arith, room) in
      let there : s₃.message msg ≡ fill (fresh_message slab size) =
        rw ((==_iff msg msg).1 refl) (ap fill fresh) in
      let before : length (view s r) ≡ q.count = ap length (sym (views r)) ∙ length-view s₁ r q f in
      rw (deliver, e, room, ap (λ x. x.1) e, g, ap (λ x. x.1) e, ap (λ x. x.1) g)
        (appended slab (append_message r q msg s₃)
          (IsOwned-append_message A laws s₃ o₃ r msg q f₃ lower gone held) lt class_
          (omega (arith, before))
          (λ i.
            view-append_message A laws s₃ o₃ r msg q f₃ lower i
            ∙ ap₂ (λ v t. if i == r then v ++ t ∷ [] else v)
                (view-put_message A laws s₂ o₂ msg m gone i ∙ views₂ i ∙ views i) there)
          (λ j other. rw other (ap (λ x. x j) queues ∙ kept j other)))

  deliver-Found :
      (r size : ℕ) (fill : Message → Message) (s : Ipc Memory)
      → (c : Option MsgQueue × Ipc Memory) → get_queue A r s ≡ c
      → IsOwned A laws s
      → Found A laws r s c
      → Sent r size fill s (deliver A r size fill s)
  unfolding deliver view queued
  deliver-Found r size fill s c e o (no_task outside) =
      rw (deliver, e, ap (λ x. x.1) e)
        (dropped s o (λ i. refl) (not_a_task outside) (λ j other. refl))
  deliver-Found r size fill s c e o (no_queue heap' refused inside none_there o') =
      rw (deliver, e, ap (λ x. x.1) e)
        (dropped (record s { heap = heap' }) o' (λ i. refl)
          (no_queue_memory heap' none_there refused) (λ j other. refl))
  deliver-Found r size fill s c e o (queue q s₁ o₁ lt f views kept) =
      elim (Bool-cases (leb msg_queue_size q.count)) [
        | inl full ↦
            let bound = (IsRing-queue A laws s₁ o₁ r q f).count_below in
            let before : length (view s r) ≡ q.count =
              ap length (sym (views r)) ∙ length-view s₁ r q f in
            rw (deliver, e, full, ap (λ x. x.1) e)
              (dropped s₁ o₁ views (no_room (ground (arith, full, bound, before))) kept)
        | inr room ↦
            deliver-Alloced r size fill s s₁ q e o₁ lt f views kept room (msg_alloc A size s₁) refl
              (msg_alloc-Alloced A laws size s₁ o₁)
      ]

  -- A call that sends to one task either leaves every queue as it is, and says why, or puts one
  -- message of the size behind those that wait for the task.
  pub deliver_lem :
      (r size : ℕ) (fill : Message → Message) (s : Ipc Memory)
      → IsOwned A laws s
      → Sent r size fill s (deliver A r size fill s)
  deliver_lem r size fill s o =
      deliver-Found r size fill s (get_queue A r s) refl o (get_queue-Found A laws r s o)
