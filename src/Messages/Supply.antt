-- ===== src/Messages/Supply.antt =====
-- `msg_alloc` and `get_queue` of kernel/messages.c: what they come to.
use ne_xs_operate_system.Base.{
  ℕ, ◌+◌, ◌≡◌, refl, ap, ◌∙◌, true, false, Option, none, some, [], map, arith, ◌≤◌, ◌<◌, leb,
  leb→le, ◌==◌, ==_iff, Bool-cases, inl, inr,
}
use ne_xs_operate_system.Base.Counts.{count_of}
use ne_xs_operate_system.Allocator.{Allocator, Laws}
use ne_xs_operate_system.Permissions.{max_tasks}
use ne_xs_operate_system.Messages.{
  MsgQueue, Ipc, put_message, fresh_message, message_size, slab_size, size_to_slab, queue_size,
  empty_queue, put_queue,
}
use ne_xs_operate_system.Messages.Rings.{IsRing, IsRing-empty_queue, contents-empty_queue}
use ne_xs_operate_system.Messages.Owners.{
  Place, in_slab, in_queue, IsOnce, queued, view, lists, RingAt, IsOwned,
}
use ne_xs_operate_system.Messages.Calls.{take_slab, msg_alloc, get_queue}
use ne_xs_operate_system.Messages.Blocks.{
  Taken, no_block, block, IsOwned-kept, still-gains, still-keeps, view-put_message, view-kept,
  take_slab-Taken,
}

module _ (A : Allocator) (laws : Laws A) where
  open A use {Memory, alloc}

  -- `msg_alloc`: a cleared message of the size that stands in no list now, or none.
  pub data Alloced (size : ℕ) (s : Ipc Memory) : Option ℕ × Ipc Memory → Type 0 where
    too_large : size_to_slab size ≡ none → Alloced size s (none, s)
    no_message :
        (slab : ℕ) (heap' : Memory)
        → size_to_slab size ≡ some slab
        → s.slab_free slab ≡ []
        → alloc s.heap (message_size + slab_size slab) ≡ (none, heap')
        → IsOwned A laws (record s { heap = heap' })
        → Alloced size s (none, record s { heap = heap' })
    message :
        (slab msg : ℕ) (s' : Ipc Memory) (o : IsOwned A laws s')
        → size_to_slab size ≡ some slab
        → o.own msg ≡ none
        → laws.is_held s'.heap msg ≡ true
        → s'.task_queues ≡ s.task_queues
        → s'.message msg ≡ fresh_message slab size
        → ((i : ℕ) → view s' i ≡ view s i)
        → Alloced size s (some msg, s')

  msg_alloc-of_class :
      (size : ℕ) (s : Ipc Memory) (slab : ℕ)
      → size_to_slab size ≡ some slab
      → (r : Option ℕ × Ipc Memory) → take_slab A slab s ≡ r
      → Taken A laws slab s r
      → Alloced size s (msg_alloc A size s)
  unfolding msg_alloc IsOwned-kept
  msg_alloc-of_class size s slab e r f (no_block heap' empty refused o') =
      rw (msg_alloc, e, f, ap (λ x. x.1) f) (no_message slab heap' e empty refused o')
  msg_alloc-of_class size s slab e r f (block msg s₁ o₁ gone held queues messages) =
      let fresh = fresh_message slab size in
      let o' = IsOwned-kept A laws s₁ (put_message s₁ msg fresh) refl refl (λ b free. free) o₁ in
      rw (msg_alloc, e, f, ap (λ x. x.1) f)
        (message slab msg (put_message s₁ msg fresh) o' e gone held queues
          (rw ((==_iff msg msg).1 refl) refl)
          (λ i.
            view-put_message A laws s₁ o₁ msg fresh gone i
            ∙ view-kept A laws s s₁ queues messages i))

  pub msg_alloc-Alloced :
      (size : ℕ) (s : Ipc Memory) → IsOwned A laws s → Alloced size s (msg_alloc A size s)
  unfolding msg_alloc
  msg_alloc-Alloced size s o = by_class (size_to_slab size) refl
    where
      by_class : (c : Option ℕ) → size_to_slab size ≡ c → Alloced size s (msg_alloc A size s)
      by_class none e = rw (msg_alloc, e) (too_large e)
      by_class (some slab) e =
          msg_alloc-of_class size s slab e (take_slab A slab s) refl
            (take_slab-Taken A laws slab s o)

  -- `get_queue`: the ring of the task, which may be new and empty, or none.
  pub data Found (r : ℕ) (s : Ipc Memory) : Option MsgQueue × Ipc Memory → Type 0 where
    no_task : max_tasks ≤ r → Found r s (none, s)
    no_queue :
        (heap' : Memory)
        → alloc s.heap queue_size ≡ (none, heap')
        → r < max_tasks
        → s.task_queues r ≡ none
        → IsOwned A laws (record s { heap = heap' })
        → Found r s (none, record s { heap = heap' })
    queue :
        (q : MsgQueue) (s' : Ipc Memory)
        → IsOwned A laws s'
        → r < max_tasks
        → s'.task_queues r ≡ some q
        → ((i : ℕ) → view s' i ≡ view s i)
        → ((j : ℕ) → (j == r) ≡ false → s'.task_queues j ≡ s.task_queues j)
        → Found r s (some q, s')

  pub rings-put :
      (s : Ipc Memory)
      → IsOwned A laws s
      → (r : ℕ) (q : MsgQueue) → IsRing q
      → (i : ℕ) → RingAt ((put_queue s r q).task_queues i)
  unfolding RingAt
  rings-put s o r q ring i = elim (Bool-cases (i == r)) [
    | inl e ↦ rw e ring
    | inr e ↦ rw e (o.rings i)
  ]

  -- An empty ring in place of none.
  queued-empty :
      (s : Ipc Memory) (r : ℕ)
      → s.task_queues r ≡ none
      → (i : ℕ) → queued (put_queue s r empty_queue) i ≡ queued s i
  unfolding queued
  queued-empty s r none_there i = elim (Bool-cases (i == r)) [
    | inl e ↦
        let there : s.task_queues i ≡ none = ap s.task_queues ((==_iff i r).0 e) ∙ none_there in
        rw (queued, e, there) contents-empty_queue
    | inr e ↦ rw (queued, e) refl
  ]

  view-empty :
      (s : Ipc Memory) (r : ℕ)
      → s.task_queues r ≡ none
      → (i : ℕ) → view (put_queue s r empty_queue) i ≡ view s i
  unfolding view
  view-empty s r none_there i = ap (map s.message) (queued-empty s r none_there i)

  lists-empty :
      (s : Ipc Memory) (r : ℕ)
      → s.task_queues r ≡ none
      → (p : Place) → lists (put_queue s r empty_queue) p ≡ lists s p
  unfolding lists
  lists-empty s r none_there (in_slab c) = refl
  lists-empty s r none_there (in_queue i) = queued-empty s r none_there i

  IsOwned-empty :
      (s : Ipc Memory)
      → IsOwned A laws s
      → (r : ℕ) → s.task_queues r ≡ none
      → IsOwned A laws (put_queue s r empty_queue)
  unfolding IsOnce
  IsOwned-empty s o r none_there = record {
    own = o.own;
    rings = rings-put s o r empty_queue IsRing-empty_queue;
    once = λ b q. ap (count_of b) (lists-empty s r none_there q) ∙ o.once b q;
    held = o.held;
  }

  get_queue-created :
      (r : ℕ) (s : Ipc Memory)
      → IsOwned A laws s
      → r < max_tasks
      → leb max_tasks r ≡ false
      → s.task_queues r ≡ none
      → (c : Option ℕ × Memory) → alloc s.heap queue_size ≡ c
      → Found r s (get_queue A r s)
  unfolding get_queue view queued
  get_queue-created r s o lt e f (none, heap') g =
      rw (get_queue, e, f, g, ap (λ x. x.1) g)
        (no_queue heap' g lt f (
          IsOwned-kept A laws s (record s { heap = heap' }) refl refl
            (still-keeps A laws s.heap heap' queue_size g) o))
  get_queue-created r s o lt e f (some a, heap') g =
      let s₁ = record s { heap = heap' } in
      let o₁ =
        IsOwned-kept A laws s s₁ refl refl (still-gains A laws s.heap heap' queue_size a g) o in
      let s' = put_queue s₁ r empty_queue in
      rw (get_queue, e, f, g, ap (λ x. x.1) g)
        (queue empty_queue s' (IsOwned-empty s₁ o₁ r f) lt (rw ((==_iff r r).1 refl) refl)
          (view-empty s₁ r f) (λ j other. rw other refl))

  get_queue-ranged :
      (r : ℕ) (s : Ipc Memory)
      → IsOwned A laws s
      → leb max_tasks r ≡ false
      → (c : Option MsgQueue) → s.task_queues r ≡ c
      → Found r s (get_queue A r s)
  unfolding get_queue
  get_queue-ranged r s o e (some q) f =
      rw (get_queue, e, f) (queue q s o (ground (arith, e)) f (λ i. refl) (λ j other. refl))
  get_queue-ranged r s o e none f =
      get_queue-created r s o (ground (arith, e)) e f (alloc s.heap queue_size) refl

  pub get_queue-Found : (r : ℕ) (s : Ipc Memory) → IsOwned A laws s → Found r s (get_queue A r s)
  unfolding get_queue
  get_queue-Found r s o = elim (Bool-cases (leb max_tasks r)) [
    | inl e ↦ rw (get_queue, e) (no_task (leb→le max_tasks r e))
    | inr e ↦ get_queue-ranged r s o e (s.task_queues r) refl
  ]
