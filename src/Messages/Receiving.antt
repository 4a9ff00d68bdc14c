-- ===== src/Messages/Receiving.antt =====
-- Receiving and clearing of kernel/messages.c: a message leaves its queue at the front and its block goes to a free list.
use mathlib.Core.Path.{subst}
use ne_xs_operate_system.Base.{
  ℕ, ◌≡◌, ◌≢◌, refl, sym, ap, ◌∙◌, true, false, Option, none, some, [], ◌∷◌, map, arith, ◌≤◌, ◌<◌,
  ◌==◌, if◌then◌else◌, ==_iff, Bool-cases, ◌⊎◌, inl, inr,
}
use ne_xs_operate_system.Base.Counts.{count_of}
use ne_xs_operate_system.Permissions.{max_tasks}
use ne_xs_operate_system.Allocator.{Allocator, Laws}
use ne_xs_operate_system.Messages.{
  MsgQueue, Message, Ipc, Received, refused, waits, got, put_slab, put_queue, msg_free, advance,
  first_message,
}
use ne_xs_operate_system.Messages.Rings.{IsRing-advance, contents-advance, contents-none_left}
use ne_xs_operate_system.Messages.Owners.{
  in_slab, in_queue, same_place, Gains, IsOnce-put, IsOnce-took, moved, queued, view, lists,
  IsOwned,
}
use ne_xs_operate_system.Messages.Calls.{get_queue, copied_out, msg_receive}
use ne_xs_operate_system.Messages.Blocks.{held-put, IsOwned-took, Gains-slab, held-standing}
use ne_xs_operate_system.Messages.Supply.{
  Found, no_task, no_queue, queue, get_queue-Found, rings-put,
}
use ne_xs_operate_system.Messages.Sending.{IsRing-queue}

module _ (A : Allocator) (laws : Laws A) where
  open A use {Memory, alloc}

  -- A block that stands nowhere goes to the free list of its class.
  IsOwned-msg_free :
      (s : Ipc Memory) (o : IsOwned A laws s) (msg : ℕ)
      → o.own msg ≡ none
      → laws.is_held s.heap msg ≡ true
      → IsOwned A laws (msg_free msg s)
  unfolding msg_free
  IsOwned-msg_free s o msg gone held =
      let slab = (s.message msg).slab_class in
      let s' = put_slab s slab (msg ∷ s.slab_free slab) in
      let not_null : (msg == 0) ≡ false = elim (Bool-cases (msg == 0)) [
        | inl null ↦
            let there = ap (laws.is_held s.heap) ((==_iff msg 0).0 null) ∙ laws.null_never s.heap in
            absurd (ground (arith, there, held))
        | inr other ↦ other
      ] in
      let gains : Gains (lists s) (lists s') (in_slab slab) msg =
        Gains-slab A laws s s' slab msg refl (λ c. elim (Bool-cases (c == slab)) [
          | inl same ↦ rw same (ap (λ d. msg ∷ s.slab_free d) (sym ((==_iff c slab).0 same)))
          | inr other ↦ rw other refl
        ]) in
      rw (msg_free, not_null)
        (record {
          own = moved o.own msg (some (in_slab slab));
          rings = o.rings;
          once = IsOnce-put (lists s) (lists s') o.own (in_slab slab) msg gains gone o.once;
          held = held-put A laws s o (in_slab slab) msg held;
        })

  -- The queue of one task without its first message.
  queued-advance :
      (s : Ipc Memory)
      → IsOwned A laws s
      → (r : ℕ) (q : MsgQueue) → s.task_queues r ≡ some q
      → q.count ≢ 0
      → (i : ℕ)
      → queued s i ≡ (
          if i == r
          then first_message q ∷ queued (put_queue s r (advance q)) i
          else queued (put_queue s r (advance q)) i)
  unfolding queued
  queued-advance s o r q e some_left i = elim (Bool-cases (i == r)) [
    | inl same ↦
        let there : s.task_queues i ≡ some q = ap s.task_queues ((==_iff i r).0 same) ∙ e in
        rw (queued, there, same) (contents-advance q (IsRing-queue A laws s o r q e) some_left)
    | inr other ↦ rw (queued, other) refl
  ]

  Gains-advance :
      (s : Ipc Memory)
      → IsOwned A laws s
      → (r : ℕ) (q : MsgQueue) → s.task_queues r ≡ some q
      → q.count ≢ 0
      → Gains (lists (put_queue s r (advance q))) (lists s) (in_queue r) (first_message q)
  unfolding Gains lists same_place count_of
  Gains-advance s o r q e some_left b (in_slab c) = ground arith
  Gains-advance s o r q e some_left b (in_queue i) = elim (Bool-cases (i == r)) [
    | inl same ↦ rw (queued-advance s o r q e some_left i, same) (ground arith)
    | inr other ↦ rw (queued-advance s o r q e some_left i, other) (ground arith)
  ]

  msg_free-put_queue :
      (s : Ipc Memory) (msg r : ℕ) (q : MsgQueue)
      → put_queue (msg_free msg s) r q ≡ msg_free msg (put_queue s r q)
  unfolding msg_free
  msg_free-put_queue s msg r q = elim (Bool-cases (msg == 0)) [
    | inl null ↦ rw (msg_free, null) refl
    | inr not_null ↦ rw (msg_free, not_null) refl
  ]

  view-msg_free : (s : Ipc Memory) (msg i : ℕ) → view (msg_free msg s) i ≡ view s i
  unfolding msg_free view queued
  view-msg_free s msg i = elim (Bool-cases (msg == 0)) [
    | inl null ↦ rw (msg_free, null) refl
    | inr not_null ↦ rw (msg_free, not_null) refl
  ]

  -- What `msg_receive` and the loop of `msg_clear` do to the state when the queue is not empty.
  abbrev pub drop_first : Ipc Memory → ℕ → MsgQueue → Ipc Memory
  drop_first s r q = put_queue (msg_free (first_message q) s) r (advance q)

  pub view-drop_first :
      (s : Ipc Memory)
      → IsOwned A laws s
      → (r : ℕ) (q : MsgQueue) → s.task_queues r ≡ some q
      → q.count ≢ 0
      → (i : ℕ)
      → view s i ≡ (
          if i == r
          then s.message (first_message q) ∷ view (drop_first s r q) i
          else view (drop_first s r q) i)
  unfolding view
  view-drop_first s o r q e some_left i =
      let t = put_queue s r (advance q) in
      let same_view : view (drop_first s r q) i ≡ view t i =
        ap (λ u. view u i) (msg_free-put_queue s (first_message q) r (advance q))
        ∙ view-msg_free t (first_message q) i in
      elim (Bool-cases (i == r)) [
        | inl same ↦
            let front : queued s i ≡ first_message q ∷ queued t i =
              rw (queued-advance s o r q e some_left i, same) refl in
            rw (same_view, same) (ap (map s.message) front)
        | inr other ↦
            let kept : queued s i ≡ queued t i =
              rw (queued-advance s o r q e some_left i, other) refl in
            rw (same_view, other) (ap (map s.message) kept)
      ]

  pub IsOwned-drop_first :
      (s : Ipc Memory)
      → IsOwned A laws s
      → (r : ℕ) (q : MsgQueue) → s.task_queues r ≡ some q
      → q.count ≢ 0
      → IsOwned A laws (drop_first s r q)
  unfolding IsOwned-took
  IsOwned-drop_first s o r q e some_left =
      let t = put_queue s r (advance q) in
      let msg = first_message q in
      let gains = Gains-advance s o r q e some_left in
      let ring = IsRing-advance q (IsRing-queue A laws s o r q e) some_left in
      let was = (IsOnce-took (lists s) (lists t) o.own (in_queue r) msg gains o.once).0 in
      let o₁ =
        IsOwned-took A laws s t o (in_queue r) msg (rings-put A laws s o r (advance q) ring) refl
          gains in
      subst (IsOwned A laws) (sym (msg_free-put_queue s msg r (advance q))) (
        IsOwned-msg_free t o₁ msg (rw ((==_iff msg msg).1 refl) refl)
          (held-standing A laws s o (in_queue r) msg was))

  -- What `msg_receive` comes to: it is refused or waits and no queue changes, or the first message
  -- that waits for the task is copied out and leaves its queue.
  pub data Taking (r : ℕ) (s : Ipc Memory) : Received Memory → Type 0 where
    no_task_queue :
        (s' : Ipc Memory)
        → IsOwned A laws s'
        → ((i : ℕ) → view s' i ≡ view s i)
        → (max_tasks ≤ r) ⊎ (view s r ≡ [])
        → Taking r s (refused s')
    nothing_waits :
        (s' : Ipc Memory)
        → IsOwned A laws s'
        → ((i : ℕ) → view s' i ≡ view s i)
        → r < max_tasks
        → view s r ≡ []
        → Taking r s (waits s')
    first :
        (m : Message) (s' : Ipc Memory)
        → IsOwned A laws s'
        → r < max_tasks
        → ((i : ℕ) → view s i ≡ (if i == r then m ∷ view s' i else view s' i))
        → Taking r s (got m (copied_out A m) s')

  pub view-none_left :
      (s : Ipc Memory) (r : ℕ) (q : MsgQueue)
      → s.task_queues r ≡ some q
      → q.count ≡ 0
      → view s r ≡ []
  unfolding view queued
  view-none_left s r q e none_left =
      rw (queued, e) (ap (map s.message) (contents-none_left q none_left))

  msg_receive-Found :
      (r : ℕ) (s : Ipc Memory) (c : Option MsgQueue × Ipc Memory)
      → get_queue A r s ≡ c
      → IsOwned A laws s
      → Found A laws r s c
      → Taking r s (msg_receive A r s)
  unfolding msg_receive view queued
  msg_receive-Found r s c e o (no_task outside) =
      rw (msg_receive, e, ap (λ x. x.1) e) (no_task_queue s o (λ i. refl) (inl outside))
  msg_receive-Found r s c e o (no_queue heap' no_room inside none_there o') =
      rw (msg_receive, e, ap (λ x. x.1) e)
        (no_task_queue (record s { heap = heap' }) o' (λ i. refl)
          (inr (rw (view, queued, none_there) refl)))
  msg_receive-Found r s c e o (queue q s₁ o₁ lt f views kept) = elim (Bool-cases (q.count == 0)) [
    | inl none_left ↦
        rw (msg_receive, e, none_left, ap (λ x. x.1) e)
          (nothing_waits s₁ o₁ views lt
            (sym (views r) ∙ view-none_left s₁ r q f ((==_iff q.count 0).0 none_left)))
    | inr some_left ↦
        let left : q.count ≢ 0 = ground (arith, some_left) in
        rw (msg_receive, e, some_left, ap (λ x. x.1) e)
          (first (s₁.message (first_message q)) (drop_first s₁ r q)
            (IsOwned-drop_first s₁ o₁ r q f left) lt
            (λ i. sym (views i) ∙ view-drop_first s₁ o₁ r q f left i))
  ]

  -- Over an allocator that fulfils `Laws` and in a state that satisfies `IsOwned`,
  -- `msg_receive` comes to one of three things. It fails, where the task number is 64 or more or the
  -- task has no message; it waits, where the task has none; or it gives the first message that
  -- waits for the task, with the bytes behind it, and takes that one off. Nothing else changes in
  -- any queue.
  pub msg_receive_lem : (r : ℕ) (s : Ipc Memory) → IsOwned A laws s → Taking r s (msg_receive A r s)
  msg_receive_lem r s o =
      msg_receive-Found r s (get_queue A r s) refl o (get_queue-Found A laws r s o)
