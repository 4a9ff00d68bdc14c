-- ===== src/Messages/Sending.antt =====
-- The two ways to send of kernel/messages.c: a message enters one queue behind the others.
use mathlib.Core.Path.{subst}
use mathlib.Core.List.{map-append}
use ne_xs_operate_system.Base.{
  ℕ, ◌+◌, ◌≡◌, refl, ap, ◌∙◌, true, ◌&&◌, none, some, [], ◌∷◌, ◌++◌, arith, ◌<◌, ◌==◌,
  if◌then◌else◌, ==_iff, Bool-cases, inl, inr,
}
use ne_xs_operate_system.Base.Counts.{count_of, count_of-append}
use ne_xs_operate_system.Allocator.{Allocator, Laws}
use ne_xs_operate_system.Messages.{MsgQueue, Ipc, append_message, msg_queue_size}
use ne_xs_operate_system.Messages.Rings.{IsRing, pushed, IsRing-pushed, contents-pushed}
use ne_xs_operate_system.Messages.Owners.{
  in_slab, in_queue, same_place, Gains, IsOnce-put, moved, queued, view, lists, RingAt, IsOwned,
}
use ne_xs_operate_system.Messages.Blocks.{held-put}
use ne_xs_operate_system.Messages.Supply.{rings-put}

module _ (A : Allocator) (laws : Laws A) where
  open A use {Memory, alloc}

  -- A queue is a ring.
  pub IsRing-queue :
      (s : Ipc Memory)
      → IsOwned A laws s
      → (r : ℕ) (q : MsgQueue) → s.task_queues r ≡ some q
      → IsRing q
  unfolding RingAt
  IsRing-queue s o r q e = subst RingAt e (o.rings r)

  queued-append_message :
      (s : Ipc Memory)
      → IsOwned A laws s
      → (r msg : ℕ) (q : MsgQueue) → s.task_queues r ≡ some q
      → q.count < msg_queue_size
      → (i : ℕ)
      → queued (append_message r q msg s) i
        ≡ (if i == r then queued s i ++ msg ∷ [] else queued s i)
  unfolding queued append_message
  queued-append_message s o r msg q e room i = elim (Bool-cases (i == r)) [
    | inl same ↦
        let there : s.task_queues i ≡ some q = ap s.task_queues ((==_iff i r).0 same) ∙ e in
        rw (queued, append_message, same, there)
          (contents-pushed q msg (IsRing-queue s o r q e) room)
    | inr other ↦ rw (queued, append_message, other) refl
  ]

  -- The message enters the queue behind the others.
  pub view-append_message :
      (s : Ipc Memory)
      → IsOwned A laws s
      → (r msg : ℕ) (q : MsgQueue) → s.task_queues r ≡ some q
      → q.count < msg_queue_size
      → (i : ℕ)
      → view (append_message r q msg s) i
        ≡ (if i == r then view s i ++ s.message msg ∷ [] else view s i)
  unfolding view append_message
  view-append_message s o r msg q e room i = elim (Bool-cases (i == r)) [
    | inl same ↦
        rw (queued-append_message s o r msg q e room i, same)
          (map-append s.message (queued s i) (msg ∷ []))
    | inr other ↦ rw (queued-append_message s o r msg q e room i, other) refl
  ]

  last : (b msg n : ℕ) → n + count_of b (msg ∷ []) ≡ (if b == msg && true then 1 else 0) + n
  unfolding count_of
  last b msg n = ground arith

  Gains-append_message :
      (s : Ipc Memory)
      → IsOwned A laws s
      → (r msg : ℕ) (q : MsgQueue) → s.task_queues r ≡ some q
      → q.count < msg_queue_size
      → Gains (lists s) (lists (append_message r q msg s)) (in_queue r) msg
  unfolding Gains lists same_place append_message
  Gains-append_message s o r msg q e room b (in_slab c) = ground arith
  Gains-append_message s o r msg q e room b (in_queue i) = elim (Bool-cases (i == r)) [
    | inl same ↦
        rw (queued-append_message s o r msg q e room i, same)
          (count_of-append b (queued s i) (msg ∷ []) ∙ last b msg (count_of b (queued s i)))
    | inr other ↦ rw (queued-append_message s o r msg q e room i, other) (ground arith)
  ]

  pub IsOwned-append_message :
      (s : Ipc Memory) (o : IsOwned A laws s) (r msg : ℕ) (q : MsgQueue)
      → s.task_queues r ≡ some q
      → q.count < msg_queue_size
      → o.own msg ≡ none
      → laws.is_held s.heap msg ≡ true
      → IsOwned A laws (append_message r q msg s)
  unfolding append_message
  IsOwned-append_message s o r msg q e room gone held = record {
    own = moved o.own msg (some (in_queue r));
    rings =
        rings-put A laws s o r (pushed q msg) (IsRing-pushed q msg (IsRing-queue s o r q e) room);
    once =
        IsOnce-put (lists s) (lists (append_message r q msg s)) o.own (in_queue r) msg
          (Gains-append_message s o r msg q e room) gone o.once;
    held = held-put A laws s o (in_queue r) msg held;
  }
