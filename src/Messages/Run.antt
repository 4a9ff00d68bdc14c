-- ===== src/Messages/Run.antt =====
-- kernel/messages.c from `msg_init` on, over any calls: which messages stand where.
use mathlib.Core.Path.{subst}
use ne_xs_operate_system.Base.{
  ℕ, zero, suc, ◌+◌, ◌≡◌, ◌≢◌, refl, sym, ap, ◌∙◌, false, Option, none, some, List, [], arith, ◌≤◌,
  ◌<◌, leb, ltb, ◌==◌, if◌then◌else◌, Bool-cases, ==_iff, inl, inr,
}
use ne_xs_operate_system.Base.Counts.{count_of}
use ne_xs_operate_system.Permissions.{max_tasks}
use ne_xs_operate_system.Allocator.{Allocator, Laws}
use ne_xs_operate_system.Messages.{
  Message, MsgQueue, Ipc, Status, Received, refused, waits, got, size_to_slab, msg_max_size,
  msg_init, msg_clear, clear_loop, advance,
}
use ne_xs_operate_system.Messages.Bytes.{size_to_slab-not_none}
use ne_xs_operate_system.Messages.Calls.{msg_send, msg_send_ptr, msg_receive}
use ne_xs_operate_system.Messages.Owners.{
  is_at_only, same_place_comm, Place, in_slab, in_queue, same_place, is_at, IsOnce, lists, queued,
  view, RingAt, IsOwned,
}
use ne_xs_operate_system.Messages.Deliver.{Sent, dropped, appended, deliver_lem}
use ne_xs_operate_system.Messages.Receiving.{
  Taking, no_task_queue, nothing_waits, first, msg_receive_lem, drop_first, view-drop_first,
  IsOwned-drop_first, view-none_left,
}
use ne_xs_operate_system.Messages.Broadcast.{msg_send-broadcast}
use ne_xs_operate_system.Messages.Order.{msg_send_lem}

module _ (A : Allocator) (laws : Laws A) where
  open A use {Memory}

  -- One queue is empty now, and no other has changed.
  pub record Cleared (r : ℕ) (s s' : Ipc Memory) : Type 0 where
    pub owned : IsOwned A laws s'
    pub views : (i : ℕ) → view s' i ≡ (if i == r then [] else view s i)

  view-no_queue : (s : Ipc Memory) (r : ℕ) → s.task_queues r ≡ none → view s r ≡ []
  unfolding view queued
  view-no_queue s r e = rw (view, queued, e) refl

  clear_loop-Cleared :
      (n r : ℕ) (q : MsgQueue) (s : Ipc Memory)
      → IsOwned A laws s
      → s.task_queues r ≡ some q
      → q.count ≡ n
      → Cleared r s (clear_loop n r q s)
  unfolding clear_loop
  clear_loop-Cleared zero r q s o e count = record {
    owned = o;
    views = λ i. elim (Bool-cases (i == r)) [
      | inl same ↦ rw same (ap (view s) ((==_iff i r).0 same) ∙ view-none_left A laws s r q e count)
      | inr other ↦ rw other refl
    ];
  }
  clear_loop-Cleared (suc n) r q s o e count =
      let some_left : q.count ≢ 0 = ground (arith, count) in
      let s' = drop_first A laws s r q in
      let e' : s'.task_queues r ≡ some (advance q) = rw ((==_iff r r).1 refl) refl in
      let rest =
        clear_loop-Cleared n r (advance q) s' (IsOwned-drop_first A laws s o r q e some_left) e'
          (omega (arith, count)) in
      record {
        owned = rest.owned;
        views = λ i. elim (Bool-cases (i == r)) [
          | inl same ↦ rest.views i ∙ rw same refl
          | inr other ↦
              let kept : view s i ≡ view s' i =
                view-drop_first A laws s o r q e some_left i ∙ rw other refl in
              rest.views i ∙ rw (other, kept) refl
        ];
      }

  -- Over an allocator that fulfils `Laws` and in a state that satisfies `IsOwned`, for
  -- a task number below 64: `msg_clear` empties the queue of the task, all of it within the
  -- loop, and changes no other queue.
  pub msg_clear_lem :
      (r : ℕ) (s : Ipc Memory) → r < max_tasks → IsOwned A laws s → Cleared r s (msg_clear r s)
  unfolding msg_clear
  msg_clear_lem r s lt o = by_queue (s.task_queues r) refl
    where
      inside : leb max_tasks r ≡ false
      inside = ground (arith, lt)

      by_queue : (c : Option MsgQueue) → s.task_queues r ≡ c → Cleared r s (msg_clear r s)
      by_queue none e =
          rw (msg_clear, inside, e)
            (record {
              owned = o;
              views = λ i. elim (Bool-cases (i == r)) [
                | inl same ↦ rw same (ap (view s) ((==_iff i r).0 same) ∙ view-no_queue s r e)
                | inr other ↦ rw other refl
              ];
            })
      by_queue (some q) e = rw (msg_clear, inside, e) (clear_loop-Cleared q.count r q s o e refl)

  -- The calls, with what a call gets.
  pub data Call : Type 0 where
    sends : (sender receiver kind : ℕ) (bytes : Option (List ℕ)) (size now : ℕ) → Call
    sends_ptr : (sender receiver ptr size now : ℕ) → Call
    receives : (receiver : ℕ) → Call
    clears : (receiver : ℕ) → Call

  abbrev pub after_receive : Received Memory → Ipc Memory
  after_receive c = elim c [ refused s ↦ s | waits s ↦ s | got m bytes s ↦ s ]

  abbrev pub call : Call → Ipc Memory → Ipc Memory
  call (sends sender receiver kind bytes size now) s =
      (msg_send A sender receiver kind bytes size now s).1
  call (sends_ptr sender receiver ptr size now) s =
      (msg_send_ptr A sender receiver ptr size now s).1
  call (receives receiver) s = after_receive (msg_receive A receiver s)
  call (clears receiver) s = msg_clear receiver s

  pub data Reached : Ipc Memory → Type 0 where
    started : (heap : Memory) (memory : ℕ → Message) → Reached (msg_init heap memory)
    called : (c : Call) (s : Ipc Memory) → Reached s → Reached (call c s)

  IsOwned-started : (heap : Memory) (memory : ℕ → Message) → IsOwned A laws (msg_init heap memory)
  unfolding msg_init IsOnce lists queued count_of is_at RingAt
  IsOwned-started heap memory = record {
    own = λ a. none;
    rings = λ i. tt;
    once = λ b q. elim q as (λ p. count_of b (lists (msg_init heap memory) p) ≡ 0) [
      | in_slab c ↦ refl
      | in_queue i ↦ refl
    ];
    held = λ a free. refl;
  }

  owned-sent :
      (r size : ℕ) (fill : Message → Message) (s : Ipc Memory) (c : Status × Ipc Memory)
      → Sent A laws r size fill s c
      → IsOwned A laws c.1
  owned-sent r size fill s c (dropped s' o views why others) = o
  owned-sent r size fill s c (appended slab s' o lt class_ room views others) = o

  owned-taking :
      (r : ℕ) (s : Ipc Memory) (c : Received Memory)
      → Taking A laws r s c
      → IsOwned A laws (after_receive c)
  owned-taking r s c (no_task_queue s' o views why) = o
  owned-taking r s c (nothing_waits s' o views lt none_there) = o
  owned-taking r s c (first m s' o lt views) = o

  IsOwned-all :
      (sender kind : ℕ) (bytes : Option (List ℕ)) (size now : ℕ) (s : Ipc Memory) (c : Option ℕ)
      → size_to_slab size ≡ c
      → IsOwned A laws s
      → IsOwned A laws (msg_send A sender 0 kind bytes size now s).1
  unfolding msg_send
  IsOwned-all sender kind bytes size now s (some slab) e o =
      (msg_send-broadcast A laws sender kind slab bytes size now s e o).owned
  IsOwned-all sender kind bytes size now s none e o = elim (Bool-cases (ltb msg_max_size size)) [
    | inl large ↦ rw (msg_send, large) o
    | inr small ↦ absurd (size_to_slab-not_none size (ground (arith, small)) e)
  ]

  IsOwned-call : (c : Call) (s : Ipc Memory) → IsOwned A laws s → IsOwned A laws (call c s)
  unfolding msg_clear msg_send_ptr
  IsOwned-call (sends sender receiver kind bytes size now) s o = elim (Bool-cases (receiver == 0)) [
    | inl all ↦
        subst (λ r. IsOwned A laws (msg_send A sender r kind bytes size now s).1)
          (sym ((==_iff receiver 0).0 all))
          (IsOwned-all sender kind bytes size now s (size_to_slab size) refl o)
    | inr one ↦
        owned-sent receiver size _ s _ (
          msg_send_lem A laws sender receiver kind bytes size now s (λ e. ground (arith, one, e)) o)
  ]
  IsOwned-call (sends_ptr sender receiver ptr size now) s o =
      owned-sent receiver 8 _ s _ (deliver_lem A laws receiver 8 _ s o)
  IsOwned-call (receives receiver) s o =
      owned-taking receiver s _ (msg_receive_lem A laws receiver s o)
  IsOwned-call (clears receiver) s o = elim (Bool-cases (leb max_tasks receiver)) [
    | inl outside ↦ rw (msg_clear, outside) o
    | inr inside ↦ (msg_clear_lem receiver s (ground (arith, inside)) o).owned
  ]

  pub IsOwned-Reached : (s : Ipc Memory) → Reached s → IsOwned A laws s
  IsOwned-Reached _ (started heap memory) = IsOwned-started heap memory
  IsOwned-Reached _ (called c s r) = IsOwned-call c s (IsOwned-Reached s r)

  -- Over an allocator that fulfils `Laws`, after `msg_init` and any calls, a block of a message stands in one list at most, a queue or a
  -- free list, and there once, so no message is free and queued, or queued for two tasks.
  pub Reached-apart :
      (s : Ipc Memory) (a : ℕ) (p q : Place)
      → Reached s
      → same_place p q ≡ false
      → count_of a (lists s p) + count_of a (lists s q) ≤ 1
  unfolding IsOnce
  Reached-apart s a p q r other =
      let o = IsOwned-Reached s r in
      let at_p = o.once a p in
      let at_q = o.once a q in
      elim (Bool-cases (is_at p (o.own a))) [
        | inl there ↦
            let elsewhere = is_at_only p q (o.own a) there in
            ground (arith, at_p, at_q, there, elsewhere, same_place_comm p q, other)
        | inr gone ↦ ground (arith, at_p, at_q, gone)
      ]
