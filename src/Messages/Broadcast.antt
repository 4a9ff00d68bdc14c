-- ===== src/Messages/Broadcast.antt =====
-- A broadcast of kernel/messages.c, `msg_send` to the receiver 0: which tasks hear it.
use mathlib.Core.Path.{subst}
use ne_xs_operate_system.Base.{
  ℕ, zero, suc, ◌+◌, ◌-◌, ◌≡◌, ◌≢◌, refl, sym, ap, ◌∙◌, Bool, true, false, not, ◌&&◌, Option, some,
  List, [], ◌∷◌, ◌++◌, arith, ◌≤◌, ◌<◌, ltb, leb, ◌==◌, if◌then◌else◌, Bool-cases, Option-cases,
  inl, inr,
}
use ne_xs_operate_system.Permissions.{max_tasks}
use ne_xs_operate_system.Allocator.{Allocator, Laws}
use ne_xs_operate_system.Messages.{
  Message, MsgQueue, Ipc, Status, success, failure, fresh_message, size_to_slab,
}
use ne_xs_operate_system.Messages.Bytes.{class_or_0, size_to_slab-small}
use ne_xs_operate_system.Messages.Calls.{fill_data, has_queue, broadcast, msg_send, get_queue}
use ne_xs_operate_system.Messages.Owners.{view, IsOwned}
use ne_xs_operate_system.Messages.Deliver.{
  Reason, not_a_task, no_room, no_class, no_queue_memory, no_message_memory, Sent, dropped,
  appended, deliver_lem,
}
use ne_xs_operate_system.Messages.Hearing.{
  marked, IsEligible, NoMemory, Heard, Heard-skip, Heard-more,
}

module _ (A : Allocator) (laws : Laws A) where
  open A use {Memory}

  -- The same for `msg_send`, which counts from 0 and keeps only whether the number is positive.
  pub record Announced (sender slab : ℕ) (before : ℕ → Ipc Memory) (m : ℕ → Message)
      (s : Ipc Memory) (c : Status × Ipc Memory) : Type 0 where
    pub heard : ℕ → Bool
    pub owned : IsOwned A laws c.1
    pub within : (j : ℕ) → heard j ≡ true → (1 ≤ j) × (j < max_tasks) × (j ≢ sender)
    pub eligible : (j : ℕ) → heard j ≡ true → IsEligible A laws s j
    pub complete :
        (j : ℕ)
        → 1 ≤ j
        → j < max_tasks
        → j ≢ sender
        → IsEligible A laws s j
        → heard j ≡ false
        → NoMemory A laws slab (before j)
    pub status : c.0 ≡ (if ltb 0 (marked (max_tasks - 1) 1 heard) then success else failure)
    pub views : (j : ℕ) → view c.1 j ≡ (if heard j then view s j ++ m j ∷ [] else view s j)

  has_queue-some :
      (s : Ipc Memory) (i : ℕ)
      → has_queue A s i ≡ true
      → (q : MsgQueue) × (s.task_queues i ≡ some q)
  has_queue-some s i e = elim (Option-cases (s.task_queues i)) [
    | inl gone ↦ let e' = rw (has_queue, gone) at e in absurd (ground (arith, e'))
    | inr found ↦ found
  ]

  get_queue-there :
      (s : Ipc Memory) (i : ℕ) (q : MsgQueue)
      → i < max_tasks
      → s.task_queues i ≡ some q
      → get_queue A i s ≡ (some q, s)
  unfolding get_queue
  get_queue-there s i q lt e =
      let inside : leb max_tasks i ≡ false = ground (arith, lt) in rw (get_queue, inside, e) refl

  -- The only reason for a task with room in its queue and a size of the class.
  Reason-NoMemory :
      (i size slab : ℕ) (s : Ipc Memory)
      → size_to_slab size ≡ some slab
      → i < max_tasks
      → IsEligible A laws s i
      → Reason A laws i size s
      → NoMemory A laws slab s
  Reason-NoMemory i size slab s e lt room (not_a_task outside) = absurd (omega (arith, lt, outside))
  Reason-NoMemory i size slab s e lt room (no_room full) = absurd (omega (arith, full, room.room))
  Reason-NoMemory i size slab s e lt room (no_class none_there) =
      absurd (ground (arith, sym e ∙ none_there))
  Reason-NoMemory i size slab s e lt room (no_queue_memory heap' none_there refused) =
      absurd (ground (arith, sym room.has ∙ none_there))
  Reason-NoMemory i size slab s e lt room (no_message_memory slab' heap' class_ empty refused) =
      let same : slab' ≡ slab = ap class_or_0 (sym class_ ∙ e) in
      let there : (get_queue A i s).1 ≡ s =
        ap (λ x. x.1) (get_queue-there s i room.found lt room.has) in
      subst (λ k. NoMemory A laws k s) same
        (subst (NoMemory A laws slab') there
          (record { none_free = empty; exhausted = ap (λ x. x.0) refused }))

  Heard-Sent :
      (n i sender kind slab : ℕ) (bytes : Option (List ℕ)) (size now reached : ℕ) (s : Ipc Memory)
      (before : ℕ → Ipc Memory) (q : MsgQueue) (c : Status × Ipc Memory)
      → let m : ℕ → Message =
          λ j. fill_data A sender j kind bytes size now (fresh_message slab size) in
        let reached_now : ℕ = elim c.0 [ success ↦ reached + 1 | failure ↦ reached ] in
        let rest : ℕ → ℕ → Ipc Memory → ℕ × Ipc Memory =
          λ k. broadcast A k (i + 1) sender kind bytes size now in
        size_to_slab size ≡ some slab
        → i ≢ sender
        → s.task_queues i ≡ some q
        → before i ≡ s
        → ((j : ℕ) → i + 1 ≤ j → before j ≡ (rest (j - (i + 1)) reached_now c.1).1)
        → ((reached' : ℕ) (s' : Ipc Memory)
            → IsOwned A laws s'
            → Heard A laws n
                (i + 1)
                sender
                reached'
                slab
                (λ j. (rest (j - (i + 1)) reached' s').1)
                m
                s'
                (rest n reached' s'))
        → Sent A laws i size (fill_data A sender i kind bytes size now) s c
        → Heard A laws (suc n) i sender reached slab before m s (rest n reached_now c.1)
  Heard-Sent n i sender kind slab bytes size now reached s before q c e other there first before_e
        later (dropped s' o views why others) =
      Heard-skip A laws n i sender reached slab before _ _ s s' _ views others before_e
        (λ lt not_sender room.
          subst (NoMemory A laws slab) (sym first) (Reason-NoMemory i size slab s e lt room why))
        (later reached s' o)
  Heard-Sent n i sender kind slab bytes size now reached s before q c e other there first before_e
        later (appended slab' s' o lt class_ room views others) =
      let same : slab' ≡ slab = ap class_or_0 (sym class_ ∙ e) in
      let m = λ (k : ℕ). fill_data A sender i kind bytes size now (fresh_message k size) in
      Heard-more A laws n i sender reached slab before _ _ s s' _ other
        (record { found = q; has = there; room = room })
        (subst (λ k. (j : ℕ) → view s' j ≡ (if j == i then view s j ++ m k ∷ [] else view s j)) same
          views)
        others before_e (later (reached + 1) s' o)

  broadcast-Heard :
      (n i sender kind slab : ℕ) (bytes : Option (List ℕ)) (size now reached : ℕ) (s : Ipc Memory)
      → size_to_slab size ≡ some slab
      → IsOwned A laws s
      → Heard A laws n i sender reached slab
          (λ j. (broadcast A (j - i) i sender kind bytes size now reached s).1)
          (λ j. fill_data A sender j kind bytes size now (fresh_message slab size))
          s
          (broadcast A n i sender kind bytes size now reached s)
  unfolding broadcast marked
  broadcast-Heard zero i sender kind slab bytes size now reached s e o = record {
    heard = λ j. false;
    owned = o;
    within = λ j f. absurd (ground (arith, f));
    eligible = λ j f. absurd (ground (arith, f));
    complete = λ j low high. absurd (omega (arith, low, high));
    counted = omega arith;
    views = λ j. refl;
  }
  broadcast-Heard (suc n) i sender kind slab bytes size now reached s e o =
      let run : ℕ → ℕ × Ipc Memory = λ k. broadcast A k i sender kind bytes size now reached s in
      let first : (run (i - i)).1 ≡ s =
        (let e : i - i ≡ 0 = omega arith in ap (λ k. (run k).1) e) in
      let next : (j : ℕ) → i + 1 ≤ j → (run (j - i)).1 ≡ (run (suc (j - (i + 1)))).1 =
        λ j le. (let e : j - i ≡ suc (j - (i + 1)) = omega (arith, le) in ap (λ k. (run k).1) e) in
      elim (Bool-cases (not (i == sender) && has_queue A s i)) [
        | inr passed ↦
            rw (broadcast, passed)
              (Heard-skip A laws n i sender reached slab _ _ _ s s _ (λ j. refl) (λ j apart. refl)
                (λ j le. next j le ∙ rw (broadcast, passed) refl)
                (λ lt other room. absurd (passed_over s i sender passed other room))
                (broadcast-Heard n (i + 1) sender kind slab bytes size now reached s e o))
        | inl receives ↦
            let other : i ≢ sender = ground (arith, receives) in
            let (q, there) = has_queue-some s i (ground (arith, receives)) in
            rw (broadcast, receives)
              (Heard-Sent n i sender kind slab bytes size now reached s _ q _ e other there first
                (λ j le. next j le ∙ rw (broadcast, receives) refl)
                (λ reached' s' o'.
                  broadcast-Heard n (i + 1) sender kind slab bytes size now reached' s' e o')
                (deliver_lem A laws i size _ s o))
      ]
    where
      passed_over :
          (s : Ipc Memory) (i sender : ℕ)
          → (not (i == sender) && has_queue A s i) ≡ false
          → i ≢ sender
          → IsEligible A laws s i
          → ⊥
      passed_over s i sender passed other room =
          let f : (not (i == sender) && true) ≡ false = rw (has_queue, room.has) at passed in
          ground (arith, f, other)

  -- Over an allocator that fulfils `Laws` and in a state that satisfies `IsOwned`, a broadcast of a
  -- size that has a class: the tasks that hear it, among 1 to 63 without the sender, get the message
  -- behind those that wait for them, and every other queue stays as it is. Each of them has a queue
  -- with room; and any other such task with room misses it only because, when the loop comes to it,
  -- no block of the class is free and the allocator gives none. The call succeeds just if a task
  -- hears it.
  pub msg_send-broadcast :
      (sender kind slab : ℕ) (bytes : Option (List ℕ)) (size now : ℕ) (s : Ipc Memory)
      → size_to_slab size ≡ some slab
      → IsOwned A laws s
      → Announced sender slab
          (λ j. (broadcast A (j - 1) 1 sender kind bytes size now 0 s).1)
          (λ j. fill_data A sender j kind bytes size now (fresh_message slab size))
          s
          (msg_send A sender 0 kind bytes size now s)
  unfolding msg_send
  msg_send-broadcast sender kind slab bytes size now s e o =
      let h = broadcast-Heard (max_tasks - 1) 1 sender kind slab bytes size now 0 s e o in
      let c = broadcast A (max_tasks - 1) 1 sender kind bytes size now 0 s in
      let same : c.0 ≡ marked (max_tasks - 1) 1 h.heard = omega (arith, h.counted) in
      rw (msg_send, size_to_slab-small size slab e)
        (record {
          heard = h.heard;
          owned = h.owned;
          within = h.within;
          eligible = h.eligible;
          complete = λ j low high. h.complete j low (omega (arith, high)) high;
          status = ap (λ k. if ltb 0 k then success else failure) same;
          views = h.views;
        })
