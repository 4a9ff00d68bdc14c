-- ===== src/Messages/Hearing.antt =====
-- Which tasks hear a broadcast of kernel/messages.c, task by task.
use mathlib.Core.Path.{subst}
use ne_xs_operate_system.Base.{
  ℕ, zero, suc, ◌+◌, ◌≡◌, ◌≢◌, refl, sym, ap, ◌∙◌, Bool, true, false, ◌||◌, none, some, [], ◌∷◌,
  ◌++◌, arith, ◌≤◌, ◌<◌, ◌==◌, if◌then◌else◌, Bool-cases, ==_iff, inl, inr, length,
}
use ne_xs_operate_system.Permissions.{max_tasks}
use ne_xs_operate_system.Allocator.{Allocator, Laws}
use ne_xs_operate_system.Messages.{Message, MsgQueue, Ipc, msg_queue_size, message_size, slab_size}
use ne_xs_operate_system.Messages.Owners.{view, IsOwned}

-- How many of the `n` tasks from `i` on are marked.
unfoldable pub marked : ℕ → ℕ → (ℕ → Bool) → ℕ
marked zero i heard = 0
marked (suc n) i heard = (if heard i then 1 else 0) + marked n (i + 1) heard

marked_ext :
    (n i : ℕ) (f g : ℕ → Bool) → ((j : ℕ) → i ≤ j → f j ≡ g j) → marked n i f ≡ marked n i g
unfolding marked
marked_ext zero i f g e = refl
marked_ext (suc n) i f g e =
    let rest = marked_ext n (i + 1) f g (λ j le. e j (omega arith)) in
    rw (e i (omega arith), rest) refl

-- One more mark, before the others.
also : ℕ → (ℕ → Bool) → ℕ → Bool
also i heard j = j == i || heard j

marked-also :
    (n i : ℕ) (heard : ℕ → Bool) → marked (suc n) i (also i heard) ≡ suc (marked n (i + 1) heard)
unfolding marked also
marked-also n i heard =
    let rest = marked_ext n (i + 1) (also i heard) heard (λ j le. ground (arith, le)) in
    let here : (i == i) ≡ true = (==_iff i i).1 refl in rw (here, rest) (omega arith)

module _ (A : Allocator) (laws : Laws A) where
  open A use {Memory, alloc}

  -- The task has a queue, and this has room.
  pub record IsEligible (s : Ipc Memory) (j : ℕ) : Type 0 where
    pub found : MsgQueue
    pub has : s.task_queues j ≡ some found
    pub room : length (view s j) < msg_queue_size

  -- No block of the class is free, and the allocator gives none.
  pub record NoMemory (slab : ℕ) (t : Ipc Memory) : Type 0 where
    pub none_free : t.slab_free slab ≡ []
    pub exhausted : (alloc t.heap (message_size + slab_size slab)).0 ≡ none

  IsEligible-back :
      (s s' : Ipc Memory) (j : ℕ)
      → s'.task_queues j ≡ s.task_queues j
      → view s' j ≡ view s j
      → IsEligible s' j
      → IsEligible s j
  IsEligible-back s s' j queues same e = record {
    found = e.found;
    has = sym queues ∙ e.has;
    room = omega (arith, e.room, ap length same);
  }

  -- The tasks that heard a broadcast to the `n` tasks from `i` on: they have the message behind
  -- those that waited, no other queue has changed, and their number is added to `reached`. They are
  -- those with room in their queue, less those for which there is no memory when it is their turn,
  -- in the state `before`.
  pub record Heard (n i sender reached slab : ℕ) (before : ℕ → Ipc Memory) (m : ℕ → Message)
      (s : Ipc Memory) (c : ℕ × Ipc Memory) : Type 0 where
    pub heard : ℕ → Bool
    pub owned : IsOwned A laws c.1
    pub within : (j : ℕ) → heard j ≡ true → (i ≤ j) × (j < i + n) × (j ≢ sender)
    pub eligible : (j : ℕ) → heard j ≡ true → IsEligible s j
    pub complete :
        (j : ℕ)
        → i ≤ j
        → j < i + n
        → j < max_tasks
        → j ≢ sender
        → IsEligible s j
        → heard j ≡ false
        → NoMemory slab (before j)
    pub counted : c.0 ≡ reached + marked n i heard
    pub views : (j : ℕ) → view c.1 j ≡ (if heard j then view s j ++ m j ∷ [] else view s j)

  not_yet :
      (n i sender reached slab : ℕ) (before : ℕ → Ipc Memory) (m : ℕ → Message) (s : Ipc Memory)
      (c : ℕ × Ipc Memory)
      → (h : Heard n (i + 1) sender reached slab before m s c) → h.heard i ≡ false
  not_yet n i sender reached slab before m s c h = elim (Bool-cases (h.heard i)) [
    | inl e ↦ let (low, high, not_sender) = h.within i e in absurd (omega (arith, low))
    | inr e ↦ e
  ]

  -- The task `i` is passed over, or its queue refuses the message.
  pub Heard-skip :
      (n i sender reached slab : ℕ) (before before' : ℕ → Ipc Memory) (m : ℕ → Message)
      (s s' : Ipc Memory) (c : ℕ × Ipc Memory)
      → ((j : ℕ) → view s' j ≡ view s j)
      → ((j : ℕ) → (j == i) ≡ false → s'.task_queues j ≡ s.task_queues j)
      → ((j : ℕ) → i + 1 ≤ j → before j ≡ before' j)
      → (i < max_tasks → i ≢ sender → IsEligible s i → NoMemory slab (before i))
      → Heard n (i + 1) sender reached slab before' m s' c
      → Heard (suc n) i sender reached slab before m s c
  unfolding marked
  Heard-skip n i sender reached slab before before' m s s' c same others later here h =
      let not_here : h.heard i ≡ false = not_yet n i sender reached slab before' m s' c h in
      record {
        heard = h.heard;
        owned = h.owned;
        within = λ j e.
            let (low, high, other) = h.within j e in
            (omega (arith, low), omega (arith, high), other);
        eligible = λ j e.
            let (low, high, other) = h.within j e in
            IsEligible-back s s' j (others j (ground (arith, low))) (same j) (h.eligible j e);
        complete = λ j low high bound other room silent. elim (Bool-cases (j == i)) [
          | inl at_i ↦
              let e : i ≡ j = sym ((==_iff j i).0 at_i) in
              subst (λ k. k < max_tasks → k ≢ sender → IsEligible s k → NoMemory slab (before k)) e
                here bound other room
          | inr apart ↦
              let above : i + 1 ≤ j = ground (arith, low, apart) in
              subst (NoMemory slab) (sym (later j above)) (
                h.complete j above (omega (arith, high)) bound other
                  (IsEligible-back s' s j (sym (others j apart)) (sym (same j)) room) silent)
        ];
        counted = rw not_here (omega (arith, h.counted));
        views = λ j. rw (sym (same j)) (h.views j);
      }

  pub Heard-more :
      (n i sender reached slab : ℕ) (before before' : ℕ → Ipc Memory) (m : ℕ → Message)
      (s s' : Ipc Memory) (c : ℕ × Ipc Memory)
      → i ≢ sender
      → IsEligible s i
      → ((j : ℕ) → view s' j ≡ (if j == i then view s j ++ m i ∷ [] else view s j))
      → ((j : ℕ) → (j == i) ≡ false → s'.task_queues j ≡ s.task_queues j)
      → ((j : ℕ) → i + 1 ≤ j → before j ≡ before' j)
      → Heard n (i + 1) sender (reached + 1) slab before' m s' c
      → Heard (suc n) i sender reached slab before m s c
  unfolding also
  Heard-more n i sender reached slab before before' m s s' c other here there others later h =
      let not_here : h.heard i ≡ false = not_yet n i sender (reached + 1) slab before' m s' c h in
      let same : (j : ℕ) → (j == i) ≡ false → view s' j ≡ view s j =
        λ j apart. there j ∙ rw apart refl in
      record {
        heard = also i h.heard;
        owned = h.owned;
        within = λ j e. elim (Bool-cases (j == i)) [
          | inl same ↦
              let at_i : j ≡ i = (==_iff j i).0 same in
              (omega (arith, at_i), omega (arith, at_i), λ f. other (sym at_i ∙ f))
          | inr apart ↦
              let (low, high, not_sender) = h.within j (sym (rw apart refl) ∙ e) in
              (omega (arith, low), omega (arith, high), not_sender)
        ];
        eligible = λ j e. elim (Bool-cases (j == i)) [
          | inl at_i ↦ subst (IsEligible s) (sym ((==_iff j i).0 at_i)) here
          | inr apart ↦
              IsEligible-back s s' j (others j apart) (same j apart)
                (h.eligible j (sym (rw apart refl) ∙ e))
        ];
        complete = λ j low high bound not_sender room silent. elim (Bool-cases (j == i)) [
          | inl at_i ↦ absurd (ground (arith, silent, at_i))
          | inr apart ↦
              let above : i + 1 ≤ j = ground (arith, low, apart) in
              subst (NoMemory slab) (sym (later j above)) (
                h.complete j above (omega (arith, high)) bound not_sender
                  (IsEligible-back s' s j (sym (others j apart)) (sym (same j apart)) room)
                  (sym (rw apart refl) ∙ silent))
        ];
        counted = omega (arith, h.counted, marked-also n i h.heard);
        views = λ j. elim (Bool-cases (j == i)) [
          | inl same ↦
              let at_i : j ≡ i = (==_iff j i).0 same in
              let unheard : h.heard j ≡ false = ap h.heard at_i ∙ not_here in
              let once : view c.1 j ≡ view s' j = h.views j ∙ rw unheard refl in
              rw (also, same) (once ∙ there j ∙ rw (same, at_i) refl)
          | inr apart ↦
              let before : view s' j ≡ view s j = there j ∙ rw apart refl in
              rw (also, apart) (h.views j ∙ rw before refl)
        ];
      }
