-- ===== src/Messages/Blocks.antt =====
-- The blocks of messages of kernel/messages.c: how an allocation and a release move them.
use mathlib.Core.Path.{subst}
use ne_xs_operate_system.Base.{
  ℕ, ◌+◌, ◌≡◌, refl, sym, ap, ◌∙◌, true, false, ◌&&◌, Option, none, some, List, [], ◌∷◌, map, arith,
  ◌==◌, if◌then◌else◌, ==_iff, Bool-cases, inl, inr,
}
use ne_xs_operate_system.Base.Counts.{count_of, map-absent}
use ne_xs_operate_system.Allocator.{Allocator, Laws}
use ne_xs_operate_system.Messages.{
  Message, Ipc, put_slab, count_slab, put_message, message_size, slab_size,
}
use ne_xs_operate_system.Messages.Rings.{contents}
use ne_xs_operate_system.Messages.Owners.{
  Place, in_slab, in_queue, same_place, is_at, IsOnce, Gains, IsOnce-took, moved, queued, view,
  lists, RingAt, IsOwned,
}
use ne_xs_operate_system.Messages.Calls.{take_slab}

module _ (A : Allocator) (laws : Laws A) where
  open A use {Memory, alloc}

  -- An address that the allocator gives out stands in no list.
  nowhere-fresh :
      (s : Ipc Memory) (o : IsOwned A laws s) (n a : ℕ) (heap' : Memory)
      → alloc s.heap n ≡ (some a, heap')
      → o.own a ≡ none
  nowhere-fresh s o n a heap' e = o.held a (laws.fresh s.heap heap' n a e)

  pub still-gains :
      (heap heap' : Memory) (n a : ℕ)
      → alloc heap n ≡ (some a, heap')
      → (b : ℕ) → laws.is_held heap' b ≡ false
      → laws.is_held heap b ≡ false
  still-gains heap heap' n a e b free = ground (arith, free, laws.gains heap heap' n a b e)

  pub still-keeps :
      (heap heap' : Memory) (n : ℕ)
      → alloc heap n ≡ (none, heap')
      → (b : ℕ) → laws.is_held heap' b ≡ false
      → laws.is_held heap b ≡ false
  still-keeps heap heap' n e b free = sym (laws.keeps heap heap' n b e) ∙ free

  pub lists-kept :
      (s s' : Ipc Memory)
      → s'.slab_free ≡ s.slab_free
      → s'.task_queues ≡ s.task_queues
      → (p : Place) → lists s' p ≡ lists s p
  unfolding lists queued
  lists-kept s s' slabs queues (in_slab c) = ap (λ f. f c) slabs
  lists-kept s s' slabs queues (in_queue i) =
      ap (λ f. elim (f i) [ none ↦ [] | some q ↦ contents q ]) queues

  -- A step that moves no address between lists and takes no block back.
  unfoldable pub IsOwned-kept :
      (s s' : Ipc Memory)
      → s'.slab_free ≡ s.slab_free
      → s'.task_queues ≡ s.task_queues
      → ((b : ℕ) → laws.is_held s'.heap b ≡ false → laws.is_held s.heap b ≡ false)
      → IsOwned A laws s
      → IsOwned A laws s'
  unfolding IsOnce
  IsOwned-kept s s' slabs queues still o = record {
    own = o.own;
    rings = λ i. subst (λ f. RingAt (f i)) (sym queues) (o.rings i);
    once = λ b q. ap (count_of b) (lists-kept s s' slabs queues q) ∙ o.once b q;
    held = λ a free. o.held a (still a free);
  }

  swap : (b msg n : ℕ) → (if msg == b then 1 else 0) + n ≡ (if b == msg && true then 1 else 0) + n
  swap b msg n = ground arith

  -- `t` is `s` with the address `msg` at the head of one free list.
  pub Gains-slab :
      (s t : Ipc Memory) (slab msg : ℕ)
      → t.task_queues ≡ s.task_queues
      → ((c : ℕ) → t.slab_free c ≡ (if c == slab then msg ∷ s.slab_free c else s.slab_free c))
      → Gains (lists s) (lists t) (in_slab slab) msg
  unfolding Gains lists queued count_of same_place
  Gains-slab s t slab msg queues slabs b (in_slab c) = elim (Bool-cases (c == slab)) [
    | inl e ↦ rw (slabs c, e) (swap b msg (count_of b (s.slab_free c)))
    | inr e ↦ rw (slabs c, e) (ground arith)
  ]
  Gains-slab s t slab msg queues slabs b (in_queue i) =
      ap (λ f. count_of b (elim (f i) [ none ↦ [] | some q ↦ contents q ])) queues ∙ ground arith

  -- `take_slab`: a block that stands in no list now, or none.
  pub data Taken (slab : ℕ) (s : Ipc Memory) : Option ℕ × Ipc Memory → Type 0 where
    no_block :
        (heap' : Memory)
        → s.slab_free slab ≡ []
        → alloc s.heap (message_size + slab_size slab) ≡ (none, heap')
        → IsOwned A laws (record s { heap = heap' })
        → Taken slab s (none, record s { heap = heap' })
    block :
        (msg : ℕ) (s' : Ipc Memory) (o : IsOwned A laws s')
        → o.own msg ≡ none
        → laws.is_held s'.heap msg ≡ true
        → s'.task_queues ≡ s.task_queues
        → s'.message ≡ s.message
        → Taken slab s (some msg, s')

  take_slab-alloc :
      (slab : ℕ) (s : Ipc Memory)
      → IsOwned A laws s
      → s.slab_free slab ≡ []
      → (r : Option ℕ × Memory) → alloc s.heap (message_size + slab_size slab) ≡ r
      → Taken slab s (take_slab A slab s)
  unfolding take_slab IsOwned-kept
  take_slab-alloc slab s o e (none, heap') f =
      rw (take_slab, e, f, ap (λ r. r.1) f)
        (no_block heap' e f
          (IsOwned-kept s (record s { heap = heap' }) refl refl (still-keeps s.heap heap' _ f) o))
  take_slab-alloc slab s o e (some a, heap') f =
      rw (take_slab, e, f, ap (λ r. r.1) f)
        (let s' = count_slab (record s { heap = heap' }) slab in
          let o' = IsOwned-kept s s' refl refl (still-gains s.heap heap' _ a f) o in
          block a s' o' (o.held a (laws.fresh s.heap heap' _ a f))
            (ground (arith, laws.gains s.heap heap' _ a a f)) refl refl)

  -- What stands somewhere is handed out.
  pub held-standing :
      (s : Ipc Memory) (o : IsOwned A laws s) (p : Place) (a : ℕ)
      → is_at p (o.own a) ≡ true
      → laws.is_held s.heap a ≡ true
  unfolding is_at
  held-standing s o p a stands = elim (Bool-cases (laws.is_held s.heap a)) [
    | inl is ↦ is
    | inr not_held ↦
        let gone : is_at p (o.own a) ≡ false = ap (is_at p) (o.held a not_held) in
        absurd (ground (arith, gone, stands))
  ]

  -- A block that is handed out may be put anywhere.
  pub held-put :
      (s : Ipc Memory) (o : IsOwned A laws s) (p : Place) (msg : ℕ)
      → laws.is_held s.heap msg ≡ true
      → (a : ℕ) → laws.is_held s.heap a ≡ false
      → moved o.own msg (some p) a ≡ none
  held-put s o p msg held a free = elim (Bool-cases (a == msg)) [
    | inl same ↦
        let there : laws.is_held s.heap a ≡ true =
          ap (laws.is_held s.heap) ((==_iff a msg).0 same) ∙ held in
        absurd (ground (arith, there, free))
    | inr other ↦ rw other (o.held a free)
  ]

  -- A step that takes one address out of its list.
  unfoldable pub IsOwned-took :
      (s s' : Ipc Memory) (o : IsOwned A laws s) (p : Place) (msg : ℕ)
      → ((i : ℕ) → RingAt (s'.task_queues i))
      → s'.heap ≡ s.heap
      → Gains (lists s') (lists s) p msg
      → IsOwned A laws s'
  IsOwned-took s s' o p msg rings heap gains = record {
    own = moved o.own msg none;
    rings = rings;
    once = (IsOnce-took (lists s) (lists s') o.own p msg gains o.once).1;
    held = λ a free. elim (Bool-cases (a == msg)) [
      | inl e ↦ rw e refl
      | inr e ↦ rw e (o.held a (ap (λ h. laws.is_held h a) (sym heap) ∙ free))
    ];
  }

  take_slab-list :
      (slab : ℕ) (s : Ipc Memory)
      → IsOwned A laws s
      → (msg : ℕ) (msgs : List ℕ) → s.slab_free slab ≡ msg ∷ msgs
      → Taken slab s (take_slab A slab s)
  unfolding take_slab IsOwned-took
  take_slab-list slab s o msg msgs e =
      let s' = put_slab s slab msgs in
      let gains : Gains (lists s') (lists s) (in_slab slab) msg =
        Gains-slab s' s slab msg refl (λ c. elim (Bool-cases (c == slab)) [
          | inl same ↦ rw same (ap s.slab_free ((==_iff c slab).0 same) ∙ e)
          | inr other ↦ rw other refl
        ]) in
      let was = (IsOnce-took (lists s) (lists s') o.own (in_slab slab) msg gains o.once).0 in
      let o' = IsOwned-took s s' o (in_slab slab) msg o.rings refl gains in
      let gone : o'.own msg ≡ none = rw ((==_iff msg msg).1 refl) refl in
      rw (take_slab, e) (block msg s' o' gone (held-standing s o (in_slab slab) msg was) refl refl)

  pub take_slab-Taken :
      (slab : ℕ) (s : Ipc Memory) → IsOwned A laws s → Taken slab s (take_slab A slab s)
  take_slab-Taken slab s o = by_list (s.slab_free slab) refl
    where
      by_list : (xs : List ℕ) → s.slab_free slab ≡ xs → Taken slab s (take_slab A slab s)
      by_list [] e = take_slab-alloc slab s o e (alloc s.heap (message_size + slab_size slab)) refl
      by_list (msg ∷ msgs) e = take_slab-list slab s o msg msgs e

  pub view-put_message :
      (s : Ipc Memory) (o : IsOwned A laws s) (msg : ℕ) (m : Message)
      → o.own msg ≡ none
      → (i : ℕ) → view (put_message s msg m) i ≡ view s i
  unfolding view queued lists is_at IsOnce
  view-put_message s o msg m gone i =
      map-absent s.message msg m (queued s i)
        (o.once msg (in_queue i) ∙ ap (λ p. if is_at (in_queue i) p then 1 else 0) gone)

  pub view-kept :
      (s s' : Ipc Memory)
      → s'.task_queues ≡ s.task_queues
      → s'.message ≡ s.message
      → (i : ℕ) → view s' i ≡ view s i
  unfolding view queued
  view-kept s s' queues messages i =
      ap (λ f. map s'.message (elim (f i) [ none ↦ [] | some q ↦ contents q ])) queues
      ∙ ap (λ f. map f (queued s i)) messages
