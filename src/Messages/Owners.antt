-- ===== src/Messages/Owners.antt =====
-- The blocks of messages of kernel/messages.c: each address stands in at most one list, a free list
-- or a queue, and there once.
use ne_xs_operate_system.Base.{
  ℕ, ◌+◌, ◌≡◌, refl, sym, ap, ◌∙◌, Bool, true, false, ◌&&◌, Option, none, some, List, [], map,
  arith, ◌==◌, inl, inr, if◌then◌else◌, ==_iff, Bool-cases,
}
use ne_xs_operate_system.Base.Counts.{count_of}
use ne_xs_operate_system.Allocator.{Allocator, Laws}
use ne_xs_operate_system.Messages.{MsgQueue, Message, Ipc}
use ne_xs_operate_system.Messages.Rings.{IsRing, contents}

pub data Place : Type 0 where
  in_slab in_queue : ℕ → Place

unfoldable pub same_place : Place → Place → Bool
same_place (in_slab c) (in_slab d) = c == d
same_place (in_queue i) (in_queue j) = i == j
same_place (in_slab c) (in_queue j) = false
same_place (in_queue i) (in_slab d) = false

unfoldable pub is_at : Place → Option Place → Bool
is_at p none = false
is_at p (some q) = same_place p q

-- Where each address stands, after a change at one address.
abbrev pub moved : (ℕ → Option Place) → ℕ → Option Place → ℕ → Option Place
moved own a o b = if b == a then o else own b

same_place-true : (p q : Place) → same_place p q ≡ true → p ≡ q
unfolding same_place
same_place-true (in_slab c) (in_slab d) e = ap in_slab ((==_iff c d).0 e)
same_place-true (in_queue i) (in_queue j) e = ap in_queue ((==_iff i j).0 e)
same_place-true (in_slab c) (in_queue j) e = absurd (ground (arith, e))
same_place-true (in_queue i) (in_slab d) e = absurd (ground (arith, e))

pub same_place_refl : (p : Place) → same_place p p ≡ true
unfolding same_place
same_place_refl (in_slab c) = (==_iff c c).1 refl
same_place_refl (in_queue i) = (==_iff i i).1 refl

pub same_place_comm : (p q : Place) → same_place p q ≡ same_place q p
unfolding same_place
same_place_comm (in_slab c) (in_slab d) = ground arith
same_place_comm (in_queue i) (in_queue j) = ground arith
same_place_comm (in_slab c) (in_queue j) = refl
same_place_comm (in_queue i) (in_slab d) = refl

pub is_at_only : (p q : Place) (o : Option Place) → is_at p o ≡ true → is_at q o ≡ same_place q p
unfolding is_at
is_at_only p q none e = absurd (ground (arith, e))
is_at_only p q (some r) e = ap (same_place q) (sym (same_place-true p r e))

-- Each address stands once where `own` says, and nowhere else.
unfoldable pub IsOnce : (Place → List ℕ) → (ℕ → Option Place) → Type 0
IsOnce f own = (b : ℕ) (q : Place) → count_of b (f q) ≡ (if is_at q (own b) then 1 else 0)

-- `g` has the address `a` once more in the list `p`.
unfoldable pub Gains : (Place → List ℕ) → (Place → List ℕ) → Place → ℕ → Type 0
Gains f g p a =
    (b : ℕ) (q : Place)
    → count_of b (g q) ≡ (if b == a && same_place q p then 1 else 0) + count_of b (f q)

pub IsOnce-put :
    (f g : Place → List ℕ) (own : ℕ → Option Place) (p : Place) (a : ℕ)
    → Gains f g p a
    → own a ≡ none
    → IsOnce f own
    → IsOnce g (moved own a (some p))
unfolding is_at IsOnce Gains
IsOnce-put f g own p a more nowhere once b q = elim (Bool-cases (b == a)) [
  | inl e ↦
      let same : b ≡ a = (==_iff b a).0 e in
      let none_here : count_of b (f q) ≡ 0 =
        once b q ∙ ap (λ o. if is_at q o then 1 else 0) (ap own same ∙ nowhere) in
      let now = more b q in rw e (ground (arith, e, now, none_here))
  | inr e ↦ let now = more b q in let old = once b q in rw e (ground (arith, e, now, old))
]

pub IsOnce-took :
    (f g : Place → List ℕ) (own : ℕ → Option Place) (p : Place) (a : ℕ)
    → Gains g f p a
    → IsOnce f own
    → (is_at p (own a) ≡ true) × IsOnce g (moved own a none)
unfolding is_at IsOnce Gains
IsOnce-took f g own p a less once =
    let was : is_at p (own a) ≡ true =
      ground (arith, less a p, once a p, same_place_refl p, (==_iff a a).1 refl) in
    (
      was,
      λ b q. elim (Bool-cases (b == a)) [
        | inl e ↦
            let same : b ≡ a = (==_iff b a).0 e in
            let here : is_at q (own b) ≡ same_place q p =
              ap (λ x. is_at q (own x)) same ∙ is_at_only p q (own a) was in
            let now = less b q in let old = once b q in rw e (ground (arith, e, now, old, here))
        | inr e ↦ let now = less b q in let old = once b q in rw e (ground (arith, e, now, old))
      ],
    )

unfoldable pub RingAt : Option MsgQueue → Type 0
RingAt none = Unit
RingAt (some q) = IsRing q

module _ {M : Type 0} where
  unfoldable pub queued : Ipc M → ℕ → List ℕ
  queued s i = elim (s.task_queues i) [ none ↦ [] | some q ↦ contents q ]

  -- The messages that wait for a task, the oldest first.
  unfoldable pub view : Ipc M → ℕ → List Message
  view s i = map s.message (queued s i)

  unfoldable pub lists : Ipc M → Place → List ℕ
  lists s (in_slab c) = s.slab_free c
  lists s (in_queue i) = queued s i

module _ (A : Allocator) (laws : Laws A) where
  -- The queues are rings, each block of a message stands once where `own` says, and the blocks that
  -- stand anywhere were handed out by the allocator.
  pub record IsOwned (s : Ipc A.Memory) : Type 0 where
    pub own : ℕ → Option Place
    pub rings : (i : ℕ) → RingAt (s.task_queues i)
    pub once : IsOnce (lists s) own
    pub held : (a : ℕ) → laws.is_held s.heap a ≡ false → own a ≡ none
