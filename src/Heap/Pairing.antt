-- ===== src/Heap/Pairing.antt =====
-- A block and its buddy in kernel/buddy.c, before they are merged.
use ne_xs_operate_system.Base.{
  ℕ, suc, ◌+◌, ◌-◌, ◌/◌, ◌%◌, ◌^◌, ◌≤◌, ◌<◌, ◌≡◌, ◌⊎◌, inl, inr, sym, ap, ◌∙◌, true, List, [], ◌∷◌,
  arith, ◌==◌, if◌then◌else◌,
}
use ne_xs_operate_system.Heap.{Heap, put_header, put_list, unlink}
use ne_xs_operate_system.Heap.Pages.{halves, second_inside, page_halves, IsPair}
use ne_xs_operate_system.Base.Counts.{count_of}
use ne_xs_operate_system.Heap.Invariant.{page_at, free_at, IsFree, IsCut}
use ne_xs_operate_system.Heap.Recut.{is_inside, inside_iff, inside_true}

pub count_of-unlink :
    (a b : ℕ) (xs : List ℕ) → count_of a (unlink b xs) ≡ count_of a xs - (if b == a then 1 else 0)
unfolding count_of unlink
count_of-unlink a b [] = ground arith
count_of-unlink a b (x ∷ xs) = ground (arith, count_of-unlink a b xs)

-- The block at page `p` is free and in no list, and its buddy at page `b` is free; page `w` is the
-- first of the two.
pub record IsMergeable (h : Heap) (top : ℕ) (cut : ℕ → ℕ) (l p b w : ℕ) : Type 0 where
  pub keeps : IsCut h top cut p
  pub in_heap : p < 2 ^ top
  pub whole : cut p ≡ l
  pub starts : p % 2 ^ l ≡ 0
  pub free : free_at h p ≡ true
  pub buddy : IsFree h top cut p l b
  pub above : suc l ≤ top
  pub pair : IsPair l p b w

-- The heap after the buddy is unlinked and the level is raised.
abbrev pub after_merge : Heap → ℕ → ℕ → ℕ → Heap
after_merge h l b w =
    let h₁ = put_list h l (unlink (page_at h.heap_start b) (h.free_lists l)) in
    let v = h.header (page_at h.heap_start w) in
    put_header h₁ (page_at h.heap_start w) (record v { level = v.level + 1 })

-- Both halves have the level of the block.
pub pair_cut :
    (h : Heap) (top : ℕ) (cut : ℕ → ℕ) (l p b w q : ℕ)
    → IsMergeable h top cut l p b w
    → is_inside (suc l) w q ≡ true
    → cut q ≡ l
pair_cut h top cut l p b w q m i =
    let c = m.keeps in
    let whole = m.whole in
    let whole' = m.buddy.whole in
    let at_p : q / 2 ^ l ≡ p / 2 ^ l → cut q ≡ l = λ e.
      c.coherent p q (ap (λ n. q / 2 ^ n) whole ∙ e ∙ ap (λ n. p / 2 ^ n) (sym whole)) ∙ whole in
    let at_b : q / 2 ^ l ≡ b / 2 ^ l → cut q ≡ l = λ e.
      c.coherent b q (ap (λ n. q / 2 ^ n) whole' ∙ e ∙ ap (λ n. b / 2 ^ n) (sym whole')) ∙ whole' in
    elim (page_halves l w q m.pair.first (inside_iff (suc l) w q i)) [
      | inl low ↦ elim m.pair.either [
        | inl (e, e') ↦ at_p (low ∙ ap (λ x. x / 2 ^ l) (sym e))
        | inr (e, e') ↦ at_b (low ∙ ap (λ x. x / 2 ^ l) (sym e'))
      ]
      | inr high ↦ elim m.pair.either [
        | inl (e, e') ↦ at_b (high ∙ ap (λ x. x / 2 ^ l) (sym e'))
        | inr (e, e') ↦ at_p (high ∙ ap (λ x. x / 2 ^ l) (sym e))
      ]
    ]

-- The aligned pages of the whole are the two blocks.
pub pair_starts :
    (h : Heap) (top : ℕ) (cut : ℕ → ℕ) (l p b w q : ℕ)
    → IsMergeable h top cut l p b w
    → is_inside (suc l) w q ≡ true
    → q % 2 ^ l ≡ 0
    → (q ≡ p) ⊎ (q ≡ b)
pair_starts h top cut l p b w q m i a =
    elim (halves l w q m.pair.first (inside_iff (suc l) w q i) a) [
      | inl low ↦ elim m.pair.either [
        | inl (e, e') ↦ inl (low ∙ sym e)
        | inr (e, e') ↦ inr (low ∙ sym e')
      ]
      | inr high ↦ elim m.pair.either [
        | inl (e, e') ↦ inr (high ∙ sym e')
        | inr (e, e') ↦ inl (high ∙ sym e)
      ]
    ]

pub pair_inside :
    (l p b w : ℕ) → IsPair l p b w → (is_inside (suc l) w p ≡ true) × (is_inside (suc l) w b ≡ true)
pair_inside l p b w r =
    let second = second_inside l w r.first in
    elim r.either [
      | inl (e, e') ↦ (
        inside_true (suc l) w p (ap (λ x. x / 2 ^ suc l) e),
        inside_true (suc l) w b (ap (λ x. x / 2 ^ suc l) e' ∙ second),
      )
      | inr (e, e') ↦ (
        inside_true (suc l) w p (ap (λ x. x / 2 ^ suc l) e ∙ second),
        inside_true (suc l) w b (ap (λ x. x / 2 ^ suc l) e'),
      )
    ]
