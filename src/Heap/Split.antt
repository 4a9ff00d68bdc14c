-- ===== src/Heap/Split.antt =====
-- `split_block` of kernel/buddy.c keeps the invariant: the two halves are listed in place of the
-- block.
use mathlib.Core.Path.{subst}
use ne_xs_operate_system.Base.{
  ℕ, suc, ◌+◌, ◌-◌, ◌/◌, ◌%◌, ◌^◌, ◌<◌, ◌≡◌, ◌≢◌, inl, inr, refl, sym, ap, ◌∙◌, true, false, List,
  ◌∷◌, arith, ◌==◌, if◌then◌else◌, Bool-cases,
}
use ne_xs_operate_system.Heap.{Header, Heap, block_magic, split_block}
use ne_xs_operate_system.Heap.Pages.{pow_pos, halves, second_inside}
use ne_xs_operate_system.Base.Counts.{count_of}
use ne_xs_operate_system.Heap.Invariant.{
  page_at, is_block, is_listed, IsFree, IsFree→is_listed, IsCut,
}
use ne_xs_operate_system.Heap.Recut.{is_inside, recut, after_split, inside_iff, coherent-split}
use ne_xs_operate_system.Heap.Halves.{
  split_header_first, split_header_second, split_header_else, split_lists, second_no_block,
  first_no_block, split_listed,
}

-- An address stands in a list of pages as often as its page.
page_same : (start p q : ℕ) → (page_at start p == page_at start q) ≡ (p == q)
page_same start p q = ground arith

pub not_listed :
    (h : Heap) (top : ℕ) (cut : ℕ → ℕ) (apart level p : ℕ)
    → is_block top cut apart level p ≡ false
    → is_listed h top cut apart level p ≡ false
unfolding is_listed
not_listed h top cut apart level p e = ground (arith, e)

split_counts :
    (h : Heap) (top : ℕ) (cut : ℕ → ℕ) (apart l p : ℕ) (blocks : List ℕ) (k q : ℕ)
    → IsCut h top cut apart
    → IsFree h top cut apart (suc l) p
    → p + 2 ^ l ≢ apart
    → h.free_lists (suc l) ≡ page_at h.heap_start p ∷ blocks
    → count_of (page_at h.heap_start q) ((after_split h blocks p l).free_lists k) ≡ (
        if is_listed (after_split h blocks p l) top (recut cut (suc l) p l) apart k q then 1 else 0)
unfolding count_of
split_counts h top cut apart l p blocks k q c f far e =
    let a = page_at h.heap_start q in
    let positive = pow_pos l in
    let below = c.counts l q in
    let none_second : q ≡ p + 2 ^ l → is_listed h top cut apart l q ≡ false = λ e'.
      ap (is_listed h top cut apart l) e'
      ∙ not_listed h top cut apart l (p + 2 ^ l) (second_no_block h top cut apart l p l c f) in
    let none_first : q ≡ p → is_listed h top cut apart l q ≡ false = λ e'.
      ap (is_listed h top cut apart l) e'
      ∙ not_listed h top cut apart l p (first_no_block h top cut apart l p l f (omega arith)) in
    let here : q ≡ p → is_listed h top cut apart (suc l) q ≡ true = λ e'.
      ap (is_listed h top cut apart (suc l)) e' ∙ IsFree→is_listed h top cut apart (suc l) p f in
    let level : count_of a (page_at h.heap_start p ∷ blocks)
        ≡ (if is_listed h top cut apart (suc l) q then 1 else 0) =
      ap (count_of a) (sym e) ∙ c.counts (suc l) q in
    let other = c.counts k q in
    ap (count_of a) (split_lists h blocks p l k)
    ∙ rw (split_listed h top cut apart l p blocks k q c f far)
        (ground (arith, below, none_second, none_first, here, level, other))

split_placed :
    (h : Heap) (top : ℕ) (cut : ℕ → ℕ) (apart l p : ℕ) (blocks : List ℕ) (k a : ℕ)
    → IsCut h top cut apart
    → h.free_lists (suc l) ≡ page_at h.heap_start p ∷ blocks
    → 0 < count_of a ((after_split h blocks p l).free_lists k)
    → a ≡ page_at h.heap_start ((a - h.heap_start) / 4096)
unfolding count_of
split_placed h top cut apart l p blocks k a c e d =
    let level : 0 < count_of a (page_at h.heap_start p ∷ blocks)
        → a ≡ page_at h.heap_start ((a - h.heap_start) / 4096) =
      subst (λ xs. 0 < count_of a xs → a ≡ page_at h.heap_start ((a - h.heap_start) / 4096)) e
        (c.placed (suc l) a) in
    let d' = subst (λ xs. 0 < count_of a xs) (split_lists h blocks p l k) d in
    ground (arith, d', c.placed l a, c.placed k a, level)

-- A header that says the level and that it is one.
abbrev pub HasHeader : Header → ℕ → Type 0
HasHeader v level = (v.level ≡ level) × (v.magic ≡ block_magic)

split_headers :
    (h : Heap) (top : ℕ) (cut : ℕ → ℕ) (apart l p : ℕ) (blocks : List ℕ) (q : ℕ)
    → IsCut h top cut apart
    → IsFree h top cut apart (suc l) p
    → q < 2 ^ top
    → q % 2 ^ recut cut (suc l) p l q ≡ 0
    → HasHeader
        ((after_split h blocks p l).header (page_at h.heap_start q))
        (recut cut (suc l) p l q)
split_headers h top cut apart l p blocks q c f b s = elim (Bool-cases (is_inside (suc l) p q)) [
  | inr outside ↦
      let second = second_inside l p f.starts in
      let n : q ≢ p = λ e. ground (arith, outside, ap (is_inside (suc l) p) e) in
      let m : q ≢ p + 2 ^ l = λ e. ground (arith, outside, ap (λ x. x / 2 ^ suc l) e, second) in
      let s' : q % 2 ^ cut q ≡ 0 = rw outside at s in
      rw outside (
        subst (λ v. HasHeader v (cut q)) (sym (split_header_else h blocks p l q n m))
          (c.headers q b s'))
  | inl inside ↦
      let s' : q % 2 ^ l ≡ 0 = rw inside at s in
      let whole = f.whole in
      let starts : p % 2 ^ cut p ≡ 0 = ap (λ n. p % 2 ^ n) whole ∙ f.starts in
      rw inside (elim (halves l p q f.starts (inside_iff (suc l) p q inside) s') [
        | inl first ↦
            subst (λ x. HasHeader ((after_split h blocks p l).header (page_at h.heap_start x)) l)
              (sym first)
              (subst (λ v. HasHeader v l) (sym (split_header_first h blocks p l))
                (refl, (c.headers p f.in_heap starts).1))
        | inr second ↦
            subst (λ x. HasHeader ((after_split h blocks p l).header (page_at h.heap_start x)) l)
              (sym second)
              (subst (λ v. HasHeader v l) (sym (split_header_second h blocks p l)) (refl, refl))
      ])
]

-- The split keeps the invariant, for the cut in which both halves are blocks.
pub split_block-IsCut :
    (h : Heap) (top : ℕ) (cut : ℕ → ℕ) (apart l p : ℕ) (blocks : List ℕ)
    → IsCut h top cut apart
    → IsFree h top cut apart (suc l) p
    → p + 2 ^ l ≢ apart
    → h.free_lists (suc l) ≡ page_at h.heap_start p ∷ blocks
    → IsCut (after_split h blocks p l) top (recut cut (suc l) p l) apart
unfolding split_block
split_block-IsCut h top cut apart l p blocks c f far e = record {
  in_range = c.in_range;
  in_space = c.in_space;
  within = c.within;
  level_bound =
      λ q. let b = c.level_bound p in let w = f.whole in let b' = c.level_bound q in ground arith;
  coherent = coherent-split h top cut apart l p c f.whole;
  headers = λ q b s. split_headers h top cut apart l p blocks q c f b s;
  counts = λ k q. split_counts h top cut apart l p blocks k q c f far e;
  placed = λ k a d. split_placed h top cut apart l p blocks k a c e d;
}
