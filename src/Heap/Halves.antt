-- ===== src/Heap/Halves.antt =====
-- The free lists and headers of kernel/buddy.c after `split_block`.
use ne_xs_operate_system.Base.{
  ℕ, suc, ◌+◌, ◌/◌, ◌%◌, ◌^◌, ◌≡◌, ◌≢◌, inl, inr, refl, ap, ◌∙◌, true, false, not, ◌&&◌, ◌||◌, List,
  ◌∷◌, arith, ◌==◌, if◌then◌else◌, Bool-cases,
}
use ne_xs_operate_system.Buddy.{level_to_size}
use ne_xs_operate_system.Heap.{Heap, block_magic, split_block}
use ne_xs_operate_system.Heap.Pages.{
  pow_pos, halves, first_half, second_half, second_inside, same_start, inside_bound,
}
use ne_xs_operate_system.Heap.Invariant.{page_at, free_at, is_block, is_listed, IsFree, IsCut}
use ne_xs_operate_system.Heap.Recut.{
  is_inside, recut, after_split, inside_iff, inside_true, inside_cut,
}

pub split_header_first :
    (h : Heap) (blocks : List ℕ) (p l : ℕ)
    → (after_split h blocks p l).header (page_at h.heap_start p)
      ≡ record (h.header (page_at h.heap_start p)) { level = l }
unfolding split_block
split_header_first h blocks p l =
    let positive = pow_pos l in
    let here : (page_at h.heap_start p == page_at h.heap_start p) ≡ true = ground arith in
    let other : (page_at h.heap_start p == page_at h.heap_start p + level_to_size l) ≡ false =
      ground arith in
    rw (here, other) refl

pub split_header_second :
    (h : Heap) (blocks : List ℕ) (p l : ℕ)
    → (after_split h blocks p l).header (page_at h.heap_start (p + 2 ^ l))
      ≡ record { level = l; is_free = true; magic = block_magic }
unfolding split_block
split_header_second h blocks p l =
    let positive = pow_pos l in
    let there : page_at h.heap_start (p + 2 ^ l) ≡ page_at h.heap_start p + level_to_size l =
      omega arith in
    let other : (page_at h.heap_start p + level_to_size l == page_at h.heap_start p) ≡ false =
      ground arith in
    let here : (page_at h.heap_start p + level_to_size l
          == page_at h.heap_start p + level_to_size l)
        ≡ true =
      ground arith in
    rw there (rw other (rw here refl))

pub split_header_else :
    (h : Heap) (blocks : List ℕ) (p l q : ℕ)
    → q ≢ p
    → q ≢ p + 2 ^ l
    → (after_split h blocks p l).header (page_at h.heap_start q) ≡ h.header (page_at h.heap_start q)
unfolding split_block
split_header_else h blocks p l q n m =
    let first : (page_at h.heap_start q == page_at h.heap_start p) ≡ false = ground arith in
    let second : (page_at h.heap_start q == page_at h.heap_start p + level_to_size l) ≡ false =
      ground arith in
    rw (first, second) refl

pub split_lists :
    (h : Heap) (blocks : List ℕ) (p l k : ℕ)
    → (after_split h blocks p l).free_lists k ≡ (
        if k == l
        then page_at h.heap_start p ∷ page_at h.heap_start (p + 2 ^ l) ∷ h.free_lists l
        else if k == suc l
        then blocks
        else h.free_lists k)
unfolding split_block
split_lists h blocks p l k =
    let there : page_at h.heap_start (p + 2 ^ l) ≡ page_at h.heap_start p + level_to_size l =
      omega arith in
    let other : (l == suc l) ≡ false = ground arith in rw (there, other) refl

pub split_free_at :
    (h : Heap) (blocks : List ℕ) (p l q : ℕ)
    → free_at h p ≡ true
    → free_at (after_split h blocks p l) q ≡ (q == p || q == p + 2 ^ l || free_at h q)
unfolding free_at split_block
split_free_at h blocks p l q e =
    let positive = pow_pos l in
    let other : (page_at h.heap_start p == page_at h.heap_start p + level_to_size l) ≡ false =
      ground arith in
    rw other (ground arith)

-- Which pages start blocks after the split.
pub split_is_block :
    (h : Heap) (top : ℕ) (cut : ℕ → ℕ) (apart l p k q : ℕ)
    → IsCut h top cut apart
    → IsFree h top cut apart (suc l) p
    → p + 2 ^ l ≢ apart
    → is_block top (recut cut (suc l) p l) apart k q ≡ (
        if k == l
        then q == p || q == p + 2 ^ l || is_block top cut apart l q
        else if k == suc l
        then is_block top cut apart (suc l) q && not (q == p)
        else is_block top cut apart k q)
unfolding is_block
split_is_block h top cut apart l p k q c f far = elim (Bool-cases (is_inside (suc l) p q)) [
  | inr outside ↦
      let second = second_inside l p f.starts in
      let n : q ≢ p = λ e. ground (arith, outside, ap (is_inside (suc l) p) e) in
      let m : q ≢ p + 2 ^ l = λ e. ground (arith, outside, ap (λ x. x / 2 ^ suc l) e, second) in
      rw outside (ground (arith, n, m))
  | inl inside ↦
      let i = inside_iff (suc l) p q inside in
      let q_cut = inside_cut h top cut apart (suc l) p q c f.whole inside in
      let low = c.level_bound p in
      let whole = f.whole in
      let bound = inside_bound (suc l) top p q (omega arith) f.in_heap i in
      let p_in = f.in_heap in
      let p_other = f.other in
      elim (Bool-cases (k == l)) [
        | inl here ↦
            let same : k ≡ l = ground (arith, here) in
            let starts = halves l p q f.starts i in
            let first : q ≡ p → q % 2 ^ l ≡ 0 =
              λ e. ap (λ x. x % 2 ^ l) e ∙ first_half l p f.starts in
            let second : q ≡ p + 2 ^ l → q % 2 ^ l ≡ 0 =
              λ e. ap (λ x. x % 2 ^ l) e ∙ second_half l p f.starts in
            rw (same, inside) (ground (arith, q_cut, bound, starts, first, second, p_other, far))
        | inr elsewhere ↦ elim (Bool-cases (k == suc l)) [
          | inl above ↦
              let same : k ≡ suc l = ground (arith, above) in
              let only : q % 2 ^ suc l ≡ 0 → q ≡ p = λ e. same_start (2 ^ suc l) p q f.starts e i in
              rw (same, inside) (ground (arith, only))
          | inr not_above ↦ rw (elsewhere, not_above, inside) (ground (arith, q_cut))
        ]
      ]
]

-- The second half started no block, and the first no other than the one split.
pub second_no_block :
    (h : Heap) (top : ℕ) (cut : ℕ → ℕ) (apart l p k : ℕ)
    → IsCut h top cut apart
    → IsFree h top cut apart (suc l) p
    → is_block top cut apart k (p + 2 ^ l) ≡ false
unfolding is_block
second_no_block h top cut apart l p k c f =
    let q = p + 2 ^ l in
    let positive = pow_pos l in
    let i = second_inside l p f.starts in
    let q_cut = inside_cut h top cut apart (suc l) p q c f.whole (inside_true (suc l) p q i) in
    let not_start : q % 2 ^ suc l ≢ 0 =
      λ e. let same = same_start (2 ^ suc l) p q f.starts e i in absurd (omega arith) in
    elim (Bool-cases (k == suc l)) [
      | inl above ↦
          let same : k ≡ suc l = ground (arith, above) in rw same (ground (arith, not_start))
      | inr other ↦ ground (arith, other, q_cut)
    ]

pub first_no_block :
    (h : Heap) (top : ℕ) (cut : ℕ → ℕ) (apart l p k : ℕ)
    → IsFree h top cut apart (suc l) p
    → k ≢ suc l
    → is_block top cut apart k p ≡ false
unfolding is_block
first_no_block h top cut apart l p k f n = let whole = f.whole in ground (arith, whole)

pub split_listed :
    (h : Heap) (top : ℕ) (cut : ℕ → ℕ) (apart l p : ℕ) (blocks : List ℕ) (k q : ℕ)
    → IsCut h top cut apart
    → IsFree h top cut apart (suc l) p
    → p + 2 ^ l ≢ apart
    → is_listed (after_split h blocks p l) top (recut cut (suc l) p l) apart k q ≡ (
        if k == l
        then q == p || q == p + 2 ^ l || is_listed h top cut apart l q
        else if k == suc l
        then is_listed h top cut apart (suc l) q && not (q == p)
        else is_listed h top cut apart k q)
unfolding is_listed
split_listed h top cut apart l p blocks k q c f far =
    let second : q ≡ p + 2 ^ l → is_block top cut apart k q ≡ false =
      λ e. ap (is_block top cut apart k) e ∙ second_no_block h top cut apart l p k c f in
    let second' : q ≡ p + 2 ^ l → is_block top cut apart (suc l) q ≡ false = λ e.
      ap (is_block top cut apart (suc l)) e ∙ second_no_block h top cut apart l p (suc l) c f in
    let first : q ≡ p → k ≢ suc l → is_block top cut apart k q ≡ false =
      λ e n. ap (is_block top cut apart k) e ∙ first_no_block h top cut apart l p k f n in
    rw (split_free_at h blocks p l q f.free, split_is_block h top cut apart l p k q c f far)
      (ground (arith, first, second, second'))
