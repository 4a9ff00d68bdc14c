-- ===== src/Heap/Merge.antt =====
-- One round of the loop of `buddy_free` in kernel/buddy.c that merges a block with its buddy.
use mathlib.Core.Path.{subst}
use ne_xs_operate_system.Base.{
  ℕ, suc, ◌+◌, ◌-◌, ◌/◌, ◌%◌, ◌^◌, ◌<◌, ◌≡◌, ◌≢◌, ◌⊎◌, inl, inr, refl, sym, ap, ◌∙◌, true, false,
  not, ◌&&◌, arith, ltb, ◌==◌, if◌then◌else◌, Bool-cases,
}
use ne_xs_operate_system.Heap.{Heap, unlink}
use ne_xs_operate_system.Heap.Pages.{same_block, first_half, same_start}
use ne_xs_operate_system.Base.Counts.{count_of}
use ne_xs_operate_system.Heap.Invariant.{
  page_at, free_at, is_block, is_listed, IsFree, IsFree→is_listed, IsCut,
}
use ne_xs_operate_system.Heap.Recut.{
  is_inside, inside_iff, inside_true, inside_trans, recut, coherent-recut,
}
use ne_xs_operate_system.Heap.Split.{HasHeader, not_listed}
use ne_xs_operate_system.Heap.Descend.{is_live}
use ne_xs_operate_system.Heap.Pairing.{
  count_of-unlink, IsMergeable, after_merge, pair_cut, pair_starts, pair_inside,
}

coherent-merge :
    (h : Heap) (top : ℕ) (cut : ℕ → ℕ) (l p b w : ℕ)
    → IsMergeable h top cut l p b w
    → (q r : ℕ) → r / 2 ^ recut cut (suc l) w (suc l) q ≡ q / 2 ^ recut cut (suc l) w (suc l) q
    → recut cut (suc l) w (suc l) r ≡ recut cut (suc l) w (suc l) q
coherent-merge h top cut l p b w m =
    coherent-recut cut (suc l) w (suc l) m.keeps.coherent
      (λ x y i k. inside_trans (suc l) w x y i k)
      (λ x y i k.
        inside_trans (suc l) w x y i
          (same_block l y x (rw (pair_cut h top cut l p b w x m i) at k)))

-- Which pages start blocks after the merge.
merge_is_block :
    (h : Heap) (top : ℕ) (cut : ℕ → ℕ) (l p b w k q : ℕ)
    → IsMergeable h top cut l p b w
    → is_block top (recut cut (suc l) w (suc l)) w k q ≡ (is_block top cut p k q && not (q == b))
unfolding is_block
merge_is_block h top cut l p b w k q m = elim (Bool-cases (is_inside (suc l) w q)) [
  | inr outside ↦
      let (p_in, b_in) = pair_inside l p b w m.pair in
      let n : q ≢ p = λ e. ground (arith, outside, ap (is_inside (suc l) w) e, p_in) in
      let n' : q ≢ b = λ e. ground (arith, outside, ap (is_inside (suc l) w) e, b_in) in
      let n'' : q ≢ w = λ e. ground (arith, outside, ap (is_inside (suc l) w) e) in
      rw outside (ground (arith, n, n', n''))
  | inl inside ↦
      let q_cut = pair_cut h top cut l p b w q m inside in
      let i = inside_iff (suc l) w q inside in
      let only : q % 2 ^ suc l ≡ 0 → q ≡ w = λ e. same_start (2 ^ suc l) w q m.pair.first e i in
      let starts = pair_starts h top cut l p b w q m inside in
      rw inside (merged_inside k q starts only q_cut)
]
  where
    merged_inside :
        (k q : ℕ)
        → (q % 2 ^ l ≡ 0 → (q ≡ p) ⊎ (q ≡ b))
        → (q % 2 ^ suc l ≡ 0 → q ≡ w)
        → cut q ≡ l
        → (ltb q (2 ^ top) && suc l == k && q % 2 ^ k == 0 && not (q == w))
          ≡ ((ltb q (2 ^ top) && cut q == k && q % 2 ^ k == 0 && not (q == p)) && not (q == b))
    merged_inside k q starts only e =
        let up : suc l ≡ k → q % 2 ^ k ≡ q % 2 ^ suc l = λ d. ap (λ n. q % 2 ^ n) (sym d) in
        let down : cut q ≡ k → q % 2 ^ k ≡ q % 2 ^ l = λ d. ap (λ n. q % 2 ^ n) (sym d ∙ e) in
        ground (arith, starts, only, up, down)

pub merge_free_at : (h : Heap) (l b w q : ℕ) → free_at (after_merge h l b w) q ≡ free_at h q
unfolding free_at
merge_free_at h l b w q = elim (Bool-cases (q == w)) [
  | inl first ↦
      let same : q ≡ w = ground (arith, first) in
      let here : (page_at h.heap_start q == page_at h.heap_start w) ≡ true = ground arith in
      rw (free_at, here) (ap (λ x. (h.header (page_at h.heap_start x)).is_free) (sym same))
  | inr other ↦
      let there : (page_at h.heap_start q == page_at h.heap_start w) ≡ false = ground arith in
      rw (free_at, there) refl
]

merge_listed :
    (h : Heap) (top : ℕ) (cut : ℕ → ℕ) (l p b w k q : ℕ)
    → IsMergeable h top cut l p b w
    → is_listed (after_merge h l b w) top (recut cut (suc l) w (suc l)) w k q
      ≡ (is_listed h top cut p k q && not (q == b))
unfolding is_listed
merge_listed h top cut l p b w k q m =
    rw (merge_free_at h l b w q, merge_is_block h top cut l p b w k q m) (ground arith)

no_block :
    (h : Heap) (top : ℕ) (cut : ℕ → ℕ) (l p b k : ℕ)
    → IsFree h top cut p l b
    → k ≢ l
    → is_block top cut p k b ≡ false
unfolding is_block
no_block h top cut l p b k f n = let w = f.whole in ground (arith, w)

buddy_level :
    (h : Heap) (top : ℕ) (cut : ℕ → ℕ) (l p b w k : ℕ)
    → IsMergeable h top cut l p b w
    → is_listed h top cut p k b ≡ (k == l)
buddy_level h top cut l p b w k m = elim (Bool-cases (k == l)) [
  | inl here ↦
      let same : k ≡ l = ground (arith, here) in
      rw here (ap (λ j. is_listed h top cut p j b) same ∙ IsFree→is_listed h top cut p l b m.buddy)
  | inr other ↦
      rw other
        (not_listed h top cut p k b (no_block h top cut l p b k m.buddy (ground (arith, other))))
]

merge_counts :
    (h : Heap) (top : ℕ) (cut : ℕ → ℕ) (l p b w k q : ℕ)
    → IsMergeable h top cut l p b w
    → count_of (page_at h.heap_start q) ((after_merge h l b w).free_lists k)
      ≡ (if is_listed (after_merge h l b w) top (recut cut (suc l) w (suc l)) w k q then 1 else 0)
merge_counts h top cut l p b w k q m =
    let a = page_at h.heap_start q in
    let there = page_at h.heap_start b in
    let removed = count_of-unlink a there (h.free_lists l) in
    let level = m.keeps.counts l q in
    let other = m.keeps.counts k q in
    let at_b : q ≡ b → is_listed h top cut p k q ≡ (k == l) =
      λ e. ap (is_listed h top cut p k) e ∙ buddy_level h top cut l p b w k m in
    elim (Bool-cases (k == l)) [
      | inl here ↦
          let same : k ≡ l = ground (arith, here) in
          let level' : count_of a (h.free_lists l) ≡ (if is_listed h top cut p k q then 1 else 0) =
            level ∙ ap (λ j. if is_listed h top cut p j q then 1 else 0) (sym same) in
          rw (here, merge_listed h top cut l p b w k q m)
            (ground (arith, removed, level', at_b, here))
      | inr elsewhere ↦
          rw (elsewhere, merge_listed h top cut l p b w k q m)
            (ground (arith, other, at_b, elsewhere))
    ]

merge_headers :
    (h : Heap) (top : ℕ) (cut : ℕ → ℕ) (l p b w q : ℕ)
    → IsMergeable h top cut l p b w
    → q < 2 ^ top
    → q % 2 ^ recut cut (suc l) w (suc l) q ≡ 0
    → HasHeader
        ((after_merge h l b w).header (page_at h.heap_start q))
        (recut cut (suc l) w (suc l) q)
merge_headers h top cut l p b w q m bound s = elim (Bool-cases (is_inside (suc l) w q)) [
  | inr outside ↦
      let n : q ≢ w = λ e. ground (arith, outside, ap (is_inside (suc l) w) e) in
      let there : (page_at h.heap_start q == page_at h.heap_start w) ≡ false = ground arith in
      let s' : q % 2 ^ cut q ≡ 0 = rw outside at s in
      rw (outside, there) (m.keeps.headers q bound s')
  | inl inside ↦
      let s' : q % 2 ^ suc l ≡ 0 = rw inside at s in
      let only = same_start (2 ^ suc l) w q m.pair.first s' (inside_iff (suc l) w q inside) in
      let here : (page_at h.heap_start q == page_at h.heap_start w) ≡ true = ground arith in
      let w_cut : cut w ≡ l = pair_cut h top cut l p b w w m (inside_true (suc l) w w refl) in
      let w_starts : w % 2 ^ cut w ≡ 0 = ap (λ n. w % 2 ^ n) w_cut ∙ first_half l w m.pair.first in
      let (level, magic) = m.keeps.headers w (subst (λ x. x < 2 ^ top) only bound) w_starts in
      rw (inside, here) (ap (λ n. n + 1) (level ∙ w_cut) ∙ omega arith, magic)
]

merge_placed :
    (h : Heap) (top : ℕ) (cut : ℕ → ℕ) (l p b w k a : ℕ)
    → IsMergeable h top cut l p b w
    → 0 < count_of a ((after_merge h l b w).free_lists k)
    → a ≡ page_at h.heap_start ((a - h.heap_start) / 4096)
merge_placed h top cut l p b w k a m d =
    let removed = count_of-unlink a (page_at h.heap_start b) (h.free_lists l) in
    elim (Bool-cases (k == l)) [
      | inl here ↦
          let d' : 0 < count_of a (unlink (page_at h.heap_start b) (h.free_lists l)) =
            rw here at d in
          m.keeps.placed l a (omega (arith, removed))
      | inr elsewhere ↦ m.keeps.placed k a (rw elsewhere at d)
    ]

pub after_merge-IsCut :
    (h : Heap) (top : ℕ) (cut : ℕ → ℕ) (l p b w : ℕ)
    → IsMergeable h top cut l p b w
    → IsCut (after_merge h l b w) top (recut cut (suc l) w (suc l)) w
after_merge-IsCut h top cut l p b w m = record {
  in_range = m.keeps.in_range;
  in_space = m.keeps.in_space;
  within = m.keeps.within;
  level_bound = λ q. let a = m.keeps.level_bound q in let b' = m.above in ground arith;
  coherent = coherent-merge h top cut l p b w m;
  headers = λ q bound s. merge_headers h top cut l p b w q m bound s;
  counts = λ k q. merge_counts h top cut l p b w k q m;
  placed = λ k a d. merge_placed h top cut l p b w k a m d;
}

-- The two blocks were free, and the whole is.
pub merge-is_live :
    (h : Heap) (top : ℕ) (cut : ℕ → ℕ) (l p b w k q : ℕ)
    → IsMergeable h top cut l p b w
    → is_live (after_merge h l b w) top (recut cut (suc l) w (suc l)) k q ≡ is_live h top cut k q
unfolding is_live is_block
merge-is_live h top cut l p b w k q m = elim (Bool-cases (is_inside (suc l) w q)) [
  | inr outside ↦ rw (merge_free_at h l b w q, outside) refl
  | inl inside ↦
      let q_cut = pair_cut h top cut l p b w q m inside in
      let i = inside_iff (suc l) w q inside in
      let starts = pair_starts h top cut l p b w q m inside in
      let first : q ≡ p → free_at h q ≡ true = λ e. ap (free_at h) e ∙ m.free in
      let second : q ≡ b → free_at h q ≡ true = λ e. ap (free_at h) e ∙ m.buddy.free in
      let only : q % 2 ^ suc l ≡ 0 → q % 2 ^ l ≡ 0 = first_half l q in
      let up : suc l ≡ k → q % 2 ^ k ≡ q % 2 ^ suc l = λ d. ap (λ n. q % 2 ^ n) (sym d) in
      let down : cut q ≡ k → q % 2 ^ k ≡ q % 2 ^ l = λ d. ap (λ n. q % 2 ^ n) (sym d ∙ q_cut) in
      rw (merge_free_at h l b w q, inside) (ground (arith, starts, first, second, only, up, down))
]
