-- ===== src/Heap/Link.antt =====
-- The end of `buddy_free` of kernel/buddy.c: a free block that is in no list enters its list.
use ne_xs_operate_system.Base.{
  ℕ, ◌%◌, ◌^◌, ◌<◌, ◌≡◌, ap, ◌∙◌, true, false, ◌&&◌, ◌||◌, ◌∷◌, arith, ◌==◌, if◌then◌else◌,
}
use ne_xs_operate_system.Heap.{Heap, put_list}
use ne_xs_operate_system.Base.Counts.{count_of}
use ne_xs_operate_system.Heap.Invariant.{page_at, free_at, is_block, is_listed, IsCut}

-- A block that is free and in no list.
pub record IsLoose (h : Heap) (top : ℕ) (cut : ℕ → ℕ) (l p : ℕ) : Type 0 where
  pub keeps : IsCut h top cut p
  pub in_heap : p < 2 ^ top
  pub whole : cut p ≡ l
  pub starts : p % 2 ^ l ≡ 0
  pub free : free_at h p ≡ true

pub loose_level :
    (h : Heap) (top : ℕ) (cut : ℕ → ℕ) (l p : ℕ)
    → IsLoose h top cut l p
    → (h.header (page_at h.heap_start p)).level ≡ l
loose_level h top cut l p s =
    let starts' : p % 2 ^ cut p ≡ 0 = ap (λ n. p % 2 ^ n) s.whole ∙ s.starts in
    (s.keeps.headers p s.in_heap starts').0 ∙ s.whole

link_listed :
    (h : Heap) (top : ℕ) (cut : ℕ → ℕ) (l p k q : ℕ)
    → IsLoose h top cut l p
    → is_listed h top cut (2 ^ top) k q ≡ ((k == l && q == p) || is_listed h top cut p k q)
unfolding is_listed is_block
link_listed h top cut l p k q s =
    let b = s.in_heap in
    let free : q ≡ p → free_at h q ≡ true = λ e. ap (free_at h) e ∙ s.free in
    let whole : q ≡ p → cut q ≡ l = λ e. ap cut e ∙ s.whole in
    let starts : q ≡ p → k ≡ l → q % 2 ^ k ≡ 0 =
      λ e d. ap (λ x. x % 2 ^ k) e ∙ ap (λ n. p % 2 ^ n) d ∙ s.starts in
    ground (arith, b, free, whole, starts)

loose_unlisted :
    (h : Heap) (top : ℕ) (cut : ℕ → ℕ) (p k q : ℕ) → q ≡ p → is_listed h top cut p k q ≡ false
unfolding is_listed is_block
loose_unlisted h top cut p k q e = ground (arith, e)

-- The block at the front of the list of its level.
abbrev pub linked : Heap → ℕ → ℕ → Heap
linked h l p = put_list h l (page_at h.heap_start p ∷ h.free_lists l)

linked_counts :
    (h : Heap) (top : ℕ) (cut : ℕ → ℕ) (l p k q : ℕ)
    → IsLoose h top cut l p
    → count_of (page_at h.heap_start q) ((linked h l p).free_lists k)
      ≡ (if is_listed h top cut (2 ^ top) k q then 1 else 0)
unfolding count_of
linked_counts h top cut l p k q s =
    let a = page_at h.heap_start q in
    let level = s.keeps.counts l q in
    let other = s.keeps.counts k q in
    let none_yet = loose_unlisted h top cut p l q in
    let same : k ≡ l → is_listed h top cut p k q ≡ is_listed h top cut p l q =
      λ d. ap (λ j. is_listed h top cut p j q) d in
    rw (link_listed h top cut l p k q s) (ground (arith, level, other, none_yet, same))

pub linked-IsCut :
    (h : Heap) (top : ℕ) (cut : ℕ → ℕ) (l p : ℕ)
    → IsLoose h top cut l p
    → IsCut (linked h l p) top cut (2 ^ top)
unfolding count_of is_listed free_at
linked-IsCut h top cut l p s = record {
  in_range = s.keeps.in_range;
  in_space = s.keeps.in_space;
  within = s.keeps.within;
  level_bound = s.keeps.level_bound;
  coherent = s.keeps.coherent;
  headers = s.keeps.headers;
  counts = λ k q. linked_counts h top cut l p k q s;
  placed = λ k a d. ground (arith, d, s.keeps.placed l a, s.keeps.placed k a);
}
