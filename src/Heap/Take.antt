-- ===== src/Heap/Take.antt =====
-- The end of `buddy_alloc` of kernel/buddy.c: a free block leaves its list and is live.
use mathlib.Core.Path.{subst}
use ne_xs_operate_system.Base.{
  ℕ, ◌+◌, ◌-◌, ◌/◌, ◌%◌, ◌^◌, ◌<◌, ◌≡◌, ◌≢◌, inl, inr, refl, sym, ap, ◌∙◌, true, false, not, ◌&&◌,
  ◌||◌, some, List, ◌∷◌, arith, ◌==◌, if◌then◌else◌, Bool-cases,
}
use ne_xs_operate_system.Buddy.{header_size, level_to_size}
use ne_xs_operate_system.Heap.{Heap, put_header, put_list, take_block}
use ne_xs_operate_system.Base.Counts.{count_of}
use ne_xs_operate_system.Heap.Invariant.{page_at, free_at, is_block, is_listed, IsFree, IsCut}
use ne_xs_operate_system.Heap.Descend.{is_live}
use ne_xs_operate_system.Heap.Split.{HasHeader, not_listed}

-- The heap after the block at page `p` is taken from the front of its list.
abbrev pub after_take : Heap → ℕ → ℕ → List ℕ → Heap
after_take h needed p blocks =
    let block = page_at h.heap_start p in
    let h' =
      put_header (put_list h needed blocks) block (record (h.header block) { is_free = false }) in
    record h' { bytes_allocated = (h.bytes_allocated + level_to_size needed) % 2 ^ 64 }

pub take_block_lem :
    (h : Heap) (needed p : ℕ) (blocks : List ℕ)
    → h.free_lists needed ≡ page_at h.heap_start p ∷ blocks
    → take_block needed h
      ≡ (some (page_at h.heap_start p + header_size), after_take h needed p blocks)
unfolding take_block
take_block_lem h needed p blocks e = rw (take_block, e) refl

taken_free_at :
    (h : Heap) (needed p : ℕ) (blocks : List ℕ) (q : ℕ)
    → free_at (after_take h needed p blocks) q ≡ (not (q == p) && free_at h q)
unfolding free_at
taken_free_at h needed p blocks q = ground arith

taken_listed :
    (h : Heap) (top : ℕ) (cut : ℕ → ℕ) (needed p : ℕ) (blocks : List ℕ) (k q : ℕ)
    → is_listed (after_take h needed p blocks) top cut (2 ^ top) k q
      ≡ (not (q == p) && is_listed h top cut (2 ^ top) k q)
unfolding is_listed
taken_listed h top cut needed p blocks k q = rw (taken_free_at h needed p blocks q) (ground arith)

-- The level of a free block is the only one at which its page starts a block.
one_level :
    (h : Heap) (top : ℕ) (cut : ℕ → ℕ) (needed p k : ℕ)
    → IsFree h top cut (2 ^ top) needed p
    → is_block top cut (2 ^ top) k p ≡ (k == needed)
unfolding is_block
one_level h top cut needed p k f =
    let b = f.in_heap in
    let w = f.whole in
    let s = f.starts in
    elim (Bool-cases (k == needed)) [
      | inl here ↦ let same : k ≡ needed = ground (arith, here) in rw same (ground (arith, b, w, s))
      | inr other ↦ rw other (ground (arith, other, w))
    ]

taken_counts :
    (h : Heap) (top : ℕ) (cut : ℕ → ℕ) (needed p : ℕ) (blocks : List ℕ) (k q : ℕ)
    → IsCut h top cut (2 ^ top)
    → IsFree h top cut (2 ^ top) needed p
    → h.free_lists needed ≡ page_at h.heap_start p ∷ blocks
    → count_of (page_at h.heap_start q) (if k == needed then blocks else h.free_lists k)
      ≡ (if is_listed (after_take h needed p blocks) top cut (2 ^ top) k q then 1 else 0)
unfolding count_of
taken_counts h top cut needed p blocks k q c f e =
    let a = page_at h.heap_start q in
    let level : count_of a (page_at h.heap_start p ∷ blocks)
        ≡ (if is_listed h top cut (2 ^ top) needed q then 1 else 0) =
      ap (count_of a) (sym e) ∙ c.counts needed q in
    let other = c.counts k q in
    let same : k ≡ needed
        → is_listed h top cut (2 ^ top) k q ≡ is_listed h top cut (2 ^ top) needed q =
      λ d. ap (λ j. is_listed h top cut (2 ^ top) j q) d in
    let only : q ≡ p → k ≢ needed → is_listed h top cut (2 ^ top) k q ≡ false = λ d n.
      ap (is_listed h top cut (2 ^ top) k) d
      ∙ not_listed h top cut (2 ^ top) k p (one_level h top cut needed p k f ∙ ground (arith, n)) in
    rw (taken_listed h top cut needed p blocks k q) (ground (arith, level, other, same, only))

taken_placed :
    (h : Heap) (top : ℕ) (cut : ℕ → ℕ) (needed p : ℕ) (blocks : List ℕ) (k a : ℕ)
    → IsCut h top cut (2 ^ top)
    → h.free_lists needed ≡ page_at h.heap_start p ∷ blocks
    → 0 < count_of a (if k == needed then blocks else h.free_lists k)
    → a ≡ page_at h.heap_start ((a - h.heap_start) / 4096)
unfolding count_of
taken_placed h top cut needed p blocks k a c e d =
    let level : 0 < count_of a (page_at h.heap_start p ∷ blocks)
        → a ≡ page_at h.heap_start ((a - h.heap_start) / 4096) =
      subst (λ xs. 0 < count_of a xs → a ≡ page_at h.heap_start ((a - h.heap_start) / 4096)) e
        (c.placed needed a) in
    ground (arith, d, c.placed k a, level)

pub take_block-IsCut :
    (h : Heap) (top : ℕ) (cut : ℕ → ℕ) (needed p : ℕ) (blocks : List ℕ)
    → IsCut h top cut (2 ^ top)
    → IsFree h top cut (2 ^ top) needed p
    → h.free_lists needed ≡ page_at h.heap_start p ∷ blocks
    → IsCut (after_take h needed p blocks) top cut (2 ^ top)
take_block-IsCut h top cut needed p blocks c f e = record {
  in_range = c.in_range;
  in_space = c.in_space;
  within = c.within;
  level_bound = c.level_bound;
  coherent = c.coherent;
  headers = λ q b s. taken_headers (c.headers q b s);
  counts = λ k q. taken_counts h top cut needed p blocks k q c f e;
  placed = λ k a d. taken_placed h top cut needed p blocks k a c e d;
}
  where
    taken_headers :
        {q : ℕ}
        → HasHeader (h.header (page_at h.heap_start q)) (cut q)
        → HasHeader ((after_take h needed p blocks).header (page_at h.heap_start q)) (cut q)
    taken_headers {q} (a, b) = elim (Bool-cases (q == p)) [
      | inl first ↦
          let same : q ≡ p = ground (arith, first) in
          let here : (page_at h.heap_start q == page_at h.heap_start p) ≡ true = ground arith in
          rw here (
            ap (λ x. (h.header (page_at h.heap_start x)).level) (sym same) ∙ a,
            ap (λ x. (h.header (page_at h.heap_start x)).magic) (sym same) ∙ b,
          )
      | inr other ↦
          let there : (page_at h.heap_start q == page_at h.heap_start p) ≡ false = ground arith in
          rw there (a, b)
    ]

pub taken_live :
    (h : Heap) (top : ℕ) (cut : ℕ → ℕ) (needed p : ℕ) (blocks : List ℕ) (k q : ℕ)
    → IsFree h top cut (2 ^ top) needed p
    → is_live (after_take h needed p blocks) top cut k q
      ≡ ((k == needed && q == p) || is_live h top cut k q)
unfolding is_live
taken_live h top cut needed p blocks k q f =
    let level : q ≡ p → is_block top cut (2 ^ top) k q ≡ (k == needed) =
      λ e. ap (is_block top cut (2 ^ top) k) e ∙ one_level h top cut needed p k f in
    let free : q ≡ p → free_at h q ≡ true = λ e. ap (free_at h) e ∙ f.free in
    rw (taken_free_at h needed p blocks q) (ground (arith, level, free))
