-- ===== src/Heap/Mark.antt =====
-- The heap of kernel/buddy.c when the loop of `buddy_free` starts.
use ne_xs_operate_system.Base.{
  ℕ, ◌+◌, ◌-◌, ◌%◌, ◌^◌, ◌<◌, ◌≡◌, inl, inr, sym, ap, ◌∙◌, true, false, not, ◌&&◌, ◌||◌, arith,
  ◌==◌, if◌then◌else◌, Bool-cases,
}
use ne_xs_operate_system.Buddy.{level_to_size}
use ne_xs_operate_system.Heap.{Heap, put_header}
use ne_xs_operate_system.Heap.Invariant.{page_at, free_at, is_block, is_listed, IsCut}
use ne_xs_operate_system.Heap.Split.{HasHeader}
use ne_xs_operate_system.Heap.Descend.{is_live}
use ne_xs_operate_system.Heap.Link.{IsLoose}
use ne_xs_operate_system.Heap.Coalesce.{IsQuiet}

-- The heap when the loop starts: the header says that the block is free.
abbrev pub marked : Heap → ℕ → Heap
marked h block =
    let v = h.header block in
    let h₁ = put_header h block (record v { is_free = true }) in
    record h₁ { bytes_allocated = (h.bytes_allocated + (2 ^ 64 - level_to_size v.level)) % 2 ^ 64 }

free_at-marked :
    (h : Heap) (p q : ℕ) → free_at (marked h (page_at h.heap_start p)) q ≡ (q == p || free_at h q)
unfolding free_at
free_at-marked h p q = ground arith

marked_listed :
    (h : Heap) (top : ℕ) (cut : ℕ → ℕ) (k p j q : ℕ)
    → is_live h top cut k p ≡ true
    → is_listed (marked h (page_at h.heap_start p)) top cut p j q
      ≡ is_listed h top cut (2 ^ top) j q
unfolding is_listed is_live is_block
marked_listed h top cut k p j q e =
    let used : q ≡ p → free_at h q ≡ false = λ d. ap (free_at h) d ∙ ground (arith, e) in
    rw (free_at-marked h p q) (ground (arith, used))

pub marked_live :
    (h : Heap) (top : ℕ) (cut : ℕ → ℕ) (p j q : ℕ)
    → is_live (marked h (page_at h.heap_start p)) top cut j q
      ≡ (is_live h top cut j q && not (q == p))
unfolding is_live
marked_live h top cut p j q = rw (free_at-marked h p q) (ground arith)

pub live_facts :
    (h : Heap) (top : ℕ) (cut : ℕ → ℕ) (k p : ℕ)
    → is_live h top cut k p ≡ true
    → (p < 2 ^ top) × (cut p ≡ k) × (p % 2 ^ k ≡ 0)
unfolding is_live is_block
live_facts h top cut k p e = (ground (arith, e), ground (arith, e), ground (arith, e))

marked_headers :
    (h : Heap) (p q level : ℕ)
    → HasHeader (h.header (page_at h.heap_start q)) level
    → HasHeader ((marked h (page_at h.heap_start p)).header (page_at h.heap_start q)) level
marked_headers h p q level (a, b) = elim (Bool-cases (q == p)) [
  | inl first ↦
      let same : q ≡ p = ground (arith, first) in
      let here : (page_at h.heap_start q == page_at h.heap_start p) ≡ true = ground arith in
      rw here (
        ap (λ x. (h.header (page_at h.heap_start x)).level) (sym same) ∙ a,
        ap (λ x. (h.header (page_at h.heap_start x)).magic) (sym same) ∙ b,
      )
  | inr other ↦
      let there : (page_at h.heap_start q == page_at h.heap_start p) ≡ false = ground arith in
      rw there (a, b)
]

pub marked-IsLoose :
    (h : Heap) (top : ℕ) (cut : ℕ → ℕ) (k p : ℕ)
    → IsCut h top cut (2 ^ top)
    → is_live h top cut k p ≡ true
    → IsLoose (marked h (page_at h.heap_start p)) top cut k p
marked-IsLoose h top cut k p c e =
    let (bound, whole, starts) = live_facts h top cut k p e in
    record {
      keeps = record {
        in_range = c.in_range;
        in_space = c.in_space;
        within = c.within;
        level_bound = c.level_bound;
        coherent = c.coherent;
        headers = λ q b s. marked_headers h p q (cut q) (c.headers q b s);
        counts = λ j q.
            c.counts j q ∙ ap (λ b. if b then 1 else 0) (sym (marked_listed h top cut k p j q e));
        placed = c.placed;
      };
      in_heap = bound;
      whole = whole;
      starts = starts;
      free = free_at-marked h p p ∙ ground arith;
    }

pub marked-IsQuiet :
    (h : Heap) (top p : ℕ)
    → p < 2 ^ top
    → IsQuiet h top
    → IsQuiet (marked h (page_at h.heap_start p)) top
unfolding IsQuiet
marked-IsQuiet h top p bound q =
    let other : (2 ^ top == p || free_at h (2 ^ top)) ≡ free_at h (2 ^ top) = ground arith in
    let there : (page_at h.heap_start (2 ^ top) == page_at h.heap_start p) ≡ false = ground arith in
    rw (free_at-marked h p (2 ^ top), other, there) q
