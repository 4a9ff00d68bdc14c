-- ===== src/Heap/Overlap.antt =====
-- Live blocks of kernel/buddy.c do not overlap, and lie in the heap.
use ne_xs_operate_system.Base.{
  ℕ, ◌+◌, ◌/◌, ◌%◌, ◌^◌, ◌≤◌, ◌<◌, ◌≡◌, refl, sym, ap, ◌∙◌, true, arith,
}
use ne_xs_operate_system.Buddy.{level_to_size}
use ne_xs_operate_system.Heap.{Heap}
use ne_xs_operate_system.Heap.Pages.{same_start, whole_bound}
use ne_xs_operate_system.Heap.Invariant.{page_at, is_block, IsCut}
use ne_xs_operate_system.Heap.Descend.{is_live}

-- A page of a block of the cut has the block's level.
pub live_cut :
    (h : Heap) (top : ℕ) (cut : ℕ → ℕ) (level p x : ℕ)
    → IsCut h top cut (2 ^ top)
    → is_live h top cut level p ≡ true
    → x / 2 ^ level ≡ p / 2 ^ level
    → cut x ≡ level
unfolding is_live is_block
live_cut h top cut level p x c e s =
    let whole : cut p ≡ level = ground (arith, e) in
    let s' : x / 2 ^ cut p ≡ p / 2 ^ cut p = rw whole s in c.coherent p x s' ∙ whole

pub live_starts :
    (h : Heap) (top : ℕ) (cut : ℕ → ℕ) (level p : ℕ)
    → is_live h top cut level p ≡ true
    → (p % 2 ^ level ≡ 0) × (p < 2 ^ top)
unfolding is_live is_block
live_starts h top cut level p e = (ground (arith, e), ground (arith, e))

-- On free lists that satisfy the invariant, two live blocks that share a page are the same block,
-- and a live block lies within the heap.
pub live_apart :
    (h : Heap) (top : ℕ) (cut : ℕ → ℕ) (level level' p p' : ℕ)
    → IsCut h top cut (2 ^ top)
    → is_live h top cut level p ≡ true
    → is_live h top cut level' p' ≡ true
    → ((x : ℕ)
        → x / 2 ^ level ≡ p / 2 ^ level
        → x / 2 ^ level' ≡ p' / 2 ^ level'
        → (level ≡ level') × (p ≡ p'))
      × (page_at h.heap_start p + level_to_size level ≤ h.heap_start + h.heap_size)
live_apart h top cut level level' p p' c e e' = (
  λ x s s'.
      let same : level ≡ level' =
        sym (live_cut h top cut level p x c e s) ∙ live_cut h top cut level' p' x c e' s' in
      let starts : p % 2 ^ level' ≡ 0 =
        ap (λ n. p % 2 ^ n) (sym same) ∙ (live_starts h top cut level p e).0 in
      let shared : p / 2 ^ level' ≡ p' / 2 ^ level' =
        ap (λ n. p / 2 ^ n) (sym same) ∙ sym s ∙ ap (λ n. x / 2 ^ n) same ∙ s' in
      (same, same_start (2 ^ level') p' p (live_starts h top cut level' p' e').0 starts shared),
  (let low = c.level_bound p in
      let whole = live_cut h top cut level p p c e refl in
      let (starts, bound) = live_starts h top cut level p e in
      let fits = whole_bound level top p (omega arith) starts bound in
      let inside = c.within in omega arith),
)
