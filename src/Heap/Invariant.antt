-- ===== src/Heap/Invariant.antt =====
-- What holds of the free lists of kernel/buddy.c between calls. The heap is cut into aligned blocks
-- of pages: `cut` gives for each page the level of its block.
use native.Mathlib.Nat.{mod-eq_of_lt, zero-mod}
use ne_xs_operate_system.Base.{
  ℕ, ◌+◌, ◌-◌, ◌*◌, ◌/◌, ◌%◌, ◌^◌, ◌≤◌, ◌<◌, ◌≡◌, ◌≢◌, inl, inr, refl, sym, ◌∙◌, Bool, true, false,
  not, ◌&&◌, List, ◌∷◌, arith, ltb, ◌==◌, if◌then◌else◌, Bool-cases,
}
use ne_xs_operate_system.Base.Counts.{count_of}
use ne_xs_operate_system.Buddy.{buddy_min_size, buddy_max_levels, level_to_size, initial_level}
use ne_xs_operate_system.Buddy.Sizes.{initial_level_lem}
use ne_xs_operate_system.Heap.Pages.{pow_pos}
use ne_xs_operate_system.Heap.{Header, Heap, block_magic, buddy_init}

-- Where page `p` of the heap is.
abbrev pub page_at : ℕ → ℕ → ℕ
page_at start p = start + 4096 * p

-- What the header at page `p` says.
unfoldable pub free_at : Heap → ℕ → Bool
free_at h p = (h.header (page_at h.heap_start p)).is_free

-- Page `p` starts a block of a level, other than the one at page `apart`.
unfoldable pub is_block : ℕ → (ℕ → ℕ) → ℕ → ℕ → ℕ → Bool
is_block top cut apart level p =
    ltb p (2 ^ top) && cut p == level && p % 2 ^ level == 0 && not (p == apart)

unfoldable pub is_listed : Heap → ℕ → (ℕ → ℕ) → ℕ → ℕ → ℕ → Bool
is_listed h top cut apart level p = free_at h p && is_block top cut apart level p

-- The same, in words.
pub record IsFree (h : Heap) (top : ℕ) (cut : ℕ → ℕ) (apart level p : ℕ) : Type 0 where
  pub in_heap : p < 2 ^ top
  pub whole : cut p ≡ level
  pub starts : p % 2 ^ level ≡ 0
  pub free : free_at h p ≡ true
  pub other : p ≢ apart

is_listed→IsFree :
    (h : Heap) (top : ℕ) (cut : ℕ → ℕ) (apart level p : ℕ)
    → is_listed h top cut apart level p ≡ true
    → IsFree h top cut apart level p
unfolding is_listed is_block
is_listed→IsFree h top cut apart level p e = record {
  in_heap = ground arith;
  whole = ground arith;
  starts = ground arith;
  free = ground arith;
  other = ground arith;
}

pub IsFree→is_listed :
    (h : Heap) (top : ℕ) (cut : ℕ → ℕ) (apart level p : ℕ)
    → IsFree h top cut apart level p
    → is_listed h top cut apart level p ≡ true
unfolding is_listed is_block
IsFree→is_listed h top cut apart level p f =
    let b = f.in_heap in
    let w = f.whole in
    let s = f.starts in let e = f.free in let o = f.other in ground (arith, b, w, s, e, o)

-- The lists hold the free blocks, each once, but the one at page `apart`.
pub record IsCut (h : Heap) (top : ℕ) (cut : ℕ → ℕ) (apart : ℕ) : Type 0 where
  pub in_range : top < buddy_max_levels
  pub in_space : h.heap_start + level_to_size top ≤ 2 ^ 64
  pub within : level_to_size top ≤ h.heap_size
  pub level_bound : (p : ℕ) → cut p ≤ top
  pub coherent : (p q : ℕ) → q / 2 ^ cut p ≡ p / 2 ^ cut p → cut q ≡ cut p
  pub headers :
      (p : ℕ)
      → p < 2 ^ top
      → p % 2 ^ cut p ≡ 0
      → ((h.header (page_at h.heap_start p)).level ≡ cut p)
        × ((h.header (page_at h.heap_start p)).magic ≡ block_magic)
  pub counts :
      (level p : ℕ)
      → count_of (page_at h.heap_start p) (h.free_lists level)
        ≡ (if is_listed h top cut apart level p then 1 else 0)
  pub placed :
      (level a : ℕ)
      → 0 < count_of a (h.free_lists level)
      → a ≡ page_at h.heap_start ((a - h.heap_start) / 4096)

only_first : (top p : ℕ) → p < 2 ^ top → p % 2 ^ top ≡ 0 → p ≡ 0
only_first top p b e = sym (mod-eq_of_lt b) ∙ e

first_counts :
    (memory : ℕ → Header) (start size level p : ℕ)
    → let h = buddy_init memory start size in
      let top = initial_level size in
      count_of (page_at start p) (h.free_lists level)
      ≡ (if is_listed h top (λ q. top) (2 ^ top) level p then 1 else 0)
unfolding buddy_init count_of is_listed is_block free_at
first_counts memory start size level p =
    let top = initial_level size in
    let only = only_first top p in
    let positive = pow_pos top in
    let zeroth : 0 % 2 ^ top ≡ 0 = zero-mod (2 ^ top) in
    elim (Bool-cases (p == 0)) [
      | inl yes' ↦
          let e : p ≡ 0 = ground (arith, yes') in
          let aligned : (p % 2 ^ top == 0) ≡ true = rw e (ground (arith, zeroth)) in
          elim (Bool-cases (level == top)) [
            | inl here ↦
                let same : level ≡ top = ground (arith, here) in
                rw (here, same) (ground (arith, e, positive, aligned))
            | inr other ↦ rw other (ground (arith, other))
          ]
      | inr no' ↦
          let e : p ≢ 0 = ground (arith, no') in
          elim (Bool-cases (level == top)) [
            | inl here ↦
                let same : level ≡ top = ground (arith, here) in
                let never : (ltb p (2 ^ top) && p % 2 ^ top == 0) ≡ false =
                  ground (arith, only, e) in
                rw (here, same) (ground (arith, e, never))
            | inr other ↦ rw other (ground (arith, other))
          ]
    ]

first_placed :
    (memory : ℕ → Header) (start size level a : ℕ)
    → 0 < count_of a ((buddy_init memory start size).free_lists level)
    → a ≡ page_at start ((a - start) / 4096)
unfolding buddy_init count_of
first_placed memory start size level a h = ground (arith)

-- `buddy_init` of a heap of at least a page that lies in memory: one free block.
pub buddy_init-IsCut :
    (memory : ℕ → Header) (start size : ℕ)
    → buddy_min_size ≤ size
    → start + size ≤ 2 ^ 64
    → IsCut
        (buddy_init memory start size)
        (initial_level size)
        (λ p. initial_level size)
        (2 ^ initial_level size)
unfolding buddy_init count_of is_listed is_block free_at
buddy_init-IsCut memory start size h b =
    let f = initial_level_lem size h in
    let fits = f.within in
    let top = initial_level size in
    record {
      in_range = f.in_range;
      in_space = omega arith;
      within = f.within;
      level_bound = λ p. omega arith;
      coherent = λ p q e. refl;
      headers = λ p k e.
          let first = only_first top p k e in
          let here : (page_at start p == start) ≡ true = ground arith in rw here (refl, refl);
      counts = λ level p. first_counts memory start size level p;
      placed = λ level a k. first_placed memory start size level a k;
    }

-- The first block of a list is a free block of its level.
pub first-IsFree :
    (h : Heap) (top : ℕ) (cut : ℕ → ℕ) (apart level block : ℕ) (blocks : List ℕ)
    → IsCut h top cut apart
    → h.free_lists level ≡ block ∷ blocks
    → (p : ℕ) × (block ≡ page_at h.heap_start p) × IsFree h top cut apart level p
unfolding count_of
first-IsFree h top cut apart level block blocks c e =
    let p = (block - h.heap_start) / 4096 in
    let there : 0 < count_of block (h.free_lists level) = rw e (ground arith) in
    let at_page = c.placed level block there in
    let counted = c.counts level p in
    let there' : 0 < count_of (page_at h.heap_start p) (h.free_lists level) = rw at_page at there in
    (p, at_page, is_listed→IsFree h top cut apart level p (ground (arith, counted, there')))
