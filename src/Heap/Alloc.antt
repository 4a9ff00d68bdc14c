-- ===== src/Heap/Alloc.antt =====
-- `buddy_alloc` of kernel/buddy.c: the block it hands out was free and is not handed out twice.
use mathlib.Core.Path.{subst}
use ne_xs_operate_system.Base.{
  ℕ, zero, suc, ◌+◌, ◌-◌, ◌^◌, ◌≤◌, ◌<◌, ◌≡◌, ◌≢◌, ◌⊎◌, inl, inr, refl, sym, ap, ◌∙◌, true, false,
  ◌&&◌, ◌||◌, none, some, List, [], ◌∷◌, arith, ltb, leb, ◌==◌, if◌then◌else◌, Bool-cases,
}
use ne_xs_operate_system.Buddy.{buddy_max_levels, header_size, size_to_level}
use ne_xs_operate_system.Buddy.Sizes.{size_to_level_lem}
use ne_xs_operate_system.Heap.{Heap, find_level, take_block, buddy_alloc}
use ne_xs_operate_system.Base.Counts.{count_of}
use ne_xs_operate_system.Heap.Invariant.{page_at, is_block, is_listed, IsFree, IsCut, first-IsFree}
use ne_xs_operate_system.Heap.Descend.{is_live, IsSplit, split_to-IsSplit}
use ne_xs_operate_system.Heap.Take.{after_take, take_block_lem, take_block-IsCut, taken_live}

-- Where the search for a level ends.
record IsFound (h : Heap) (left level found : ℕ) : Type 0 where
  above : level ≤ found
  nothing_below : (k : ℕ) → level ≤ k → k < found → h.free_lists k ≡ []
  ends :
      (found ≡ level + left)
      ⊎ ((found < level + left)
          × ((block : ℕ) × (blocks : List ℕ) × (h.free_lists found ≡ block ∷ blocks)))

list_cases : (xs : List ℕ) → (xs ≡ []) ⊎ ((x : ℕ) × (rest : List ℕ) × (xs ≡ x ∷ rest))
list_cases [] = inl refl
list_cases (x ∷ rest) = inr (x, rest, refl)

find_here :
    (left level : ℕ) (h : Heap) (block : ℕ) (blocks : List ℕ)
    → h.free_lists level ≡ block ∷ blocks
    → level ≡ find_level (suc left) level h
unfolding find_level
find_here left level h block blocks e = rw (find_level, e) refl

find_next :
    (left level : ℕ) (h : Heap)
    → h.free_lists level ≡ []
    → find_level left (level + 1) h ≡ find_level (suc left) level h
unfolding find_level
find_next left level h e = rw (find_level, e) refl

find_level-IsFound : (left level : ℕ) (h : Heap) → IsFound h left level (find_level left level h)
unfolding find_level
find_level-IsFound zero level h = record {
  above = omega arith;
  nothing_below = λ k a b. absurd (omega arith);
  ends = inl (omega arith);
}
find_level-IsFound (suc left) level h = elim (list_cases (h.free_lists level)) [
  | inr (block, blocks, e) ↦
      subst (IsFound h (suc left) level) (find_here left level h block blocks e) (record {
        above = omega arith;
        nothing_below = λ k a b. absurd (omega arith);
        ends = inr (omega arith, (block, blocks, e));
      })
  | inl e ↦
      let rest = find_level-IsFound left (level + 1) h in
      let up = rest.above in
      subst (IsFound h (suc left) level) (find_next left level h e) (record {
        above = omega arith;
        nothing_below = λ k a b. elim (Bool-cases (k == level)) [
          | inl here ↦ let same : k ≡ level = ground (arith, here) in ap h.free_lists same ∙ e
          | inr other ↦ rest.nothing_below k (ground (arith, other)) b
        ];
        ends = elim rest.ends [
          | inl all ↦ inl (omega arith)
          | inr (b, ready) ↦ inr (omega arith, ready)
        ];
      })
]

empty_list :
    (h : Heap) (top : ℕ) (cut : ℕ → ℕ) (k p : ℕ)
    → IsCut h top cut (2 ^ top)
    → h.free_lists k ≡ []
    → is_listed h top cut (2 ^ top) k p ≡ false
unfolding count_of
empty_list h top cut k p c e =
    let none_there : 0 ≡ (if is_listed h top cut (2 ^ top) k p then 1 else 0) =
      ap (count_of (page_at h.heap_start p)) (sym e) ∙ c.counts k p in
    ground (arith, none_there)

no_level :
    (h : Heap) (top : ℕ) (cut : ℕ → ℕ) (k p : ℕ)
    → IsCut h top cut (2 ^ top)
    → buddy_max_levels ≤ k
    → is_listed h top cut (2 ^ top) k p ≡ false
unfolding is_listed is_block
no_level h top cut k p c b =
    let low = c.level_bound p in let up = c.in_range in ground (arith, low, up)

-- The effect of a call that hands out page `p`, in the cut after it.
pub record IsAllocated (h h' : Heap) (top : ℕ) (cut cut' : ℕ → ℕ) (needed p : ℕ) : Type 0 where
  pub keeps : IsCut h' top cut' (2 ^ top)
  pub same_place : h'.heap_start ≡ h.heap_start
  pub not_live : (k : ℕ) → is_live h top cut k p ≡ false
  pub live :
      (k q : ℕ) → is_live h' top cut' k q ≡ ((k == needed && q == p) || is_live h top cut k q)

free_not_live :
    (h : Heap) (top : ℕ) (cut : ℕ → ℕ) (needed p k : ℕ)
    → IsFree h top cut (2 ^ top) needed p
    → is_live h top cut k p ≡ false
unfolding is_live
free_not_live h top cut needed p k f = let e = f.free in ground (arith, e)

take-IsAllocated :
    (h h₁ : Heap) (top : ℕ) (cut cut' : ℕ → ℕ) (needed : ℕ)
    → IsSplit h h₁ top cut cut' needed
    → (p : ℕ) × (h' : Heap) × (take_block needed h₁
        ≡ (some (page_at h.heap_start p + header_size), h'))
      × IsAllocated h h' top cut cut' needed p
take-IsAllocated h h₁ top cut cut' needed s =
    let (block, blocks, e) = s.ready in
    let (p, at_page, f) = first-IsFree h₁ top cut' (2 ^ top) needed block blocks s.keeps e in
    let e' : h₁.free_lists needed ≡ page_at h₁.heap_start p ∷ blocks =
      e ∙ ap (λ x. x ∷ blocks) at_page in
    (
      p,
      after_take h₁ needed p blocks,
      take_block_lem h₁ needed p blocks e'
          ∙ ap (λ x. (some (page_at x p + header_size), after_take h₁ needed p blocks))
              s.same_place,
      record {
        keeps = take_block-IsCut h₁ top cut' needed p blocks s.keeps f e';
        same_place = s.same_place;
        not_live = λ k. sym (s.same_live k p) ∙ free_not_live h₁ top cut' needed p k f;
        live = λ k q.
            taken_live h₁ top cut' needed p blocks k q f
            ∙ ap (λ b. (k == needed && q == p) || b) (s.same_live k q);
      },
    )

-- `buddy_alloc` of a size other than 0, below 2^64 with its header, on free lists that satisfy the
-- invariant. Either no block of the level of the request or above is free, and it answers NULL and
-- changes nothing; or it answers the address behind the header of a block of that level, at a page
-- that started no live block. The invariant holds after it, and the live blocks are that block and
-- the ones before, each where it was and at its level.
pub buddy_alloc_lem :
    (size : ℕ) (h : Heap) (top : ℕ) (cut : ℕ → ℕ)
    → IsCut h top cut (2 ^ top)
    → size ≢ 0
    → size + header_size < 2 ^ 64
    → ((buddy_alloc size h ≡ some (none, h))
        × ((k p : ℕ) → size_to_level size ≤ k → is_listed h top cut (2 ^ top) k p ≡ false))
      ⊎ ((p : ℕ) × (h' : Heap) × (cut' : ℕ → ℕ) × (buddy_alloc size h
            ≡ some (some (page_at h.heap_start p + header_size), h'))
          × IsAllocated h h' top cut cut' (size_to_level size) p)
unfolding buddy_alloc
buddy_alloc_lem size h top cut c n b =
    let needed = size_to_level size in
    let fits = (size_to_level_lem size b).in_range in
    let found = find_level-IsFound (buddy_max_levels - needed) needed h in
    let level = find_level (buddy_max_levels - needed) needed h in
    let up = found.above in
    let given : (size == 0) ≡ false = ground (arith, n) in
    elim found.ends [
      | inl all ↦
          let none_found : leb buddy_max_levels level ≡ true = ground (arith, all, fits) in
          inl (
            rw (given, none_found) refl,
            λ k p q. elim (Bool-cases (ltb k buddy_max_levels)) [
              | inl low ↦
                  empty_list h top cut k p c
                    (found.nothing_below k q (ground (arith, low, all, fits)))
              | inr high ↦ no_level h top cut k p c (ground (arith, high))
            ],
          )
      | inr (bound, ready) ↦
          let (h₁, cut', e, s) = split_to-IsSplit level needed h top cut up c ready in
          let (p, h', e', a) = take-IsAllocated h h₁ top cut cut' needed s in
          let some_found : leb buddy_max_levels level ≡ false = ground (arith, bound, fits) in
          inr (p, h', cut', rw (given, some_found, e) (ap some e'), a)
    ]
