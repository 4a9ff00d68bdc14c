-- ===== src/Heap/Coalesce.antt =====
-- The loop of `buddy_free` of kernel/buddy.c: it keeps the invariant and the live blocks.
use mathlib.Core.Path.{subst}
use ne_xs_operate_system.Base.{
  ℕ, suc, ◌+◌, ◌-◌, ◌/◌, ◌%◌, ◌^◌, ◌≤◌, ◌<◌, ◌≡◌, ◌≢◌, ◌⊎◌, inl, inr, refl, sym, ap, ◌∙◌, Bool,
  true, false, not, ◌||◌, arith, ltb, leb, ◌==◌, if◌then◌else◌, Bool-cases,
}
use ne_xs_operate_system.Buddy.{buddy_max_levels, level_to_size}
use ne_xs_operate_system.Heap.{
  Heap, put_header, put_list, unlink, link, get_buddy, outside_heap, coalesce,
}
use ne_xs_operate_system.Heap.Pages.{
  pow_pos, first_half, second_half, inside_bound, IsPair, same_larger, start_smaller,
}
use ne_xs_operate_system.Heap.Invariant.{page_at, free_at, IsCut}
use ne_xs_operate_system.Heap.Recut.{is_inside, inside_iff, recut}
use ne_xs_operate_system.Heap.Descend.{is_live}
use ne_xs_operate_system.Heap.Link.{IsLoose, loose_level, linked, linked-IsCut}
use ne_xs_operate_system.Heap.Pairing.{IsMergeable, after_merge, pair_inside}
use ne_xs_operate_system.Heap.Merge.{after_merge-IsCut, merge_free_at}

-- What is behind the first block: where the heap may go on, the word there is not read as a free
-- block of the level of the first one.
unfoldable pub IsQuiet : Heap → ℕ → Type 0
IsQuiet h top =
    (top ≡ buddy_max_levels - 1)
    ⊎ ((h.heap_start + level_to_size top < 2 ^ 64)
        × ((h.heap_size ≡ level_to_size top)
            ⊎ ((free_at h (2 ^ top) ≡ false)
                ⊎ ((h.header (page_at h.heap_start (2 ^ top))).level ≢ top))))

-- A block of the cut that a buddy's header describes is the buddy.
buddy_cut :
    (h : Heap) (top : ℕ) (cut : ℕ → ℕ) (l p b : ℕ)
    → IsLoose h top cut l p
    → b < 2 ^ top
    → b % 2 ^ l ≡ 0
    → p / 2 ^ suc l ≡ b / 2 ^ suc l
    → (h.header (page_at h.heap_start b)).level ≡ l
    → cut b ≡ l
buddy_cut h top cut l p b s bound a e v = elim (Bool-cases (leb (cut b) l)) [
  | inl low ↦
      let starts = start_smaller (cut b) l b (ground (arith, low)) a in
      sym (s.keeps.headers b bound starts).0 ∙ v
  | inr high ↦
      let up : suc l ≤ cut b = ground (arith, high) in
      let same = s.keeps.coherent b p (same_larger (suc l) (cut b) p b up e) in
      let whole = s.whole in absurd (omega arith)
]

-- The effect of the loop.
pub record IsKept (h h' : Heap) (top : ℕ) (cut cut' : ℕ → ℕ) : Type 0 where
  pub keeps : IsCut h' top cut' (2 ^ top)
  pub same_place : h'.heap_start ≡ h.heap_start
  pub live : (k q : ℕ) → is_live h' top cut' k q ≡ is_live h top cut k q

pub linked-IsKept :
    (h : Heap) (top : ℕ) (cut : ℕ → ℕ) (l p : ℕ)
    → IsLoose h top cut l p
    → IsKept h (linked h l p) top cut cut
unfolding is_live free_at
linked-IsKept h top cut l p s = record {
  keeps = linked-IsCut h top cut l p s;
  same_place = refl;
  live = λ k q. refl;
}

pub link_lem :
    (h : Heap) (top : ℕ) (cut : ℕ → ℕ) (l p : ℕ)
    → IsLoose h top cut l p
    → link h (page_at h.heap_start p) ≡ linked h l p
link_lem h top cut l p s = ap (λ k. linked h k p) (loose_level h top cut l p s)

-- The test before a merge, with the buddy's page.
abbrev pub stays : Heap → ℕ → ℕ → Bool
stays h l b =
    outside_heap h (page_at h.heap_start b)
    || (not (free_at h b) || not ((h.header (page_at h.heap_start b)).level == l))

-- A round of the loop, for the level and the buddy that it reads.
abbrev round : ℕ → Heap → ℕ → ℕ → ℕ → Heap
round left h block level buddy =
    let whole = (if ltb buddy block then buddy else block) in
    let h₁ = put_list h level (unlink buddy (h.free_lists level)) in
    let v = h.header whole in
    let merged = coalesce left (put_header h₁ whole (record v { level = v.level + 1 })) whole in
    if outside_heap h buddy
    then link h block
    else if not (h.header buddy).is_free || not ((h.header buddy).level == level)
    then link h block
    else merged

coalesce-round :
    (left l p b : ℕ) (h : Heap) (top : ℕ) (cut : ℕ → ℕ)
    → IsLoose h top cut l p
    → get_buddy h (page_at h.heap_start p) l ≡ page_at h.heap_start b
    → coalesce (suc left) h (page_at h.heap_start p)
      ≡ round left h (page_at h.heap_start p) l (page_at h.heap_start b)
unfolding coalesce
coalesce-round left l p b h top cut s e =
    let block = page_at h.heap_start p in
    ap (λ k. round left h block k (get_buddy h block k)) (loose_level h top cut l p s)
    ∙ ap (round left h block l) e

pub coalesce_stop :
    (left l p b : ℕ) (h : Heap) (top : ℕ) (cut : ℕ → ℕ)
    → IsLoose h top cut l p
    → get_buddy h (page_at h.heap_start p) l ≡ page_at h.heap_start b
    → stays h l b ≡ true
    → coalesce (suc left) h (page_at h.heap_start p) ≡ linked h l p
unfolding free_at
coalesce_stop left l p b h top cut s e t =
    let same = link_lem h top cut l p s in
    coalesce-round left l p b h top cut s e
    ∙ elim (Bool-cases (outside_heap h (page_at h.heap_start b))) [
      | inl out ↦ rw out same
      | inr within ↦ let t' = rw within at t in rw (within, t') same
    ]

pub coalesce_merge :
    (left l p b w : ℕ) (h : Heap) (top : ℕ) (cut : ℕ → ℕ)
    → IsLoose h top cut l p
    → get_buddy h (page_at h.heap_start p) l ≡ page_at h.heap_start b
    → stays h l b ≡ false
    → IsPair l p b w
    → coalesce (suc left) h (page_at h.heap_start p)
      ≡ coalesce left (after_merge h l b w) (page_at h.heap_start w)
unfolding free_at
coalesce_merge left l p b w h top cut s e t r =
    let positive = pow_pos l in
    let either = r.either in
    let whole : (if ltb (page_at h.heap_start b) (page_at h.heap_start p)
          then page_at h.heap_start b
          else page_at h.heap_start p)
        ≡ page_at h.heap_start w =
      ground (arith, either) in
    let within : outside_heap h (page_at h.heap_start b) ≡ false = ground (arith, t) in
    let t' = rw within at t in coalesce-round left l p b h top cut s e ∙ rw (within, t', whole) refl

pub IsQuiet-merge :
    (h : Heap) (top l b w : ℕ) → w < 2 ^ top → IsQuiet h top → IsQuiet (after_merge h l b w) top
unfolding IsQuiet
IsQuiet-merge h top l b w bound q =
    let there : (page_at h.heap_start (2 ^ top) == page_at h.heap_start w) ≡ false = ground arith in
    rw (merge_free_at h l b w (2 ^ top), there) q

pub IsLoose-merge :
    (h : Heap) (top : ℕ) (cut : ℕ → ℕ) (l p b w : ℕ)
    → IsMergeable h top cut l p b w
    → IsLoose (after_merge h l b w) top (recut cut (suc l) w (suc l)) (suc l) w
IsLoose-merge h top cut l p b w m = record {
  keeps = after_merge-IsCut h top cut l p b w m;
  in_heap = elim m.pair.either [
    | inl (e, e') ↦ subst (λ x. x < 2 ^ top) e m.in_heap
    | inr (e, e') ↦ subst (λ x. x < 2 ^ top) e' m.buddy.in_heap
  ];
  whole = let here : is_inside (suc l) w w ≡ true = ground arith in rw here refl;
  starts = m.pair.first;
  free = merge_free_at h l b w w ∙ elim m.pair.either [
    | inl (e, e') ↦ ap (free_at h) (sym e) ∙ m.free
    | inr (e, e') ↦ ap (free_at h) (sym e') ∙ m.buddy.free
  ];
}

-- A buddy that the loop merges with.
pub loose-IsMergeable :
    (h : Heap) (top : ℕ) (cut : ℕ → ℕ) (l p b w : ℕ)
    → IsLoose h top cut l p
    → suc l ≤ top
    → IsPair l p b w
    → stays h l b ≡ false
    → IsMergeable h top cut l p b w
loose-IsMergeable h top cut l p b w s up r t =
    let (p_in, b_in) = pair_inside l p b w r in
    let p_in' = inside_iff (suc l) w p p_in in
    let b_in' = inside_iff (suc l) w b b_in in
    let bound = inside_bound (suc l) top p b up s.in_heap (b_in' ∙ sym p_in') in
    let positive = pow_pos l in
    let either = r.either in
    let starts : b % 2 ^ l ≡ 0 = elim r.either [
      | inl (e, e') ↦ ap (λ x. x % 2 ^ l) e' ∙ second_half l w r.first
      | inr (e, e') ↦ ap (λ x. x % 2 ^ l) e' ∙ first_half l w r.first
    ] in
    record {
      keeps = s.keeps;
      in_heap = s.in_heap;
      whole = s.whole;
      starts = s.starts;
      free = s.free;
      buddy = record {
        in_heap = bound;
        whole = buddy_cut h top cut l p b s bound starts (p_in' ∙ sym b_in') (ground (arith, t));
        starts = starts;
        free = ground (arith, t);
        other = λ e. absurd (omega (arith, either));
      };
      above = up;
      pair = r;
    }
