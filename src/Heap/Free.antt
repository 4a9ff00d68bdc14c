-- ===== src/Heap/Free.antt =====
-- `buddy_free` of kernel/buddy.c: the block is no longer live, and every other live block stays.
use mathlib.Core.Path.{subst}
use native.Mathlib.Nat.{mod-eq_of_lt}
use ne_xs_operate_system.Base.{
  ℕ, zero, suc, ◌+◌, ◌-◌, ◌%◌, ◌^◌, ◌≤◌, ◌<◌, ◌≡◌, ◌≢◌, inl, inr, sym, ap, ◌∙◌, true, false, not,
  ◌&&◌, arith, ◌==◌, Bool-cases,
}
use ne_xs_operate_system.Buddy.{buddy_max_levels, header_size}
use ne_xs_operate_system.Heap.{Heap, block_magic, get_buddy, coalesce, buddy_free}
use ne_xs_operate_system.Heap.Pages.{
  pow_pos, inside_bound, buddy_page, buddy_page-IsPair, IsPair, buddy_page_first,
}
use ne_xs_operate_system.Heap.Invariant.{page_at, IsCut}
use ne_xs_operate_system.Heap.Recut.{inside_iff, recut}
use ne_xs_operate_system.Heap.Descend.{is_live}
use ne_xs_operate_system.Heap.Link.{IsLoose, linked}
use ne_xs_operate_system.Heap.Coalesce.{
  IsQuiet, IsKept, linked-IsKept, link_lem, stays, coalesce_stop, coalesce_merge, IsQuiet-merge,
  IsLoose-merge, loose-IsMergeable,
}
use ne_xs_operate_system.Heap.Pair.{get_buddy_lem}
use ne_xs_operate_system.Heap.Pairing.{after_merge, pair_inside}
use ne_xs_operate_system.Heap.Merge.{merge-is_live}
use ne_xs_operate_system.Heap.Mark.{marked, marked_live, live_facts, marked-IsLoose, marked-IsQuiet}

-- The first block has no buddy in the heap.
top_stays :
    (h : Heap) (top : ℕ) (cut : ℕ → ℕ) (p : ℕ)
    → IsLoose h top cut top p
    → IsQuiet h top
    → top ≢ buddy_max_levels - 1
    → (get_buddy h (page_at h.heap_start p) top ≡ page_at h.heap_start (2 ^ top))
      × (stays h top (2 ^ top) ≡ true)
unfolding IsQuiet
top_stays h top cut p s quiet n =
    let space = s.keeps.in_space in
    let positive = pow_pos top in
    let first : p ≡ 0 = sym (mod-eq_of_lt s.in_heap) ∙ s.starts in
    let behind : buddy_page top p ≡ 2 ^ top = ap (buddy_page top) first ∙ buddy_page_first top in
    elim quiet [
      | inl last ↦ absurd (n last)
      | inr (small, q) ↦
          let bound : page_at h.heap_start (buddy_page top p) < 2 ^ 64 = omega arith in
          (
            get_buddy_lem h top p s.starts (omega arith) bound ∙ ap (page_at h.heap_start) behind,
            ground (arith, q),
          )
    ]

pair_bound : (l p b w top : ℕ) → suc l ≤ top → IsPair l p b w → p < 2 ^ top → b < 2 ^ top
pair_bound l p b w top up r bound =
    let (p_in, b_in) = pair_inside l p b w r in
    inside_bound (suc l) top p b up bound
      (inside_iff (suc l) w b b_in ∙ sym (inside_iff (suc l) w p p_in))

coalesce-IsKept :
    (left l p : ℕ) (h : Heap) (top : ℕ) (cut : ℕ → ℕ)
    → l + left ≡ buddy_max_levels - 1
    → IsLoose h top cut l p
    → IsQuiet h top
    → (cut' : ℕ → ℕ) × IsKept h (coalesce left h (page_at h.heap_start p)) top cut cut'
unfolding coalesce
coalesce-IsKept zero l p h top cut n s quiet = (
  cut,
  subst (λ x. IsKept h x top cut cut) (sym (link_lem h top cut l p s))
      (linked-IsKept h top cut l p s),
)
coalesce-IsKept (suc left) l p h top cut n s quiet =
    let level = s.keeps.level_bound p in
    let whole = s.whole in
    elim (Bool-cases (l == top)) [
      | inl at_top ↦
          let same : l ≡ top = ground (arith, at_top) in
          let s' = subst (λ k. IsLoose h top cut k p) same s in
          let (e, t) = top_stays h top cut p s' quiet (omega arith) in
          (
            cut,
            subst (λ x. IsKept h x top cut cut)
                (sym (
                  coalesce_stop left top p (2 ^ top) h top cut s' e t
                  ∙ ap (λ k. linked h k p) (sym same)))
                (linked-IsKept h top cut l p s),
          )
      | inr below ↦
          let up : suc l ≤ top = ground (arith, below, level, whole) in
          let (w, r) = buddy_page-IsPair l p s.starts in
          let b = buddy_page l p in
          let space = s.keeps.in_space in
          let low = s.in_heap in
          let bound = pair_bound l p b w top up r s.in_heap in
          let e = get_buddy_lem h l p s.starts (omega arith) (omega arith) in
          elim (Bool-cases (stays h l b)) [
            | inl t ↦ (
              cut,
              subst (λ x. IsKept h x top cut cut) (sym (coalesce_stop left l p b h top cut s e t))
                  (linked-IsKept h top cut l p s),
            )
            | inr t ↦
                let m = loose-IsMergeable h top cut l p b w s up r t in
                let s' = IsLoose-merge h top cut l p b w m in
                let h' = after_merge h l b w in
                let (cut', kept) =
                  coalesce-IsKept left (suc l) w h' top (recut cut (suc l) w (suc l)) (omega arith)
                    s' (IsQuiet-merge h top l b w s'.in_heap quiet) in
                (
                  cut',
                  subst (λ x. IsKept h x top cut cut')
                      (sym (coalesce_merge left l p b w h top cut s e t r))
                      (record {
                        keeps = kept.keeps;
                        same_place = kept.same_place;
                        live = λ k q. kept.live k q ∙ merge-is_live h top cut l p b w k q m;
                      }),
                )
          ]
    ]

buddy_free-marked :
    (h : Heap) (top : ℕ) (cut : ℕ → ℕ) (k p : ℕ)
    → IsCut h top cut (2 ^ top)
    → is_live h top cut k p ≡ true
    → buddy_free (page_at h.heap_start p + header_size) h
      ≡ coalesce
          (buddy_max_levels - 1 - k)
          (marked h (page_at h.heap_start p))
          (page_at h.heap_start p)
unfolding buddy_free
buddy_free-marked h top cut k p c e =
    let (bound, whole, starts) = live_facts h top cut k p e in
    let starts' : p % 2 ^ cut p ≡ 0 = ap (λ n. p % 2 ^ n) whole ∙ starts in
    let (level, magic) = c.headers p bound starts' in
    let space = c.in_space in
    let back : (page_at h.heap_start p + header_size + (2 ^ 64 - header_size)) % 2 ^ 64
        ≡ page_at h.heap_start p =
      omega arith in
    let given : (page_at h.heap_start p + header_size == 0) ≡ false = ground arith in
    let is_block' : (not ((h.header (page_at h.heap_start p)).magic == block_magic)) ≡ false =
      ground (arith, magic) in
    rw (back, given, is_block')
      (ap
        (λ n.
          coalesce (buddy_max_levels - 1 - n) (marked h (page_at h.heap_start p))
            (page_at h.heap_start p))
        (level ∙ whole))

-- `buddy_free` of a live block, on free lists that satisfy the invariant, where the first block is
-- of the last level or nothing behind it reads as a free block of its level: the invariant holds
-- after it, and the live blocks are the ones before less that one, each where it was and at its
-- level.
pub buddy_free_lem :
    (h : Heap) (top : ℕ) (cut : ℕ → ℕ) (level p : ℕ)
    → IsCut h top cut (2 ^ top)
    → IsQuiet h top
    → is_live h top cut level p ≡ true
    → let h' = buddy_free (page_at h.heap_start p + header_size) h in
      (cut' : ℕ → ℕ) × IsCut h' top cut' (2 ^ top)
      × (h'.heap_start ≡ h.heap_start)
      × ((j q : ℕ) → is_live h' top cut' j q ≡ (is_live h top cut j q && not (q == p)))
buddy_free_lem h top cut level p c quiet e =
    let (bound, whole, starts) = live_facts h top cut level p e in
    let low = c.level_bound p in
    let range = c.in_range in
    let h₁ = marked h (page_at h.heap_start p) in
    let (cut', kept) =
      coalesce-IsKept (buddy_max_levels - 1 - level) level p h₁ top cut (omega arith)
        (marked-IsLoose h top cut level p c e) (marked-IsQuiet h top p bound quiet) in
    let same = sym (buddy_free-marked h top cut level p c e) in
    (
      cut',
      subst (λ x. IsCut x top cut' (2 ^ top)) same kept.keeps,
      subst (λ x. x.heap_start ≡ h.heap_start) same kept.same_place,
      λ j q.
          ap (λ x. is_live x top cut' j q) (sym same) ∙ kept.live j q ∙ marked_live h top cut p j q,
    )
