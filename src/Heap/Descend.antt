-- ===== src/Heap/Descend.antt =====
-- The splits of `buddy_alloc` of kernel/buddy.c, down from a level with a free block.
use mathlib.Core.Path.{subst}
use ne_xs_operate_system.Base.{
  ℕ, zero, suc, ◌+◌, ◌^◌, ◌≤◌, ◌≡◌, ◌≢◌, inl, inr, refl, sym, ap, ◌∙◌, Bool, true, false, not, ◌&&◌,
  some, List, ◌∷◌, arith, ltb, ◌==◌, Bool-cases,
}
use ne_xs_operate_system.Heap.{Heap, split_block, split_to}
use ne_xs_operate_system.Heap.Pages.{second_inside, inside_bound}
use ne_xs_operate_system.Heap.Invariant.{page_at, free_at, is_block, IsFree, IsCut, first-IsFree}
use ne_xs_operate_system.Heap.Recut.{recut, after_split}
use ne_xs_operate_system.Heap.Halves.{split_free_at, split_lists, split_is_block, second_no_block}
use ne_xs_operate_system.Heap.Split.{split_block-IsCut}

-- Page `p` starts a block of a level that is handed out.
unfoldable pub is_live : Heap → ℕ → (ℕ → ℕ) → ℕ → ℕ → Bool
is_live h top cut level p = not (free_at h p) && is_block top cut (2 ^ top) level p

second_far :
    (h : Heap) (top : ℕ) (cut : ℕ → ℕ) (apart l p : ℕ)
    → IsCut h top cut apart
    → IsFree h top cut apart (suc l) p
    → p + 2 ^ l ≢ 2 ^ top
second_far h top cut apart l p c f e =
    let low = c.level_bound p in
    let whole = f.whole in
    let bound =
      inside_bound (suc l) top p (p + 2 ^ l) (omega arith) f.in_heap (second_inside l p f.starts) in
    absurd (omega arith)

split-is_live :
    (h : Heap) (top : ℕ) (cut : ℕ → ℕ) (l p : ℕ) (blocks : List ℕ) (k q : ℕ)
    → IsCut h top cut (2 ^ top)
    → IsFree h top cut (2 ^ top) (suc l) p
    → is_live (after_split h blocks p l) top (recut cut (suc l) p l) k q ≡ is_live h top cut k q
unfolding is_live
split-is_live h top cut l p blocks k q c f =
    let far = second_far h top cut (2 ^ top) l p c f in
    let first : q ≡ p → free_at h q ≡ true = λ e. ap (free_at h) e ∙ f.free in
    let second : (j : ℕ) → q ≡ p + 2 ^ l → is_block top cut (2 ^ top) j q ≡ false =
      λ j e. ap (is_block top cut (2 ^ top) j) e ∙ second_no_block h top cut (2 ^ top) l p j c f in
    let second_k = second k in
    let second_l = second l in
    let second_up = second (suc l) in
    let same_l : k ≡ l → is_block top cut (2 ^ top) k q ≡ is_block top cut (2 ^ top) l q =
      λ e. ap (λ j. is_block top cut (2 ^ top) j q) e in
    let same_up : k ≡ suc l
        → is_block top cut (2 ^ top) k q ≡ is_block top cut (2 ^ top) (suc l) q =
      λ e. ap (λ j. is_block top cut (2 ^ top) j q) e in
    rw (split_free_at h blocks p l q f.free, split_is_block h top cut (2 ^ top) l p k q c f far)
      (ground (arith, first, second_k, second_l, second_up, same_l, same_up))

-- What the splits on the way to a level leave.
pub record IsSplit (h h' : Heap) (top : ℕ) (cut cut' : ℕ → ℕ) (needed : ℕ) : Type 0 where
  pub ready : (block : ℕ) × (blocks : List ℕ) × (h'.free_lists needed ≡ block ∷ blocks)
  pub keeps : IsCut h' top cut' (2 ^ top)
  pub same_place : h'.heap_start ≡ h.heap_start
  pub same_live : (k q : ℕ) → is_live h' top cut' k q ≡ is_live h top cut k q

split_place :
    (h : Heap) (blocks : List ℕ) (p l : ℕ) → (after_split h blocks p l).heap_start ≡ h.heap_start
unfolding split_block
split_place h blocks p l = refl

split_ready :
    (h : Heap) (blocks : List ℕ) (p l : ℕ)
    → (block : ℕ) × (rest : List ℕ) × ((after_split h blocks p l).free_lists l ≡ block ∷ rest)
split_ready h blocks p l =
    let here : (l == l) ≡ true = ground arith in
    (
      page_at h.heap_start p,
      page_at h.heap_start (p + 2 ^ l) ∷ h.free_lists l,
      split_lists h blocks p l l ∙ rw here refl,
    )

pub split_to-IsSplit :
    (level needed : ℕ) (h : Heap) (top : ℕ) (cut : ℕ → ℕ)
    → needed ≤ level
    → IsCut h top cut (2 ^ top)
    → (block : ℕ) × (blocks : List ℕ) × (h.free_lists level ≡ block ∷ blocks)
    → (h' : Heap) × (cut' : ℕ → ℕ) × (split_to needed level h ≡ some h')
      × IsSplit h h' top cut cut' needed
unfolding split_to
split_to-IsSplit zero needed h top cut b c r =
    let same : needed ≡ 0 = omega arith in
    (
      h,
      cut,
      refl,
      record {
        ready =
            subst (λ n. (block : ℕ) × (blocks : List ℕ) × (h.free_lists n ≡ block ∷ blocks))
              (sym same) r;
        keeps = c;
        same_place = refl;
        same_live = λ k q. refl;
      },
    )
split_to-IsSplit (suc below) needed h top cut b c (block, blocks, e) =
    elim (Bool-cases (ltb needed (suc below))) [
      | inr met ↦
          let same : needed ≡ suc below = ground arith in
          (
            h,
            cut,
            rw met refl,
            record {
              ready = (block, blocks, ap h.free_lists same ∙ e);
              keeps = c;
              same_place = refl;
              same_live = λ k q. refl;
            },
          )
      | inl less ↦
          let (p, at_page, f) = first-IsFree h top cut (2 ^ top) (suc below) block blocks c e in
          let e' : h.free_lists (suc below) ≡ page_at h.heap_start p ∷ blocks =
            e ∙ ap (λ x. x ∷ blocks) at_page in
          let far = second_far h top cut (2 ^ top) below p c f in
          let c' = split_block-IsCut h top cut (2 ^ top) below p blocks c f far e' in
          let h₁ = after_split h blocks p below in
          let (h', cut', e₁, s) =
            split_to-IsSplit below needed h₁ top (recut cut (suc below) p below) (ground arith) c'
              (split_ready h blocks p below) in
          (
            h',
            cut',
            rw (less, e, at_page) e₁,
            record {
              ready = s.ready;
              keeps = s.keeps;
              same_place = s.same_place ∙ split_place h blocks p below;
              same_live = λ k q. s.same_live k q ∙ split-is_live h top cut below p blocks k q c f;
            },
          )
    ]
