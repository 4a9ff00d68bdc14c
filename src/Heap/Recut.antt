-- ===== src/Heap/Recut.antt =====
-- A cut of the heap in which one block has a new level.
use ne_xs_operate_system.Base.{
  ℕ, suc, ◌/◌, ◌^◌, ◌≡◌, inl, inr, refl, sym, ◌∙◌, Bool, true, List, arith, ◌==◌, if◌then◌else◌,
  Bool-cases,
}
use ne_xs_operate_system.Heap.{Heap, put_list, split_block}
use ne_xs_operate_system.Heap.Pages.{same_block}
use ne_xs_operate_system.Heap.Invariant.{page_at, IsCut}

-- Page `q` lies in the block of `2 ^ level` pages of page `p`.
abbrev pub is_inside : ℕ → ℕ → ℕ → Bool
is_inside level p q = q / 2 ^ level == p / 2 ^ level

-- The cut in which the block of page `p` has a new level.
abbrev pub recut : (ℕ → ℕ) → ℕ → ℕ → ℕ → ℕ → ℕ
recut cut size p level q = if is_inside size p q then level else cut q

-- The heap after the first block of a list is unlinked and split.
abbrev pub after_split : Heap → List ℕ → ℕ → ℕ → Heap
after_split h blocks p l = split_block (put_list h (suc l) blocks) (page_at h.heap_start p) (suc l)

pub inside_iff : (level p q : ℕ) → is_inside level p q ≡ true → q / 2 ^ level ≡ p / 2 ^ level
inside_iff level p q e = ground (arith, e)

pub inside_true : (level p q : ℕ) → q / 2 ^ level ≡ p / 2 ^ level → is_inside level p q ≡ true
inside_true level p q e = ground (arith, e)

-- A block may be cut anew if the blocks in it are ones before and after.
pub coherent-recut :
    (cut : ℕ → ℕ) (size p level : ℕ)
    → ((a b : ℕ) → b / 2 ^ cut a ≡ a / 2 ^ cut a → cut b ≡ cut a)
    → ((a b : ℕ)
        → is_inside size p a ≡ true
        → b / 2 ^ level ≡ a / 2 ^ level
        → is_inside size p b ≡ true)
    → ((a b : ℕ)
        → is_inside size p a ≡ true
        → b / 2 ^ cut a ≡ a / 2 ^ cut a
        → is_inside size p b ≡ true)
    → (q r : ℕ) → r / 2 ^ recut cut size p level q ≡ q / 2 ^ recut cut size p level q
    → recut cut size p level r ≡ recut cut size p level q
coherent-recut cut size p level c new old q r k = elim (Bool-cases (is_inside size p q)) [
  | inl q_in ↦
      let k' : r / 2 ^ level ≡ q / 2 ^ level = rw q_in at k in rw (q_in, new q r q_in k') refl
  | inr q_out ↦
      let k' : r / 2 ^ cut q ≡ q / 2 ^ cut q = rw q_out at k in
      let same : cut r ≡ cut q = c q r k' in
      elim (Bool-cases (is_inside size p r)) [
        | inr r_out ↦ rw (q_out, r_out) same
        | inl r_in ↦
            let k'' : r / 2 ^ cut r ≡ q / 2 ^ cut r = rw (sym same) at k' in
            let q_in = old r q r_in (sym k'') in absurd (ground (arith, q_in, q_out))
      ]
]

pub inside_trans :
    (level p q r : ℕ)
    → is_inside level p q ≡ true
    → r / 2 ^ level ≡ q / 2 ^ level
    → is_inside level p r ≡ true
inside_trans level p q r e k = inside_true level p r (k ∙ inside_iff level p q e)

pub inside_cut :
    (h : Heap) (top : ℕ) (cut : ℕ → ℕ) (apart level p q : ℕ)
    → IsCut h top cut apart
    → cut p ≡ level
    → is_inside level p q ≡ true
    → cut q ≡ level
inside_cut h top cut apart level p q c e i =
    let i' : q / 2 ^ cut p ≡ p / 2 ^ cut p = rw e (inside_iff level p q i) in c.coherent p q i' ∙ e

pub coherent-split :
    (h : Heap) (top : ℕ) (cut : ℕ → ℕ) (apart l p : ℕ)
    → IsCut h top cut apart
    → cut p ≡ suc l
    → (q r : ℕ) → r / 2 ^ recut cut (suc l) p l q ≡ q / 2 ^ recut cut (suc l) p l q
    → recut cut (suc l) p l r ≡ recut cut (suc l) p l q
coherent-split h top cut apart l p c e =
    coherent-recut cut (suc l) p l c.coherent
      (λ a b i k. inside_trans (suc l) p a b i (same_block l b a k))
      (λ a b i k.
        inside_trans (suc l) p a b i (rw (inside_cut h top cut apart (suc l) p a c e i) at k))
