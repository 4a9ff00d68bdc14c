-- ===== src/Messages/Bytes.antt =====
-- The bytes of a message of kernel/messages.c: the class of a size, the copy in and the copy out.
use mathlib.Core.Path.{subst}
use ne_xs_operate_system.Base.{
  ℕ, zero, suc, ◌+◌, ◌-◌, ◌≡◌, ◌≢◌, refl, sym, ap, ◌∙◌, false, Option, none, some, List, [], ◌∷◌,
  arith, ◌≤◌, ◌<◌, leb, ltb, leb→le, ltb→lt, Bool-cases, inl, inr, length, take, get_or,
}
use ne_xs_operate_system.Messages.{
  slab_sizes, size_to_slab_from, size_to_slab, slab_size, copy_bytes, msg_max_size,
}

abbrev pub class_or_0 : Option ℕ → ℕ
class_or_0 c = elim c [ none ↦ 0 | some slab ↦ slab ]

-- The class that the loop finds is one of the table from `i` on, and large enough.
size_to_slab_from-fits :
    (ss : List ℕ) (i size slab : ℕ)
    → size_to_slab_from ss i size ≡ some slab
    → (i ≤ slab) × (size ≤ get_or ss (slab - i) 0)
size_to_slab_from-fits [] i size slab e = absurd (ground (arith, e))
size_to_slab_from-fits (s ∷ ss) i size slab e = elim (Bool-cases (leb size s)) [
  | inl fits ↦
      let first : size_to_slab_from (s ∷ ss) i size ≡ some i = rw fits refl in
      let here : i ≡ slab = ap class_or_0 (sym first ∙ e) in
      let start : slab - i ≡ 0 = omega (arith, here) in
      (omega (arith, here), rw start (leb→le size s fits))
  | inr larger ↦
      let next : size_to_slab_from (s ∷ ss) i size ≡ size_to_slab_from ss (i + 1) size =
        rw larger refl in
      let (after, fits) = size_to_slab_from-fits ss (i + 1) size slab (sym next ∙ e) in
      let step : slab - i ≡ suc (slab - (i + 1)) = omega (arith, after) in
      (omega (arith, after), rw step fits)
]

pub size_to_slab-fits : (size slab : ℕ) → size_to_slab size ≡ some slab → size ≤ slab_size slab
unfolding size_to_slab
size_to_slab-fits size slab e =
    let all : slab - 0 ≡ slab = omega arith in
    subst (λ i. size ≤ get_or slab_sizes i 0) all
      (size_to_slab_from-fits slab_sizes 0 size slab e).1

pub size_to_slab-too_large : (size : ℕ) → msg_max_size < size → size_to_slab size ≡ none
unfolding size_to_slab
size_to_slab-too_large size large = ground arith

pub size_to_slab-not_none : (size : ℕ) → size ≤ msg_max_size → size_to_slab size ≢ none
unfolding size_to_slab
size_to_slab-not_none size small e = ground (arith, small, e)

pub size_to_slab-small :
    (size slab : ℕ) → size_to_slab size ≡ some slab → ltb msg_max_size size ≡ false
size_to_slab-small size slab e = elim (Bool-cases (ltb msg_max_size size)) [
  | inl large ↦
      let gone = size_to_slab-too_large size (ltb→lt msg_max_size size large) in
      absurd (ground (arith, gone, e))
  | inr small ↦ small
]

pub length-copy_bytes : (n : ℕ) (src room : List ℕ) → length (copy_bytes n src room) ≡ length room
unfolding copy_bytes
length-copy_bytes zero src room = refl
length-copy_bytes (suc n) [] room = refl
length-copy_bytes (suc n) (b ∷ src) [] = refl
length-copy_bytes (suc n) (b ∷ src) (r ∷ room) = ap suc (length-copy_bytes n src room)

pub take-copy_bytes :
    (src room : List ℕ)
    → length src ≤ length room
    → take (length src) (copy_bytes (length src) src room) ≡ src
unfolding copy_bytes
take-copy_bytes [] room fits = refl
take-copy_bytes (b ∷ src) [] fits = absurd (omega arith)
take-copy_bytes (b ∷ src) (r ∷ room) fits =
    ap (λ xs. b ∷ xs) (take-copy_bytes src room (omega arith))
