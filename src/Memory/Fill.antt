-- ===== src/Memory/Fill.antt =====
-- `memset` of kernel/libc.c against the bytewise fill that it promises.
use mathlib.Core.Path.{fun_ext}
use ne_xs_operate_system.Base.{
  ℕ, zero, suc, ◌+◌, ◌-◌, ◌*◌, ◌/◌, ◌%◌, ◌^◌, ◌≤◌, ◌<◌, ◌≡◌, ◌≢◌, inl, inr, refl, ap, ◌∙◌, true,
  false, ◌&&◌, some, arith, ltb, leb, ◌==◌, ==_iff, if◌then◌else◌, Bool-cases, all_below,
  all_below-lt,
}
use ne_xs_operate_system.Memory.{
  Mem, store_byte, store_word, pattern_word, Filling, fill_unaligned, fill_words, fill_bytes,
  memset,
}

-- The reference: `v` at each of the `n` addresses from `p` on.
unfoldable pub filled : Mem → ℕ → ℕ → ℕ → Mem
filled m p v n a = if leb p a && ltb a (p + n) then v else m a

-- The word of eight equal bytes, of every byte.
pattern_table : all_below 256 (λ v. pattern_word 8 v 0 == v * 0x0101010101010101) ≡ true
unfolding pattern_word all_below
pattern_table = refl

pattern_word_lem : (v : ℕ) → v < 256 → pattern_word 8 v 0 ≡ v * 0x0101010101010101
pattern_word_lem v h = (==_iff _ _).0 (all_below-lt 256 _ v pattern_table h)

byte_of_pattern : (v i : ℕ) → v < 256 → i < 8 → v * 0x0101010101010101 / 256 ^ i % 256 ≡ v
byte_of_pattern v zero h q = omega arith
byte_of_pattern v (suc zero) h q = omega arith
byte_of_pattern v (suc (suc zero)) h q = omega arith
byte_of_pattern v (suc (suc (suc zero))) h q = omega arith
byte_of_pattern v (suc (suc (suc (suc zero)))) h q = omega arith
byte_of_pattern v (suc (suc (suc (suc (suc zero))))) h q = omega arith
byte_of_pattern v (suc (suc (suc (suc (suc (suc zero)))))) h q = omega arith
byte_of_pattern v (suc (suc (suc (suc (suc (suc (suc zero))))))) h q = omega arith
byte_of_pattern v (suc (suc (suc (suc (suc (suc (suc (suc i)))))))) h q = absurd (omega arith)

store_word_lem :
    (m : Mem) (p v a : ℕ) → v < 256 → store_word m p (pattern_word 8 v 0) a ≡ filled m p v 8 a
unfolding filled
store_word_lem m p v a h = rw (pattern_word_lem v h) (ground (arith, byte_of_pattern v (a - p) h))

filled-filled :
    (m : Mem) (p v k n total a : ℕ)
    → k + n ≡ total
    → filled (filled m p v k) (p + k) v n a ≡ filled m p v total a
unfolding filled
filled-filled m p v k n total a e = ground arith

fill_bytes_lem : (n p v : ℕ) (m : Mem) (a : ℕ) → fill_bytes n p v m a ≡ filled m p v n a
unfolding fill_bytes filled
fill_bytes_lem zero p v m a = ground arith
fill_bytes_lem (suc n) p v m a = ground (arith, fill_bytes_lem n (p + 1) v (store_byte m p v) a)

-- The bytes filled so far.
record IsFilled (m : Mem) (p v n : ℕ) (f : Filling) : Type 0 where
  at : f.at + f.left ≡ p + n
  left : f.left ≤ n
  mem : (a : ℕ) → f.mem a ≡ filled m p v (n - f.left) a

filled_none : (m : Mem) (p v n a : ℕ) → m a ≡ filled m p v (n - n) a
unfolding filled
filled_none m p v n a = ground arith

fill_unaligned_lem : (n p v : ℕ) (m : Mem) → IsFilled m p v n (fill_unaligned n p v m)
unfolding fill_unaligned
fill_unaligned_lem zero p v m = record {
  at = refl;
  left = omega arith;
  mem = λ a. filled_none m p v 0 a;
}
fill_unaligned_lem (suc n) p v m = elim (Bool-cases (p % 8 == 0)) [
  | inl aligned ↦
      rw aligned (record { at = refl; left = omega arith; mem = λ a. filled_none m p v (suc n) a })
  | inr off ↦
      let rest = fill_unaligned_lem n (p + 1) v (store_byte m p v) in
      let f = fill_unaligned n (p + 1) v (store_byte m p v) in
      rw off (record {
        at = omega (arith, rest.at);
        left = omega (arith, rest.left);
        mem = λ a.
            rest.mem a
            ∙ ap (λ mem. filled mem (p + 1) v (n - f.left) a) (fun_ext λ x. store_byte_lem m p v x)
            ∙ filled-filled m p v 1 (n - f.left) (suc n - f.left) a (omega (arith, rest.left));
      })
]
  where
    store_byte_lem : (m : Mem) (p v a : ℕ) → store_byte m p v a ≡ filled m p v 1 a
    store_byte_lem m p v a = unfold filled in ground arith

fill_words_lem :
    (fuel p v n : ℕ) (m : Mem)
    → v < 256
    → IsFilled m p v n (fill_words fuel p n (pattern_word 8 v 0) m)
unfolding fill_words
fill_words_lem zero p v n m h = record {
  at = refl;
  left = omega arith;
  mem = λ a. filled_none m p v n a;
}
fill_words_lem (suc fuel) p v n m h = elim (Bool-cases (leb 8 n)) [
  | inr few ↦ rw few (record { at = refl; left = omega arith; mem = λ a. filled_none m p v n a })
  | inl more ↦
      let word = pattern_word 8 v 0 in
      let eight : 8 ≤ n = ground arith in
      let rest = fill_words_lem fuel (p + 8) v (n - 8) (store_word m p word) h in
      let f = fill_words fuel (p + 8) (n - 8) word (store_word m p word) in
      rw more (record {
        at = omega (arith, rest.at);
        left = omega (arith, rest.left);
        mem = λ a.
            rest.mem a
            ∙ ap (λ mem. filled mem (p + 8) v (n - 8 - f.left) a)
                (fun_ext λ x. store_word_lem m p v x h)
            ∙ filled-filled m p v 8 (n - 8 - f.left) (n - f.left) a (omega (arith, rest.left));
      })
]

-- One stage after another.
IsFilled-trans :
    (m : Mem) (p v n : ℕ) (f : Filling) (mem' : Mem) (a : ℕ)
    → IsFilled m p v n f
    → ((x : ℕ) → mem' x ≡ filled f.mem f.at v f.left x)
    → mem' a ≡ filled m p v n a
IsFilled-trans m p v n f mem' a w e =
    e a
    ∙ ap (λ mem. filled mem f.at v f.left a) (fun_ext w.mem)
    ∙ ap (λ x. filled (filled m p v (n - f.left)) x v f.left a) (omega (arith, w.at, w.left))
    ∙ filled-filled m p v (n - f.left) f.left n a (omega (arith, w.left))

-- `memset` of a pointer that is not NULL succeeds and stores the lowest byte of `value` at each of
-- the `num` addresses, and nothing elsewhere, however the region is aligned.
pub memset_lem :
    (m : Mem) (ptr value num : ℕ)
    → ptr ≢ 0
    → (m' : Mem) × (memset m ptr value num ≡ some m')
      × ((a : ℕ) → m' a ≡ filled m ptr (value % 256) num a)
unfolding memset
memset_lem m ptr value num h =
    let v = value % 256 in
    let start = fill_unaligned num ptr v m in
    let bulk = fill_words start.left start.at start.left (pattern_word 8 v 0) start.mem in
    let first = fill_unaligned_lem num ptr v m in
    let second = fill_words_lem start.left start.at v start.left start.mem (omega arith) in
    let given : (ptr == 0) ≡ false = ground arith in
    rw given (
      fill_bytes bulk.left bulk.at v bulk.mem,
      refl,
      λ a. IsFilled-trans m ptr v num start _ a first λ x.
          IsFilled-trans start.mem start.at v start.left bulk _ x second
            λ y. fill_bytes_lem bulk.left bulk.at v bulk.mem y,
    )
