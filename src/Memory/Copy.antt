-- ===== src/Memory/Copy.antt =====
-- `memcpy` and `memmove` of kernel/libc.c against the copy that they promise.
use mathlib.Core.Path.{fun_ext}
use ne_xs_operate_system.Base.{
  ℕ, zero, suc, ◌+◌, ◌-◌, ◌%◌, ◌≤◌, ◌<◌, ◌≡◌, ◌≢◌, ◌⊎◌, inl, inr, refl, ap, ◌∙◌, false, ◌&&◌, ◌||◌,
  Option, some, arith, ltb, leb, ◌==◌, if◌then◌else◌, Bool-cases,
}
use ne_xs_operate_system.Memory.{
  Mem, store_byte, copy_word, Copying, copy_words, copy_forward, copy_backward, copy_rest, memcpy,
  memmove,
}

-- The reference: the `n` bytes from `s` on, as they are in `m`, stand at `d`.
unfoldable pub copied : Mem → ℕ → ℕ → ℕ → Mem
copied m d s n a = if leb d a && ltb a (d + n) then m (s + (a - d)) else m a

copy_forward_lem :
    (n d s : ℕ) (m : Mem) (a : ℕ)
    → (d ≤ s) ⊎ (s + n ≤ d)
    → copy_forward n d s m a ≡ copied m d s n a
unfolding copy_forward copied
copy_forward_lem zero d s m a h = ground arith
copy_forward_lem (suc n) d s m a h =
    let same : d < a → m (s + 1 + (a - (d + 1))) ≡ m (s + (a - d)) = λ q. ap m (omega arith) in
    let first : a ≡ d → m (s + (a - d)) ≡ m s = λ q. ap m (omega arith) in
    ground (arith, copy_forward_lem n (d + 1) (s + 1) (store_byte m d (m s)) a, same, first)

copy_backward_lem :
    (n d s : ℕ) (m : Mem) (a : ℕ) → s ≤ d → copy_backward n (d + n) (s + n) m a ≡ copied m d s n a
unfolding copy_backward copied
copy_backward_lem zero d s m a h = ground arith
copy_backward_lem (suc n) d s m a h =
    let d' : d + suc n - 1 ≡ d + n = omega arith in
    let s' : s + suc n - 1 ≡ s + n = omega arith in
    let last : a ≡ d + n → m (s + (a - d)) ≡ m (s + n) = λ q. ap m (omega arith) in
    rw (d', s') (ground (arith, copy_backward_lem n d s (store_byte m (d + n) (m (s + n))) a, last))

-- A copy of the first bytes, then of the others.
pub copied-copied :
    (m : Mem) (d s k n total a : ℕ)
    → (d ≤ s) ⊎ (s + total ≤ d)
    → k + n ≡ total
    → copied (copied m d s k) (d + k) (s + k) n a ≡ copied m d s total a
unfolding copied
copied-copied m d s k n total a h e =
    let there : d + k ≤ a → m (s + k + (a - (d + k))) ≡ m (s + (a - d)) = λ q. ap m (omega arith) in
    ground (arith, there)

pub store_byte-copied : (m : Mem) (d s a : ℕ) → store_byte m d (m s) a ≡ copied m d s 1 a
unfolding copied
store_byte-copied m d s a =
    let here : a ≡ d → m (s + (a - d)) ≡ m s = λ q. ap m (omega arith) in ground (arith, here)

-- A copy of one byte, then of the others.
pub byte-copied :
    (m : Mem) (d s n a : ℕ)
    → (d ≤ s) ⊎ (s + suc n ≤ d)
    → copied (store_byte m d (m s)) (d + 1) (s + 1) n a ≡ copied m d s (suc n) a
byte-copied m d s n a h =
    ap (λ mem. copied mem (d + 1) (s + 1) n a) (fun_ext λ x. store_byte-copied m d s x)
    ∙ copied-copied m d s 1 n (suc n) a h (omega arith)

-- The words copied so far, and that the rest is as far ahead.
record IsCopied (m : Mem) (d s n : ℕ) (c : Copying) : Type 0 where
  to : c.to + c.left ≡ d + n
  from : c.from + c.left ≡ s + n
  left : c.left ≤ n
  mem : (a : ℕ) → c.mem a ≡ copied m d s (n - c.left) a

copy_words_lem :
    (fuel d s n : ℕ) (m : Mem) → (d ≤ s) ⊎ (s + n ≤ d) → IsCopied m d s n (copy_words fuel d s n m)
unfolding copy_words copied
copy_words_lem zero d s n m h = record {
  to = refl;
  from = refl;
  left = omega arith;
  mem = λ a. ground arith;
}
copy_words_lem (suc fuel) d s n m h = elim (Bool-cases (leb 8 n)) [
  | inr few ↦
      rw few (record { to = refl; from = refl; left = omega arith; mem = λ a. ground arith })
  | inl more ↦
      let eight : 8 ≤ n = ground arith in
      let rest = copy_words_lem fuel (d + 8) (s + 8) (n - 8) (copy_word m d s) (ground arith) in
      let c = copy_words fuel (d + 8) (s + 8) (n - 8) (copy_word m d s) in
      rw more (record {
        to = omega (arith, rest.to);
        from = omega (arith, rest.from);
        left = omega (arith, rest.left);
        mem = λ a.
            rest.mem a
            ∙ copied-copied m d s 8 (n - 8 - c.left) (n - c.left) a (ground arith)
                (omega (arith, rest.left));
      })
]

copy_rest_lem :
    (m : Mem) (d s n a : ℕ)
    → (d ≤ s) ⊎ (s + n ≤ d)
    → copy_rest (copy_words n d s n m) a ≡ copied m d s n a
copy_rest_lem m d s n a h =
    let c = copy_words n d s n m in
    let w = copy_words_lem n d s n m h in
    copy_forward_lem c.left c.to c.from c.mem a (omega (arith, h, w.to, w.from))
    ∙ ap (λ mem. copied mem c.to c.from c.left a) (fun_ext w.mem)
    ∙ ap (λ x. copied (copied m d s (n - c.left)) x c.from c.left a) (omega (arith, w.to, w.left))
    ∙ ap (λ x. copied (copied m d s (n - c.left)) (d + (n - c.left)) x c.left a)
        (omega (arith, w.from, w.left))
    ∙ copied-copied m d s (n - c.left) c.left n a h (omega (arith, w.left))

-- A call that succeeds and leaves the bytes where they are promised, and all others alone.
abbrev pub Copies : Option Mem → Mem → ℕ → ℕ → ℕ → Type 0
Copies r m d s n = (m' : Mem) × (r ≡ some m') × ((a : ℕ) → m' a ≡ copied m d s n a)

memcpy-Copies :
    (m : Mem) (dest src num : ℕ)
    → dest ≢ 0
    → src ≢ 0
    → Copies (memcpy m dest src num) m dest src num
unfolding memcpy
memcpy-Copies m dest src num p q =
    let given : (dest == 0 || src == 0) ≡ false = ground arith in
    elim (Bool-cases (ltb src dest && ltb dest (src + num))) [
      | inl over ↦
          rw (given, over)
            (
              copy_backward num (dest + num) (src + num) m,
              refl,
              λ a. copy_backward_lem num dest src m a (ground arith),
            )
      | inr clear ↦
          rw (given, clear)
            (
              copy_rest (copy_words num dest src num m),
              refl,
              λ a. copy_rest_lem m dest src num a (ground arith),
            )
    ]

memmove-Copies :
    (m : Mem) (dest src num : ℕ)
    → dest ≢ 0
    → src ≢ 0
    → Copies (memmove m dest src num) m dest src num
unfolding memmove
memmove-Copies m dest src num p q =
    let given : (dest == 0 || src == 0) ≡ false = ground arith in
    elim (Bool-cases (ltb dest src)) [
      | inr after ↦
          rw (given, after)
            (
              copy_backward num (dest + num) (src + num) m,
              refl,
              λ a. copy_backward_lem num dest src m a (ground arith),
            )
      | inl before ↦ elim (Bool-cases (dest % 8 == src % 8)) [
        | inl aligned ↦
            rw (given, before, aligned)
              (
                copy_rest (copy_words num dest src num m),
                refl,
                λ a. copy_rest_lem m dest src num a (ground arith),
              )
        | inr unaligned ↦
            rw (given, before, unaligned)
              (
                copy_forward num dest src m,
                refl,
                λ a. copy_forward_lem num dest src m a (ground arith),
              )
      ]
    ]

-- `memcpy` and `memmove` of pointers that are not NULL both succeed and do the same, however the
-- regions overlap: the bytes read before the call stand at the destination, and no other byte
-- changes.
pub memcpy-memmove :
    (m : Mem) (dest src num : ℕ)
    → dest ≢ 0
    → src ≢ 0
    → Copies (memcpy m dest src num) m dest src num × Copies (memmove m dest src num) m dest src num
memcpy-memmove m dest src num p q =
    (memcpy-Copies m dest src num p q, memmove-Copies m dest src num p q)
