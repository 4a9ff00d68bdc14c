-- ===== src/CString/Bounded.antt =====
-- `strncpy` of kernel/libc.c: the string cut to `n` bytes, or padded with zeros to `n`.
use mathlib.Core.Path.{subst}
use ne_xs_operate_system.Base.{
  ℕ, zero, suc, ◌+◌, ◌-◌, ◌≤◌, ◌<◌, ◌≡◌, ◌⊎◌, refl, ap, ◌∙◌, true, false, ◌&&◌, List, [], ◌∷◌,
  arith, ltb, leb, ◌==◌, if◌then◌else◌, length, get_or,
}
use ne_xs_operate_system.Memory.{Mem, store_byte}
use ne_xs_operate_system.CString.{pad, strncpy_from, strncpy, IsStringAt}
use ne_xs_operate_system.CString.Copy.{IsStringAt-ext}

-- The bytes of `xs` from `p` on, `n` of them, zeros behind the end of `xs`.
abbrev pub placed : Mem → ℕ → ℕ → List ℕ → Mem
placed m p n xs a = if leb p a && ltb a (p + n) then get_or xs (a - p) 0 else m a

pad_lem : (left d i : ℕ) (m : Mem) (a : ℕ) → pad left m d i a ≡ placed m (d + i) left [] a
unfolding pad
pad_lem zero d i m a = ground arith
pad_lem (suc left) d i m a = ground (arith, pad_lem left d (i + 1) (store_byte m (d + i) 0) a)

get_or_behind : (x : ℕ) (xs : List ℕ) (k : ℕ) → 0 < k → get_or (x ∷ xs) k 0 ≡ get_or xs (k - 1) 0
get_or_behind x xs zero h = absurd (omega arith)
get_or_behind x xs (suc k) h = ap (λ j. get_or xs j 0) (omega arith)

get_or_front : (x : ℕ) (xs : List ℕ) (k : ℕ) → k ≡ 0 → get_or (x ∷ xs) k 0 ≡ x
get_or_front x xs zero h = refl
get_or_front x xs (suc k) h = absurd (omega arith)

strncpy_from_lem :
    (left d s i : ℕ) (m : Mem) (xs : List ℕ) (a : ℕ)
    → IsStringAt m (s + i) xs
    → (d + i + left ≤ s + i) ⊎ (s + i + length xs < d + i)
    → strncpy_from left m d s i a ≡ placed m (d + i) left xs a
unfolding strncpy_from
strncpy_from_lem zero d s i m xs a t o = ground arith
strncpy_from_lem (suc left) d s i m [] a t o =
    let stop : (m (s + i) == 0) ≡ true = ground arith in rw stop (pad_lem (suc left) d i m a)
strncpy_from_lem (suc left) d s i m (x ∷ xs) a (here, ne, rest) o =
    let m' = store_byte m (d + i) (m (s + i)) in
    let more : (m (s + i) == 0) ≡ false = ground arith in
    let rest' =
      IsStringAt-ext m m' (s + i + 1) (s + (i + 1)) xs
        (λ j q.
          let e : m (s + (i + 1) + j) ≡ m (s + i + 1 + j) = ap m (omega arith) in ground (arith, e))
        rest in
    let ih = strncpy_from_lem left d s (i + 1) m' xs a rest' (omega arith) in
    rw more (ground (arith, ih, get_or_behind x xs (a - (d + i)), get_or_front x xs (a - (d + i))))

-- `strncpy` of a string into a region that neither the string nor its zero meets writes exactly `n`
-- bytes: the first `n` of the string, and zeros if it is shorter.
pub strncpy_lem :
    (d s n : ℕ) (m : Mem) (xs : List ℕ) (a : ℕ)
    → IsStringAt m s xs
    → (d + n ≤ s) ⊎ (s + length xs < d)
    → strncpy m d s n a ≡ placed m d n xs a
unfolding strncpy
strncpy_lem d s n m xs a t o =
    let e : s ≡ s + 0 = omega arith in
    let t' = subst (λ q. IsStringAt m q xs) e t in
    strncpy_from_lem n d s 0 m xs a t' (omega arith) ∙ ap (λ q. placed m q n xs a) (omega arith)
