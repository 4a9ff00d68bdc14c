-- ===== src/Memory/Compare.antt =====
-- What the answer of `memcmp` of kernel/libc.c tells.
use ne_xs_operate_system.Base.{
  ℕ, zero, suc, ◌+◌, ◌<◌, ◌≡◌, ◌≢◌, inl, inr, refl, sym, ap, ◌∙◌, false, ◌||◌, some, arith, ◌==◌,
  ==_iff, Bool-cases,
}
use ne_xs_operate_system.Memory.{Mem, compare_bytes, memcmp}

-- The regions agree, and the answer is 0; or `r` holds the first two bytes that differ.
pub data IsCompared (m : Mem) (p q n : ℕ) (r : ℕ × ℕ) : Type 0 where
  same : ((i : ℕ) → i < n → m (p + i) ≡ m (q + i)) → r ≡ (0, 0) → IsCompared m p q n r
  differ :
      (k : ℕ)
      → k < n
      → ((i : ℕ) → i < k → m (p + i) ≡ m (q + i))
      → m (p + k) ≢ m (q + k)
      → r ≡ (m (p + k), m (q + k))
      → IsCompared m p q n r

-- One byte more in front.
agree_suc :
    (m : Mem) (p q k : ℕ)
    → m p ≡ m q
    → ((i : ℕ) → i < k → m (p + 1 + i) ≡ m (q + 1 + i))
    → (i : ℕ) → i < suc k
    → m (p + i) ≡ m (q + i)
agree_suc m p q k e all zero h = ap m (omega arith) ∙ e ∙ ap m (omega arith)
agree_suc m p q k e all (suc i) h = ap m (omega arith) ∙ all i (omega arith) ∙ ap m (omega arith)

shift : (m : Mem) (p k : ℕ) → m (p + 1 + k) ≡ m (p + suc k)
shift m p k = ap m (omega arith)

IsCompared-suc :
    (m : Mem) (p q n : ℕ) (r : ℕ × ℕ)
    → m p ≡ m q
    → IsCompared m (p + 1) (q + 1) n r
    → IsCompared m p q (suc n) r
IsCompared-suc m p q n r e (same all is) = same (agree_suc m p q n e all) is
IsCompared-suc m p q n r e (differ k h all ne is) =
    differ (suc k) (omega arith) (agree_suc m p q k e all)
      (λ c. ne (shift m p k ∙ c ∙ sym (shift m q k)))
      (is ∙ ap (λ x. (x, m (q + 1 + k))) (shift m p k) ∙ ap (λ x. (m (p + suc k), x)) (shift m q k))

compare_bytes-IsCompared : (n p q : ℕ) (m : Mem) → IsCompared m p q n (compare_bytes n p q m)
unfolding compare_bytes
compare_bytes-IsCompared zero p q m = same (λ i h. absurd (omega arith)) refl
compare_bytes-IsCompared (suc n) p q m = elim (Bool-cases (m p == m q)) [
  | inl e ↦
      rw e
        (IsCompared-suc m p q n _ ((==_iff _ _).0 e) (compare_bytes-IsCompared n (p + 1) (q + 1) m))
  | inr e ↦
      let p' : p ≡ p + 0 = omega arith in
      let q' : q ≡ q + 0 = omega arith in
      rw e (
        differ 0 (omega arith) (λ i h. absurd (omega arith))
          (λ c. ground (arith, ap m p', ap m q', c))
          (ap (λ x. (x, m q)) (ap m p') ∙ ap (λ x. (m (p + 0), x)) (ap m q')))
]

-- `memcmp` of pointers that are not NULL answers 0 if the regions agree, and else the difference
-- of the first two bytes that differ.
pub memcmp-IsCompared :
    (m : Mem) (ptr1 ptr2 num : ℕ)
    → ptr1 ≢ 0
    → ptr2 ≢ 0
    → (r : ℕ × ℕ) × (memcmp m ptr1 ptr2 num ≡ some r) × IsCompared m ptr1 ptr2 num r
unfolding memcmp
memcmp-IsCompared m ptr1 ptr2 num h k =
    let given : (ptr1 == 0 || ptr2 == 0) ≡ false = ground arith in
    rw given (compare_bytes num ptr1 ptr2 m, refl, compare_bytes-IsCompared num ptr1 ptr2 m)
