-- ===== src/Numbers/Print.antt =====
-- What `uitoa` and `itoa` of kernel/libc.c write: the number in its base, the highest digit first.
use native.Mathlib.Nat.{
  div-div-eq-div-mul, mod-eq-sub-div-mul, pow-suc, mul-le-mul, pow-succ', pow-zero, div-one,
  div-lt_iff_lt-mul, le-div_iff_mul-le,
}
use ne_xs_operate_system.Base.{
  ℕ, zero, suc, ◌+◌, ◌-◌, ◌*◌, ◌/◌, ◌%◌, ◌^◌, ◌≤◌, ◌<◌, ◌≡◌, ◌≢◌, ◌⊎◌, inl, inr, refl, sym, ap, ◌∙◌,
  true, false, ◌&&◌, ◌||◌, some, arith, ltb, ◌==◌, if◌then◌else◌, Bool-cases,
}
use ne_xs_operate_system.Memory.{Mem, store_byte}
use ne_xs_operate_system.Numbers.{
  digit_char, digits_loop, finish, uitoa, is_negative, magnitude, itoa,
}
use ne_xs_operate_system.Numbers.Reverse.{reversed_in, reversed_out, reverse_loop_lem}

-- Digit `k` of a number, from the lowest on.
abbrev pub digit : ℕ → ℕ → ℕ → ℕ
digit base v k = v / base ^ k % base

digit-zero : (base v : ℕ) → digit base v 0 ≡ v % base
digit-zero base v = rw (pow-zero, div-one) refl

digit-suc : (base v k : ℕ) → digit base (v / base) k ≡ digit base v (suc k)
digit-suc base v k = rw (div-div-eq-div-mul, pow-succ') refl

-- The digits of `v`, as many as it has, stand from `p` on, the lowest first.
record IsDigits (m m' : Mem) (p base v fuel end : ℕ) : Type 0 where
  count : ℕ
  ends : end ≡ p + count
  some_digit : 0 < count
  bounded : count ≤ fuel
  fits : v < base ^ count
  least : (count ≡ 1) ⊎ (base ^ (count - 1) ≤ v)
  bytes : (k : ℕ) → k < count → m' (p + k) ≡ digit_char (digit base v k)
  outside : (a : ℕ) → (a < p) ⊎ (p + count ≤ a) → m' a ≡ m a

fits_suc : (base v n : ℕ) → 2 ≤ base → v / base < base ^ n → v < base ^ suc n
fits_suc base v n h k = rw pow-suc ((div-lt_iff_lt-mul (omega arith)).0 k)

least_suc : (base v n : ℕ) → 2 ≤ base → base ^ n ≤ v / base → base ^ suc n ≤ v
least_suc base v n h k = rw pow-suc ((le-div_iff_mul-le (omega arith)).0 k)

-- One division by the base takes at least one bit.
div_bit : (base v fuel : ℕ) → 2 ≤ base → v < 2 ^ suc fuel → v / base < 2 ^ fuel
div_bit base v fuel h k =
    let two : 2 ^ suc fuel ≡ 2 ^ fuel * 2 = pow-suc 2 fuel in
    let wide : 2 ^ fuel * 2 ≤ 2 ^ fuel * base = mul-le-mul (omega arith) h in
    (div-lt_iff_lt-mul (omega arith)).1 (omega arith)

fuel_left : (base v fuel : ℕ) → 2 ≤ base → v < 2 ^ suc fuel → v / base ≢ 0 → 0 < fuel
fuel_left base v zero h k ne =
    let one : 2 ^ 0 ≡ 1 = pow-zero 2 in let small = div_bit base v 0 h k in absurd (omega arith)
fuel_left base v (suc fuel) h k ne = omega arith

least_more :
    (base v c : ℕ)
    → 2 ≤ base
    → 0 < c
    → v / base ≢ 0
    → (c ≡ 1) ⊎ (base ^ (c - 1) ≤ v / base)
    → base ^ (suc c - 1) ≤ v
least_more base v zero b h ne l = absurd (omega arith)
least_more base v (suc n) b h ne l =
    let one : base ^ 0 ≡ 1 = pow-zero base in
    let same : suc (suc n) - 1 ≡ suc n = omega arith in
    let same' : suc n - 1 ≡ n = omega arith in
    rw same (
      least_suc base v n b (elim l [
        | inl e ↦ let none_left : n ≡ 0 = omega arith in rw none_left (omega arith)
        | inr k ↦ rw same' at k
      ]))

rem_digit : (base v : ℕ) → v - v / base * base ≡ digit base v 0
rem_digit base v = sym (mod-eq-sub-div-mul v base) ∙ sym (digit-zero base v)

-- The last round.
IsDigits-one :
    (m : Mem) (p base v fuel : ℕ)
    → v / base ≡ 0
    → 2 ≤ base
    → IsDigits m (store_byte m p (digit_char (v - v / base * base))) p base v (suc fuel) (p + 1)
IsDigits-one m p base v fuel h b = record {
  count = 1;
  ends = refl;
  some_digit = omega arith;
  bounded = omega arith;
  fits = fits_suc base v 0 b (rw (h, pow-zero) (omega arith));
  least = inl refl;
  bytes = λ k q.
      let here : k ≡ 0 = omega arith in
      let there : (p + k == p) ≡ true = ground arith in rw (there, rem_digit, here) refl;
  outside = λ a q. let there : (a == p) ≡ false = ground arith in rw there refl;
}

bytes_more :
    (m m' : Mem) (p base v count : ℕ)
    → ((k : ℕ) → k < count → m' (p + 1 + k) ≡ digit_char (digit base (v / base) k))
    → m' p ≡ store_byte m p (digit_char (v - v / base * base)) p
    → (k : ℕ) → k < suc count
    → m' (p + k) ≡ digit_char (digit base v k)
bytes_more m m' p base v count later first zero q =
    let here : (p == p) ≡ true = ground arith in
    ap m' (omega arith) ∙ first ∙ rw here (ap digit_char (rem_digit base v))
bytes_more m m' p base v count later first (suc k) q =
    ap m' (omega arith) ∙ later k (omega arith) ∙ ap digit_char (digit-suc base v k)

-- A round before the last, and the digits of the quotient behind its own.
IsDigits-more :
    (m m' : Mem) (p base v fuel end : ℕ)
    → v / base ≢ 0
    → 2 ≤ base
    → IsDigits
        (store_byte m p (digit_char (v - v / base * base)))
        m'
        (p + 1)
        base
        (v / base)
        fuel
        end
    → IsDigits m m' p base v (suc fuel) end
IsDigits-more m m' p base v fuel end h b rest = record {
  count = suc rest.count;
  ends = rest.ends ∙ omega arith;
  some_digit = omega arith;
  bounded = let q = rest.bounded in omega arith;
  fits = fits_suc base v rest.count b rest.fits;
  least = inr (least_more base v rest.count b rest.some_digit h rest.least);
  bytes = bytes_more m m' p base v rest.count rest.bytes (rest.outside p (inl (omega arith)));
  outside = λ a q.
      let there : (a == p) ≡ false = ground arith in rest.outside a (omega arith) ∙ rw there refl;
}

digits_loop-IsDigits :
    (fuel v p base : ℕ) (m : Mem)
    → 2 ≤ base
    → v < 2 ^ fuel
    → 0 < fuel
    → (end : ℕ) × (m' : Mem) × (digits_loop fuel v p base m ≡ some (end, m'))
      × IsDigits m m' p base v fuel end
unfolding digits_loop
digits_loop-IsDigits zero v p base m h b f = absurd (omega arith)
digits_loop-IsDigits (suc fuel) v p base m h b f = elim (Bool-cases (v / base == 0)) [
  | inl done ↦
      let last : v / base ≡ 0 = ground (arith, done) in
      (
        p + 1,
        store_byte m p (digit_char (v - v / base * base)),
        rw done refl,
        IsDigits-one m p base v fuel last h,
      )
  | inr more ↦
      let left : v / base ≢ 0 = ground (arith, more) in
      let m₁ = store_byte m p (digit_char (v - v / base * base)) in
      let (end, m', e, d) =
        digits_loop-IsDigits fuel (v / base) (p + 1) base m₁ h (div_bit base v fuel h b)
          (fuel_left base v fuel h b left) in
      (end, m', rw more e, IsDigits-more m m' p base v fuel end left h d)
]

-- The number stands from `p` on, its highest digit first, and a zero behind it.
pub record IsPrinted (m' : Mem) (p base v count : ℕ) : Type 0 where
  pub some_digit : 0 < count
  pub bounded : count ≤ 32
  pub fits : v < base ^ count
  pub least : (count ≡ 1) ⊎ (base ^ (count - 1) ≤ v)
  pub bytes : (i : ℕ) → i < count → m' (p + i) ≡ digit_char (digit base v (count - 1 - i))
  pub terminated : m' (p + count) ≡ 0

finish_lem :
    (str ptr : ℕ) (m : Mem)
    → str < ptr
    → (m' : Mem) × (finish str ptr m ≡ some m')
      × ((a b : ℕ) → str ≤ a → a < ptr → str + ptr ≡ a + b + 1 → m' a ≡ m b)
      × (m' ptr ≡ 0)
      × ((a : ℕ) → (a < str) ⊎ (ptr < a) → m' a ≡ m a)
unfolding finish
finish_lem str ptr m h =
    let m₀ = store_byte m ptr 0 in
    let (m', e, c) = reverse_loop_lem (ptr - str + 1) str (ptr - 1) m₀ (omega arith) in
    (
      m',
      e,
      λ a b k l q.
          let other : (b == ptr) ≡ false = ground arith in
          c a ∙ reversed_in m₀ str (ptr - 1) a b k (omega arith) (omega arith) ∙ rw other refl,
      (let here : (ptr == ptr) ≡ true = ground arith in
          c ptr ∙ reversed_out m₀ str (ptr - 1) ptr (omega arith) ∙ rw here refl),
      λ a q.
          let other : (a == ptr) ≡ false = ground arith in
          c a ∙ reversed_out m₀ str (ptr - 1) a (omega arith) ∙ rw other refl,
    )

-- The digits the other way round, the copy of `b` at `a`.
IsDigits-IsPrinted :
    (m m₁ m' : Mem) (str p base v end : ℕ) (d : IsDigits m m₁ str base v 32 end)
    → ((a b : ℕ) → p ≤ a → a < p + d.count → p + end ≡ a + b + 1 → m' a ≡ m₁ b)
    → m' (p + d.count) ≡ 0
    → IsPrinted m' p base v d.count
IsDigits-IsPrinted m m₁ m' str p base v end d moved zeroed =
    let many = d.ends in
    record {
      some_digit = d.some_digit;
      bounded = d.bounded;
      fits = d.fits;
      least = d.least;
      bytes = λ i q.
          moved (p + i) (str + (d.count - 1 - i)) (omega arith) (omega arith) (omega arith)
          ∙ d.bytes (d.count - 1 - i) (omega arith);
      terminated = zeroed;
    }

-- `uitoa` in a base it takes: it ends, and writes the digits of the number in that base, no leading
-- zero among them, with a zero behind them and no byte elsewhere.
pub uitoa_lem :
    (m : Mem) (v str base : ℕ)
    → 2 ≤ base
    → base ≤ 36
    → v < 2 ^ 32
    → (count : ℕ) × (m' : Mem) × (uitoa m v str base ≡ some m')
      × IsPrinted m' str base v count
      × ((a : ℕ) → (a < str) ⊎ (str + count < a) → m' a ≡ m a)
unfolding uitoa
uitoa_lem m v str base h k b =
    let takes : (ltb base 2 || ltb 36 base) ≡ false = ground arith in
    let (end, m₁, e, d) = digits_loop-IsDigits 32 v str base m h b (omega arith) in
    let many = d.ends in
    let some_digit' = d.some_digit in
    let (m', e', inside, zeroed, outside') = finish_lem str end m₁ (omega arith) in
    rw (takes, e)
      (
        d.count,
        m',
        e',
        IsDigits-IsPrinted m m₁ m' str str base v end d
            (λ a b' k l q. inside a b' k (omega arith) q) (ap m' (sym many) ∙ zeroed),
        λ a q. outside' a (omega arith) ∙ d.outside a (omega arith),
      )

-- One byte for the sign of a negative number in base 10.
abbrev pub sign_width : ℕ → ℕ → ℕ
sign_width v base = if is_negative v && base == 10 then 1 else 0

magnitude_bound : (v : ℕ) → v < 2 ^ 32 → magnitude v < 2 ^ 32
magnitude_bound v h = ground arith

-- `itoa` in a base it takes: it ends, and writes the digits of the absolute value in that base, no
-- leading zero among them, with a zero behind them, a minus before them if the number is negative
-- and the base is ten, and no byte elsewhere.
pub itoa_lem :
    (m : Mem) (v str base : ℕ)
    → 2 ≤ base
    → base ≤ 36
    → v < 2 ^ 32
    → (count : ℕ) × (m' : Mem) × (itoa m v str base ≡ some m')
      × IsPrinted m' (str + sign_width v base) base (magnitude v) count
      × ((is_negative v && base == 10) ≡ true → m' str ≡ b'-')
      × ((a : ℕ) → (a < str) ⊎ (str + sign_width v base + count < a) → m' a ≡ m a)
unfolding itoa
itoa_lem m v str base h k b =
    let takes : (ltb base 2 || ltb 36 base) ≡ false = ground arith in
    let (end, m₁, e, d) =
      digits_loop-IsDigits 32 (magnitude v) str base m h (magnitude_bound v b) (omega arith) in
    let many = d.ends in
    let some_digit' = d.some_digit in
    elim (Bool-cases (is_negative v && base == 10)) [
      | inr plain ↦
          let (m', e', inside, zeroed, outside') = finish_lem str end m₁ (omega arith) in
          rw (takes, e, plain)
            (
              d.count,
              m',
              e',
              IsDigits-IsPrinted m m₁ m' str (str + 0) base (magnitude v) end d
                  (λ a b' k l q. inside a b' (omega arith) (omega arith) (omega arith))
                  (ap m' (omega arith) ∙ zeroed),
              λ q. absurd (ground arith),
              λ a q. outside' a (omega arith) ∙ d.outside a (omega arith),
            )
      | inl signed ↦
          let m₂ = store_byte m₁ end b'-' in
          let (m', e', inside, zeroed, outside') = finish_lem str (end + 1) m₂ (omega arith) in
          let kept : (a : ℕ) → a ≢ end → m₂ a ≡ m₁ a = λ a q. ground arith in
          let put : m₂ end ≡ b'-' = ground arith in
          rw (takes, e, signed)
            (
              d.count,
              m',
              e',
              IsDigits-IsPrinted m m₁ m' str (str + 1) base (magnitude v) end d
                  (λ a b' k l q.
                    inside a b' (omega arith) (omega arith) (omega arith) ∙ kept b' (omega arith))
                  (ap m' (omega arith) ∙ zeroed),
              λ q. inside str end (omega arith) (omega arith) (omega arith) ∙ put,
              λ a q. outside' a (omega arith) ∙ kept a (omega arith) ∙ d.outside a (omega arith),
            )
    ]
