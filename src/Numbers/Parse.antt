-- ===== src/Numbers/Parse.antt =====
-- `atoi` of kernel/libc.c reads back what `itoa` writes in base ten.
use native.Mathlib.Nat.{
  div-div-eq-div-mul, pow-suc, pow-zero, div-one, div-add-mod', div-le_self, div-eq_of_lt, mod-lt,
  mod-eq_of_lt,
}
use mathlib.Core.Path.{subst}
use ne_xs_operate_system.Base.{
  ℕ, zero, suc, ◌+◌, ◌-◌, ◌*◌, ◌/◌, ◌%◌, ◌^◌, ◌≤◌, ◌<◌, ◌≡◌, ◌≢◌, inl, inr, refl, sym, ap, ◌∙◌,
  true, false, ◌&&◌, some, arith, leb, ◌==◌, Bool-cases,
}
use ne_xs_operate_system.Memory.{Mem}
use ne_xs_operate_system.Numbers.{digit_char, is_negative, magnitude, itoa, atoi_loop, atoi}
use ne_xs_operate_system.Numbers.Print.{digit, IsPrinted, sign_width, itoa_lem}

decimal_char : (d : ℕ) → d < 10 → digit_char d ≡ b'0' + d
unfolding digit_char
decimal_char d h = ground arith

decimal_bound : (v k : ℕ) → digit 10 v k < 10
decimal_bound v k = mod-lt (v / 10 ^ k) (omega arith)

-- One more digit read.
res_step : (v r : ℕ) → v < 2 ^ 32 → (v / 10 ^ suc r * 10 + digit 10 v r) % 2 ^ 32 ≡ v / 10 ^ r
res_step v r h =
    let split : v / 10 ^ suc r ≡ v / 10 ^ r / 10 = rw (pow-suc, div-div-eq-div-mul) refl in
    let small = div-le_self v (10 ^ r) in rw (split, div-add-mod') (mod-eq_of_lt (omega arith))

atoi_loop_lem :
    (r fuel q v : ℕ) (m : Mem)
    → r < fuel
    → v < 2 ^ 32
    → ((i : ℕ) → i < r → m (q + i) ≡ digit_char (digit 10 v (r - 1 - i)))
    → m (q + r) ≡ 0
    → atoi_loop fuel m q (v / 10 ^ r) ≡ some v
unfolding atoi_loop
atoi_loop_lem r zero q v m h b bytes z = absurd (omega arith)
atoi_loop_lem zero (suc fuel) q v m h b bytes z =
    let stop : m q ≡ 0 = ap m (omega arith) ∙ z in
    let ended : (leb b'0' (m q) && leb (m q) b'9') ≡ false = ground arith in
    rw (ended, pow-zero, div-one) refl
atoi_loop_lem (suc r) (suc fuel) q v m h b bytes z =
    let first : m q ≡ b'0' + digit 10 v r =
      ap m (omega arith)
      ∙ bytes 0 (omega arith)
      ∙ ap (λ k. digit_char (digit 10 v k)) (omega arith)
      ∙ decimal_char (digit 10 v r) (decimal_bound v r) in
    let small = decimal_bound v r in
    let goes_on : (leb b'0' (m q) && leb (m q) b'9') ≡ true = ground arith in
    let same : m q - b'0' ≡ digit 10 v r = omega arith in
    rw (goes_on, same, res_step v r b)
      (atoi_loop_lem r fuel (q + 1) v m (omega arith) b
        (λ i k.
          ap m (omega arith)
          ∙ bytes (suc i) (omega arith)
          ∙ ap (λ k'. digit_char (digit 10 v k')) (omega arith))
        (ap m (omega arith) ∙ z))

-- A printed number read from its first digit on.
atoi_loop-IsPrinted :
    (fuel p v count : ℕ) (m : Mem)
    → 32 < fuel
    → v < 2 ^ 32
    → IsPrinted m p 10 v count
    → atoi_loop fuel m p 0 ≡ some v
atoi_loop-IsPrinted fuel p v count m h b d =
    let none_read : 0 ≡ v / 10 ^ count = sym (div-eq_of_lt d.fits) in
    let few = d.bounded in
    ap (atoi_loop fuel m p) none_read
    ∙ atoi_loop_lem count fuel p v m (omega arith) b d.bytes d.terminated

first_digit : (p v count : ℕ) (m : Mem) → IsPrinted m p 10 v count → (b'0' ≤ m p) × (m p ≤ b'9')
first_digit p v count m d =
    let small = decimal_bound v (count - 1 - 0) in
    let e : m p ≡ b'0' + digit 10 v (count - 1 - 0) =
      ap m (omega arith)
      ∙ d.bytes 0 d.some_digit
      ∙ decimal_char (digit 10 v (count - 1 - 0)) small in
    (omega arith, omega arith)

atoi_signed :
    (fuel : ℕ) (m : Mem) (v str count : ℕ)
    → 32 < fuel
    → v < 2 ^ 32
    → is_negative v ≡ true
    → m str ≡ b'-'
    → IsPrinted m (str + 1) 10 (2 ^ 32 - v) count
    → atoi fuel m str ≡ some v
unfolding atoi
atoi_signed fuel m v str count h b negative minus d =
    let least_int : 2 ^ 31 ≤ v = ground arith in
    let signed : (m str == b'-') ≡ true = ground arith in
    let read = atoi_loop-IsPrinted fuel (str + 1) (2 ^ 32 - v) count m h (omega arith) d in
    rw (signed, read) (ap some (omega arith))

atoi_plain :
    (fuel : ℕ) (m : Mem) (v str count : ℕ)
    → 32 < fuel
    → v < 2 ^ 32
    → IsPrinted m str 10 v count
    → atoi fuel m str ≡ some v
unfolding atoi
atoi_plain fuel m v str count h b d =
    let (low, high) = first_digit str v count m d in
    let unsigned : (m str == b'-') ≡ false = ground arith in
    let no_plus : (m str == b'+') ≡ false = ground arith in
    rw (unsigned, no_plus) (atoi_loop-IsPrinted fuel str v count m h b d)

atoi-IsPrinted :
    (fuel : ℕ) (m : Mem) (v str count : ℕ)
    → 32 < fuel
    → v < 2 ^ 32
    → IsPrinted m (str + sign_width v 10) 10 (magnitude v) count
    → ((is_negative v && 10 == 10) ≡ true → m str ≡ b'-')
    → atoi fuel m str ≡ some v
atoi-IsPrinted fuel m v str count h b d minus = elim (Bool-cases (is_negative v)) [
  | inl signed ↦ atoi_signed fuel m v str count h b signed (minus (rw signed refl)) (rw signed at d)
  | inr plain ↦
      let at_start : IsPrinted m (str + 0) 10 v count = rw plain at d in
      atoi_plain fuel m v str count h b
        (subst (λ p. IsPrinted m p 10 v count) (omega arith) at_start)
]

-- `atoi` reads back every `int` that `itoa` prints in base ten but the least, whose absolute value is
-- not an `int`: both end, the second on any fuel above 32.
pub atoi-itoa :
    (fuel : ℕ) (m : Mem) (v str : ℕ)
    → 32 < fuel
    → v < 2 ^ 32
    → v ≢ 2 ^ 31
    → (m' : Mem) × (itoa m v str 10 ≡ some m') × (atoi fuel m' str ≡ some v)
unfolding atoi
atoi-itoa fuel m v str h b ne =
    let (count, m', e, d, minus, outside) = itoa_lem m v str 10 (omega arith) (omega arith) b in
    (m', e, atoi-IsPrinted fuel m' v str count h b d minus)
