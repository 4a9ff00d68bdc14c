-- ===== src/Base/Flip.antt =====
-- `^` with a power of two flips one bit.
use Prim.Native.Nat.{
  ℕ, zero, suc, ◌+◌, ◌-◌, ◌*◌, ◌/◌, ◌%◌, ◌^◌, ◌≤◌, ◌<◌, bit_xor, differ, bit_xor-bitwise,
}
use mathlib.Core.Path.{◌≡◌, refl, ap, sym, ◌∙◌}
use native.Mathlib.Nat.{pow-suc, pow-zero, pow-le-pow_right, le-div_iff_mul-le, div-div-eq-div-mul}
use native.Mathlib.Omega.{arith}
use ne_xs_operate_system.Base.Bits.{digits_ext}

bit_xor_low : (a b : ℕ) → bit_xor a b ≡ bit_xor (a / 2) (b / 2) * 2 + differ (a % 2) (b % 2)
bit_xor_low zero b =
    let none_differ : differ 0 (b % 2) ≡ b % 2 = refl in
    omega (arith, bit_xor-bitwise 0 b, bit_xor-bitwise 0 (b / 2), none_differ)
bit_xor_low (suc a) b = omega (
  arith,
  bit_xor-bitwise (suc a) b,
  bit_xor-bitwise (suc a / 2) (b / 2),
  digits_ext (λ c. c) differ a (suc a / 2) (suc a / 2) (b / 2) (omega arith) (omega arith),
)

bit_xor_zero : (n a : ℕ) → a ≤ n → bit_xor a 0 ≡ a
bit_xor_zero zero a h = let e : a ≡ 0 = omega arith in rw e (bit_xor-bitwise 0 0)
bit_xor_zero (suc n) zero h = bit_xor-bitwise 0 0
bit_xor_zero (suc n) (suc a) h =
    let ih : bit_xor (suc a / 2) 0 ≡ suc a / 2 = bit_xor_zero n (suc a / 2) (omega arith) in
    let half : bit_xor (suc a / 2) (0 / 2) ≡ bit_xor (suc a / 2) 0 = refl in
    bit_xor_low (suc a) 0
    ∙ ap (λ x. x * 2 + differ (suc a % 2) 0) (half ∙ ih)
    ∙ low (suc a) (suc a % 2) refl
  where
    low : (x r : ℕ) → x % 2 ≡ r → x / 2 * 2 + differ r 0 ≡ x
    low x zero e = let z : differ 0 0 ≡ 0 = refl in omega arith
    low x (suc r) e = omega arith

differ_zero : (x : ℕ) → differ x 0 ≡ x
differ_zero zero = refl
differ_zero (suc x) = refl

differ_even : (r : ℕ) → r ≡ 0 → differ r 1 ≡ 1
differ_even zero e = refl
differ_even (suc r) e = absurd (omega arith)

differ_odd : (r : ℕ) → r ≡ 1 → differ r 1 ≡ 0
differ_odd zero e = absurd (omega arith)
differ_odd (suc r) e = let z : r ≡ 0 = omega arith in differ_zero r ∙ z

flip_low :
    (a : ℕ) → ((a / 1 % 2 ≡ 0) → bit_xor a 1 ≡ a + 1) × ((a / 1 % 2 ≡ 1) → bit_xor a 1 ≡ a - 1)
flip_low a =
    let none_left : bit_xor (a / 2) (1 / 2) ≡ a / 2 = bit_xor_zero (a / 2) (a / 2) (omega arith) in
    let parts : bit_xor a 1 ≡ a / 2 * 2 + differ (a % 2) 1 =
      bit_xor_low a 1 ∙ ap (λ x. x * 2 + differ (a % 2) 1) none_left in
    (
      λ e. parts ∙ ap (λ x. a / 2 * 2 + x) (differ_even (a % 2) (omega arith)) ∙ omega arith,
      λ e. parts ∙ ap (λ x. a / 2 * 2 + x) (differ_odd (a % 2) (omega arith)) ∙ omega arith,
    )

positive_pow : (k : ℕ) → 0 < 2 ^ k
positive_pow k =
    let one = pow-zero 2 in
    let h : 2 ^ 0 ≤ 2 ^ k = pow-le-pow_right (omega arith) {i = 0} (omega arith) in omega arith

-- Bit `k` is 0 and is added, or is 1 and is taken away.
pub bit_xor_flip :
    (k a : ℕ)
    → ((a / 2 ^ k % 2 ≡ 0) → bit_xor a (2 ^ k) ≡ a + 2 ^ k)
      × ((a / 2 ^ k % 2 ≡ 1) → bit_xor a (2 ^ k) ≡ a - 2 ^ k)
bit_xor_flip zero a = flip_low a
bit_xor_flip (suc k) a =
    let two : 2 ^ suc k ≡ 2 ^ k * 2 = pow-suc 2 k in
    let (up, down) = bit_xor_flip k (a / 2) in
    let deep : a / 2 ^ suc k ≡ a / 2 / 2 ^ k =
      ap (λ x. a / x) (omega arith) ∙ sym (div-div-eq-div-mul a 2 (2 ^ k)) in
    let parts : bit_xor a (2 ^ suc k) ≡ bit_xor (a / 2) (2 ^ k) * 2 + a % 2 =
      let half : 2 ^ suc k / 2 ≡ 2 ^ k = omega arith in
      let even : 2 ^ suc k % 2 ≡ 0 = omega arith in
      bit_xor_low a (2 ^ suc k)
      ∙ ap (λ b. bit_xor (a / 2) b * 2 + differ (a % 2) (2 ^ suc k % 2)) half
      ∙ ap (λ r. bit_xor (a / 2) (2 ^ k) * 2 + differ (a % 2) r) even
      ∙ ap (λ x. bit_xor (a / 2) (2 ^ k) * 2 + x) (differ_zero (a % 2)) in
    (
      λ e. parts ∙ ap (λ x. x * 2 + a % 2) (up (ap (λ x. x % 2) (sym deep) ∙ e)) ∙ omega arith,
      λ e.
          let some_left : 1 ≤ a / 2 / 2 ^ k = omega arith in
          let big : 1 * 2 ^ k ≤ a / 2 = (le-div_iff_mul-le (positive_pow k)).0 some_left in
          parts ∙ ap (λ x. x * 2 + a % 2) (down (ap (λ x. x % 2) (sym deep) ∙ e)) ∙ omega arith,
    )
