-- ===== src/Base/Bits.antt =====
-- Laws of `&`, `|` and `~` on machine words, from the recursion on binary digits that the native
-- operations stand for. Each law is by induction on a count `n` of digits.
use Prim.Native.Nat.{
  ℕ, zero, suc, ◌+◌, ◌-◌, ◌*◌, ◌/◌, ◌%◌, ◌^◌, ◌≤◌, ◌<◌, min, max, bit_and, bit_or, digits,
  bit_and-bitwise, bit_or-bitwise,
}
use mathlib.Core.Path.{◌≡◌, refl}
use native.Mathlib.Nat.{pow-suc}
use native.Mathlib.Omega.{arith}

-- More fuel than digits changes nothing.
pub digits_ext :
    (z : ℕ → ℕ) (f : ℕ → ℕ → ℕ) (n m a b : ℕ) → a ≤ n → a ≤ m → digits z f n a b ≡ digits z f m a b
digits_ext z f n m zero b p q = zero_digits n m
  where
    zero_digits : (n m : ℕ) → digits z f n 0 b ≡ digits z f m 0 b
    zero_digits zero zero = refl
    zero_digits zero (suc m) = refl
    zero_digits (suc n) zero = refl
    zero_digits (suc n) (suc m) = refl
digits_ext z f zero m (suc a) b p q = absurd (omega arith)
digits_ext z f (suc n) zero (suc a) b p q = absurd (omega arith)
digits_ext z f (suc n) (suc m) (suc a) b p q =
    rw (digits_ext z f n m (suc a / 2) (b / 2) (omega arith) (omega arith))

bit_and_low : (a b : ℕ) → bit_and a b ≡ bit_and (a / 2) (b / 2) * 2 + min (a % 2) (b % 2)
bit_and_low zero b = omega (arith, bit_and-bitwise 0 b, bit_and-bitwise 0 (b / 2))
bit_and_low (suc a) b = omega (
  arith,
  bit_and-bitwise (suc a) b,
  bit_and-bitwise (suc a / 2) (b / 2),
  digits_ext (λ _. 0) min a (suc a / 2) (suc a / 2) (b / 2) (omega arith) (omega arith),
)

bit_or_low : (a b : ℕ) → bit_or a b ≡ bit_or (a / 2) (b / 2) * 2 + max (a % 2) (b % 2)
bit_or_low zero b = omega (arith, bit_or-bitwise 0 b, bit_or-bitwise 0 (b / 2))
bit_or_low (suc a) b = omega (
  arith,
  bit_or-bitwise (suc a) b,
  bit_or-bitwise (suc a / 2) (b / 2),
  digits_ext (λ c. c) max a (suc a / 2) (suc a / 2) (b / 2) (omega arith) (omega arith),
)

-- Half of a word, and its lowest digit.
bit_and_half : (a b : ℕ) → bit_and a b / 2 ≡ bit_and (a / 2) (b / 2)
bit_and_half a b = omega (arith, bit_and_low a b)

bit_and_odd : (a b : ℕ) → bit_and a b % 2 ≡ min (a % 2) (b % 2)
bit_and_odd a b = omega (arith, bit_and_low a b)

bit_or_half : (a b : ℕ) → bit_or a b / 2 ≡ bit_or (a / 2) (b / 2)
bit_or_half a b = omega (arith, bit_or_low a b)

bit_or_odd : (a b : ℕ) → bit_or a b % 2 ≡ max (a % 2) (b % 2)
bit_or_odd a b = omega (arith, bit_or_low a b)

-- `~p` on a word of `k` bits.
abbrev pub complement : ℕ → ℕ → ℕ
complement k p = 2 ^ k - 1 - p

-- A bound below `2 ^ (k + 1)` is one below `2 ^ k` on the half.
half_lt : (k a : ℕ) → a < 2 ^ suc k → a / 2 < 2 ^ k
half_lt k a h = omega (arith, pow-suc 2 k)

eq-zero : (a : ℕ) → a < 2 ^ 0 → a ≡ 0
eq-zero a h = omega arith

complement_half : (k p : ℕ) → p < 2 ^ suc k → complement (suc k) p / 2 ≡ complement k (p / 2)
complement_half k p h = omega (arith, pow-suc 2 k)

complement_odd : (k p : ℕ) → p < 2 ^ suc k → complement (suc k) p % 2 ≡ 1 - p % 2
complement_odd k p h = omega (arith, pow-suc 2 k)

pub bit_and-le_right : (k a b : ℕ) → a < 2 ^ k → b < 2 ^ k → bit_and a b ≤ b
bit_and-le_right zero a b ha hb = rw (eq-zero a ha, eq-zero b hb) (omega arith)
bit_and-le_right (suc k) a b ha hb =
    omega
      (arith, bit_and_low a b, bit_and-le_right k (a / 2) (b / 2) (half_lt k a ha) (half_lt k b hb))

pub bit_and-le_left : (k a b : ℕ) → a < 2 ^ k → b < 2 ^ k → bit_and a b ≤ a
bit_and-le_left zero a b ha hb = rw (eq-zero a ha, eq-zero b hb) (omega arith)
bit_and-le_left (suc k) a b ha hb =
    omega
      (arith, bit_and_low a b, bit_and-le_left k (a / 2) (b / 2) (half_lt k a ha) (half_lt k b hb))

pub bit_or-lt : (k a b : ℕ) → a < 2 ^ k → b < 2 ^ k → bit_or a b < 2 ^ k
bit_or-lt zero a b ha hb = rw (eq-zero a ha, eq-zero b hb) (omega arith)
bit_or-lt (suc k) a b ha hb = omega (
  arith,
  pow-suc 2 k,
  bit_or_low a b,
  bit_or-lt k (a / 2) (b / 2) (half_lt k a ha) (half_lt k b hb),
)

-- What was or-ed in is there.
pub bit_and-or_self : (k a b : ℕ) → a < 2 ^ k → b < 2 ^ k → bit_and (bit_or a b) b ≡ b
bit_and-or_self zero a b ha hb = rw (eq-zero a ha, eq-zero b hb)
bit_and-or_self (suc k) a b ha hb = ground (
  arith,
  bit_and_low (bit_or a b) b,
  bit_or_half a b,
  bit_or_odd a b,
  bit_and-or_self k (a / 2) (b / 2) (half_lt k a ha) (half_lt k b hb),
)

pub bit_and-or_left : (k a b : ℕ) → a < 2 ^ k → b < 2 ^ k → bit_and (bit_or a b) a ≡ a
bit_and-or_left zero a b ha hb = rw (eq-zero a ha, eq-zero b hb)
bit_and-or_left (suc k) a b ha hb = ground (
  arith,
  bit_and_low (bit_or a b) a,
  bit_or_half a b,
  bit_or_odd a b,
  bit_and-or_left k (a / 2) (b / 2) (half_lt k a ha) (half_lt k b hb),
)

pub bit_and-or_distrib :
    (k a b m : ℕ)
    → a < 2 ^ k
    → b < 2 ^ k
    → m < 2 ^ k
    → bit_and (bit_or a b) m ≡ bit_or (bit_and a m) (bit_and b m)
bit_and-or_distrib zero a b m ha hb hm = rw (eq-zero a ha, eq-zero b hb, eq-zero m hm)
bit_and-or_distrib (suc k) a b m ha hb hm = ground (
  arith,
  bit_and_low (bit_or a b) m,
  bit_or_half a b,
  bit_or_odd a b,
  bit_or_low (bit_and a m) (bit_and b m),
  bit_and_half a m,
  bit_and_odd a m,
  bit_and_half b m,
  bit_and_odd b m,
  bit_and-or_distrib k (a / 2) (b / 2) (m / 2) (half_lt k a ha) (half_lt k b hb) (half_lt k m hm),
)

-- What was cleared is gone, and what the mask does not touch stays.
pub bit_and-clear : (k a p : ℕ) → a < 2 ^ k → p < 2 ^ k → bit_and (bit_and a (complement k p)) p ≡ 0
bit_and-clear zero a p ha hp = rw (eq-zero a ha, eq-zero p hp)
bit_and-clear (suc k) a p ha hp = ground (
  arith,
  bit_and_low (bit_and a (complement (suc k) p)) p,
  bit_and_half a (complement (suc k) p),
  bit_and_odd a (complement (suc k) p),
  complement_half k p hp,
  complement_odd k p hp,
  bit_and-clear k (a / 2) (p / 2) (half_lt k a ha) (half_lt k p hp),
)

pub bit_and-clear_ne :
    (k a p q : ℕ)
    → a < 2 ^ k
    → p < 2 ^ k
    → q < 2 ^ k
    → bit_and p q ≡ 0
    → bit_and (bit_and a (complement k p)) q ≡ bit_and a q
bit_and-clear_ne zero a p q ha hp hq e = rw (eq-zero a ha, eq-zero p hp, eq-zero q hq)
bit_and-clear_ne (suc k) a p q ha hp hq e = ground (
  arith,
  bit_and_low (bit_and a (complement (suc k) p)) q,
  bit_and_half a (complement (suc k) p),
  bit_and_odd a (complement (suc k) p),
  bit_and_low a q,
  bit_and_low p q,
  complement_half k p hp,
  complement_odd k p hp,
  bit_and-clear_ne k (a / 2) (p / 2) (q / 2) (half_lt k a ha) (half_lt k p hp) (half_lt k q hq),
)

-- The full mask absorbs.
pub bit_or-full : (k b : ℕ) → b < 2 ^ k → bit_or (2 ^ k - 1) b ≡ 2 ^ k - 1
bit_or-full zero b hb = rw (eq-zero b hb)
bit_or-full (suc k) b hb = ground (
  arith,
  bit_or_low (2 ^ suc k - 1) b,
  complement_half k 0,
  complement_odd k 0,
  pow-suc 2 k,
  bit_or-full k (b / 2) (half_lt k b hb),
)

pub le-bit_or_left : (k a b : ℕ) → a < 2 ^ k → b < 2 ^ k → a ≤ bit_or a b
le-bit_or_left zero a b ha hb = rw (eq-zero a ha, eq-zero b hb) (omega arith)
le-bit_or_left (suc k) a b ha hb =
    omega
      (arith, bit_or_low a b, le-bit_or_left k (a / 2) (b / 2) (half_lt k a ha) (half_lt k b hb))

pub bit_or-and_absorb : (k q p : ℕ) → q < 2 ^ k → p < 2 ^ k → bit_or q (bit_and p q) ≡ q
bit_or-and_absorb zero q p hq hp = rw (eq-zero q hq, eq-zero p hp)
bit_or-and_absorb (suc k) q p hq hp = ground (
  arith,
  bit_or_low q (bit_and p q),
  bit_and_half p q,
  bit_and_odd p q,
  bit_or-and_absorb k (q / 2) (p / 2) (half_lt k q hq) (half_lt k p hp),
)

-- A mask that survives a clearing has nothing in common with what was cleared.
pub disjoint_of_clear :
    (k a p q : ℕ)
    → a < 2 ^ k
    → p < 2 ^ k
    → q < 2 ^ k
    → bit_and (bit_and a (complement k p)) q ≡ q
    → bit_and q p ≡ 0
disjoint_of_clear zero a p q ha hp hq e = rw (eq-zero p hp, eq-zero q hq)
disjoint_of_clear (suc k) a p q ha hp hq e = ground (
  arith,
  bit_and_low q p,
  bit_and_low (bit_and a (complement (suc k) p)) q,
  bit_and_half a (complement (suc k) p),
  bit_and_odd a (complement (suc k) p),
  complement_half k p hp,
  complement_odd k p hp,
  disjoint_of_clear k (a / 2) (p / 2) (q / 2) (half_lt k a ha) (half_lt k p hp) (half_lt k q hq),
)

pub bit_or-zero : (k a : ℕ) → a < 2 ^ k → bit_or a 0 ≡ a
bit_or-zero zero a h = rw (eq-zero a h)
bit_or-zero (suc k) a h = omega (arith, bit_or_low a 0, bit_or-zero k (a / 2) (half_lt k a h))
