-- ===== src/Numbers/Tests.antt =====
-- Runs of the conversions, and their theorems at concrete numbers.
use ne_xs_operate_system.Base.{
  ℕ, zero, suc, if◌then◌else◌, ◌+◌, ◌-◌, ◌^◌, ◌<◌, ◌≡◌, ◌⊎◌, refl, Option, none, some, arith, List,
  [], ◌∷◌, ◌==◌,
}
use ne_xs_operate_system.Memory.{Mem}
use ne_xs_operate_system.Numbers.{
  digits_loop, digit_char, finish, reverse_loop, swap_bytes, uitoa, itoa, atoi,
}
use ne_xs_operate_system.Numbers.Print.{IsPrinted, uitoa_lem}
use ne_xs_operate_system.Numbers.Parse.{atoi-itoa}

abbrev ones : Mem
ones a = 1

-- The bytes from `p` on up to the zero, at most `n`.
abbrev string_at : ℕ → ℕ → Option Mem → List ℕ
string_at n p none = []
string_at zero p (some m) = []
string_at (suc n) p (some m) =
    let rest = string_at n (p + 1) (some m) in if m p == 0 then [] else m p ∷ rest

uitoa_run : string_at 9 4 (uitoa ones 0xBEEF 4 16) ≡ b'b' ∷ b'e' ∷ b'e' ∷ b'f' ∷ []
unfolding uitoa digits_loop digit_char finish reverse_loop swap_bytes
uitoa_run = refl

itoa_run : string_at 9 4 (itoa ones (2 ^ 32 - 105) 4 10) ≡ b'-' ∷ b'1' ∷ b'0' ∷ b'5' ∷ []
unfolding itoa digits_loop digit_char finish reverse_loop swap_bytes
itoa_run = refl

uitoa_lem_example :
    (count : ℕ) × (m' : Mem) × (uitoa ones 0xBEEF 4 16 ≡ some m')
    × IsPrinted m' 4 16 0xBEEF count
    × ((a : ℕ) → (a < 4) ⊎ (4 + count < a) → m' a ≡ 1)
uitoa_lem_example = uitoa_lem ones 0xBEEF 4 16 (ground arith) (ground arith) (ground arith)

atoi-itoa_example :
    (m' : Mem) × (itoa ones (2 ^ 32 - 105) 4 10 ≡ some m') × (atoi 33 m' 4 ≡ some (2 ^ 32 - 105))
atoi-itoa_example = atoi-itoa 33 ones (2 ^ 32 - 105) 4 (ground arith) (ground arith) (ground arith)
