-- ===== src/CString/Tests.antt =====
-- Runs of the string functions, and their theorems at concrete strings.
use ne_xs_operate_system.Base.{ℕ, ◌≡◌, inr, refl, none, some, arith, List, [], ◌∷◌, get_or}
use ne_xs_operate_system.Memory.{Mem}
use ne_xs_operate_system.CString.{strlen, strcat, strncpy, IsStringAt}
use ne_xs_operate_system.CString.Bounded.{placed, strncpy_lem}

-- "ne" at 1, "xs!" at 4, and ones elsewhere
abbrev shelf : Mem
shelf a = get_or (1 ∷ b'n' ∷ b'e' ∷ 0 ∷ b'x' ∷ b's' ∷ b'!' ∷ 0 ∷ []) a 1

abbrev ne : List ℕ
ne = b'n' ∷ b'e' ∷ []

abbrev xs! : List ℕ
xs! = b'x' ∷ b's' ∷ b'!' ∷ []

ne-IsStringAt : IsStringAt shelf 1 ne
ne-IsStringAt = (refl, ground arith, (refl, ground arith, refl))

xs!-IsStringAt : IsStringAt shelf 4 xs!
xs!-IsStringAt = (refl, ground arith, (refl, ground arith, (refl, ground arith, refl)))

strlen_run : (strlen 4 shelf 4 ≡ some 3) × (strlen 3 shelf 4 ≡ none)
unfolding strlen ne_xs_operate_system.CString.strlen_from
strlen_run = (refl, refl)

strncpy_lem_example : strncpy shelf 30 4 5 33 ≡ placed shelf 30 5 xs! 33
strncpy_lem_example = strncpy_lem 30 4 5 shelf xs! 33 xs!-IsStringAt (inr (ground arith))
