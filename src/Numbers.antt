-- ===== src/Numbers.antt =====
-- `itoa`, `uitoa` and `atoi` of kernel/libc.c. An `int` is its bit pattern, below 2^32; the bytes
-- are written to and read from memory. A loop that is not counted takes fuel, and `none` means
-- that it ran out. The overflow of `int` arithmetic is taken to wrap.
pub mod Reverse
pub mod Print
pub mod Parse
pub mod Tests
use ne_xs_operate_system.Base.{
  ℕ, zero, suc, ◌+◌, ◌-◌, ◌*◌, ◌/◌, ◌%◌, ◌^◌, ◌≤◌, ◌<◌, Bool, true, false, not, ◌&&◌, ◌||◌, Option,
  none, some, List, [], ◌∷◌, ltb, leb, ◌==◌, if◌then◌else◌,
}
use ne_xs_operate_system.Memory.{Mem, store_byte}

-- `"0123456789abcdefghijklmnopqrstuvwxyz"[rem]`
unfoldable pub digit_char : ℕ → ℕ
digit_char rem = if ltb rem 10 then b'0' + rem else b'a' + (rem - 10)

-- `do { … } while (value);` with the place behind the last digit written
unfoldable pub digits_loop : ℕ → ℕ → ℕ → ℕ → Mem → Option (ℕ × Mem)
digits_loop zero value ptr base m = none
digits_loop (suc fuel) value ptr base m =
    let value' = value / base in
    let m' = store_byte m ptr (digit_char (value - value' * base)) in
    let rest = digits_loop fuel value' (ptr + 1) base m' in
    if value' == 0 then some (ptr + 1, m') else rest

-- One round of the loop that reverses: the bytes at the two places change places.
unfoldable pub swap_bytes : Mem → ℕ → ℕ → Mem
swap_bytes m ptr1 ptr = store_byte (store_byte m ptr (m ptr1)) ptr1 (m ptr)

-- `while (ptr1 < ptr)`
unfoldable pub reverse_loop : ℕ → ℕ → ℕ → Mem → Option Mem
reverse_loop zero ptr1 ptr m = none
reverse_loop (suc fuel) ptr1 ptr m =
    let rest = reverse_loop fuel (ptr1 + 1) (ptr - 1) (swap_bytes m ptr1 ptr) in
    if ltb ptr1 ptr then rest else some m

-- `*ptr-- = '\0';` and the reversal, which both functions end with
unfoldable pub finish : ℕ → ℕ → Mem → Option Mem
finish str ptr m = reverse_loop (ptr - str + 1) str (ptr - 1) (store_byte m ptr 0)

unfoldable pub uitoa : Mem → ℕ → ℕ → ℕ → Option Mem
uitoa m value str base =
    if ltb base 2 || ltb 36 base
    then some (store_byte m str 0)
    else elim (digits_loop 32 value str base m) [ none ↦ none | some (ptr, m') ↦ finish str ptr m' ]

abbrev pub is_negative : ℕ → Bool
is_negative value = leb (2 ^ 31) value

-- The absolute value: `/=` divides it, and `rem`, made positive, is its remainder.
abbrev pub magnitude : ℕ → ℕ
magnitude value = if is_negative value then 2 ^ 32 - value else value

unfoldable pub itoa : Mem → ℕ → ℕ → ℕ → Option Mem
itoa m value str base =
    let negative = is_negative value && base == 10 in
    if ltb base 2 || ltb 36 base
    then some (store_byte m str 0)
    else elim (digits_loop 32 (magnitude value) str base m) [
      | none ↦ none
      | some (ptr, m') ↦
          if negative then finish str (ptr + 1) (store_byte m' ptr b'-') else finish str ptr m'
    ]

-- `for (; str[i] >= '0' && str[i] <= '9'; i++)`
unfoldable pub atoi_loop : ℕ → Mem → ℕ → ℕ → Option ℕ
atoi_loop zero m p res = none
atoi_loop (suc fuel) m p res =
    let rest = atoi_loop fuel m (p + 1) ((res * 10 + (m p - b'0')) % 2 ^ 32) in
    if leb b'0' (m p) && leb (m p) b'9' then rest else some res

-- `sign * res` for the sign -1
abbrev pub negate : Option ℕ → Option ℕ
negate none = none
negate (some res) = some ((2 ^ 32 - res) % 2 ^ 32)

unfoldable pub atoi : ℕ → Mem → ℕ → Option ℕ
atoi fuel m str =
    if m str == b'-'
    then negate (atoi_loop fuel m (str + 1) 0)
    else if m str == b'+'
    then atoi_loop fuel m (str + 1) 0
    else atoi_loop fuel m str 0
