-- ===== src/CString.antt =====
-- The string functions of kernel/libc.c that work in memory. A loop that runs to the terminating
-- zero takes fuel, and `none` means that it ran out; a failed `ASSERT` is not modelled: the
-- pointers are taken to be valid.
pub mod Copy
pub mod Bounded
pub mod Tests
use ne_xs_operate_system.Base.{
  ℕ, zero, suc, ◌+◌, ◌-◌, ◌≤◌, ◌<◌, ◌≡◌, ◌≢◌, Bool, true, false, ◌&&◌, Option, none, some, List, [],
  ◌∷◌, ltb, leb, ◌==◌, if◌then◌else◌,
}
use ne_xs_operate_system.Memory.{Mem, store_byte}

-- `while (str[len]) len++;`
unfoldable pub strlen_from : ℕ → Mem → ℕ → ℕ → Option ℕ
strlen_from zero m str len = none
strlen_from (suc fuel) m str len =
    let rest = strlen_from fuel m str (len + 1) in if m (str + len) == 0 then some len else rest

unfoldable pub strlen : ℕ → Mem → ℕ → Option ℕ
strlen fuel m str = strlen_from fuel m str 0

-- `while ((*dest++ = *src++));`
unfoldable pub strcpy : ℕ → Mem → ℕ → ℕ → Option Mem
strcpy zero m dest src = none
strcpy (suc fuel) m dest src =
    let m' = store_byte m dest (m src) in
    let rest = strcpy fuel m' (dest + 1) (src + 1) in if m src == 0 then some m' else rest

-- `while (*dest) dest++;`
unfoldable pub string_end : ℕ → Mem → ℕ → Option ℕ
string_end zero m dest = none
string_end (suc fuel) m dest =
    let rest = string_end fuel m (dest + 1) in if m dest == 0 then some dest else rest

unfoldable pub strcat : ℕ → Mem → ℕ → ℕ → Option Mem
strcat fuel m dest src = elim (string_end fuel m dest) [
  | none ↦ none
  | some end ↦ strcpy fuel m end src
]

-- `for (; i < n; i++) dest[i] = '\0';` with `left` rounds to go
unfoldable pub pad : ℕ → Mem → ℕ → ℕ → Mem
pad zero m dest i = m
pad (suc left) m dest i = pad left (store_byte m (dest + i) 0) dest (i + 1)

-- `for (i = 0; i < n && src[i]; i++) dest[i] = src[i];` and then the padding
unfoldable pub strncpy_from : ℕ → Mem → ℕ → ℕ → ℕ → Mem
strncpy_from zero m dest src i = m
strncpy_from (suc left) m dest src i =
    let rest = strncpy_from left (store_byte m (dest + i) (m (src + i))) dest src (i + 1) in
    let padded = pad (suc left) m dest i in if m (src + i) == 0 then padded else rest

unfoldable pub strncpy : Mem → ℕ → ℕ → ℕ → Mem
strncpy m dest src n = strncpy_from n m dest src 0

-- The bytes of `xs` stand from `p` on, none of them zero, and then a zero.
abbrev pub IsStringAt : Mem → ℕ → List ℕ → Type 0
IsStringAt m p [] = m p ≡ 0
IsStringAt m p (x ∷ xs) = (m p ≡ x) × (x ≢ 0) × IsStringAt m (p + 1) xs

-- The bytes of a string, up to its zero; `none` if the fuel does not reach it.
unfoldable pub text_at : ℕ → Mem → ℕ → Option (List ℕ)
text_at zero m p = none
text_at (suc fuel) m p =
    let rest : Option (List ℕ) = elim (text_at fuel m (p + 1)) [
      | none ↦ none
      | some bs ↦ some (m p ∷ bs)
    ] in
    if m p == 0 then some [] else rest
