-- ===== src/Memory.antt =====
-- The memory functions of kernel/libc.c. Memory is the byte at each address; a failed `ASSERT` is
-- `none`. A region that ends past the last address is not meant: pointers do not wrap.
pub mod Fill
pub mod Copy
pub mod Compare
pub mod Tests
use ne_xs_operate_system.Base.{
  ℕ, zero, suc, ◌+◌, ◌-◌, ◌*◌, ◌/◌, ◌%◌, ◌^◌, bit_or, Bool, true, false, ◌&&◌, ◌||◌, Option, none,
  some, ltb, leb, ◌==◌, if◌then◌else◌,
}

abbrev pub Mem : Type 0
Mem = ℕ → ℕ

abbrev pub store_byte : Mem → ℕ → ℕ → Mem
store_byte m p v a = if a == p then v else m a

-- `*(uint64_t*)p = v`, the lowest byte first
abbrev pub store_word : Mem → ℕ → ℕ → Mem
store_word m p v a = if leb p a && ltb a (p + 8) then v / 256 ^ (a - p) % 256 else m a

-- `*(uint64_t*)d = *(const uint64_t*)s`: all eight bytes are read before the first is written.
abbrev pub copy_word : Mem → ℕ → ℕ → Mem
copy_word m d s a = if leb d a && ltb a (d + 8) then m (s + (a - d)) else m a

-- `v64 = (v64 << 8) | v`, `n` times
unfoldable pub pattern_word : ℕ → ℕ → ℕ → ℕ
pattern_word zero v v64 = v64
pattern_word (suc n) v v64 = pattern_word n v (bit_or (v64 * 256 % 2 ^ 64) v)

-- A place, how many bytes are left from there on, and the memory.
pub record Filling : Type 0 where
  pub at : ℕ
  pub left : ℕ
  pub mem : Mem

-- `while (num && ((uint64_t)p & 7))`
unfoldable pub fill_unaligned : ℕ → ℕ → ℕ → Mem → Filling
fill_unaligned zero p v m = record { at = p; left = 0; mem = m }
fill_unaligned (suc num) p v m =
    let rest = fill_unaligned num (p + 1) v (store_byte m p v) in
    let stop : Filling = record { at = p; left = suc num; mem = m } in
    if p % 8 == 0 then stop else rest

-- `while (num >= 8)`, on fuel
unfoldable pub fill_words : ℕ → ℕ → ℕ → ℕ → Mem → Filling
fill_words zero p num v64 m = record { at = p; left = num; mem = m }
fill_words (suc fuel) p num v64 m =
    let rest = fill_words fuel (p + 8) (num - 8) v64 (store_word m p v64) in
    let stop : Filling = record { at = p; left = num; mem = m } in if leb 8 num then rest else stop

-- `while (num--) *p++ = v;`
unfoldable pub fill_bytes : ℕ → ℕ → ℕ → Mem → Mem
fill_bytes zero p v m = m
fill_bytes (suc num) p v m = fill_bytes num (p + 1) v (store_byte m p v)

unfoldable pub memset : Mem → ℕ → ℕ → ℕ → Option Mem
memset m ptr value num =
    let v = value % 256 in
    let start = fill_unaligned num ptr v m in
    let bulk = fill_words start.left start.at start.left (pattern_word 8 v 0) start.mem in
    if ptr == 0 then none else some (fill_bytes bulk.left bulk.at v bulk.mem)

-- The two places of a copy.
pub record Copying : Type 0 where
  pub to : ℕ
  pub from : ℕ
  pub left : ℕ
  pub mem : Mem

-- `while (num >= 8)` of `memcpy` and `memmove`, on fuel
unfoldable pub copy_words : ℕ → ℕ → ℕ → ℕ → Mem → Copying
copy_words zero d s num m = record { to = d; from = s; left = num; mem = m }
copy_words (suc fuel) d s num m =
    let rest = copy_words fuel (d + 8) (s + 8) (num - 8) (copy_word m d s) in
    let stop : Copying = record { to = d; from = s; left = num; mem = m } in
    if leb 8 num then rest else stop

-- `while (num--) *d++ = *s++;`
unfoldable pub copy_forward : ℕ → ℕ → ℕ → Mem → Mem
copy_forward zero d s m = m
copy_forward (suc num) d s m = copy_forward num (d + 1) (s + 1) (store_byte m d (m s))

-- `while (num--) *(--d) = *(--s);`
unfoldable pub copy_backward : ℕ → ℕ → ℕ → Mem → Mem
copy_backward zero d s m = m
copy_backward (suc num) d s m = copy_backward num (d - 1) (s - 1) (store_byte m (d - 1) (m (s - 1)))

abbrev pub copy_rest : Copying → Mem
copy_rest c = copy_forward c.left c.to c.from c.mem

unfoldable pub memcpy : Mem → ℕ → ℕ → ℕ → Option Mem
memcpy m dest src num =
    if dest == 0 || src == 0
    then none
    else if ltb src dest && ltb dest (src + num)
    then some (copy_backward num (dest + num) (src + num) m)
    else some (copy_rest (copy_words num dest src num m))

unfoldable pub memmove : Mem → ℕ → ℕ → ℕ → Option Mem
memmove m dest src num =
    if dest == 0 || src == 0
    then none
    else if ltb dest src
    then if dest % 8 == src % 8
      then some (copy_rest (copy_words num dest src num m))
      else some (copy_forward num dest src m)
    else some (copy_backward num (dest + num) (src + num) m)

-- The two bytes whose difference `memcmp` returns, 0 and 0 at the end.
unfoldable pub compare_bytes : ℕ → ℕ → ℕ → Mem → ℕ × ℕ
compare_bytes zero p q m = (0, 0)
compare_bytes (suc num) p q m =
    let rest = compare_bytes num (p + 1) (q + 1) m in if m p == m q then rest else (m p, m q)

unfoldable pub memcmp : Mem → ℕ → ℕ → ℕ → Option (ℕ × ℕ)
memcmp m ptr1 ptr2 num =
    if ptr1 == 0 || ptr2 == 0 then none else some (compare_bytes num ptr1 ptr2 m)
