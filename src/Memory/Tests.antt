-- ===== src/Memory/Tests.antt =====
-- Runs of the memory functions, and their theorems at concrete regions.
use ne_xs_operate_system.Base.{ℕ, ◌*◌, ◌%◌, ◌≡◌, refl, Option, none, some, arith, List, [], ◌∷◌}
use ne_xs_operate_system.Memory.{
  Mem, memset, fill_bytes, fill_words, fill_unaligned, pattern_word, memcpy, copy_backward, memmove,
  memcmp, compare_bytes,
}
use ne_xs_operate_system.Memory.Fill.{filled, memset_lem}
use ne_xs_operate_system.Memory.Copy.{Copies, memcpy-memmove}
use ne_xs_operate_system.Memory.Compare.{IsCompared, memcmp-IsCompared}

-- Byte `7 * a` at address `a`.
abbrev sevens : Mem
sevens a = 7 * a % 256

abbrev bytes_at : List ℕ → Option Mem → List (Option ℕ)
bytes_at [] m = []
bytes_at (a ∷ rest) none = none ∷ bytes_at rest none
bytes_at (a ∷ rest) (some m) = some (m a) ∷ bytes_at rest (some m)

memset_run :
    bytes_at (4 ∷ 5 ∷ 8 ∷ 15 ∷ 20 ∷ 21 ∷ []) (memset sevens 5 0x1FF 16)
    ≡ some 28 ∷ some 255 ∷ some 255 ∷ some 255 ∷ some 255 ∷ some 147 ∷ []
unfolding memset fill_bytes fill_words fill_unaligned pattern_word
memset_run = refl

memcpy_run :
    bytes_at (9 ∷ 10 ∷ 21 ∷ 22 ∷ []) (memcpy sevens 10 4 12)
    ≡ some 63 ∷ some 28 ∷ some 105 ∷ some 154 ∷ []
unfolding memcpy copy_backward
memcpy_run = refl

memcmp_run : memcmp sevens 4 4 10 ≡ some (0, 0)
unfolding memcmp compare_bytes
memcmp_run = refl

memset_lem_example :
    (m' : Mem) × (memset sevens 5 0x1FF 16 ≡ some m')
    × ((a : ℕ) → m' a ≡ filled sevens 5 (0x1FF % 256) 16 a)
memset_lem_example = memset_lem sevens 5 0x1FF 16 (ground arith)

memcpy-memmove_example :
    Copies (memcpy sevens 10 4 12) sevens 10 4 12 × Copies (memmove sevens 10 4 12) sevens 10 4 12
memcpy-memmove_example = memcpy-memmove sevens 10 4 12 (ground arith) (ground arith)

memcmp-IsCompared_example :
    (r : ℕ × ℕ) × (memcmp sevens 4 260 10 ≡ some r) × IsCompared sevens 4 260 10 r
memcmp-IsCompared_example = memcmp-IsCompared sevens 4 260 10 (ground arith) (ground arith)
