-- ===== src/Buddy/Tests.antt =====
-- Runs of kernel/buddy.c, and its theorems at concrete values.
use ne_xs_operate_system.Base.{
  ℕ, zero, suc, ◌+◌, ◌^◌, ◌≤◌, ◌<◌, ◌≡◌, ◌⊎◌, refl, List, [], ◌∷◌, arith, get_or,
}
use ne_xs_operate_system.Buddy.{
  E820Entry, Region, SecureRegion, grow_to, size_to_level, grow_within, initial_level, clip,
  above_kernel, usable_part, larger, best_region, place_heap, secure_region_init, secure_alloc,
}
use ne_xs_operate_system.Buddy.Regions.{IsPart, IsPlacedIn, no_entry, room_above, place_heap_lem}
use ne_xs_operate_system.Buddy.Secure.{IsPacked, serve, secure_region_init-IsPacked}

-- A page holds 4072 bytes beside its header; the last level holds no request of 8 MB.
size_to_level_run :
    (size_to_level 4072 ≡ 0) × (size_to_level 4073 ≡ 1) × (size_to_level 0x800000 ≡ 11)
unfolding size_to_level grow_to
size_to_level_run = (refl, refl, refl)

initial_level_run : initial_level 0x180000 ≡ 8
unfolding initial_level grow_within
initial_level_run = refl

-- A machine with 639 KB of low memory and 127 MB from 1 MB on.
abbrev memory_map : List E820Entry
memory_map =
    record { base = 0; len = 0x9fc00; kind = 1 }
    ∷ record { base = 0x9fc00; len = 0x60400; kind = 2 }
    ∷ record { base = 0x100000; len = 0x7ee0000; kind = 1 }
    ∷ []

abbrev no_region : SecureRegion
no_region = record { secure_start = 0; secure_size = 0; secure_used = 0 }

place_heap_run : place_heap memory_map no_region ≡ (
  record { start = 0x200000; size = 0x7dd0000 },
  record { secure_start = 0x7fd0000; secure_size = 0x10000; secure_used = 0 },
)
unfolding place_heap best_region larger usable_part above_kernel clip
place_heap_run = refl

memory_map_in_space :
    (i : ℕ)
    → i < 3
    → (get_or memory_map i no_entry).base + (get_or memory_map i no_entry).len < 2 ^ 64
memory_map_in_space zero h = omega arith
memory_map_in_space (suc zero) h = omega arith
memory_map_in_space (suc (suc zero)) h = omega arith
memory_map_in_space (suc (suc (suc i))) h = omega arith

place_heap_lem_example :
    let (heap, secure') = place_heap memory_map no_region in
    ((found : Region) × IsPlacedIn found heap secure'
      × (0x80000 ≤ found.size)
      × ((i : ℕ) × (i < 3) × IsPart (get_or memory_map i no_entry) found)
      × ((i : ℕ) → i < 3 → room_above (get_or memory_map i no_entry) ≤ found.size))
    ⊎ (IsPlacedIn (record { start = 0x200000; size = 0x100000 }) heap secure'
        × ((i : ℕ) → i < 3 → room_above (get_or memory_map i no_entry) < 0x80000))
place_heap_lem_example = place_heap_lem memory_map no_region memory_map_in_space

abbrev keys : SecureRegion
keys = record { secure_start = 0x7fd0000; secure_size = 100; secure_used = 96 }

serve_run :
    serve (secure_region_init 0x7fd0000 100) (32 ∷ 17 ∷ 200 ∷ 8 ∷ [])
    ≡ (0x7fd0000, 32) ∷ (0x7fd0020, 17) ∷ (0x7fd0040, 8) ∷ []
unfolding serve secure_region_init secure_alloc
serve_run = refl

requests_bounded : (i : ℕ) → get_or (32 ∷ 17 ∷ 200 ∷ 8 ∷ []) i 0 + 100 + 32 ≤ 2 ^ 64
requests_bounded zero = omega arith
requests_bounded (suc zero) = omega arith
requests_bounded (suc (suc zero)) = omega arith
requests_bounded (suc (suc (suc zero))) = omega arith
requests_bounded (suc (suc (suc (suc i)))) = omega arith

secure_region_init-IsPacked_example :
    IsPacked
      (0x7fd0000 + 100)
      0x7fd0000
      (serve (secure_region_init 0x7fd0000 100) (32 ∷ 17 ∷ 200 ∷ 8 ∷ []))
secure_region_init-IsPacked_example =
    secure_region_init-IsPacked 0x7fd0000 100 (32 ∷ 17 ∷ 200 ∷ 8 ∷ []) (omega arith) (omega arith)
      requests_bounded
