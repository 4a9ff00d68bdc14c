-- ===== src/Buddy.antt =====
-- kernel/buddy.c: the sizes of its blocks, the choice of the heap in the memory map, and the
-- allocator of the secure region.
pub mod Sizes
pub mod Regions
pub mod Secure
pub mod Tests
use ne_xs_operate_system.Base.{
  ℕ, zero, suc, ◌+◌, ◌-◌, ◌*◌, ◌/◌, ◌%◌, ◌^◌, ◌≤◌, ◌<◌, Bool, true, false, not, ◌&&◌, ◌||◌, Option,
  none, some, List, [], ◌∷◌, ltb, leb, ◌==◌, if◌then◌else◌,
}

abbrev pub buddy_min_size : ℕ
buddy_min_size = 4096

abbrev pub buddy_max_levels : ℕ
buddy_max_levels = 12

-- `sizeof(struct buddy_block)`
abbrev pub header_size : ℕ
header_size = 24

abbrev pub level_to_size : ℕ → ℕ
level_to_size level = buddy_min_size * 2 ^ level

-- `while (block_size < size && level < BUDDY_MAX_LEVELS - 1)`; the first number is how many levels
-- are left, so that the second test is a test for zero.
unfoldable pub grow_to : ℕ → ℕ → ℕ → ℕ → ℕ
grow_to zero size level block_size = level
grow_to (suc left) size level block_size =
    let rest = grow_to left size (level + 1) (block_size * 2) in
    if ltb block_size size then rest else level

unfoldable pub size_to_level : ℕ → ℕ
size_to_level size = grow_to (buddy_max_levels - 1) ((size + header_size) % 2 ^ 64) 0 buddy_min_size

-- The loop of `buddy_init`, `while ((block_size << 1) <= size && max_level < BUDDY_MAX_LEVELS - 1)`.
unfoldable pub grow_within : ℕ → ℕ → ℕ → ℕ → ℕ
grow_within zero size level block_size = level
grow_within (suc left) size level block_size =
    let rest = grow_within left size (level + 1) (block_size * 2) in
    if leb (block_size * 2) size then rest else level

unfoldable pub initial_level : ℕ → ℕ
initial_level size = grow_within (buddy_max_levels - 1) size 0 buddy_min_size

-- `struct e820_entry`, less `attrs`, which nothing reads
pub record E820Entry : Type 0 where
  pub base : ℕ
  pub len : ℕ
  pub kind : ℕ

abbrev pub e820_type_usable : ℕ
e820_type_usable = 1

abbrev pub secure_region_size : ℕ
secure_region_size = 0x10000

-- A base and a length.
pub record Region : Type 0 where
  pub start : ℕ
  pub size : ℕ

-- The part of a region from `floor` on; `none` is the `continue`.
unfoldable pub clip : ℕ → Region → Option Region
clip floor r =
    let end = (r.start + r.size) % 2 ^ 64 in
    if ltb r.start floor
    then if ltb floor end then some (record { start = floor; size = end - floor }) else none
    else some r

-- The two clips of an entry, above 1 MB and above the kernel.
unfoldable pub above_kernel : Region → Option Region
above_kernel r = elim (clip 0x100000 r) [ none ↦ none | some high ↦ clip 0x200000 high ]

unfoldable pub usable_part : E820Entry → Option Region
usable_part e =
    if e.kind == e820_type_usable
    then above_kernel (record { start = e.base; size = e.len })
    else none

-- One round of the loop over the map.
unfoldable pub larger : Region → Option Region → Region
larger best none = best
larger best (some r) = if ltb best.size r.size then r else best

unfoldable pub best_region : List E820Entry → Region → Region
best_region [] best = best
best_region (e ∷ es) best = best_region es (larger best (usable_part e))

-- The variables of the secure region.
pub record SecureRegion : Type 0 where
  pub secure_start : ℕ
  pub secure_size : ℕ
  pub secure_used : ℕ

-- `buddy_init_e820` up to its call of `buddy_init`: the region for that, and the secure region.
unfoldable pub place_heap : List E820Entry → SecureRegion → Region × SecureRegion
place_heap entries secure =
    let found = best_region entries (record { start = 0; size = 0 }) in
    let best =
      (if ltb found.size 0x80000 then record { start = 0x200000; size = 0x100000 } else found) in
    if ltb (secure_region_size * 2) best.size
    then (
      record best { size = best.size - secure_region_size },
      record {
        secure_start = (best.start + best.size + (2 ^ 64 - secure_region_size)) % 2 ^ 64;
        secure_size = secure_region_size;
        secure_used = 0;
      },
    )
    else (best, secure)

unfoldable pub secure_region_init : ℕ → ℕ → SecureRegion
secure_region_init base size = record { secure_start = base; secure_size = size; secure_used = 0 }

-- `(size + 15) & ~15` clears the low four bits.
abbrev pub align16 : ℕ → ℕ
align16 size = (size + 15) % 2 ^ 64 / 16 * 16

-- `none` is NULL.
unfoldable pub secure_alloc : SecureRegion → ℕ → Option ℕ × SecureRegion
secure_alloc s size =
    if s.secure_start == 0 || ltb s.secure_size ((s.secure_used + size) % 2 ^ 64)
    then (none, s)
    else (
      some ((s.secure_start + s.secure_used) % 2 ^ 64),
      record s { secure_used = (s.secure_used + align16 size) % 2 ^ 64 },
    )
