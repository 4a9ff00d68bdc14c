-- ===== src/Heap.antt =====
-- The free lists of kernel/buddy.c. A list of free blocks is the list of their addresses in place
-- of the `next` fields; the other fields of a header are at its block's address. `none` is the
-- read of a field through NULL.
pub mod Pages
pub mod Invariant
pub mod Recut
pub mod Halves
pub mod Split
pub mod Descend
pub mod Take
pub mod Alloc
pub mod Overlap
pub mod Pair
pub mod Pairing
pub mod Merge
pub mod Link
pub mod Coalesce
pub mod Mark
pub mod Free
pub mod Requests
pub mod Granted
pub mod Returned
pub mod Run
pub mod Service
pub mod Tests
use ne_xs_operate_system.Base.{
  ℕ, zero, suc, ◌+◌, ◌-◌, ◌*◌, ◌%◌, ◌^◌, ◌≤◌, ◌<◌, bit_xor, Bool, true, false, not, ◌&&◌, ◌||◌,
  Option, none, some, List, [], ◌∷◌, ltb, leb, ◌==◌, if◌then◌else◌,
}
use ne_xs_operate_system.Buddy.{
  buddy_max_levels, header_size, level_to_size, size_to_level, initial_level,
}

abbrev pub block_magic : ℕ
block_magic = 0xB0DD1C0FFE

-- `struct buddy_block`, less `next`
pub record Header : Type 0 where
  pub level : ℕ
  pub is_free : Bool
  pub magic : ℕ

pub record Heap : Type 0 where
  pub heap_start : ℕ
  pub heap_size : ℕ
  pub bytes_allocated : ℕ
  pub free_lists : ℕ → List ℕ
  pub header : ℕ → Header

abbrev pub put_header : Heap → ℕ → Header → Heap
put_header h block v = record h { header = λ a. if a == block then v else h.header a }

abbrev pub put_list : Heap → ℕ → List ℕ → Heap
put_list h level xs = record h { free_lists = λ l. if l == level then xs else h.free_lists l }

-- The headers that memory happens to hold are an argument.
unfoldable pub buddy_init : (ℕ → Header) → ℕ → ℕ → Heap
buddy_init memory start size =
    let max_level = initial_level size in
    let blank : Heap = record {
      heap_start = start;
      heap_size = size;
      bytes_allocated = 0;
      free_lists = λ level. [];
      header = memory;
    } in
    let initial : Header = record { level = max_level; is_free = true; magic = block_magic } in
    put_list (put_header blank start initial) max_level (start ∷ [])

unfoldable pub get_buddy : Heap → ℕ → ℕ → ℕ
get_buddy h block level =
    let offset = (block + (2 ^ 64 - h.heap_start)) % 2 ^ 64 in
    (h.heap_start + bit_xor offset (level_to_size level)) % 2 ^ 64

unfoldable pub split_block : Heap → ℕ → ℕ → Heap
split_block h block zero = h
split_block h block (suc below) =
    let buddy = block + level_to_size below in
    let h₁ = put_header h buddy (record { level = below; is_free = true; magic = block_magic }) in
    let h₂ = put_header h₁ block (record (h₁.header block) { level = below }) in
    put_list h₂ below (block ∷ buddy ∷ h₂.free_lists below)

-- `while (level < BUDDY_MAX_LEVELS && !free_lists[level]) level++;` with `left` levels to go
unfoldable pub find_level : ℕ → ℕ → Heap → ℕ
find_level zero level h = level
find_level (suc left) level h =
    let rest = find_level left (level + 1) h in
    elim (h.free_lists level) [ [] ↦ rest | block ∷ blocks ↦ level ]

-- `while (level > needed)`
unfoldable pub split_to : ℕ → ℕ → Heap → Option Heap
split_to needed zero h = some h
split_to needed (suc below) h =
    if ltb needed (suc below)
    then elim (h.free_lists (suc below)) [
      | [] ↦ none
      | block ∷ blocks ↦
          split_to needed below (split_block (put_list h (suc below) blocks) block (suc below))
    ]
    else some h

-- The end of `buddy_alloc`: the first block of the level, or NULL.
unfoldable pub take_block : ℕ → Heap → Option ℕ × Heap
take_block needed h = elim (h.free_lists needed) [
  | [] ↦ (none, h)
  | block ∷ blocks ↦
      let h' =
        put_header (put_list h needed blocks) block (record (h.header block) { is_free = false }) in
      (
        some (block + header_size),
        record h' { bytes_allocated = (h.bytes_allocated + level_to_size needed) % 2 ^ 64 },
      )
]

unfoldable pub buddy_alloc : ℕ → Heap → Option (Option ℕ × Heap)
buddy_alloc size h =
    let needed = size_to_level size in
    let level = find_level (buddy_max_levels - needed) needed h in
    if size == 0
    then some (none, h)
    else if leb buddy_max_levels level
    then some (none, h)
    else elim (split_to needed level h) [ none ↦ none | some h' ↦ some (take_block needed h') ]

-- `while (*pp && *pp != buddy)` and `*pp = buddy->next`
unfoldable pub unlink : ℕ → List ℕ → List ℕ
unlink buddy [] = []
unlink buddy (block ∷ blocks) =
    let rest = unlink buddy blocks in if block == buddy then blocks else block ∷ rest

abbrev pub link : Heap → ℕ → Heap
link h block = let level = (h.header block).level in put_list h level (block ∷ h.free_lists level)

abbrev pub outside_heap : Heap → ℕ → Bool
outside_heap h a = ltb a h.heap_start || leb ((h.heap_start + h.heap_size) % 2 ^ 64) a

-- `while (block->level < BUDDY_MAX_LEVELS - 1)` with `left` levels to go, and what follows it
unfoldable pub coalesce : ℕ → Heap → ℕ → Heap
coalesce zero h block = link h block
coalesce (suc left) h block =
    let level = (h.header block).level in
    let buddy = get_buddy h block level in
    let h₁ = put_list h level (unlink buddy (h.free_lists level)) in
    let whole = (if ltb buddy block then buddy else block) in
    let v = h₁.header whole in
    let rest = coalesce left (put_header h₁ whole (record v { level = v.level + 1 })) whole in
    if outside_heap h buddy
    then link h block
    else if not (h.header buddy).is_free || not ((h.header buddy).level == level)
    then link h block
    else rest

unfoldable pub buddy_free : ℕ → Heap → Heap
buddy_free ptr h =
    let block = (ptr + (2 ^ 64 - header_size)) % 2 ^ 64 in
    let v = h.header block in
    let marked = put_header h block (record v { is_free = true }) in
    let h' = record marked {
      bytes_allocated = (h.bytes_allocated + (2 ^ 64 - level_to_size v.level)) % 2 ^ 64;
    } in
    if ptr == 0
    then h
    else if not (v.magic == block_magic)
    then h
    else coalesce (buddy_max_levels - 1 - v.level) h' block

-- `total`, `used` and `free`
unfoldable pub buddy_stats : Heap → ℕ × ℕ × ℕ
buddy_stats h =
    (h.heap_size, h.bytes_allocated, (h.heap_size + (2 ^ 64 - h.bytes_allocated)) % 2 ^ 64)
