-- ===== src/Sblock.antt =====
-- kernel/sblock.c: memory blocks with an owner, access rights, a count of their holders and a
-- checksum. A block is its header with its data; `none` is the null pointer.
pub mod Holders
pub mod Access
pub mod Fresh
pub mod Tests
use ne_xs_operate_system.Base.{
  ℕ, zero, suc, ◌+◌, ◌-◌, ◌*◌, ◌/◌, ◌%◌, ◌^◌, ◌≤◌, ◌<◌, bit_and, bit_or, bit_xor, Bool, true, false,
  not, ◌&&◌, ◌||◌, Option, none, some, List, [], ◌∷◌, ltb, leb, ◌==◌, if◌then◌else◌, replicate,
}
use ne_xs_operate_system.Allocator.{Allocator}

abbrev pub sblock_share_bit : ℕ
sblock_share_bit = 0x08

abbrev pub sblock_valid : ℕ
sblock_valid = 0x01

abbrev pub sblock_kernel : ℕ
sblock_kernel = 0x04

abbrev pub sblock_magic : ℕ
sblock_magic = 0x53424c4b5349474e

-- `struct sblock`, less `reserved`; `bytes` are the `size` bytes behind the header.
pub record Sblock : Type 0 where
  pub magic : ℕ
  pub signature : ℕ
  pub size : ℕ
  pub owner_uid : ℕ
  pub permissions : ℕ
  pub flags : ℕ
  pub ref_count : ℕ
  pub bytes : List ℕ

-- `crc = (crc >> 1) ^ (0xEDB88320 & -(crc & 1))`
abbrev pub crc_bit : ℕ → ℕ
crc_bit crc = bit_xor (crc / 2) (bit_and 0xedb88320 ((2 ^ 32 - bit_and crc 1) % 2 ^ 32))

abbrev pub crc_bits : ℕ → ℕ → ℕ
crc_bits zero crc = crc
crc_bits (suc n) crc = crc_bits n (crc_bit crc)

unfoldable pub crc_bytes : List ℕ → ℕ → ℕ
crc_bytes [] crc = crc
crc_bytes (b ∷ bs) crc = crc_bytes bs (crc_bits 8 (bit_xor crc b))

unfoldable pub crc32 : List ℕ → ℕ
crc32 bytes = 0xffff_ffff - crc_bytes bytes 0xffff_ffff

-- `!blk || blk->magic != SBLOCK_MAGIC`, negated, for a block that is there
abbrev pub has_magic : Sblock → Bool
has_magic b = b.magic == sblock_magic

-- `blk->flags & bit`
abbrev pub has_bit : ℕ → ℕ → Bool
has_bit word bit = not (bit_and word bit == 0)

module _ (A : Allocator) where
  open A use {Memory, alloc, free}

  -- The address of the block with it.
  unfoldable pub sblock_alloc : Memory → ℕ → ℕ → ℕ → Option (ℕ × Sblock) × Memory
  sblock_alloc mem size owner_uid perms =
      if size == 0 || ltb (1024 * 1024) size
      then (none, mem)
      else let (place, mem') = alloc mem (32 + size) in
        elim place [
          | none ↦ (none, mem')
          | some a ↦
              let blk : Sblock = record {
                magic = sblock_magic;
                signature = 0;
                size = size;
                owner_uid = owner_uid;
                permissions = perms;
                flags = sblock_valid;
                ref_count = 1;
                bytes = replicate size 0;
              } in
              (some (a, blk), mem')
        ]

-- Whether the block is given back with `buddy_free`, and its header after that: the fields that the
-- call leaves behind. A later call with the same pointer reads them only until the allocator gives
-- the memory away again, and it is of this block no more from then on.
unfoldable pub sblock_free : Sblock → Bool × Sblock
sblock_free b =
    let left = b.ref_count - 1 in
    if not (has_magic b)
    then (false, b)
    else if left == 0
    then (true, record b { ref_count = left; magic = 0 })
    else (false, record b { ref_count = left })

-- The answers 0 and -1.
pub data Shared : Type 0 where
  granted refused : Shared

unfoldable pub sblock_share : Sblock → ℕ → Shared × Sblock
sblock_share b target_uid =
    if not (has_magic b)
    then (refused, b)
    else if not (has_bit b.permissions sblock_share_bit)
    then (refused, b)
    else if has_bit b.flags sblock_kernel && ltb 1 target_uid
    then (refused, b)
    else if ltb b.ref_count 255
    then (granted, record b { ref_count = b.ref_count + 1 })
    else (refused, b)

unfoldable pub sblock_verify : Sblock → Bool
sblock_verify b =
    if not (has_magic b)
    then false
    else if not (has_bit b.flags sblock_valid)
    then false
    else crc32 b.bytes == b.signature

unfoldable pub sblock_sign : Sblock → Sblock
sblock_sign b = if not (has_magic b) then b else record b { signature = crc32 b.bytes }

-- `some` of the data, or NULL.
unfoldable pub sblock_access : Sblock → ℕ → ℕ → Option (List ℕ)
sblock_access b uid perm =
    if not (has_magic b)
    then none
    else if not (has_bit b.flags sblock_valid)
    then none
    else if uid == b.owner_uid
    then some b.bytes
    else if uid == 0
    then some b.bytes
    else if not (has_bit b.permissions perm)
    then none
    else if has_bit b.flags sblock_kernel && ltb 1 uid
    then none
    else some b.bytes
