-- ===== src/Sblock/Tests.antt =====
-- Runs of kernel/sblock.c, and its theorems at concrete blocks.
use ne_xs_operate_system.Base.{
  ℕ, ◌+◌, ◌≡◌, ◌⊎◌, ◌↔◌, refl, replicate, false, none, some, [], ◌∷◌, arith,
}
use ne_xs_operate_system.Allocator.{Allocator}
use ne_xs_operate_system.Sblock.{
  Sblock, sblock_magic, crc32, crc_bytes, sblock_access, sblock_verify,
}
use ne_xs_operate_system.Sblock.Access.{MayAccess, sblock_access_iff}
use ne_xs_operate_system.Sblock.Holders.{
  share, drop, run, owed, holders, may_share, count_uses, run-holders,
}

-- The check value of CRC-32, of the bytes "123456789".
crc32_run : crc32 (b'1' ∷ b'2' ∷ b'3' ∷ b'4' ∷ b'5' ∷ b'6' ∷ b'7' ∷ b'8' ∷ b'9' ∷ []) ≡ 0xcbf43926
unfolding crc32 crc_bytes
crc32_run = refl

-- A block of user 2 that may be read and shared.
abbrev letter : Sblock
letter = record {
  magic = sblock_magic;
  signature = 0;
  size = 2;
  owner_uid = 2;
  permissions = 0x09;
  flags = 0x01;
  ref_count = 1;
  bytes = 7 ∷ 8 ∷ [];
}

sblock_access_iff_example :
    ((sblock_access letter 3 0x02 ≡ some letter.bytes) ↔ MayAccess letter 3 0x02)
    × ((sblock_access letter 3 0x02 ≡ some letter.bytes) ⊎ (sblock_access letter 3 0x02 ≡ none))
sblock_access_iff_example = sblock_access_iff letter 3 0x02

run-holders_example :
    let (freed, b') = run letter (share 3 ∷ drop ∷ drop ∷ drop ∷ []) in
    (holders b'
      ≡ count_uses (may_share letter) (holders letter) (share 3 ∷ drop ∷ drop ∷ drop ∷ []))
    × (freed + owed (holders b') ≡ owed (holders letter))
run-holders_example =
    run-holders letter (share 3 ∷ drop ∷ drop ∷ drop ∷ [])
      (record { held = λ _. (omega arith, omega arith) })

-- Blocks one after another, without an end.
abbrev endless : Allocator
endless = record { Memory = ℕ; alloc = λ m size. (some m, m + size); free = λ m a. m }

-- A new block of four bytes does not verify before it is signed.
fresh_run : sblock_verify (record letter { bytes = replicate 4 0 }) ≡ false
unfolding sblock_verify crc32 crc_bytes
fresh_run = refl
