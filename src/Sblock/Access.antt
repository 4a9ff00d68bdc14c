-- ===== src/Sblock/Access.antt =====
-- Who may use a block of kernel/sblock.c, and what its signature tells.
use ne_xs_operate_system.Base.{ℕ, ◌≤◌, ◌≡◌, ◌≢◌, ◌⊎◌, ◌↔◌, bit_and, true, none, some, List, arith}
use ne_xs_operate_system.Sblock.{
  Sblock, sblock_magic, sblock_valid, sblock_kernel, crc32, sblock_verify, sblock_sign,
  sblock_access,
}

-- A live and valid block, and a user who owns it, is the kernel, or holds one of the rights asked
-- for; the last not above root if it is a block of the kernel.
pub record MayAccess (b : Sblock) (uid perm : ℕ) : Type 0 where
  pub live : b.magic ≡ sblock_magic
  pub valid : bit_and b.flags sblock_valid ≢ 0
  pub entitled :
      (uid ≡ b.owner_uid)
      ⊎ ((uid ≡ 0)
          ⊎ ((bit_and b.permissions perm ≢ 0) × ((bit_and b.flags sblock_kernel ≡ 0) ⊎ (uid ≤ 1))))

-- `sblock_access` gives out the data exactly to those who may access the block, and NULL to all
-- others.
pub sblock_access_iff :
    (b : Sblock) (uid perm : ℕ)
    → ((sblock_access b uid perm ≡ some b.bytes) ↔ MayAccess b uid perm)
      × ((sblock_access b uid perm ≡ some b.bytes) ⊎ (sblock_access b uid perm ≡ none))
unfolding sblock_access
sblock_access_iff b uid perm =
    ((given, λ m. ground (arith, m.live, m.valid, m.entitled)), ground arith)
  where
    given : sblock_access b uid perm ≡ some b.bytes → MayAccess b uid perm
    given e = record { live = ground arith; valid = ground arith; entitled = ground arith }

-- A live and valid block that was signed verifies, and goes on to do so after a change of its data
-- exactly if the checksum of the new data is the same.
sblock_verify-sblock_sign :
    (b : Sblock) (new : List ℕ)
    → b.magic ≡ sblock_magic
    → bit_and b.flags sblock_valid ≢ 0
    → (sblock_verify (sblock_sign b) ≡ true)
      × ((sblock_verify (record (sblock_sign b) { bytes = new }) ≡ true)
          ↔ (crc32 new ≡ crc32 b.bytes))
unfolding sblock_verify sblock_sign
sblock_verify-sblock_sign b new live valid =
    (ground (arith, live, valid), (λ e. ground (arith, live), λ e. ground (arith, live, valid)))
