-- ===== src/Sblock/Holders.antt =====
-- The holders of a block of kernel/sblock.c: who may come to hold it, and that it is given back once.
use ne_xs_operate_system.Base.{
  ℕ, ◌+◌, ◌-◌, ◌<◌, ◌≡◌, refl, ap, ◌∙◌, Bool, not, ◌&&◌, List, [], ◌∷◌, arith, ltb, ◌==◌,
  if◌then◌else◌,
}
use ne_xs_operate_system.Sblock.{
  Sblock, sblock_magic, sblock_kernel, sblock_share_bit, has_magic, has_bit, sblock_free,
  sblock_share,
}

-- A block that is live has a holder, and no more than the count can hold.
pub record IsHeld (b : Sblock) : Type 0 where
  pub held : b.magic ≡ sblock_magic → (0 < b.ref_count) × (b.ref_count < 256)

-- What a holder does: hand the block to a user, or let it go.
pub data Use : Type 0 where
  share : ℕ → Use
  drop : Use

-- How often `buddy_free` was called, and the block after that.
pub use_block : Sblock → Use → ℕ × Sblock
use_block b (share uid) = (0, (sblock_share b uid).1)
use_block b drop = let (freed, b') = sblock_free b in (if freed then 1 else 0, b')

pub run : Sblock → List Use → ℕ × Sblock
run b [] = (0, b)
run b (u ∷ us) =
    let (freed, b') = use_block b u in let (later, b'') = run b' us in (freed + later, b'')

-- The number of holders, 0 of a block that was given back.
unfoldable pub holders : Sblock → ℕ
holders b = if has_magic b then b.ref_count else 0

-- The holders as a number: what may be shared, to whom, is decided by the block's rights and
-- flags, which no use changes.
unfoldable pub may_share : Sblock → ℕ → Bool
may_share b uid =
    has_bit b.permissions sblock_share_bit && not (has_bit b.flags sblock_kernel && ltb 1 uid)

unfoldable pub count_use : (ℕ → Bool) → ℕ → Use → ℕ
count_use may n (share uid) = if n == 0 then 0 else if may uid && ltb n 255 then n + 1 else n
count_use may n drop = n - 1

pub count_uses : (ℕ → Bool) → ℕ → List Use → ℕ
count_uses may n [] = n
count_uses may n (u ∷ us) = count_uses may (count_use may n u) us

-- How far a block is from being given back: one call of `buddy_free`, if it is held.
abbrev pub owed : ℕ → ℕ
owed n = if n == 0 then 0 else 1

share-holders :
    (b : Sblock) (uid : ℕ)
    → IsHeld b
    → let b' = (sblock_share b uid).1 in
      IsHeld b'
      × (holders b' ≡ count_use (may_share b) (holders b) (share uid))
      × (owed (holders b') ≡ owed (holders b))
      × (may_share b' ≡ may_share b)
unfolding holders may_share count_use sblock_share
share-holders b uid v = (
  record { held = λ m. ground (arith, v.held) },
  ground (arith, v.held),
  ground (arith, v.held),
  ground arith,
)

drop-holders :
    (b : Sblock)
    → IsHeld b
    → let (freed, b') = sblock_free b in
      IsHeld b'
      × (holders b' ≡ count_use (may_share b) (holders b) drop)
      × ((if freed then 1 else 0) + owed (holders b') ≡ owed (holders b))
      × (may_share b' ≡ may_share b)
unfolding holders may_share count_use sblock_free
drop-holders b v = (
  record { held = λ m. ground (arith, v.held) },
  ground (arith, v.held),
  ground (arith, v.held),
  ground arith,
)

-- One use, as `run` counts it.
record IsUse (b b' : Sblock) (freed : ℕ) (u : Use) : Type 0 where
  after : IsHeld b'
  counted : holders b' ≡ count_use (may_share b) (holders b) u
  given_back : freed + owed (holders b') ≡ owed (holders b)
  same : may_share b' ≡ may_share b

use_block-IsUse : (b : Sblock) (u : Use) → IsHeld b → IsUse b (use_block b u).1 (use_block b u).0 u
unfolding use_block
use_block-IsUse b (share uid) v =
    let (h, c, o, m) = share-holders b uid v in
    record { after = h; counted = c; given_back = omega (arith, o); same = m }
use_block-IsUse b drop v =
    let (h, c, o, m) = drop-holders b v in
    record { after = h; counted = c; given_back = o; same = m }

-- However its holders share and drop a block that satisfies `IsHeld`, their number goes as `count_use` says, by one up for
-- each share that the block's rights allow while there are fewer than 255, by one down for each
-- drop; and the block is given back to the allocator once if it had holders and has none left,
-- never otherwise: a drop too many does nothing.
pub run-holders :
    (b : Sblock) (us : List Use)
    → IsHeld b
    → let (freed, b') = run b us in
      (holders b' ≡ count_uses (may_share b) (holders b) us)
      × (freed + owed (holders b') ≡ owed (holders b))
unfolding run count_uses
run-holders b [] v = (refl, omega arith)
run-holders b (u ∷ us) v =
    let w = use_block-IsUse b u v in
    let (counted, given_back) = run-holders (use_block b u).1 us w.after in
    (
      counted
          ∙ ap (λ may. count_uses may (holders (use_block b u).1) us) w.same
          ∙ ap (λ n. count_uses (may_share b) n us) w.counted,
      omega (arith, given_back, w.given_back),
    )
