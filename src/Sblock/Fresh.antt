-- ===== src/Sblock/Fresh.antt =====
-- The blocks that `sblock_alloc` of kernel/sblock.c gives out.
use ne_xs_operate_system.Base.{
  ℕ, zero, suc, ◌+◌, ◌*◌, ◌≤◌, ◌<◌, ◌≡◌, ◌⊎◌, inl, inr, refl, ◌||◌, none, some, arith, ltb, ◌==◌,
  Bool-cases, Option-cases, length, get_or, replicate, length-replicate,
}
use ne_xs_operate_system.Allocator.{Allocator}
use ne_xs_operate_system.Sblock.{Sblock, sblock_alloc, sblock_access}
use ne_xs_operate_system.Sblock.Holders.{IsHeld, holders}

-- A block from `sblock_alloc`: of the size asked for, up to a megabyte, with one holder.
pub record IsFresh (b : Sblock) (size owner_uid perms : ℕ) : Type 0 where
  pub bounded : (0 < size) × (size ≤ 1024 * 1024)
  pub full : length b.bytes ≡ size
  pub cleared : (i : ℕ) → get_or b.bytes i 0 ≡ 0
  pub one_holder : IsHeld b × (holders b ≡ 1)
  pub owned : sblock_access b owner_uid perms ≡ some b.bytes

get_or-replicate : (n i z : ℕ) → get_or (replicate n z) i z ≡ z
get_or-replicate zero i z = refl
get_or-replicate (suc n) zero z = refl
get_or-replicate (suc n) (suc i) z = get_or-replicate n i z

-- `sblock_alloc` answers NULL for no bytes, for more than a megabyte and where the allocator has
-- no room for them with their header; else a block at the allocator's address, all zeros, with one
-- holder, open to its owner.
sblock_alloc_lem :
    (A : Allocator) (mem : A.Memory) (size owner_uid perms : ℕ)
    → let (answer, _) = sblock_alloc A mem size owner_uid perms in
      ((answer ≡ none)
        × ((size ≡ 0) ⊎ ((1024 * 1024 < size) ⊎ ((A.alloc mem (32 + size)).0 ≡ none))))
      ⊎ ((a : ℕ) × (b : Sblock) × (answer ≡ some (a, b))
          × ((A.alloc mem (32 + size)).0 ≡ some a)
          × IsFresh b size owner_uid perms)
unfolding sblock_alloc sblock_access holders
sblock_alloc_lem A mem size owner_uid perms =
    elim (Bool-cases (size == 0 || ltb (1024 * 1024) size)) [
      | inl bad ↦ rw bad (inl (refl, ground arith))
      | inr good ↦ elim (Option-cases (A.alloc mem (32 + size)).0) [
        | inl gone ↦ rw (good, gone) (inl (refl, inr (inr refl)))
        | inr (a, is) ↦
            rw (good, is)
              (inr (
                a,
                _,
                refl,
                refl,
                record {
                  bounded = ground arith;
                  full = length-replicate size 0;
                  cleared = λ i. get_or-replicate size i 0;
                  one_holder = (record { held = λ _. (omega arith, omega arith) }, refl);
                  owned = ground arith;
                },
              ))
      ]
    ]
