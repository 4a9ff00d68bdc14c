-- ===== src/Buddy/Sizes.antt =====
-- The levels that kernel/buddy.c chooses for a request and for the heap.
use native.Mathlib.Nat.{two-pow-succ, mod-eq_of_lt}
use ne_xs_operate_system.Base.{
  ℕ, zero, suc, ◌+◌, ◌-◌, ◌*◌, ◌^◌, ◌≤◌, ◌<◌, ◌≡◌, ◌⊎◌, inl, inr, refl, arith, ltb, leb, leb→le,
  Bool-cases,
}
use ne_xs_operate_system.Buddy.{
  buddy_min_size, buddy_max_levels, header_size, level_to_size, grow_to, size_to_level, grow_within,
  initial_level,
}

level_to_size-suc : (level : ℕ) → level_to_size (level + 1) ≡ level_to_size level * 2
level_to_size-suc level =
    let next : level + 1 ≡ suc level = omega arith in
    let double : 2 ^ suc level ≡ 2 ^ level + 2 ^ level = two-pow-succ level in
    rw next (omega (arith, double))

-- A level holds `size` bytes, or is the last; and the level below it does not hold them.
pub record Fits (size level : ℕ) : Type 0 where
  pub in_range : level < buddy_max_levels
  pub enough : (size ≤ level_to_size level) ⊎ (level ≡ buddy_max_levels - 1)
  pub smallest : (level ≡ 0) ⊎ (level_to_size (level - 1) < size)

grow_to-Fits :
    (left size level : ℕ)
    → level + left ≡ buddy_max_levels - 1
    → (level ≡ 0) ⊎ (level_to_size (level - 1) < size)
    → Fits size (grow_to left size level (level_to_size level))
unfolding grow_to
grow_to-Fits zero size level e small = record {
  in_range = omega arith;
  enough = inr (omega arith);
  smallest = small;
}
grow_to-Fits (suc left) size level e small = elim (Bool-cases (ltb (level_to_size level) size)) [
  | inl less ↦
      let below : level_to_size (level + 1 - 1) < size = ground arith in
      let rest = grow_to-Fits left size (level + 1) (omega arith) (inr below) in
      rw (less, ← level_to_size-suc level) rest
  | inr held ↦
      rw held (record { in_range = omega arith; enough = inl (ground arith); smallest = small })
]

-- The level of a request holds it with its header, or is the last level, 11; it is the
-- smallest such level. A request near 2^64 bytes, where the sum wraps, is left out.
pub size_to_level_lem :
    (size : ℕ) → size + header_size < 2 ^ 64 → Fits (size + header_size) (size_to_level size)
unfolding size_to_level
size_to_level_lem size h =
    rw (mod-eq_of_lt h) (grow_to-Fits (buddy_max_levels - 1) (size + header_size) 0 refl (inl refl))

-- The block of a level lies within `size` bytes, and the next level's does not, if there is one.
pub record Fills (size level : ℕ) : Type 0 where
  pub in_range : level < buddy_max_levels
  pub within : level_to_size level ≤ size
  pub largest : (level ≡ buddy_max_levels - 1) ⊎ (size < level_to_size (level + 1))

grow_within-Fills :
    (left size level : ℕ)
    → level + left ≡ buddy_max_levels - 1
    → level_to_size level ≤ size
    → Fills size (grow_within left size level (level_to_size level))
unfolding grow_within
grow_within-Fills zero size level e fits = record {
  in_range = omega arith;
  within = fits;
  largest = inl (omega arith);
}
grow_within-Fills (suc left) size level e fits =
    elim (Bool-cases (leb (level_to_size level * 2) size)) [
      | inl more ↦
          let next = level_to_size-suc level in
          let fits' : level_to_size (level + 1) ≤ size = rw next (leb→le _ _ more) in
          let rest = grow_within-Fills left size (level + 1) (omega arith) fits' in
          rw (more, ← next) rest
      | inr stop ↦ rw stop (record {
        in_range = omega arith;
        within = fits;
        largest = inr (rw (level_to_size-suc level) (ground arith));
      })
    ]

-- The first block that `buddy_init` makes lies within the heap, if that has a page, and no
-- level up to 11 has a larger block that does.
pub initial_level_lem : (size : ℕ) → buddy_min_size ≤ size → Fills size (initial_level size)
unfolding initial_level
initial_level_lem size h = grow_within-Fills (buddy_max_levels - 1) size 0 refl h
