-- ===== src/Buddy/Secure.antt =====
-- The secure region of kernel/buddy.c: its blocks lie in it and never overlap.
use native.Mathlib.Nat.{mod-eq_of_lt}
use mathlib.Core.Path.{subst}
use ne_xs_operate_system.Base.{
  ℕ, suc, ◌+◌, ◌%◌, ◌^◌, ◌≤◌, ◌<◌, ◌≡◌, ◌⊎◌, inl, inr, refl, ap, true, false, ◌||◌, none, some,
  List, [], ◌∷◌, arith, ltb, ◌==◌, Bool-cases, get_or,
}
use ne_xs_operate_system.Buddy.{SecureRegion, secure_region_init, align16, secure_alloc}

-- The region lies in the address space, away from its ends. What is used exceeds the
-- region by less than 16 bytes, since the last block is aligned after the test.
pub record IsPlaced (s : SecureRegion) : Type 0 where
  pub set_up : 0 < s.secure_start
  pub in_space : s.secure_start + s.secure_size + 32 ≤ 2 ^ 64
  pub used : s.secure_used < s.secure_size + 16

-- A block of the region behind what was used before.
pub record IsNew (s s' : SecureRegion) (size a : ℕ) : Type 0 where
  pub behind : s.secure_start + s.secure_used ≤ a
  pub inside : a + size ≤ s.secure_start + s.secure_size
  pub ahead : a + size ≤ s'.secure_start + s'.secure_used
  pub same : (s'.secure_start ≡ s.secure_start) × (s'.secure_size ≡ s.secure_size)

align16_bounds :
    (size : ℕ) → size + 15 < 2 ^ 64 → (size ≤ align16 size) × (align16 size < size + 16)
align16_bounds size h = rw (mod-eq_of_lt h) (omega arith, omega arith)

-- A request of a region placed as `IsPlaced` says, of a size that wraps no sum, is answered by a block in the region
-- behind all blocks before, or by NULL with nothing changed, the latter exactly if the room that is
-- left is too small.
pub secure_alloc_lem :
    (s : SecureRegion) (size : ℕ)
    → IsPlaced s
    → s.secure_used + size + 15 < 2 ^ 64
    → let (place, s') = secure_alloc s size in
      ((place ≡ none) × (s' ≡ s) × (s.secure_size < s.secure_used + size))
      ⊎ ((a : ℕ) × (place ≡ some a) × IsNew s s' size a × IsPlaced s')
unfolding secure_alloc
secure_alloc_lem s size p h = elim (Bool-cases (ltb s.secure_size (s.secure_used + size))) [
  | inl full ↦
      let refused : (s.secure_start == 0 || ltb s.secure_size ((s.secure_used + size) % 2 ^ 64))
          ≡ true =
        rw (mod-eq_of_lt no_wrap) (ground arith) in
      rw refused (inl (refl, refl, ground arith))
  | inr room ↦
      let granted : (s.secure_start == 0 || ltb s.secure_size ((s.secure_used + size) % 2 ^ 64))
          ≡ false =
        rw (mod-eq_of_lt no_wrap) (ground arith) in
      let fits : s.secure_used + size ≤ s.secure_size = ground arith in
      let (up, down) = align16_bounds size (omega arith) in
      let at_place : (s.secure_start + s.secure_used) % 2 ^ 64 ≡ s.secure_start + s.secure_used =
        mod-eq_of_lt (omega arith) in
      let used' : (s.secure_used + align16 size) % 2 ^ 64 ≡ s.secure_used + align16 size =
        mod-eq_of_lt (omega arith) in
      rw granted (
        inr (
          s.secure_start + s.secure_used,
          ap some at_place,
          record {
            behind = omega arith;
            inside = omega arith;
            ahead = rw used' (omega arith);
            same = (refl, refl);
          },
          record { set_up = p.set_up; in_space = p.in_space; used = rw used' (omega arith) },
        ))
]
  where
    no_wrap : s.secure_used + size < 2 ^ 64
    no_wrap = omega (arith, h)

-- The blocks, each with its size, that a list of requests is answered by.
unfoldable pub serve : SecureRegion → List ℕ → List (ℕ × ℕ)
serve s [] = []
serve s (size ∷ sizes) =
    let (place, s') = secure_alloc s size in
    let rest = serve s' sizes in elim place [ none ↦ rest | some a ↦ (a, size) ∷ rest ]

-- The blocks lie between `lo` and `hi`, each behind the one before.
pub data IsPacked (hi : ℕ) : ℕ → List (ℕ × ℕ) → Type 0 where
  done : {lo : ℕ} → IsPacked hi lo []
  block :
      {lo a size : ℕ} {rest : List (ℕ × ℕ)}
      → lo ≤ a
      → a + size ≤ hi
      → IsPacked hi (a + size) rest
      → IsPacked hi lo ((a, size) ∷ rest)

IsPacked-weaken :
    {hi lo lo' : ℕ} {blocks : List (ℕ × ℕ)}
    → lo ≤ lo'
    → IsPacked hi lo' blocks
    → IsPacked hi lo blocks
IsPacked-weaken h done = done
IsPacked-weaken h (block l u rest) = block (omega (arith, h, l)) u rest

serve-IsPacked :
    (s : SecureRegion) (sizes : List ℕ)
    → IsPlaced s
    → ((i : ℕ) → get_or sizes i 0 + s.secure_size + 32 ≤ 2 ^ 64)
    → IsPacked (s.secure_start + s.secure_size) (s.secure_start + s.secure_used) (serve s sizes)
unfolding serve
serve-IsPacked s [] p h = done
serve-IsPacked s (size ∷ sizes) p h =
    elim (secure_alloc_lem s size p (omega (arith, h 0, p.used))) [
      | inl (refused, same, _) ↦ rw (serve, refused, same) (serve-IsPacked s sizes p λ i. h (suc i))
      | inr (a, placed, new, p') ↦
          let s' = (secure_alloc s size).1 in
          let rest = serve-IsPacked s' sizes p' (λ i. rw new.same.1 (h (suc i))) in
          let rest' : IsPacked (s.secure_start + s.secure_size) (s'.secure_start + s'.secure_used)
              (serve s' sizes) =
            subst (λ hi. IsPacked hi (s'.secure_start + s'.secure_used) (serve s' sizes))
              (omega (arith, new.same.0, new.same.1)) rest in
          rw (serve, placed) (block new.behind new.inside (IsPacked-weaken new.ahead rest'))
    ]

-- In a fresh secure region that starts above address 0 and ends 32 bytes or more below 2^64, the
-- blocks that any requests are answered by lie in the region and do not overlap; sizes that
-- could wrap a sum are left out.
pub secure_region_init-IsPacked :
    (base size : ℕ) (sizes : List ℕ)
    → 0 < base
    → base + size + 32 ≤ 2 ^ 64
    → ((i : ℕ) → get_or sizes i 0 + size + 32 ≤ 2 ^ 64)
    → IsPacked (base + size) base (serve (secure_region_init base size) sizes)
unfolding secure_region_init
secure_region_init-IsPacked base size sizes up space h = IsPacked-weaken (omega arith) (
    serve-IsPacked (secure_region_init base size) sizes
      (record { set_up = up; in_space = space; used = omega arith }) h)
