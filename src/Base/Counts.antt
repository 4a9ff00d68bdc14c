-- ===== src/Base/Counts.antt =====
-- How often a number stands in a list: the lists of blocks of the allocators.
use Prim.Native.Nat.{ℕ, ◌+◌}
use mathlib.Core.Path.{◌≡◌, refl, ap}
use mathlib.Core.Bool.{false}
use mathlib.Core.List.{List, [], ◌∷◌, ◌++◌, map}
use native.Mathlib.Omega.{arith}
use ne_xs_operate_system.Base.Tests.{◌==◌, if◌then◌else◌}

unfoldable pub count_of : ℕ → List ℕ → ℕ
count_of a [] = 0
count_of a (b ∷ bs) = (if b == a then 1 else 0) + count_of a bs

pub count_of-append :
    (a : ℕ) (xs ys : List ℕ) → count_of a (xs ++ ys) ≡ count_of a xs + count_of a ys
unfolding count_of
count_of-append a [] ys = omega arith
count_of-append a (x ∷ xs) ys = omega (arith, count_of-append a xs ys)

module _ {ℓ} {A : Type ℓ} where
  -- A function changed where the list has nothing gives the same list.
  pub map-absent :
      (f : ℕ → A) (a : ℕ) (v : A) (xs : List ℕ)
      → count_of a xs ≡ 0
      → map (λ b. if b == a then v else f b) xs ≡ map f xs
  unfolding count_of
  map-absent f a v [] e = refl
  map-absent f a v (x ∷ xs) e =
      let other : (x == a) ≡ false = ground (arith, e) in
      let rest : count_of a xs ≡ 0 = ground (arith, e) in
      rw other (ap (λ ys. f x ∷ ys) (map-absent f a v xs rest))
