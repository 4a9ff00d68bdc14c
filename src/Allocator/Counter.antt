-- ===== src/Allocator/Counter.antt =====
-- An allocator for the runs of the clients, which never gives an address twice while it is held.
use ne_xs_operate_system.Base.{
  ℕ, suc, ◌+◌, ◌≡◌, ◌<◌, refl, sym, ap, ◌∙◌, Bool, false, not, ◌&&◌, ◌||◌, Option, none, some, List,
  [], ◌∷◌, arith, ltb, ◌==◌, if◌then◌else◌, Bool-cases, inl, inr,
}
use ne_xs_operate_system.Allocator.{Allocator, Laws}

abbrev place_of : Option ℕ → ℕ
place_of c = elim c [ none ↦ 0 | some a ↦ a ]

abbrev pub member : ℕ → List ℕ → Bool
member a [] = false
member a (b ∷ bs) = a == b || member a bs

abbrev pub without : ℕ → List ℕ → List ℕ
without a [] = []
without a (b ∷ bs) = let rest = without a bs in if b == a then rest else b ∷ rest

abbrev pub sum : List ℕ → ℕ
sum [] = 0
sum (b ∷ bs) = b + sum bs

member-sum : (a : ℕ) (bs : List ℕ) → sum bs < a → member a bs ≡ false
member-sum a [] h = refl
member-sum a (b ∷ bs) h = let rest = member-sum a bs (omega arith) in ground (arith, h, rest)

member-without : (a b : ℕ) (bs : List ℕ) → member b (without a bs) ≡ (member b bs && not (b == a))
member-without a b [] = refl
member-without a b (c ∷ bs) = elim (Bool-cases (c == a)) [
  | inl same ↦ rw same (member-without a b bs ∙ ground (arith, same))
  | inr other ↦ rw other (ap (λ t. b == c || t) (member-without a b bs) ∙ ground (arith, other))
]

-- The addresses handed out; the next is larger than all.
abbrev pub counter : Allocator
counter = record {
  Memory = List ℕ;
  alloc = λ m n. (some (suc (sum m)), suc (sum m) ∷ m);
  free = λ m a. without a m;
}

pub counter_laws : Laws counter
counter_laws = record {
  is_held = λ m a. ltb 0 a && member a m;
  null_never = λ m. refl;
  fresh = λ m m' n a e.
      let place : suc (sum m) ≡ a = ap (λ c. place_of c.0) e in
      ground (arith, member-sum a m (omega (arith, place)));
  gains = λ m m' n a b e.
      let place : suc (sum m) ≡ a = ap (λ c. place_of c.0) e in
      let head : member b (suc (sum m) ∷ m) ≡ (b == a || member b m) = rw place refl in
      let grown : member b m' ≡ (b == a || member b m) = ap (λ c. member b c.1) (sym e) ∙ head in
      let positive : 0 < a = omega (arith, place) in ground (arith, grown, positive);
  keeps = λ m m' n b e. absurd (omega (arith, ap (λ c. place_of c.0) e));
  loses = λ m a b. ground (arith, member-without a b m);
}
