-- ===== src/Strings/Search.antt =====
-- `strncmp` and `strchr` of kernel/libc.c.
use ne_xs_operate_system.Base.{
  ℕ, zero, suc, ◌%◌, ◌<◌, ◌≡◌, ◌≢◌, inl, inr, refl, ap, ◌∙◌, Option, none, some, List, [], ◌∷◌,
  arith, ◌==◌, ==_iff, Bool-cases, length, get_or, take,
}
use ne_xs_operate_system.Strings.{strcmp, strncmp, strchr, next_place}

-- `strncmp` is `strcmp` of the strings cut to `n` bytes.
pub strncmp_lem : (n : ℕ) (s t : List ℕ) → strncmp n s t ≡ strcmp (take n s) (take n t)
unfolding strncmp strcmp
strncmp_lem zero s t = refl
strncmp_lem (suc n) [] [] = refl
strncmp_lem (suc n) [] (b ∷ ys) = refl
strncmp_lem (suc n) (a ∷ xs) [] = refl
strncmp_lem (suc n) (a ∷ xs) (b ∷ ys) = rw (strncmp_lem n xs ys) refl

-- The first place of a byte in a string, or none.
pub data IsFound (s : List ℕ) (b : ℕ) (r : Option ℕ) : Type 0 where
  found :
      (k : ℕ)
      → k < length s
      → get_or s k 0 ≡ b
      → ((i : ℕ) → i < k → get_or s i 0 ≢ b)
      → r ≡ some k
      → IsFound s b r
  missing : ((i : ℕ) → i < length s → get_or s i 0 ≢ b) → r ≡ none → IsFound s b r

before_suc :
    (a b n : ℕ) (s : List ℕ)
    → a ≢ b
    → ((i : ℕ) → i < n → get_or s i 0 ≢ b)
    → (i : ℕ) → i < suc n
    → get_or (a ∷ s) i 0 ≢ b
before_suc a b n s ne h zero k = ne
before_suc a b n s ne h (suc i) k = h i (omega arith)

IsFound-suc :
    (a b : ℕ) (s : List ℕ) (r : Option ℕ) → a ≢ b → IsFound s b r → IsFound (a ∷ s) b (next_place r)
IsFound-suc a b s r ne (found k h e before is) =
    found (suc k) (omega arith) e (before_suc a b k s ne before)
      (ap next_place is ∙ ap some (omega arith))
IsFound-suc a b s r ne (missing all is) =
    missing (before_suc a b (length s) s ne all) (ap next_place is)

-- `strchr` finds the first byte of the string that is the lowest byte of `c`, or none. It finds
-- none for a zero: it does not look at the terminating one.
pub strchr-IsFound : (s : List ℕ) (c : ℕ) → IsFound s (c % 256) (strchr s c)
unfolding strchr
strchr-IsFound [] c = missing (λ i h. absurd (omega arith)) refl
strchr-IsFound (a ∷ xs) c = elim (Bool-cases (a == c % 256)) [
  | inl here ↦
      rw here (found 0 (omega arith) ((==_iff _ _).0 here) (λ i h. absurd (omega arith)) refl)
  | inr other ↦
      rw other (IsFound-suc a (c % 256) xs _ (ground (arith, other)) (strchr-IsFound xs c))
]
