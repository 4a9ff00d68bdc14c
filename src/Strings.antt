-- ===== src/Strings.antt =====
-- The functions of kernel/libc.c that compare and search strings. A C string is the list of its bytes
-- before the terminating zero.
pub mod Search
pub mod Tests
use ne_xs_operate_system.Base.{
  ℕ, zero, suc, ◌+◌, ◌%◌, Option, none, some, ◌≡◌, ◌≢◌, ◌↔◌, inl, inr, refl, sym, ap, Bool, true,
  false, List, [], ◌∷◌, arith, ◌==◌, ==_iff, if◌then◌else◌, Bool-cases,
}

-- The two bytes whose difference is the answer.
unfoldable pub strcmp : List ℕ → List ℕ → ℕ × ℕ
strcmp [] [] = (0, 0)
strcmp [] (b ∷ ys) = (0, b)
strcmp (a ∷ xs) [] = (a, 0)
strcmp (a ∷ xs) (b ∷ ys) = let rest = strcmp xs ys in if a == b then rest else (a, b)

-- With the counter `n`; an equal byte takes one off it.
unfoldable pub strncmp : ℕ → List ℕ → List ℕ → ℕ × ℕ
strncmp zero s t = (0, 0)
strncmp (suc n) [] [] = (0, 0)
strncmp (suc n) [] (b ∷ ys) = (0, b)
strncmp (suc n) (a ∷ xs) [] = (a, 0)
strncmp (suc n) (a ∷ xs) (b ∷ ys) = let rest = strncmp n xs ys in if a == b then rest else (a, b)

abbrev pub next_place : Option ℕ → Option ℕ
next_place none = none
next_place (some k) = some (k + 1)

-- The place of the byte found; `none` is NULL.
unfoldable pub strchr : List ℕ → ℕ → Option ℕ
strchr [] c = none
strchr (a ∷ xs) c = let rest = next_place (strchr xs c) in if a == c % 256 then some 0 else rest

-- `strcmp(s, t) == 0`
unfoldable pub same_string : List ℕ → List ℕ → Bool
same_string s t = (strcmp s t).0 == (strcmp s t).1

-- No byte of a string is zero.
pub data IsString : List ℕ → Type 0 where
  ends : IsString []
  byte : {a : ℕ} {xs : List ℕ} → a ≢ 0 → IsString xs → IsString (a ∷ xs)

strcmp_self : (s : List ℕ) → (strcmp s s).0 ≡ (strcmp s s).1
unfolding strcmp
strcmp_self [] = refl
strcmp_self (a ∷ xs) = ground (arith, strcmp_self xs)

strcmp_zero : (s t : List ℕ) → IsString s → IsString t → (strcmp s t).0 ≡ (strcmp s t).1 → s ≡ t
unfolding strcmp
strcmp_zero [] [] p q e = refl
strcmp_zero [] (b ∷ ys) p (byte m q) e = absurd (m (sym e))
strcmp_zero (a ∷ xs) [] (byte n p) q e = absurd (n e)
strcmp_zero (a ∷ xs) (b ∷ ys) (byte n p) (byte m q) e = elim (Bool-cases (a == b)) [
  | inl same ↦ cc ((==_iff a b).0 same, strcmp_zero xs ys p q (rw same at e))
  | inr other ↦ absurd (ground (arith, rw other at e))
]

-- For strings without a zero byte, `strcmp` answers 0 exactly if they are equal.
pub strcmp_iff :
    (s t : List ℕ) → IsString s → IsString t → ((strcmp s t).0 ≡ (strcmp s t).1) ↔ (s ≡ t)
strcmp_iff s t p q = (strcmp_zero s t p q, λ e. rw e (strcmp_self t))

pub same_string_iff : (s t : List ℕ) → IsString s → IsString t → (same_string s t ≡ true) ↔ (s ≡ t)
unfolding same_string
same_string_iff s t p q =
    (λ e. (strcmp_iff s t p q).0 ((==_iff _ _).0 e), λ e. (==_iff _ _).1 ((strcmp_iff s t p q).1 e))
