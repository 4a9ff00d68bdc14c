-- ===== src/Permissions/Names.antt =====
-- `perm_names` and `perm_name`: the names of the capabilities, for the shell.
use Prim.Native.String.{String}
use text.Mathlib.Text.{◌==◌ as str_eq}
use text.Mathlib.TextEquality.{eq_iff}
use ne_xs_operate_system.Base.{
  ℕ, zero, suc, ◌+◌, ◌^◌, ◌≤◌, ◌<◌, ◌≡◌, ◌≢◌, refl, true, List, [], ◌∷◌, arith, ◌==◌, if◌then◌else◌,
  get_or, all_below, all_below-lt,
}

abbrev pub perm_names : List String
perm_names =
    "MEMORY_ALLOC" ∷ "MEMORY_FREE" ∷ "IO_READ" ∷ "IO_WRITE" ∷ "MSG_SEND" ∷ "MSG_RECEIVE"
    ∷ "IRQ_INSTALL" ∷ "IRQ_REMOVE" ∷ "TASK_CREATE" ∷ "TASK_DESTROY" ∷ "PERM_GRANT" ∷ "PERM_REVOKE"
    ∷ "KERNEL_MODE" ∷ "SHELL_ACCESS" ∷ "DEBUG" ∷ "ADMIN" ∷ []

-- The loop from `i` on, with `n` rounds left.
name_from : ℕ → ℕ → ℕ → String
name_from zero i perm = "UNKNOWN"
name_from (suc n) i perm =
    let rest = name_from n (i + 1) perm in
    if 2 ^ i == perm then get_or perm_names i "UNKNOWN" else rest

unfoldable pub perm_name : ℕ → String
unfolding name_from
perm_name perm = name_from 16 0 perm

name_from_unknown :
    (n i perm : ℕ) → ((k : ℕ) → i ≤ k → k < i + n → perm ≢ 2 ^ k) → name_from n i perm ≡ "UNKNOWN"
unfolding name_from
name_from_unknown zero i perm h = refl
name_from_unknown (suc n) i perm h =
    ground (arith, h i, name_from_unknown n (i + 1) perm (λ k p q. h k (omega arith) (omega arith)))

names_table : all_below 16 (λ i. str_eq (perm_name (2 ^ i)) (get_or perm_names i "UNKNOWN")) ≡ true
unfolding all_below perm_name
names_table = refl

-- Each of the 16 capability bits has the name of its place in the table, and any other mask is
-- "UNKNOWN".
pub perm_name_lem :
    ((i : ℕ) → i < 16 → perm_name (2 ^ i) ≡ get_or perm_names i "UNKNOWN")
    × ((perm : ℕ) → ((i : ℕ) → i < 16 → perm ≢ 2 ^ i) → perm_name perm ≡ "UNKNOWN")
perm_name_lem = (
  λ i h. (eq_iff _ _).0 (all_below-lt 16 _ i names_table h),
  λ perm h. unfold perm_name name_from in name_from_unknown 16 0 perm (λ k p q. h k q),
)
