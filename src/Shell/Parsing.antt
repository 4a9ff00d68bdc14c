-- ===== src/Shell/Parsing.antt =====
-- How kernel/shell.c takes a line apart: the spaces, the word, and what stands behind it.
use ne_xs_operate_system.Base.{
  ℕ, zero, suc, ◌≤◌, ◌<◌, ◌≡◌, ◌≢◌, refl, ap, ◌∙◌, false, some, [], ◌∷◌, ◌++◌, arith, ◌==◌, length,
  length-append, replicate, List, Bool,
}
use ne_xs_operate_system.Shell.{skip_spaces, split_name, commands, dispatch, shell_execute}

-- A word: no space in it.
abbrev pub IsWord : List ℕ → Type 0
IsWord [] = ◌≡◌ {A = List ℕ} [] []
IsWord (c ∷ cs) = (c ≢ 32) × IsWord cs

pub skip_spaces-spaces : (n : ℕ) (l : List ℕ) → skip_spaces (replicate n 32 ++ l) ≡ skip_spaces l
unfolding skip_spaces
skip_spaces-spaces zero l = refl
skip_spaces-spaces (suc n) l = skip_spaces-spaces n l

skip_spaces-word : (w l : List ℕ) → IsWord w → 0 < length w → skip_spaces (w ++ l) ≡ w ++ l
unfolding skip_spaces
skip_spaces-word [] l p q = absurd (omega arith)
skip_spaces-word (c ∷ w) l (other, p) q =
    let not_space : (c == 32) ≡ false = ground (arith, other) in rw not_space refl

split_name-word :
    (n : ℕ) (w l : List ℕ) → IsWord w → length w ≤ n → split_name n (w ++ 32 ∷ l) ≡ (w, 32 ∷ l)
unfolding split_name
split_name-word zero [] l p q = refl
split_name-word zero (c ∷ w) l p q = absurd (omega arith)
split_name-word (suc n) [] l p q = refl
split_name-word (suc n) (c ∷ w) l (other, p) q =
    let not_space : (c == 32) ≡ false = ground (arith, other) in
    let rest = split_name-word n w l p (omega arith) in rw not_space (ap (λ r. (c ∷ r.0, r.1)) rest)

pub shell_execute-dispatch :
    (n : ℕ) (word args : List ℕ)
    → IsWord word
    → 0 < length word
    → length word ≤ 31
    → shell_execute (replicate n 32 ++ (word ++ 32 ∷ args))
      ≡ some (dispatch commands word (skip_spaces args))
unfolding shell_execute skip_spaces
shell_execute-dispatch n word args p some_left short =
    let line : skip_spaces (replicate n 32 ++ (word ++ 32 ∷ args)) ≡ word ++ 32 ∷ args =
      skip_spaces-spaces n (word ++ 32 ∷ args) ∙ skip_spaces-word word (32 ∷ args) p some_left in
    let there : (length (word ++ 32 ∷ args) == 0) ≡ false =
      ground (arith, length-append word (32 ∷ args)) in
    let parts = split_name-word 31 word args p short in rw (shell_execute, line, there, parts) refl

split_name-alone : (n : ℕ) (w : List ℕ) → IsWord w → length w ≤ n → split_name n (w ++ []) ≡ (w, [])
unfolding split_name
split_name-alone zero [] p q = refl
split_name-alone zero (c ∷ w) p q = absurd (omega arith)
split_name-alone (suc n) [] p q = refl
split_name-alone (suc n) (c ∷ w) (other, p) q =
    let not_space : (c == 32) ≡ false = ground (arith, other) in
    let rest = split_name-alone n w p (omega arith) in rw not_space (ap (λ r. (c ∷ r.0, r.1)) rest)

-- The same for a line that ends with the word.
pub shell_execute-alone :
    (n : ℕ) (word : List ℕ)
    → IsWord word
    → 0 < length word
    → length word ≤ 31
    → shell_execute (replicate n 32 ++ (word ++ [])) ≡ some (dispatch commands word [])
unfolding shell_execute skip_spaces
shell_execute-alone n word p some_left short =
    let line : skip_spaces (replicate n 32 ++ (word ++ [])) ≡ word ++ [] =
      skip_spaces-spaces n (word ++ []) ∙ skip_spaces-word word [] p some_left in
    let there : (length (word ++ []) == 0) ≡ false =
      ground (arith, some_left, length-append word []) in
    let parts = split_name-alone 31 word p short in rw (shell_execute, line, there, parts) refl

abbrev pub starts_with_space : List ℕ → Bool
starts_with_space [] = false
starts_with_space (c ∷ cs) = c == 32

pub skip_spaces-start : (l : List ℕ) → starts_with_space l ≡ false → skip_spaces l ≡ l
unfolding skip_spaces
skip_spaces-start [] e = refl
skip_spaces-start (c ∷ l) e = rw e refl
