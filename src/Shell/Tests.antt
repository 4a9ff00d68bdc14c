-- ===== src/Shell/Tests.antt =====
-- Runs of kernel/shell.c.
use ne_xs_operate_system.Base.{ℕ, ◌≡◌, refl, some, List, [], ◌∷◌, ◌++◌, replicate}
use ne_xs_operate_system.Strings.{same_string, strcmp}
use ne_xs_operate_system.Shell.{
  shell_init, shell_run, shell_key, add_to_history, shell_execute, dispatch, commands, cmd_echo,
}
use ne_xs_operate_system.Shell.Words.{name_of, built_in, spaced, shell_execute-name_of}
use ne_xs_operate_system.Shell.Lines.{AreLines, IsShell, shell_run-IsShell}

-- A typing error, taken back, and `pid` with the return key, twice.
abbrev typed : List ℕ
typed = b'p' ∷ b'x' ∷ 8 ∷ b'i' ∷ b'd' ∷ b'\n' ∷ b'\n' ∷ []

typed_run : (shell_run typed shell_init).0 ≡ (b'p' ∷ b'i' ∷ b'd' ∷ []) ∷ []
unfolding shell_run shell_key shell_init add_to_history
typed_run = refl

shell_run-IsShell_example :
    AreLines (shell_run typed shell_init).0 × IsShell (shell_run typed shell_init).1
shell_run-IsShell_example = shell_run-IsShell typed

abbrev echo : List ℕ
echo = b'e' ∷ b'c' ∷ b'h' ∷ b'o' ∷ []

shell_execute-name_of_example :
    shell_execute (
      replicate 2 32
      ++ (name_of (cmd_echo (b'h' ∷ b'i' ∷ [])) ++ 32 ∷ (replicate 1 32 ++ b'h' ∷ b'i' ∷ [])))
    ≡ some (cmd_echo (b'h' ∷ b'i' ∷ []))
shell_execute-name_of_example =
    shell_execute-name_of 2 (cmd_echo (b'h' ∷ b'i' ∷ [])) (b'h' ∷ b'i' ∷ [])
      (32 ∷ (replicate 1 32 ++ b'h' ∷ b'i' ∷ [])) (built_in refl) refl (spaced 1 refl)

echo_run : dispatch commands echo (b'h' ∷ b'i' ∷ []) ≡ cmd_echo (b'h' ∷ b'i' ∷ [])
unfolding dispatch commands same_string strcmp
echo_run = refl
