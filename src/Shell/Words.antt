-- ===== src/Shell/Words.antt =====
-- Which command a line of kernel/shell.c runs.
use ne_xs_operate_system.Base.{
  ℕ, ◌≤◌, ◌<◌, ◌≡◌, ◌≢◌, refl, ap, ◌∙◌, false, some, [], ◌∷◌, ◌++◌, arith, ◌==◌, length, replicate,
  List, Bool, true, ◌&&◌, not, ltb, leb, Bool-cases, inl, inr, sym,
}
use ne_xs_operate_system.Strings.{IsString, ends, byte, same_string, strcmp, same_string_iff}
use ne_xs_operate_system.Shell.{
  Command, skip_spaces, commands, dispatch, shell_execute, unknown, cmd_help, cmd_clear, cmd_echo,
  cmd_mem, cmd_perms, cmd_msg, cmd_version, cmd_uptime, cmd_tasks, cmd_pid, cmd_sleep, cmd_priority,
  cmd_reboot, cmd_halt, cmd_uid,
}
use ne_xs_operate_system.Shell.Parsing.{
  IsWord, starts_with_space, skip_spaces-start, skip_spaces-spaces, shell_execute-dispatch,
  shell_execute-alone,
}

-- The word that a user types for a command.
unfoldable pub name_of : Command → List ℕ
name_of cmd_help = b'h' ∷ b'e' ∷ b'l' ∷ b'p' ∷ []
name_of cmd_clear = b'c' ∷ b'l' ∷ b'e' ∷ b'a' ∷ b'r' ∷ []
name_of (cmd_echo args) = b'e' ∷ b'c' ∷ b'h' ∷ b'o' ∷ []
name_of cmd_mem = b'm' ∷ b'e' ∷ b'm' ∷ []
name_of (cmd_perms args) = b'p' ∷ b'e' ∷ b'r' ∷ b'm' ∷ b's' ∷ []
name_of (cmd_msg args) = b'm' ∷ b's' ∷ b'g' ∷ []
name_of cmd_version = b'v' ∷ b'e' ∷ b'r' ∷ b's' ∷ b'i' ∷ b'o' ∷ b'n' ∷ []
name_of cmd_uptime = b'u' ∷ b'p' ∷ b't' ∷ b'i' ∷ b'm' ∷ b'e' ∷ []
name_of cmd_tasks = b't' ∷ b'a' ∷ b's' ∷ b'k' ∷ b's' ∷ []
name_of cmd_pid = b'p' ∷ b'i' ∷ b'd' ∷ []
name_of (cmd_sleep args) = b's' ∷ b'l' ∷ b'e' ∷ b'e' ∷ b'p' ∷ []
name_of (cmd_priority args) = b'p' ∷ b'r' ∷ b'i' ∷ b'o' ∷ b'r' ∷ b'i' ∷ b't' ∷ b'y' ∷ []
name_of cmd_reboot = b'r' ∷ b'e' ∷ b'b' ∷ b'o' ∷ b'o' ∷ b't' ∷ []
name_of cmd_halt = b'h' ∷ b'a' ∷ b'l' ∷ b't' ∷ []
name_of cmd_uid = b'u' ∷ b'i' ∷ b'd' ∷ []
name_of (unknown word) = word

-- The arguments are those of the command, where it has any.
abbrev pub IsFor : List ℕ → Command → Type 0
IsFor args (cmd_echo words) = words ≡ args
IsFor args (cmd_perms words) = words ≡ args
IsFor args (cmd_msg words) = words ≡ args
IsFor args (cmd_sleep words) = words ≡ args
IsFor args (cmd_priority words) = words ≡ args
IsFor args _ = ◌≡◌ {A = List ℕ} [] []

-- One of the commands of the shell.
abbrev pub is_built_in : Command → Bool
is_built_in (unknown word) = false
is_built_in _ = true

-- A command of the shell, or a word of 1 to 31 characters that is the name of none.
pub data IsNamed : Command → Type 0 where
  built_in : {c : Command} → is_built_in c ≡ true → IsNamed c
  no_command :
      {word : List ℕ}
      → IsWord word
      → IsString word
      → 0 < length word
      → length word ≤ 31
      → ((c : Command) → is_built_in c ≡ true → word ≢ name_of c)
      → IsNamed (unknown word)

-- `IsWord` and `IsString`, and at most 31 characters, as a test.
abbrev no_space : List ℕ → Bool
no_space [] = true
no_space (c ∷ cs) = not (c == 32) && not (c == 0) && no_space cs

no_space-IsWord : (w : List ℕ) → no_space w ≡ true → IsWord w × IsString w
no_space-IsWord [] e = (refl, ends)
no_space-IsWord (c ∷ w) e =
    let (word, string) = no_space-IsWord w (ground (arith, e)) in
    ((ground (arith, e), word), byte (ground (arith, e)) string)

abbrev is_short : List ℕ → Bool
is_short w = no_space w && ltb 0 (length w) && leb (length w) 31

name_of-is_short : (c : Command) → is_built_in c ≡ true → is_short (name_of c) ≡ true
unfolding name_of
name_of-is_short cmd_help e = refl
name_of-is_short cmd_clear e = refl
name_of-is_short (cmd_echo args) e = refl
name_of-is_short cmd_mem e = refl
name_of-is_short (cmd_perms args) e = refl
name_of-is_short (cmd_msg args) e = refl
name_of-is_short cmd_version e = refl
name_of-is_short cmd_uptime e = refl
name_of-is_short cmd_tasks e = refl
name_of-is_short cmd_pid e = refl
name_of-is_short (cmd_sleep args) e = refl
name_of-is_short (cmd_priority args) e = refl
name_of-is_short cmd_reboot e = refl
name_of-is_short cmd_halt e = refl
name_of-is_short cmd_uid e = refl
name_of-is_short (unknown word) e = absurd (ground (arith, e))

dispatch-name_of :
    (c : Command) (args : List ℕ)
    → is_built_in c ≡ true
    → IsFor args c
    → dispatch commands (name_of c) args ≡ c
unfolding name_of dispatch commands same_string strcmp
dispatch-name_of cmd_help args e f = refl
dispatch-name_of cmd_clear args e f = refl
dispatch-name_of (cmd_echo words) args e f = ap cmd_echo (sym f)
dispatch-name_of cmd_mem args e f = refl
dispatch-name_of (cmd_perms words) args e f = ap cmd_perms (sym f)
dispatch-name_of (cmd_msg words) args e f = ap cmd_msg (sym f)
dispatch-name_of cmd_version args e f = refl
dispatch-name_of cmd_uptime args e f = refl
dispatch-name_of cmd_tasks args e f = refl
dispatch-name_of cmd_pid args e f = refl
dispatch-name_of (cmd_sleep words) args e f = ap cmd_sleep (sym f)
dispatch-name_of (cmd_priority words) args e f = ap cmd_priority (sym f)
dispatch-name_of cmd_reboot args e f = refl
dispatch-name_of cmd_halt args e f = refl
dispatch-name_of cmd_uid args e f = refl
dispatch-name_of (unknown word) args e f = absurd (ground (arith, e))

-- The word is not the name of the command.
other_word :
    (word : List ℕ) (c : Command)
    → IsString word
    → is_built_in c ≡ true
    → word ≢ name_of c
    → same_string word (name_of c) ≡ false
other_word word c p e other = elim (Bool-cases (same_string word (name_of c))) [
  | inl same ↦
      let (_, q) = no_space-IsWord (name_of c) (ground (arith, name_of-is_short c e)) in
      absurd (other ((same_string_iff word (name_of c) p q).0 same))
  | inr differs ↦ differs
]

dispatch-unknown :
    (word args : List ℕ)
    → IsString word
    → ((c : Command) → is_built_in c ≡ true → word ≢ name_of c)
    → dispatch commands word args ≡ unknown word
unfolding dispatch commands name_of
dispatch-unknown word args p other =
    let no : (c : Command) → is_built_in c ≡ true → same_string word (name_of c) ≡ false =
      λ c e. other_word word c p e (other c e) in
    rw
      (
        no cmd_help refl,
        no cmd_clear refl,
        no (cmd_echo []) refl,
        no cmd_mem refl,
        no (cmd_perms []) refl,
        no (cmd_msg []) refl,
        no cmd_version refl,
        no cmd_uptime refl,
        no cmd_tasks refl,
        no cmd_pid refl,
        no (cmd_sleep []) refl,
        no (cmd_priority []) refl,
        no cmd_reboot refl,
        no cmd_halt refl,
        no cmd_uid refl,
      )
      refl

dispatch-IsNamed :
    (c : Command) (args : List ℕ)
    → IsNamed c
    → IsFor args c
    → dispatch commands (name_of c) args ≡ c
unfolding name_of
dispatch-IsNamed c args (built_in e) f = dispatch-name_of c args e f
dispatch-IsNamed (unknown word) args (no_command w p some_left short other) f =
    dispatch-unknown word args p other

name_of-IsWord :
    (c : Command)
    → IsNamed c
    → IsWord (name_of c) × (0 < length (name_of c)) × (length (name_of c) ≤ 31)
unfolding name_of
name_of-IsWord c (built_in e) =
    let s = name_of-is_short c e in
    ((no_space-IsWord (name_of c) (ground (arith, s))).0, ground (arith, s), ground (arith, s))
name_of-IsWord (unknown word) (no_command w p some_left short other) = (w, some_left, short)

-- What stands behind the name of a command: nothing, or spaces and the arguments.
pub data IsRest (args : List ℕ) : List ℕ → Type 0 where
  alone : args ≡ [] → IsRest args []
  spaced : (k : ℕ) → starts_with_space args ≡ false → IsRest args (32 ∷ (replicate k 32 ++ args))

-- A line of any spaces and the name of a command, at the end of the line or before one or more
-- spaces and arguments that do not start with a space, runs that command with these arguments, for
-- each of the 15 commands of the shell; and with a word of 1 to 31 characters that names none of
-- them it is answered as an unknown command of that name.
pub shell_execute-name_of :
    (n : ℕ) (c : Command) (args rest : List ℕ)
    → IsNamed c
    → IsFor args c
    → IsRest args rest
    → shell_execute (replicate n 32 ++ (name_of c ++ rest)) ≡ some c
unfolding skip_spaces
shell_execute-name_of n c args _ named f (alone e) =
    let (word, some_left, short) = name_of-IsWord c named in
    shell_execute-alone n (name_of c) word some_left short
    ∙ ap some (ap (dispatch commands (name_of c)) (sym e) ∙ dispatch-IsNamed c args named f)
shell_execute-name_of n c args _ named f (spaced k start) =
    let (word, some_left, short) = name_of-IsWord c named in
    let spaces = skip_spaces-spaces k args ∙ skip_spaces-start args start in
    shell_execute-dispatch n (name_of c) (replicate k 32 ++ args) word some_left short
    ∙ ap some (ap (dispatch commands (name_of c)) spaces ∙ dispatch-IsNamed c args named f)
