-- ===== src/Shell.antt =====
-- kernel/shell.c: the line that is typed, the history, and what a line names. The line is the first
-- `cmd_pos` bytes of `cmd_buffer`; what the commands print, and the colours, are left out, and a
-- line that is executed is a command with its arguments.
pub mod Lines
pub mod Parsing
pub mod Words
pub mod Tests
use ne_xs_operate_system.Base.{
  ℕ, zero, suc, ◌+◌, ◌-◌, ◌%◌, Bool, true, false, not, ◌&&◌, ◌||◌, Option, none, some, List, [],
  ◌∷◌, ◌++◌, leb, ltb, ◌==◌, if◌then◌else◌, length, take, replicate, set,
}
use ne_xs_operate_system.Strings.{same_string}

abbrev pub shell_cmd_max : ℕ
shell_cmd_max = 128

abbrev pub shell_history_size : ℕ
shell_history_size = 16

pub record Shell : Type 0 where
  pub cmd_history : List (List ℕ)
  pub history_index : ℕ
  pub history_count : ℕ
  pub cmd_line : List ℕ

unfoldable pub shell_init : Shell
shell_init = record {
  cmd_history = replicate shell_history_size [];
  history_index = 0;
  history_count = 0;
  cmd_line = [];
}

-- `strncpy` copies at most 127 bytes, so that the last byte of an entry stays zero.
unfoldable pub add_to_history : List ℕ → Shell → Shell
add_to_history cmd s = if length cmd == 0 then s else record s {
  cmd_history = set s.cmd_history s.history_index (take (shell_cmd_max - 1) cmd);
  history_index = (s.history_index + 1) % shell_history_size;
  history_count =
      if ltb s.history_count shell_history_size then s.history_count + 1 else s.history_count;
}

-- The line without its last byte.
abbrev pub drop_last : List ℕ → List ℕ
drop_last [] = []
drop_last (a ∷ []) = []
drop_last (a ∷ b ∷ bs) = a ∷ drop_last (b ∷ bs)

-- One turn of the loop of `shell_run`, with the line that it executes, if any.
unfoldable pub shell_key : ℕ → Shell → Option (List ℕ) × Shell
shell_key c s =
    if c == b'\n'
    then (if ltb 0 (length s.cmd_line)
        then (some s.cmd_line, record (add_to_history s.cmd_line s) { cmd_line = [] })
        else (none, record s { cmd_line = [] }))
    else if c == 8
    then (none, record s { cmd_line = drop_last s.cmd_line })
    else if leb 32 c && ltb c 127 && ltb (length s.cmd_line) (shell_cmd_max - 1)
    then (none, record s { cmd_line = s.cmd_line ++ c ∷ [] })
    else (none, s)

-- The loop, over the characters that come; the lines in their order.
unfoldable pub shell_run : List ℕ → Shell → List (List ℕ) × Shell
shell_run [] s = ([], s)
shell_run (c ∷ cs) s =
    let (line, s') = shell_key c s in
    let (lines, s'') = shell_run cs s' in (elim line [ none ↦ lines | some l ↦ l ∷ lines ], s'')

unfoldable pub skip_spaces : List ℕ → List ℕ
skip_spaces [] = []
skip_spaces (c ∷ cs) = let rest = skip_spaces cs in if c == 32 then rest else c ∷ cs

-- The loop that copies the name, with the room for it, and what stands behind it.
unfoldable pub split_name : ℕ → List ℕ → List ℕ × List ℕ
split_name zero cmd = ([], cmd)
split_name (suc n) [] = ([], [])
split_name (suc n) (c ∷ cs) =
    let (name, rest) = split_name n cs in if c == 32 then ([], c ∷ cs) else (c ∷ name, rest)

pub data Command : Type 0 where
  cmd_help cmd_clear cmd_mem cmd_version cmd_uptime cmd_tasks cmd_pid cmd_reboot cmd_halt cmd_uid :
      Command
  cmd_echo cmd_perms cmd_msg cmd_sleep cmd_priority : List ℕ → Command
  unknown : List ℕ → Command

-- The commands in the order of the tests, each with what it does with the arguments.
unfoldable pub commands : List (List ℕ × (List ℕ → Command))
commands =
    (b'h' ∷ b'e' ∷ b'l' ∷ b'p' ∷ [], λ args. cmd_help)
    ∷ (b'c' ∷ b'l' ∷ b'e' ∷ b'a' ∷ b'r' ∷ [], λ args. cmd_clear)
    ∷ (b'e' ∷ b'c' ∷ b'h' ∷ b'o' ∷ [], cmd_echo)
    ∷ (b'm' ∷ b'e' ∷ b'm' ∷ [], λ args. cmd_mem)
    ∷ (b'p' ∷ b'e' ∷ b'r' ∷ b'm' ∷ b's' ∷ [], cmd_perms)
    ∷ (b'm' ∷ b's' ∷ b'g' ∷ [], cmd_msg)
    ∷ (b'v' ∷ b'e' ∷ b'r' ∷ b's' ∷ b'i' ∷ b'o' ∷ b'n' ∷ [], λ args. cmd_version)
    ∷ (b'u' ∷ b'p' ∷ b't' ∷ b'i' ∷ b'm' ∷ b'e' ∷ [], λ args. cmd_uptime)
    ∷ (b't' ∷ b'a' ∷ b's' ∷ b'k' ∷ b's' ∷ [], λ args. cmd_tasks)
    ∷ (b'p' ∷ b'i' ∷ b'd' ∷ [], λ args. cmd_pid)
    ∷ (b's' ∷ b'l' ∷ b'e' ∷ b'e' ∷ b'p' ∷ [], cmd_sleep)
    ∷ (b'p' ∷ b'r' ∷ b'i' ∷ b'o' ∷ b'r' ∷ b'i' ∷ b't' ∷ b'y' ∷ [], cmd_priority)
    ∷ (b'r' ∷ b'e' ∷ b'b' ∷ b'o' ∷ b'o' ∷ b't' ∷ [], λ args. cmd_reboot)
    ∷ (b'h' ∷ b'a' ∷ b'l' ∷ b't' ∷ [], λ args. cmd_halt)
    ∷ (b'u' ∷ b'i' ∷ b'd' ∷ [], λ args. cmd_uid)
    ∷ []

unfoldable pub dispatch : List (List ℕ × (List ℕ → Command)) → List ℕ → List ℕ → Command
dispatch [] name args = unknown name
dispatch ((word, command) ∷ rest) name args =
    let other = dispatch rest name args in if same_string name word then command args else other

-- `none` for a line of spaces
unfoldable pub shell_execute : List ℕ → Option Command
shell_execute cmd =
    let line = skip_spaces cmd in
    let (name, rest) = split_name 31 line in
    if length line == 0 then none else some (dispatch commands name (skip_spaces rest))
