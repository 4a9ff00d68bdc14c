-- ===== src/Shell/Lines.antt =====
-- The lines that kernel/shell.c executes: how long they are, and how one is taken apart.
use mathlib.Core.Path.{subst}
use ne_xs_operate_system.Base.{
  ℕ, ◌-◌, ◌≤◌, ◌<◌, ◌≡◌, refl, sym, ap, ◌&&◌, Option, none, some, List, [], ◌∷◌, ◌++◌, arith, leb,
  ltb, ◌==◌, Bool-cases, ==_iff, inl, inr, length, length-append,
}
use ne_xs_operate_system.Shell.{
  Shell, shell_cmd_max, shell_history_size, shell_key, shell_run, shell_init, add_to_history,
  drop_last,
}

-- Every byte of a line is a printable character, and the line leaves room for its zero.
abbrev pub ArePrintable : List ℕ → Type 0
ArePrintable [] = ◌≡◌ {A = List ℕ} [] []
ArePrintable (c ∷ cs) = (32 ≤ c) × (c < 127) × ArePrintable cs

pub record IsLine (line : List ℕ) : Type 0 where
  pub short : length line < shell_cmd_max
  pub printable : ArePrintable line

abbrev pub AreLines : List (List ℕ) → Type 0
AreLines [] = ◌≡◌ {A = List ℕ} [] []
AreLines (l ∷ ls) = IsLine l × (0 < length l) × AreLines ls

drop_last-ArePrintable : (l : List ℕ) → ArePrintable l → ArePrintable (drop_last l)
drop_last-ArePrintable [] p = p
drop_last-ArePrintable (a ∷ []) p = refl
drop_last-ArePrintable (a ∷ b ∷ bs) (low, high, p) = (low, high, drop_last-ArePrintable (b ∷ bs) p)

length-drop_last : (l : List ℕ) → length (drop_last l) ≤ length l
length-drop_last [] = omega arith
length-drop_last (a ∷ []) = omega arith
length-drop_last (a ∷ b ∷ bs) = omega (arith, length-drop_last (b ∷ bs))

ArePrintable-last :
    (l : List ℕ) (c : ℕ) → ArePrintable l → 32 ≤ c → c < 127 → ArePrintable (l ++ c ∷ [])
ArePrintable-last [] c p low high = (low, high, refl)
ArePrintable-last (a ∷ as_) c (l, h, p) low high = (l, h, ArePrintable-last as_ c p low high)

IsLine-empty : IsLine []
IsLine-empty = record { short = omega arith; printable = refl }

-- What the loop keeps of the shell.
pub record IsShell (s : Shell) : Type 0 where
  pub line : IsLine s.cmd_line
  pub index : s.history_index < shell_history_size
  pub count : s.history_count ≤ shell_history_size

IsShell-add_to_history : (cmd : List ℕ) (s : Shell) → IsShell s → IsShell (add_to_history cmd s)
unfolding add_to_history
IsShell-add_to_history cmd s i = elim (Bool-cases (length cmd == 0)) [
  | inl nothing ↦ rw (add_to_history, nothing) i
  | inr something ↦
      let n = i.index in
      let c = i.count in
      rw (add_to_history, something)
        (record { line = i.line; index = omega arith; count = ground (arith, c) })
]

abbrev line_or_empty : Option (List ℕ) → List ℕ
line_or_empty c = elim c [ none ↦ [] | some l ↦ l ]

-- One key: the line that it executes is a line that was typed.
record Turn (c : Option (List ℕ) × Shell) : Type 0 where
  kept : IsShell c.1
  executed : (l : List ℕ) → c.0 ≡ some l → IsLine l × (0 < length l)

with_line : (s : Shell) (l : List ℕ) → IsShell s → IsLine l → IsShell (record s { cmd_line = l })
with_line s l i p = record { line = p; index = i.index; count = i.count }

Turn-none : (s : Shell) → IsShell s → Turn (none, s)
Turn-none s i = record { kept = i; executed = λ l e. absurd (ground (arith, e)) }

Turn-enter : (s : Shell) → IsShell s → Turn (shell_key b'\n' s)
unfolding shell_key
Turn-enter s i = elim (Bool-cases (ltb 0 (length s.cmd_line))) [
  | inr nothing ↦
      rw (shell_key, nothing)
        (Turn-none (record s { cmd_line = [] }) (with_line s [] i IsLine-empty))
  | inl something ↦
      rw (shell_key, something)
        (record {
          kept =
              with_line (add_to_history s.cmd_line s) [] (IsShell-add_to_history s.cmd_line s i)
                IsLine-empty;
          executed = λ l e.
              subst (λ t. IsLine t × (0 < length t)) (ap (line_or_empty) e)
                (i.line, ground (arith, something));
        })
]

shell_key-Turn : (c : ℕ) (s : Shell) → IsShell s → Turn (shell_key c s)
unfolding shell_key
shell_key-Turn c s i = elim (Bool-cases (c == b'\n')) [
  | inl enter ↦ subst (λ k. Turn (shell_key k s)) (sym ((==_iff c b'\n').0 enter)) (Turn-enter s i)
  | inr other ↦ elim (Bool-cases (c == 8)) [
    | inl back ↦
        rw (shell_key, other, back)
          (Turn-none (record s { cmd_line = drop_last s.cmd_line })
            (with_line s (drop_last s.cmd_line) i (record {
              short = let n = i.line.short in omega (arith, length-drop_last s.cmd_line);
              printable = drop_last-ArePrintable s.cmd_line i.line.printable;
            })))
    | inr typed ↦
        elim (Bool-cases (leb 32 c && ltb c 127 && ltb (length s.cmd_line) (shell_cmd_max - 1))) [
          | inr passed ↦ rw (shell_key, other, typed, passed) (Turn-none s i)
          | inl fits ↦
              rw (shell_key, other, typed, fits)
                (Turn-none (record s { cmd_line = s.cmd_line ++ c ∷ [] })
                  (with_line s (s.cmd_line ++ c ∷ []) i (record {
                    short = ground (arith, fits, length-append s.cmd_line (c ∷ []));
                    printable =
                        ArePrintable-last s.cmd_line c i.line.printable (ground (arith, fits))
                          (ground (arith, fits));
                  })))
        ]
  ]
]

AreLines-front :
    (c : Option (List ℕ)) (ls : List (List ℕ))
    → ((l : List ℕ) → c ≡ some l → IsLine l × (0 < length l))
    → AreLines ls
    → AreLines (elim c [ none ↦ ls | some l ↦ l ∷ ls ])
AreLines-front none ls p q = q
AreLines-front (some l) ls p q = let (line, long) = p l refl in (line, long, q)

shell_run-lines :
    (keys : List ℕ) (s : Shell)
    → IsShell s
    → AreLines (shell_run keys s).0 × IsShell (shell_run keys s).1
unfolding shell_run
shell_run-lines [] s i = (refl, i)
shell_run-lines (c ∷ keys) s i =
    let turn = shell_key-Turn c s i in
    let (lines, kept) = shell_run-lines keys (shell_key c s).1 turn.kept in
    (
      AreLines-front (shell_key c s).0 (shell_run keys (shell_key c s).1).0 turn.executed lines,
      kept,
    )

-- From `shell_init` on, whatever is typed: every line that is executed has 1 to 127 characters, all
-- of them printable, and the line at the end, the place in the history and its count stay in
-- their bounds.
pub shell_run-IsShell :
    (keys : List ℕ) → AreLines (shell_run keys shell_init).0 × IsShell (shell_run keys shell_init).1
unfolding shell_init
shell_run-IsShell keys =
    shell_run-lines keys shell_init
      (record { line = IsLine-empty; index = omega arith; count = omega arith })
