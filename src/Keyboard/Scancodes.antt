-- ===== src/Keyboard/Scancodes.antt =====
-- The scancode tables of kernel/keyboard.c and the choice of a character.
use ne_xs_operate_system.Base.{
  ℕ, Bool, not, ◌&&◌, ◌||◌, List, ◌∷◌, leb, if◌then◌else◌, get_or, replicate,
}

-- Scancode set 1, US layout. The initialiser names 119 entries; the rest are 0.
abbrev pub scancode_to_ascii : List ℕ
scancode_to_ascii =
    0
    ∷ 0x1b
    ∷ b'1'
    ∷ b'2'
    ∷ b'3'
    ∷ b'4'
    ∷ b'5'
    ∷ b'6'
    ∷ b'7'
    ∷ b'8'
    ∷ b'9'
    ∷ b'0'
    ∷ b'-'
    ∷ b'='
    ∷ 0x08
    ∷ 0x09
    ∷ b'q'
    ∷ b'w'
    ∷ b'e'
    ∷ b'r'
    ∷ b't'
    ∷ b'y'
    ∷ b'u'
    ∷ b'i'
    ∷ b'o'
    ∷ b'p'
    ∷ b'['
    ∷ b']'
    ∷ 0x0a
    ∷ 0
    ∷ b'a'
    ∷ b's'
    ∷ b'd'
    ∷ b'f'
    ∷ b'g'
    ∷ b'h'
    ∷ b'j'
    ∷ b'k'
    ∷ b'l'
    ∷ b';'
    ∷ 0x27
    ∷ b'`'
    ∷ 0
    ∷ 0x5c
    ∷ b'z'
    ∷ b'x'
    ∷ b'c'
    ∷ b'v'
    ∷ b'b'
    ∷ b'n'
    ∷ b'm'
    ∷ b','
    ∷ b'.'
    ∷ b'/'
    ∷ 0
    ∷ b'*'
    ∷ 0
    ∷ 0x20
    ∷ 0
    ∷ 0
    ∷ 0
    ∷ 0
    ∷ 0
    ∷ 0
    ∷ 0
    ∷ 0
    ∷ 0
    ∷ 0
    ∷ 0
    ∷ 0
    ∷ 0
    ∷ replicate 57 0

abbrev pub scancode_to_ascii_shift : List ℕ
scancode_to_ascii_shift =
    0
    ∷ 0x1b
    ∷ b'!'
    ∷ b'@'
    ∷ b'#'
    ∷ b'$'
    ∷ b'%'
    ∷ b'^'
    ∷ b'&'
    ∷ b'*'
    ∷ b'('
    ∷ b')'
    ∷ b'_'
    ∷ b'+'
    ∷ 0x08
    ∷ 0x09
    ∷ b'Q'
    ∷ b'W'
    ∷ b'E'
    ∷ b'R'
    ∷ b'T'
    ∷ b'Y'
    ∷ b'U'
    ∷ b'I'
    ∷ b'O'
    ∷ b'P'
    ∷ b'{'
    ∷ b'}'
    ∷ 0x0a
    ∷ 0
    ∷ b'A'
    ∷ b'S'
    ∷ b'D'
    ∷ b'F'
    ∷ b'G'
    ∷ b'H'
    ∷ b'J'
    ∷ b'K'
    ∷ b'L'
    ∷ b':'
    ∷ b'"'
    ∷ b'~'
    ∷ 0
    ∷ b'|'
    ∷ b'Z'
    ∷ b'X'
    ∷ b'C'
    ∷ b'V'
    ∷ b'B'
    ∷ b'N'
    ∷ b'M'
    ∷ b'<'
    ∷ b'>'
    ∷ b'?'
    ∷ 0
    ∷ b'*'
    ∷ 0
    ∷ 0x20
    ∷ 0
    ∷ 0
    ∷ 0
    ∷ 0
    ∷ 0
    ∷ 0
    ∷ 0
    ∷ 0
    ∷ 0
    ∷ 0
    ∷ 0
    ∷ 0
    ∷ 0
    ∷ replicate 57 0

abbrev plain_char : ℕ → ℕ
plain_char scancode = get_or scancode_to_ascii scancode 0

abbrev shift_char : ℕ → ℕ
shift_char scancode = get_or scancode_to_ascii_shift scancode 0

abbrev pub is_upper : ℕ → Bool
is_upper c = leb b'A' c && leb c b'Z'

-- The character `c` that `keyboard_handler` computes for a scancode below 128; 0 is none.
unfoldable pub char_of : Bool → Bool → ℕ → ℕ
char_of shift caps scancode =
    if shift || caps
    then if caps && not shift && is_upper (shift_char scancode)
      then plain_char scancode
      else shift_char scancode
    else plain_char scancode
