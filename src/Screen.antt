-- ===== src/Screen.antt =====
-- The text screen of kernel/vga.c. A cell is 16 bits, a character and its colours; the ports that
-- move the hardware cursor and the serial line are not modelled. A `char` is its bit pattern.
pub mod Scroll
pub mod Cursor
pub mod Tests
use ne_xs_operate_system.Base.{
  ℕ, zero, suc, ◌+◌, ◌-◌, ◌*◌, ◌/◌, ◌%◌, ◌^◌, bit_or, Bool, true, false, not, ◌&&◌, Option, none,
  some, List, [], ◌∷◌, ltb, leb, ◌==◌, if◌then◌else◌,
}
use ne_xs_operate_system.Numbers.{is_negative, itoa, uitoa}
use ne_xs_operate_system.CString.{text_at}
use ne_xs_operate_system.Memory.{Mem}

abbrev pub vga_width : ℕ
vga_width = 80

abbrev pub vga_height : ℕ
vga_height = 25

pub record Screen : Type 0 where
  pub vga_buffer : ℕ → ℕ
  pub cursor_x : ℕ
  pub cursor_y : ℕ
  pub current_color : ℕ

-- `(uint16_t)c` extends the sign of the character.
unfoldable pub vga_entry : ℕ → ℕ → ℕ
vga_entry c color = bit_or (if leb 128 c then c + 0xFF00 else c) (color * 256)

unfoldable pub vga_color : ℕ → ℕ → ℕ
vga_color fg bg = bit_or fg (bg * 16) % 256

abbrev pub put_cell : (ℕ → ℕ) → ℕ → ℕ → ℕ → ℕ
put_cell cells i v a = if a == i then v else cells a

-- A loop that writes `n` cells from `i` on.
unfoldable pub fill_cells : ℕ → ℕ → ℕ → (ℕ → ℕ) → ℕ → ℕ
fill_cells zero i v cells = cells
fill_cells (suc n) i v cells = fill_cells n (i + 1) v (put_cell cells i v)

unfoldable pub vga_clear : Screen → Screen
vga_clear s =
    let blank = vga_entry b' ' s.current_color in
    record s {
      vga_buffer = fill_cells (vga_width * vga_height) 0 blank s.vga_buffer;
      cursor_x = 0;
      cursor_y = 0;
    }

unfoldable pub vga_set_color : ℕ → ℕ → Screen → Screen
vga_set_color fg bg s = record s { current_color = vga_color fg bg }

-- `dst64[i] = src64[i]`: four cells are read and then written.
abbrev pub copy_four : (ℕ → ℕ) → ℕ → ℕ → ℕ
copy_four cells i a = if leb (4 * i) a && ltb a (4 * i + 4) then cells (vga_width + a) else cells a

unfoldable pub copy_cells : ℕ → ℕ → (ℕ → ℕ) → ℕ → ℕ
copy_cells zero i cells = cells
copy_cells (suc n) i cells = copy_cells n (i + 1) (copy_four cells i)

unfoldable pub vga_scroll : Screen → Screen
vga_scroll s =
    let moved = copy_cells (vga_width * (vga_height - 1) / 4) 0 s.vga_buffer in
    let blank = bit_or b' ' (s.current_color * 256) in
    record s {
      vga_buffer = fill_cells vga_width (vga_width * (vga_height - 1)) blank moved;
      cursor_y = vga_height - 1;
    }

-- A cell at the cursor.
abbrev pub put_here : Screen → ℕ → ℕ → Screen
put_here s x v = record s {
  vga_buffer = put_cell s.vga_buffer (s.cursor_y * vga_width + x) v;
  cursor_x = x;
}

-- The character itself, before the line wraps.
unfoldable pub put_char : ℕ → Screen → Screen
put_char c s =
    let written = put_here s s.cursor_x (vga_entry c s.current_color) in
    let erased = put_here s (s.cursor_x - 1) (vga_entry b' ' s.current_color) in
    if c == 10
    then record s { cursor_x = 0; cursor_y = s.cursor_y + 1 }
    else if c == 13
    then record s { cursor_x = 0 }
    else if c == 9
    then record s { cursor_x = (s.cursor_x + 4) / 4 * 4 }
    else if c == 8
    then if ltb 0 s.cursor_x then erased else s
    else record written { cursor_x = s.cursor_x + 1 }

unfoldable pub wrap_line : Screen → Screen
wrap_line s =
    if leb vga_width s.cursor_x then record s { cursor_x = 0; cursor_y = s.cursor_y + 1 } else s

unfoldable pub vga_putc : ℕ → Screen → Screen
vga_putc c s =
    let s' = wrap_line (put_char c s) in if leb vga_height s'.cursor_y then vga_scroll s' else s'

-- `vga_puts`, for the string's bytes
unfoldable pub vga_puts : List ℕ → Screen → Screen
vga_puts [] s = s
vga_puts (c ∷ cs) s = vga_puts cs (vga_putc c s)

unfoldable pub vga_set_cursor : ℕ → ℕ → Screen → Screen
vga_set_cursor x y s =
    if not (is_negative x) && ltb x vga_width && not (is_negative y) && ltb y vga_height
    then record s { cursor_x = x; cursor_y = y }
    else s

-- `vga_puti` and `vga_putx`, with the memory and the place of `buf`, which has 32 bytes.
unfoldable pub vga_puti : Mem → ℕ → ℕ → Screen → Option Screen
vga_puti m value buf s = elim (itoa m value buf 10) [
  | none ↦ none
  | some m' ↦ elim (text_at 32 m' buf) [ none ↦ none | some digits ↦ some (vga_puts digits s) ]
]

unfoldable pub vga_putx : Mem → ℕ → ℕ → Screen → Option Screen
vga_putx m value buf s = elim (uitoa m value buf 16) [
  | none ↦ none
  | some m' ↦ elim (text_at 32 m' buf) [
    | none ↦ none
    | some digits ↦ some (vga_puts digits (vga_puts (b'0' ∷ b'x' ∷ []) s))
  ]
]
