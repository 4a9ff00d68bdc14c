-- ===== src/Screen/Tests.antt =====
-- Runs of `vga_putc`, and the theorems of the screen at a concrete one.
use ne_xs_operate_system.Base.{ℕ, ◌≡◌, refl, List, [], ◌∷◌, arith}
use ne_xs_operate_system.Screen.{
  Screen, vga_entry, put_char, wrap_line, vga_putc, vga_puts, vga_set_cursor,
}
use ne_xs_operate_system.Screen.Cursor.{IsDrawn, vga_puts-IsDrawn}

-- The last cell of the screen, white on black.
abbrev corner : Screen
corner = record { vga_buffer = λ a. a; cursor_x = 79; cursor_y = 24; current_color = 0x0F }

abbrev text : List ℕ
text = b'h' ∷ b'i' ∷ 10 ∷ 9 ∷ 8 ∷ []

cursor_run :
    let s = vga_putc b'x' (vga_set_cursor 78 3 corner) in
    (s.cursor_x ≡ 79) × (s.cursor_y ≡ 3) × (s.vga_buffer 318 ≡ 0x0F78)
unfolding vga_putc put_char wrap_line vga_set_cursor vga_entry
cursor_run = (refl, refl, refl)

vga_puts-IsDrawn_example : IsDrawn corner (vga_puts text corner)
vga_puts-IsDrawn_example =
    vga_puts-IsDrawn text corner (record { column = ground arith; line = ground arith })
