-- ===== src/Screen/Cursor.antt =====
-- The cursor of kernel/vga.c stays on the screen, and nothing is written behind it.
use ne_xs_operate_system.Base.{
  ℕ, ◌-◌, ◌*◌, ◌≤◌, ◌<◌, ◌≡◌, refl, ◌∙◌, inl, inr, List, [], ◌∷◌, arith, leb, Bool-cases,
}
use ne_xs_operate_system.Screen.{
  vga_width, vga_height, Screen, put_char, wrap_line, vga_scroll, vga_putc, vga_puts,
}
use ne_xs_operate_system.Screen.Scroll.{vga_scroll_lem}

pub record IsOnScreen (s : Screen) : Type 0 where
  pub column : s.cursor_x < vga_width
  pub line : s.cursor_y < vga_height

-- What printing may change: cells of the screen.
pub record IsDrawn (s s' : Screen) : Type 0 where
  pub on_screen : IsOnScreen s'
  pub same_color : s'.current_color ≡ s.current_color
  pub behind : (a : ℕ) → vga_width * vga_height ≤ a → s'.vga_buffer a ≡ s.vga_buffer a

-- Before the wrap the cursor may be one column or one line off.
record IsNear (s s' : Screen) : Type 0 where
  column : s'.cursor_x ≤ vga_width
  line : s'.cursor_y ≤ vga_height
  either : s'.cursor_y ≡ vga_height → s'.cursor_x ≡ 0
  same_color : s'.current_color ≡ s.current_color
  behind : (a : ℕ) → vga_width * vga_height ≤ a → s'.vga_buffer a ≡ s.vga_buffer a

put_char-IsNear : (c : ℕ) (s : Screen) → IsOnScreen s → IsNear s (put_char c s)
unfolding put_char
put_char-IsNear c s o =
    let x = o.column in
    let y = o.line in
    record {
      column = ground (arith, x, y);
      line = ground (arith, x, y);
      either = ground (arith, x, y);
      same_color = ground (arith, x, y);
      behind = λ a h. ground (arith, x, y);
    }

wrap_line-IsNear :
    (s s' : Screen) → IsNear s s' → IsNear s (wrap_line s') × ((wrap_line s').cursor_x < vga_width)
unfolding wrap_line
wrap_line-IsNear s s' n =
    let x = n.column in
    let y = n.line in
    let e = n.either in
    (
      record {
        column = ground (arith, x);
        line = ground (arith, x, y, e);
        either = ground (arith, x, y, e);
        same_color = ground (arith, n.same_color);
        behind = λ a h. ground (arith, n.behind a h);
      },
      ground (arith, x),
    )

scrolled_cursor :
    (s : Screen)
    → ((vga_scroll s).cursor_x ≡ s.cursor_x)
      × ((vga_scroll s).cursor_y ≡ vga_height - 1)
      × ((vga_scroll s).current_color ≡ s.current_color)
unfolding vga_scroll
scrolled_cursor s = (refl, refl, refl)

vga_putc-IsDrawn : (c : ℕ) (s : Screen) → IsOnScreen s → IsDrawn s (vga_putc c s)
unfolding vga_putc
vga_putc-IsDrawn c s o =
    let s₁ = wrap_line (put_char c s) in
    let (n, column) = wrap_line-IsNear s (put_char c s) (put_char-IsNear c s o) in
    elim (Bool-cases (leb vga_height s₁.cursor_y)) [
      | inr fits ↦ rw fits (record {
        on_screen = record { column = column; line = ground (arith, fits) };
        same_color = n.same_color;
        behind = n.behind;
      })
      | inl full ↦
          let (x, y, color) = scrolled_cursor s₁ in
          rw full (record {
            on_screen = record { column = ground (arith, x, column); line = ground (arith, y) };
            same_color = color ∙ n.same_color;
            behind = λ a h. ground (arith, vga_scroll_lem s₁ a, n.behind a h);
          })
    ]

-- `vga_puts` of any bytes, control characters among them, with the cursor on the screen: the cursor
-- is on the screen after it, the colour is the same, and no cell behind the screen changes.
pub vga_puts-IsDrawn : (cs : List ℕ) (s : Screen) → IsOnScreen s → IsDrawn s (vga_puts cs s)
unfolding vga_puts
vga_puts-IsDrawn [] s o = record { on_screen = o; same_color = refl; behind = λ a h. refl }
vga_puts-IsDrawn (c ∷ cs) s o =
    let once = vga_putc-IsDrawn c s o in
    let rest = vga_puts-IsDrawn cs (vga_putc c s) once.on_screen in
    record {
      on_screen = rest.on_screen;
      same_color = rest.same_color ∙ once.same_color;
      behind = λ a h. rest.behind a h ∙ once.behind a h;
    }
