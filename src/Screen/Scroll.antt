-- ===== src/Screen/Scroll.antt =====
-- `vga_scroll` of kernel/vga.c moves every line up by one.
use ne_xs_operate_system.Base.{
  ℕ, zero, suc, ◌+◌, ◌-◌, ◌*◌, ◌≡◌, bit_or, ◌&&◌, arith, ltb, leb, if◌then◌else◌,
}
use ne_xs_operate_system.Screen.{
  vga_width, vga_height, Screen, put_cell, fill_cells, copy_four, copy_cells, vga_scroll,
}

pub fill_cells_lem :
    (n i v : ℕ) (cells : ℕ → ℕ) (a : ℕ)
    → fill_cells n i v cells a ≡ (if leb i a && ltb a (i + n) then v else cells a)
unfolding fill_cells
fill_cells_lem zero i v cells a = ground arith
fill_cells_lem (suc n) i v cells a =
    ground (arith, fill_cells_lem n (i + 1) v (put_cell cells i v) a)

copy_cells_lem :
    (n i : ℕ) (cells : ℕ → ℕ) (a : ℕ)
    → copy_cells n i cells a
      ≡ (if leb (4 * i) a && ltb a (4 * i + 4 * n) then cells (vga_width + a) else cells a)
unfolding copy_cells
copy_cells_lem zero i cells a = ground arith
copy_cells_lem (suc n) i cells a = ground (arith, copy_cells_lem n (i + 1) (copy_four cells i) a)

-- The screen after `vga_scroll`, at each cell of memory: the lines are moved up by one, the last is
-- blank, and no cell behind the screen changes.
pub vga_scroll_lem :
    (s : Screen) (a : ℕ)
    → (vga_scroll s).vga_buffer a ≡ (
        if ltb a (vga_width * (vga_height - 1))
        then s.vga_buffer (vga_width + a)
        else if ltb a (vga_width * vga_height)
        then bit_or b' ' (s.current_color * 256)
        else s.vga_buffer a)
unfolding vga_scroll
vga_scroll_lem s a =
    let blank = bit_or b' ' (s.current_color * 256) in
    let moved = copy_cells 480 0 s.vga_buffer in
    ground (arith, fill_cells_lem 80 1920 blank moved a, copy_cells_lem 480 0 s.vga_buffer a)
