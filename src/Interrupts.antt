-- ===== src/Interrupts.antt =====
-- kernel/handlers.c: the table of interrupt handlers and the common handler of the 16 lines of the
-- interrupt controller. An `int` is its bit pattern, below 2^32; a handler is its address, `none`
-- the null pointer.
pub mod Dispatch
pub mod Tests
use ne_xs_operate_system.Base.{
  ℕ, zero, suc, ◌+◌, ◌-◌, ◌%◌, ◌^◌, ◌<◌, ◌≡◌, bit_and, Bool, true, false, Option, none, some, List,
  [], ◌∷◌, ◌++◌, ltb, leb, ◌==◌, if◌then◌else◌, get_or, set, replicate,
}
use ne_xs_operate_system.Base.Bits.{complement}

-- What the handler does, in order: calls, and bytes written to ports.
pub data Effect : Type 0 where
  timer_tick keyboard_handler : Effect
  call : ℕ → Effect
  outb : ℕ → ℕ → Effect

-- `irq >= 0 && irq < 16`, on the bit pattern
abbrev pub is_line : ℕ → Bool
is_line irq = ltb irq 16

unfoldable pub irq_install_handler : List (Option ℕ) → ℕ → Option ℕ → List (Option ℕ)
irq_install_handler handlers irq handler =
    if is_line irq then set handlers irq handler else handlers

unfoldable pub irq_uninstall_handler : List (Option ℕ) → ℕ → List (Option ℕ)
irq_uninstall_handler handlers irq = if is_line irq then set handlers irq none else handlers

unfoldable pub pic_send_eoi : ℕ → List Effect
pic_send_eoi irq = if leb 8 irq then outb 0xa0 0x20 ∷ outb 0x20 0x20 ∷ [] else outb 0x20 0x20 ∷ []

abbrev pub called : Option ℕ → List Effect
called none = []
called (some f) = call f ∷ []

-- `frame->int_no - 32`, as an `int`
abbrev pub line_of : ℕ → ℕ
line_of int_no = (int_no + (2 ^ 64 - 32)) % 2 ^ 64 % 2 ^ 32

unfoldable pub irq_common_handler : List (Option ℕ) → ℕ → List Effect
irq_common_handler handlers int_no =
    let irq = line_of int_no in
    let work =
      (if irq == 0
        then timer_tick ∷ []
        else if irq == 1
        then keyboard_handler ∷ []
        else called (get_or handlers irq none)) in
    if is_line irq then work ++ pic_send_eoi irq else []

-- The table after `irq_init`, and the mask written to the controller for the mask read from it.
unfoldable pub irq_init : ℕ → List (Option ℕ) × ℕ
irq_init mask = (replicate 16 none, bit_and mask (complement 8 0x03))
