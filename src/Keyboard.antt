-- ===== src/Keyboard.antt =====
-- kernel/keyboard.c: the interrupt handler of the PS/2 keyboard, its ring buffer of 256
-- characters, and the functions that take characters out.
pub mod Scancodes
pub mod Queue
pub mod Reads
pub mod Layout
pub mod Tests
use Scancodes.{char_of}
use ne_xs_operate_system.Base.{
  ℕ, ◌+◌, ◌%◌, ◌^◌, ◌≤◌, ◌<◌, ◌≡◌, bit_and, Bool, true, false, not, ◌||◌, Option, none, some, List,
  [], ◌∷◌, ltb, ◌==◌, if◌then◌else◌, get_or, set,
}

abbrev pub kbd_buffer_size : ℕ
kbd_buffer_size = 256

-- The static variables of the file.
pub record Keyboard : Type 0 where
  pub kbd_buffer : List ℕ
  pub kbd_read_pos : ℕ
  pub kbd_write_pos : ℕ
  pub shift_pressed : Bool
  pub ctrl_pressed : Bool
  pub alt_pressed : Bool
  pub caps_lock : Bool

-- `(pos + 1) % KBD_BUFFER_SIZE` on `uint32_t`.
abbrev pub next_pos : ℕ → ℕ
next_pos pos = (pos + 1) % 2 ^ 32 % kbd_buffer_size

-- `if (c) { … }`: a character goes into the buffer unless it is full.
pub enqueue : Keyboard → ℕ → Keyboard
enqueue k c =
    if c == 0 then k else if next_pos k.kbd_write_pos == k.kbd_read_pos then k else record k {
      kbd_buffer = set k.kbd_buffer k.kbd_write_pos c;
      kbd_write_pos = next_pos k.kbd_write_pos;
    }

-- The handler, given the byte that `inb(0x60)` reads.
pub keyboard_handler : Keyboard → ℕ → Keyboard
keyboard_handler k scancode =
    if scancode == 0x2a || scancode == 0x36
    then record k { shift_pressed = true }
    else if scancode == 0xaa || scancode == 0xb6
    then record k { shift_pressed = false }
    else if scancode == 0x1d
    then record k { ctrl_pressed = true }
    else if scancode == 0x9d
    then record k { ctrl_pressed = false }
    else if scancode == 0x38
    then record k { alt_pressed = true }
    else if scancode == 0xb8
    then record k { alt_pressed = false }
    else if scancode == 0x3a
    then record k { caps_lock = not k.caps_lock }
    else if not (bit_and scancode 0x80 == 0)
    then k
    else enqueue k (char_of k.shift_pressed k.caps_lock scancode)

-- Port writes aside: `inb(0x21)` is an argument, the mask written back a result.
pub keyboard_init : Keyboard → ℕ → Keyboard × ℕ
keyboard_init k mask = (
  record k {
    kbd_read_pos = 0;
    kbd_write_pos = 0;
    shift_pressed = false;
    ctrl_pressed = false;
    alt_pressed = false;
    caps_lock = false;
  },
  bit_and mask 0xfd,
)

pub keyboard_available : Keyboard → Bool
keyboard_available k = not (k.kbd_read_pos == k.kbd_write_pos)

pub keyboard_clear : Keyboard → Keyboard
keyboard_clear k = record k { kbd_read_pos = 0; kbd_write_pos = 0 }

-- What `keyboard_getchar` comes to: a character, a failed `ASSERT`, or it still waits when no
-- more interrupts come.
pub data Got : Type 0 where
  char : ℕ → Keyboard → List ℕ → Got
  assert_failed : Got
  waits : Keyboard → Got

take_char : Keyboard → List ℕ → Got
take_char k pending =
    let next = next_pos k.kbd_read_pos in
    if ltb next kbd_buffer_size
    then char (get_or k.kbd_buffer k.kbd_read_pos 0) (record k { kbd_read_pos = next }) pending
    else assert_failed

-- The list holds the scancodes of the interrupts to come, one for each `hlt` that it waits in.
pub keyboard_getchar : Keyboard → List ℕ → Got
unfolding take_char keyboard_available
keyboard_getchar k [] = if keyboard_available k then take_char k [] else waits k
keyboard_getchar k (scancode ∷ pending) =
    let rest = keyboard_getchar (keyboard_handler k scancode) pending in
    if keyboard_available k then take_char k (scancode ∷ pending) else rest
