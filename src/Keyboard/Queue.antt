-- ===== src/Keyboard/Queue.antt =====
-- The ring buffer of keyboard.c against a queue of at most 255 characters.
use ne_xs_operate_system.Base.{
  ℕ, suc, ◌+◌, ◌-◌, ◌%◌, ◌<◌, ◌≡◌, ◌≢◌, refl, bit_and, Bool, true, false, not, ◌||◌, List, [], ◌∷◌,
  ◌++◌, arith, ltb, ◌==◌, if◌then◌else◌, all_below, all_below-lt, length, set, length-set,
}
use ne_xs_operate_system.Base.Ring.{window, length-window, window-set}
use ne_xs_operate_system.Keyboard.Scancodes.{char_of}
use ne_xs_operate_system.Keyboard.{Keyboard, kbd_buffer_size, next_pos, enqueue, keyboard_handler}

pub record IsValid (k : Keyboard) : Type 0 where
  pub sized : length k.kbd_buffer ≡ kbd_buffer_size
  pub read_in : k.kbd_read_pos < kbd_buffer_size
  pub write_in : k.kbd_write_pos < kbd_buffer_size

-- How many characters are stored: one slot always stays free.
abbrev pub stored : Keyboard → ℕ
stored k = (k.kbd_write_pos + kbd_buffer_size - k.kbd_read_pos) % kbd_buffer_size

-- The characters that are stored, oldest first.
abbrev pub contents : Keyboard → List ℕ
contents k = window 0 kbd_buffer_size k.kbd_buffer k.kbd_read_pos (stored k)

-- The specification: a queue of at most 255 characters, which drops what does not fit.
abbrev pub offer : List ℕ → ℕ → List ℕ
offer q c = if c == 0 || length q == 255 then q else q ++ (c ∷ [])

enqueue-IsValid : (k : Keyboard) (c : ℕ) → IsValid k → IsValid (enqueue k c)
unfolding enqueue
enqueue-IsValid k c v = ground (arith, length-set k.kbd_buffer k.kbd_write_pos c)

contents-pushed :
    (k : Keyboard) (c : ℕ)
    → IsValid k
    → next_pos k.kbd_write_pos ≢ k.kbd_read_pos
    → let k' = record k {
      kbd_buffer = set k.kbd_buffer k.kbd_write_pos c;
      kbd_write_pos = next_pos k.kbd_write_pos;
    } in
      contents k' ≡ contents k ++ (c ∷ [])
contents-pushed k c v n =
    let grown : (next_pos k.kbd_write_pos + 256 - k.kbd_read_pos) % 256 ≡ suc (stored k) =
      omega arith in
    rw grown (
      window-set 0 kbd_buffer_size k.kbd_buffer k.kbd_read_pos (stored k) k.kbd_write_pos c
        (omega arith) (omega arith) (omega arith))

length-contents : (k : Keyboard) → length (contents k) ≡ stored k
length-contents k = length-window 0 kbd_buffer_size k.kbd_buffer k.kbd_read_pos (stored k)

enqueue_refines : (k : Keyboard) (c : ℕ) → IsValid k → contents (enqueue k c) ≡ offer (contents k) c
unfolding enqueue
enqueue_refines k c v = ground (arith, length-contents k, contents-pushed k c v)

-- The specification of the driver: what a key does to the queue and the modifiers.
pub record Typing : Type 0 where
  pub queue : List ℕ
  pub shift : Bool
  pub caps : Bool

abbrev pub view : Keyboard → Typing
view k = record { queue = contents k; shift = k.shift_pressed; caps = k.caps_lock }

pub data Key : Type 0 where
  shift_down shift_up caps_down other_modifier release : Key
  typed : ℕ → Key

pub key_of : ℕ → Key
key_of scancode =
    if scancode == 0x2a || scancode == 0x36
    then shift_down
    else if scancode == 0xaa || scancode == 0xb6
    then shift_up
    else if scancode == 0x3a
    then caps_down
    else if (scancode == 0x1d || scancode == 0x9d) || (scancode == 0x38 || scancode == 0xb8)
    then other_modifier
    else if ltb scancode 0x80
    then typed scancode
    else release

abbrev press_key : Typing → Key → Typing
press_key t shift_down = record t { shift = true }
press_key t shift_up = record t { shift = false }
press_key t caps_down = record t { caps = not t.caps }
press_key t other_modifier = t
press_key t release = t
press_key t (typed scancode) = record t { queue = offer t.queue (char_of t.shift t.caps scancode) }

abbrev pub press : Typing → ℕ → Typing
press t scancode = press_key t (key_of scancode)

pub handler-IsValid :
    (k : Keyboard) (scancode : ℕ) → IsValid k → IsValid (keyboard_handler k scancode)
unfolding keyboard_handler
handler-IsValid k scancode v =
    ground (arith, enqueue-IsValid k (char_of k.shift_pressed k.caps_lock scancode) v)

enqueue_keeps :
    (k : Keyboard) (c : ℕ)
    → ((enqueue k c).shift_pressed ≡ k.shift_pressed) × ((enqueue k c).caps_lock ≡ k.caps_lock)
unfolding enqueue
enqueue_keeps k c = ground arith

release_table :
    all_below 256 (λ b. if bit_and b 0x80 == 0 then ltb b 0x80 else not (ltb b 0x80)) ≡ true
unfolding all_below
release_table = refl

-- Bit 7 of a byte.
release_bit : (b : ℕ) → b < 256 → (bit_and b 0x80 == 0) ≡ ltb b 0x80
release_bit b h = ground (arith, all_below-lt 256 _ b release_table h)

-- In a valid state and for a byte, the handler does to the stored characters and the modifiers what the specification says, and
-- keeps the buffer valid.
pub keyboard_handler_refines :
    (k : Keyboard) (scancode : ℕ)
    → IsValid k
    → scancode < 256
    → IsValid (keyboard_handler k scancode)
      × (view (keyboard_handler k scancode) ≡ press (view k) scancode)
unfolding keyboard_handler key_of
keyboard_handler_refines k scancode v h = (
  handler-IsValid k scancode v,
  let c = char_of k.shift_pressed k.caps_lock scancode in
      ground (arith, enqueue_refines k c v, enqueue_keeps k c, release_bit scancode h),
)
