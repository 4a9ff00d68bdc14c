-- ===== src/Keyboard/Tests.antt =====
-- Runs of keyboard.c, and its theorems at concrete states.
use ne_xs_operate_system.Base.{
  ◌+◌, ◌≡◌, ◌⊎◌, refl, true, false, none, some, List, [], ◌∷◌, arith, replicate,
}
use mathlib.Core.List.{foldl}
use ne_xs_operate_system.Keyboard.Scancodes.{char_of}
use ne_xs_operate_system.Keyboard.{
  Keyboard, keyboard_handler, keyboard_getchar, keyboard_available, enqueue, waits,
}
use ne_xs_operate_system.Keyboard.Queue.{IsValid, contents, view}
use ne_xs_operate_system.Keyboard.Reads.{
  Event, key, read, run, run_spec, run_refines, Returned, keyboard_getchar_lem,
}
use ne_xs_operate_system.Keyboard.Layout.{caps_lock_letters}

-- The variables as the loader leaves them.
abbrev booted : Keyboard
booted = record {
  kbd_buffer = replicate 256 0;
  kbd_read_pos = 0;
  kbd_write_pos = 0;
  shift_pressed = false;
  ctrl_pressed = false;
  alt_pressed = false;
  caps_lock = false;
}

-- h, Shift and i, release of Shift, then two polls, a key and two polls more.
abbrev events : List Event
events = key 0x23 ∷ key 0x2a ∷ key 0x17 ∷ key 0xaa ∷ read ∷ read ∷ key 0x1e ∷ read ∷ read ∷ []

run_typed : run booted events ≡ some b'h' ∷ some b'I' ∷ some b'a' ∷ none ∷ []
unfolding keyboard_handler keyboard_getchar keyboard_available enqueue char_of
run_typed = refl

booted-IsValid : IsValid booted
booted-IsValid = omega arith

run_refines_example : run booted events ≡ run_spec (view booted) events
run_refines_example = run_refines booted events booted-IsValid (omega arith)

keyboard_getchar_lem_example :
    Returned booted (0x2a ∷ 0x17 ∷ 0x1e ∷ [])
    ⊎ ((keyboard_getchar booted (0x2a ∷ 0x17 ∷ 0x1e ∷ [])
          ≡ waits (foldl keyboard_handler booted (0x2a ∷ 0x17 ∷ 0x1e ∷ [])))
        × (contents (foldl keyboard_handler booted (0x2a ∷ 0x17 ∷ 0x1e ∷ [])) ≡ []))
keyboard_getchar_lem_example = keyboard_getchar_lem booted (0x2a ∷ 0x17 ∷ 0x1e ∷ []) booted-IsValid

caps_lock_letters_example :
    (char_of false true 0x1e ≡ char_of false false 0x1e)
    × (char_of true true 0x1e ≡ char_of true false 0x1e)
    × (char_of false false 0x1e ≡ char_of true false 0x1e + 32)
unfolding char_of
caps_lock_letters_example = caps_lock_letters 0x1e (omega arith) refl
