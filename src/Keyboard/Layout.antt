-- ===== src/Keyboard/Layout.antt =====
-- Which character a key gives under Shift and Caps Lock.
use ne_xs_operate_system.Base.{
  ℕ, ◌+◌, ◌<◌, ◌≡◌, refl, Bool, true, false, not, ◌&&◌, ◌||◌, arith, ltb, ◌==◌, all_below,
  all_below-lt,
}
use ne_xs_operate_system.Keyboard.Scancodes.{is_upper, char_of}

letters_table :
    all_below 128 (λ s.
      not (is_upper (char_of true false s)) || char_of false false s == char_of true false s + 32)
    ≡ true
unfolding all_below char_of
letters_table = refl

ascii_table :
    all_below 128 (λ s.
      (ltb (char_of false false s) 128 && ltb (char_of true false s) 128)
      && (ltb (char_of false true s) 128 && ltb (char_of true true s) 128))
    ≡ true
unfolding all_below char_of
ascii_table = refl

-- On a letter key Caps Lock changes nothing: without Shift the letter is lower case, with Shift
-- it is upper case, 32 codes below, whether Caps Lock is on or off.
pub caps_lock_letters :
    (s : ℕ)
    → s < 128
    → is_upper (char_of true false s) ≡ true
    → (char_of false true s ≡ char_of false false s)
      × (char_of true true s ≡ char_of true false s)
      × (char_of false false s ≡ char_of true false s + 32)
caps_lock_letters s h u = (
  unfold char_of in ground arith,
  unfold char_of in ground arith,
  ground (arith, all_below-lt 128 _ s letters_table h),
)

-- On any other key Caps Lock acts as Shift does.
pub caps_lock_others :
    (s : ℕ) → is_upper (char_of true false s) ≡ false → char_of false true s ≡ char_of true false s
unfolding char_of
caps_lock_others s u = ground arith

-- Every character that a key gives is ASCII.
pub char_of-lt : (shift caps : Bool) (s : ℕ) → s < 128 → char_of shift caps s < 128
char_of-lt false false s h = ground (arith, all_below-lt 128 _ s ascii_table h)
char_of-lt false true s h = ground (arith, all_below-lt 128 _ s ascii_table h)
char_of-lt true false s h = ground (arith, all_below-lt 128 _ s ascii_table h)
char_of-lt true true s h = ground (arith, all_below-lt 128 _ s ascii_table h)
