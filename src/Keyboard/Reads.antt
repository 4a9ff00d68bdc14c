-- ===== src/Keyboard/Reads.antt =====
-- Taking characters out: polls and the blocking `keyboard_getchar`, with interrupts in between.
use ne_xs_operate_system.Base.{
  ℕ, suc, ◌+◌, ◌%◌, ◌<◌, ◌≡◌, ◌⊎◌, refl, ap, inl, inr, ◌∙◌, true, false, Option, none, some, List,
  [], ◌∷◌, ◌++◌, arith, if◌then◌else◌, Bool-cases, get_or,
}
use mathlib.Core.Path.{ap₂}
use mathlib.Core.List.{foldl}
use ne_xs_operate_system.Base.Ring.{window, window-mod, window-zero, window-suc}
use ne_xs_operate_system.Keyboard.{
  Keyboard, kbd_buffer_size, next_pos, keyboard_handler, keyboard_available, char, waits,
  keyboard_getchar,
}
use ne_xs_operate_system.Keyboard.Queue.{
  IsValid, stored, contents, Typing, view, press, handler-IsValid, keyboard_handler_refines,
}

-- A poll, as `sys_read` makes it: a character if one is available.
abbrev pub poll : Keyboard → Option ℕ × Keyboard
poll k =
    if keyboard_available k
    then elim (keyboard_getchar k []) [ char c k' _ ↦ (some c, k') | _ ↦ (none, k) ]
    else (none, k)

abbrev pub poll_spec : Typing → Option ℕ × Typing
poll_spec t = elim t.queue [ [] ↦ (none, t) | c ∷ q ↦ (some c, record t { queue = q }) ]

-- `keyboard_getchar` on a buffer that is not empty.
getchar_now :
    (k : Keyboard) (pending : List ℕ)
    → keyboard_available k ≡ true
    → keyboard_getchar k pending
      ≡ char
          (get_or k.kbd_buffer k.kbd_read_pos 0)
          (record k { kbd_read_pos = next_pos k.kbd_read_pos })
          pending
unfolding keyboard_getchar
getchar_now k [] a = ground arith
getchar_now k (s ∷ pending) a = ground arith

contents-taken :
    (k : Keyboard)
    → IsValid k
    → keyboard_available k ≡ true
    → contents k
      ≡ get_or k.kbd_buffer k.kbd_read_pos 0
        ∷ contents (record k { kbd_read_pos = next_pos k.kbd_read_pos })
unfolding keyboard_available
contents-taken k v a =
    let k' : Keyboard = record k { kbd_read_pos = next_pos k.kbd_read_pos } in
    let fewer : stored k ≡ suc (stored k') = ground arith in
    let slot : k.kbd_read_pos % kbd_buffer_size ≡ k.kbd_read_pos = omega arith in
    ap (window 0 kbd_buffer_size k.kbd_buffer k.kbd_read_pos) fewer
    ∙ window-suc 0 kbd_buffer_size k.kbd_buffer k.kbd_read_pos (stored k')
    ∙ ap₂ (λ i w. get_or k.kbd_buffer i 0 ∷ w) slot
        (window-mod 0 kbd_buffer_size k.kbd_buffer (k.kbd_read_pos + 1) k'.kbd_read_pos (stored k')
          (omega arith))

contents-empty : (k : Keyboard) → IsValid k → keyboard_available k ≡ false → contents k ≡ []
unfolding keyboard_available
contents-empty k v a =
    let none_stored : stored k ≡ 0 = ground arith in
    ap (window 0 kbd_buffer_size k.kbd_buffer k.kbd_read_pos) none_stored
    ∙ window-zero 0 kbd_buffer_size k.kbd_buffer k.kbd_read_pos

taken-IsValid :
    (k : Keyboard) → IsValid k → IsValid (record k { kbd_read_pos = next_pos k.kbd_read_pos })
taken-IsValid k v = omega arith

-- A poll gives the oldest character stored, or none, and leaves the rest.
poll_refines :
    (k : Keyboard)
    → IsValid k
    → IsValid (poll k).1
      × ((poll k).0 ≡ (poll_spec (view k)).0)
      × (view (poll k).1 ≡ (poll_spec (view k)).1)
poll_refines k v = elim (Bool-cases (keyboard_available k)) [
  | inl a ↦ rw (a, getchar_now k [] a, contents-taken k v a) (taken-IsValid k v, refl, refl)
  | inr a ↦ rw (a, contents-empty k v a) (v, refl, refl)
]

-- What reaches the driver: interrupts, each with its scancode, and polls.
pub data Event : Type 0 where
  key : ℕ → Event
  read : Event

abbrev pub run : Keyboard → List Event → List (Option ℕ)
run k [] = []
run k (key scancode ∷ es) = run (keyboard_handler k scancode) es
run k (read ∷ es) = let (c, k') = poll k in c ∷ run k' es

abbrev pub run_spec : Typing → List Event → List (Option ℕ)
run_spec t [] = []
run_spec t (key scancode ∷ es) = run_spec (press t scancode) es
run_spec t (read ∷ es) = let (c, t') = poll_spec t in c ∷ run_spec t' es

abbrev pub AreBytes : List Event → Type 0
AreBytes [] = Unit
AreBytes (key scancode ∷ es) = (scancode < 256) × AreBytes es
AreBytes (read ∷ es) = AreBytes es

-- From a valid state, however interrupts, each with a byte, and polls interleave, the polls give what the specification gives: the
-- characters typed, in order, less those typed while 255 were waiting.
pub run_refines :
    (k : Keyboard) (es : List Event) → IsValid k → AreBytes es → run k es ≡ run_spec (view k) es
run_refines k [] v h = refl
run_refines k (key scancode ∷ es) v h =
    let (v', e) = keyboard_handler_refines k scancode v h.0 in
    run_refines (keyboard_handler k scancode) es v' h.1 ∙ ap (λ t. run_spec t es) e
run_refines k (read ∷ es) v h =
    let (v', c, e) = poll_refines k v in
    ap₂ (λ x xs. x ∷ xs) c (run_refines (poll k).1 es v' h ∙ ap (λ t. run_spec t es) e)

getchar_waiting :
    (k : Keyboard)
    → keyboard_available k ≡ false
    → (keyboard_getchar k [] ≡ waits k)
      × ((s : ℕ) (pending : List ℕ)
          → keyboard_getchar k (s ∷ pending) ≡ keyboard_getchar (keyboard_handler k s) pending)
unfolding keyboard_getchar
getchar_waiting k a = (ground arith, λ s pending. ground arith)

-- `c` is the oldest character stored after the interrupts `arrived`, which are the first of
-- `pending`; the call leaves the rest in the buffer, and the other interrupts to come.
pub record Returned (k : Keyboard) (pending : List ℕ) : Type 0 where
  pub c : ℕ
  pub after : Keyboard
  pub arrived : List ℕ
  pub later : List ℕ
  pub returns : keyboard_getchar k pending ≡ char c after later
  pub in_order : arrived ++ later ≡ pending
  pub valid : IsValid after
  pub oldest : contents (foldl keyboard_handler k arrived) ≡ c ∷ contents after

getchar-Returned :
    (k : Keyboard) (pending : List ℕ) → IsValid k → keyboard_available k ≡ true → Returned k pending
getchar-Returned k pending v a = record {
  c = get_or k.kbd_buffer k.kbd_read_pos 0;
  after = record k { kbd_read_pos = next_pos k.kbd_read_pos };
  arrived = [];
  later = pending;
  returns = getchar_now k pending a;
  in_order = refl;
  valid = taken-IsValid k v;
  oldest = contents-taken k v a;
}

Returned-cons :
    (k : Keyboard) (s : ℕ) (pending : List ℕ)
    → keyboard_available k ≡ false
    → Returned (keyboard_handler k s) pending
    → Returned k (s ∷ pending)
Returned-cons k s pending a r = record {
  c = r.c;
  after = r.after;
  arrived = s ∷ r.arrived;
  later = r.later;
  returns = (getchar_waiting k a).1 s pending ∙ r.returns;
  in_order = ap (λ w. s ∷ w) r.in_order;
  valid = r.valid;
  oldest = r.oldest;
}

-- From a valid state, `keyboard_getchar` either returns the oldest character stored after some of the interrupts
-- to come, leaving the others in order, or waits through all of them and the buffer is still
-- empty; its `ASSERT` never fails.
pub keyboard_getchar_lem :
    (k : Keyboard) (pending : List ℕ)
    → IsValid k
    → Returned k pending
      ⊎ ((keyboard_getchar k pending ≡ waits (foldl keyboard_handler k pending))
          × (contents (foldl keyboard_handler k pending) ≡ []))
keyboard_getchar_lem k [] v = elim (Bool-cases (keyboard_available k)) [
  | inl a ↦ inl (getchar-Returned k [] v a)
  | inr a ↦ inr ((getchar_waiting k a).0, contents-empty k v a)
]
keyboard_getchar_lem k (s ∷ pending) v =
    let rest = keyboard_getchar_lem (keyboard_handler k s) pending (handler-IsValid k s v) in
    elim (Bool-cases (keyboard_available k)) [
      | inl a ↦ inl (getchar-Returned k (s ∷ pending) v a)
      | inr a ↦ elim rest [
        | inl r ↦ inl (Returned-cons k s pending a r)
        | inr (w, e) ↦ inr ((getchar_waiting k a).1 s pending ∙ w, e)
      ]
    ]
