-- ===== src/Messages/Rings.antt =====
-- A message queue of kernel/messages.c as the list of what stands in it.
use native.Mathlib.Nat.{mod-eq_of_lt}
use ne_xs_operate_system.Base.{
  ℕ, suc, ◌+◌, ◌-◌, ◌%◌, ◌≤◌, ◌<◌, ◌≡◌, ◌≢◌, refl, sym, ap, ◌∙◌, List, [], ◌∷◌, ◌++◌, arith, length,
  get_or, set, length-set,
}
use ne_xs_operate_system.Base.Ring.{window, window-mod, window-zero, window-suc, window-set}
use ne_xs_operate_system.Messages.{MsgQueue, msg_queue_size, empty_queue, advance, first_message}

pub record IsRing (q : MsgQueue) : Type 0 where
  pub full_length : length q.messages ≡ msg_queue_size
  pub read_below : q.read_pos < msg_queue_size
  pub count_below : q.count ≤ msg_queue_size
  pub write_at : q.write_pos ≡ (q.read_pos + q.count) % msg_queue_size

-- The addresses in the queue, the oldest first.
unfoldable pub contents : MsgQueue → List ℕ
contents q = window 0 msg_queue_size q.messages q.read_pos q.count

pub IsRing-empty_queue : IsRing empty_queue
IsRing-empty_queue = record {
  full_length = refl;
  read_below = omega arith;
  count_below = omega arith;
  write_at = refl;
}

pub contents-empty_queue : contents empty_queue ≡ []
unfolding contents
contents-empty_queue = window-zero 0 64 empty_queue.messages 0

pub contents-none_left : (q : MsgQueue) → q.count ≡ 0 → contents q ≡ []
unfolding contents
contents-none_left q e =
    ap (window 0 64 q.messages q.read_pos) e ∙ window-zero 0 64 q.messages q.read_pos

-- The queue with one message more.
abbrev pub pushed : MsgQueue → ℕ → MsgQueue
pushed q msg = record q {
  messages = set q.messages q.write_pos msg;
  write_pos = (q.write_pos + 1) % msg_queue_size;
  count = q.count + 1;
}

pub IsRing-pushed :
    (q : MsgQueue) (msg : ℕ) → IsRing q → q.count < msg_queue_size → IsRing (pushed q msg)
IsRing-pushed q msg r room = record {
  full_length = length-set q.messages q.write_pos msg ∙ r.full_length;
  read_below = r.read_below;
  count_below = omega arith;
  write_at = let w = r.write_at in omega arith;
}

pub contents-pushed :
    (q : MsgQueue) (msg : ℕ)
    → IsRing q
    → q.count < msg_queue_size
    → contents (pushed q msg) ≡ contents q ++ msg ∷ []
unfolding contents
contents-pushed q msg r room =
    let more : q.count + 1 ≡ suc q.count = omega arith in
    let full = r.full_length in
    ap (window 0 64 (set q.messages q.write_pos msg) q.read_pos) more
    ∙ window-set 0 64 q.messages q.read_pos q.count q.write_pos msg (sym r.write_at) room
        (omega arith)

pub IsRing-advance : (q : MsgQueue) → IsRing q → q.count ≢ 0 → IsRing (advance q)
IsRing-advance q r some_left = record {
  full_length = r.full_length;
  read_below = omega arith;
  count_below = let c = r.count_below in omega arith;
  write_at = let w = r.write_at in omega arith;
}

pub contents-advance :
    (q : MsgQueue) → IsRing q → q.count ≢ 0 → contents q ≡ first_message q ∷ contents (advance q)
unfolding contents
contents-advance q r some_left =
    let one : q.count ≡ suc (q.count - 1) = omega arith in
    let start : q.read_pos % 64 ≡ q.read_pos = mod-eq_of_lt r.read_below in
    let twice : (q.read_pos + 1) % 64 ≡ (q.read_pos + 1) % 64 % 64 = omega arith in
    ap (window 0 64 q.messages q.read_pos) one
    ∙ window-suc 0 64 q.messages q.read_pos (q.count - 1)
    ∙ ap (λ i. get_or q.messages i 0 ∷ window 0 64 q.messages (q.read_pos + 1) (q.count - 1)) start
    ∙ ap (λ w. first_message q ∷ w)
        (window-mod 0 64 q.messages (q.read_pos + 1) ((q.read_pos + 1) % 64) (q.count - 1) twice)
