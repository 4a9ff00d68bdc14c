-- ===== src/Messages/Order.antt =====
-- `msg_send`, `msg_send_ptr` and `msg_receive` of kernel/messages.c against the queues as lists: what is sent is what is received.
use mathlib.Core.Path.{subst}
use ne_xs_operate_system.Base.{
  ℕ, ◌≡◌, ◌≢◌, refl, sym, ap, ◌∙◌, true, false, Option, none, some, List, [], ◌∷◌, arith, ◌≤◌, ◌<◌,
  leb, ltb, ◌==◌, Bool-cases, ==_iff, inl, inr, length, get_or, length-replicate,
}
use ne_xs_operate_system.Permissions.{max_tasks}
use ne_xs_operate_system.Allocator.{Allocator, Laws}
use ne_xs_operate_system.Messages.{
  Message, Ipc, Status, success, failure, Received, got, fresh_message, size_to_slab, slab_size,
  msg_max_size, copy_bytes, pointer_bytes,
}
use ne_xs_operate_system.Messages.Calls.{
  fill_data, fill_pointer, msg_send, msg_send_ptr, msg_receive, copied_out,
}
use ne_xs_operate_system.Messages.Bytes.{
  class_or_0, size_to_slab-fits, size_to_slab-too_large, length-copy_bytes, take-copy_bytes,
}
use ne_xs_operate_system.Messages.Owners.{view, IsOwned}
use ne_xs_operate_system.Messages.Deliver.{Sent, dropped, appended, no_class, deliver_lem}
use ne_xs_operate_system.Messages.Receiving.{
  Taking, no_task_queue, nothing_waits, first, msg_receive_lem,
}

module _ (A : Allocator) where
  open A use {Memory}

  -- The bytes of a message as `msg_send` fills it are the ones that it was given.
  pub copied_out-fill_data :
      (sender receiver kind now slab : ℕ) (src : List ℕ)
      → size_to_slab (length src) ≡ some slab
      → copied_out A (
          fill_data A sender receiver kind
            (some src)
            (length src)
            now
            (fresh_message slab (length src)))
        ≡ some src
  copied_out-fill_data sender receiver kind now slab src e =
      let n = length src in
      let room : length (fresh_message slab n).bytes ≡ slab_size slab =
        length-replicate (slab_size slab) 0 in
      let fits : n ≤ length (fresh_message slab n).bytes =
        omega (arith, size_to_slab-fits n slab e, room) in
      let wide : leb n (length (copy_bytes n src (fresh_message slab n).bytes)) ≡ true =
        ground (arith, fits, length-copy_bytes n src (fresh_message slab n).bytes) in
      rw wide (ap some (take-copy_bytes src (fresh_message slab n).bytes fits))

  -- A message of `msg_send_ptr` has 16 bytes of room, whatever the size it is given.
  copied_out-fill_pointer :
      (sender receiver ptr size now : ℕ)
      → 16 < size
      → copied_out A (fill_pointer A sender receiver ptr size now (fresh_message 0 8)) ≡ none
  copied_out-fill_pointer sender receiver ptr size now large =
      let bytes = (fill_pointer A sender receiver ptr size now (fresh_message 0 8)).bytes in
      let room : length bytes ≡ 16 =
        length-copy_bytes 8 (pointer_bytes 8 ptr) (fresh_message 0 8).bytes in
      let past : leb size (length bytes) ≡ false = ground (arith, large, room) in rw past refl

module _ (A : Allocator) (laws : Laws A) where
  open A use {Memory}

  -- Over an allocator that fulfils `Laws` and in a state that satisfies `IsOwned`:
  -- for a receiver other than 0, `msg_send` leaves every queue as it is, and fails for one of the
  -- reasons listed, or puts the message with the given fields behind those that wait.
  pub msg_send_lem :
      (sender receiver kind : ℕ) (bytes : Option (List ℕ)) (size now : ℕ) (s : Ipc Memory)
      → receiver ≢ 0
      → IsOwned A laws s
      → Sent A laws receiver size
          (fill_data A sender receiver kind bytes size now)
          s
          (msg_send A sender receiver kind bytes size now s)
  unfolding msg_send
  msg_send_lem sender receiver kind bytes size now s other o =
      let one : (receiver == 0) ≡ false = ground (arith, other) in
      elim (Bool-cases (ltb msg_max_size size)) [
        | inl large ↦
            rw (msg_send, large)
              (dropped s o (λ i. refl)
                (no_class (size_to_slab-too_large size (ground (arith, large)))) (λ j other. refl))
        | inr small ↦ rw (msg_send, small, one) (deliver_lem A laws receiver size _ s o)
      ]

  -- `msg_receive` copies this message out, with these bytes.
  pub data Hands (m : Message) (bytes : Option (List ℕ)) : Received Memory → Type 0 where
    hands : (s : Ipc Memory) → Hands m bytes (got m bytes s)

  -- The class of a message that was sent, and that it is the one that the receiver has next.
  data Next (r size : ℕ) (fill : Message → Message) : Received Memory → Type 0 where
    next :
        (slab : ℕ) (c : Received Memory)
        → size_to_slab size ≡ some slab
        → Hands (fill (fresh_message slab size)) (copied_out A (fill (fresh_message slab size))) c
        → Next r size fill c

  Hands-first :
      (m : Message) (r : ℕ) (s : Ipc Memory) (c : Received Memory)
      → r < max_tasks
      → view s r ≡ m ∷ []
      → Taking A laws r s c
      → Hands m (copied_out A m) c
  Hands-first m r s c inside e (no_task_queue s' o views (inl outside)) =
      absurd (omega (arith, inside, outside))
  Hands-first m r s c inside e (no_task_queue s' o views (inr none_there)) =
      absurd (omega (arith, ap length (sym none_there ∙ e)))
  Hands-first m r s c inside e (nothing_waits s' o views lt none_there) =
      absurd (omega (arith, ap length (sym none_there ∙ e)))
  Hands-first m r s c inside e (first m' s' o lt views) =
      let front : view s r ≡ m' ∷ view s' r = views r ∙ rw ((==_iff r r).1 refl) refl in
      let same : m' ≡ m = ap (λ ms. get_or ms 0 m) (sym front ∙ e) in
      subst (λ x. Hands x (copied_out A x) (got m' (copied_out A m') s')) same (hands s')

  abbrev sent : Status × Ipc Memory → ℕ
  sent c = elim c.0 [ success ↦ 1 | failure ↦ 0 ]

  Next-Sent :
      (r size : ℕ) (fill : Message → Message) (s s' : Ipc Memory) (c : Status × Ipc Memory)
      → view s r ≡ []
      → c ≡ (success, s')
      → Sent A laws r size fill s c
      → Next r size fill (msg_receive A r s')
  Next-Sent r size fill s s' c e f (dropped s₁ o views why others) =
      absurd (omega (arith, ap sent f))
  Next-Sent r size fill s s' c e f (appended slab s₁ o lt class_ room views others) =
      let m = fill (fresh_message slab size) in
      let there : view s₁ r ≡ m ∷ [] = views r ∙ rw ((==_iff r r).1 refl, e) refl in
      subst (λ t. Next r size fill (msg_receive A r t)) (ap (λ x. x.1) f)
        (next slab _ class_ (Hands-first m r s₁ _ lt there (msg_receive_lem A laws r s₁ o)))

  -- What `msg_receive` gives: these fields and bytes.
  pub data Gives (sender receiver kind now : ℕ) (src : List ℕ) : Received Memory → Type 0 where
    gives :
        (m : Message) (s : Ipc Memory)
        → m.sender_id ≡ sender
        → m.receiver_id ≡ receiver
        → m.kind ≡ kind
        → m.size ≡ length src
        → m.timestamp ≡ now
        → Gives sender receiver kind now src (got m (some src) s)

  Gives-Next :
      (sender receiver kind now : ℕ) (src : List ℕ) (c : Received Memory)
      → Next receiver (length src) (fill_data A sender receiver kind (some src) (length src) now) c
      → Gives sender receiver kind now src c
  Gives-Next sender receiver kind now src c (next slab _ class_ (hands s)) =
      let m =
        fill_data A sender receiver kind (some src) (length src) now
          (fresh_message slab (length src)) in
      subst (λ b. Gives sender receiver kind now src (got m b s))
        (sym (copied_out-fill_data A sender receiver kind now slab src class_))
        (gives m s refl refl refl refl refl)

  -- Over an allocator that fulfils `Laws` and in a state that satisfies `IsOwned`:
  -- if no message waits for a receiver other than 0 and `msg_send` of some bytes to it succeeds, then the
  -- receiver's next `msg_receive` gives exactly these bytes, with the sender, the type, the size and
  -- the time of the call.
  pub msg_receive-msg_send :
      (sender receiver kind now : ℕ) (src : List ℕ) (s s' : Ipc Memory)
      → IsOwned A laws s
      → receiver ≢ 0
      → view s receiver ≡ []
      → msg_send A sender receiver kind (some src) (length src) now s ≡ (success, s')
      → Gives sender receiver kind now src (msg_receive A receiver s')
  msg_receive-msg_send sender receiver kind now src s s' o other none_there e =
      Gives-Next sender receiver kind now src _ (
        Next-Sent receiver (length src) _ s s' _ none_there e
          (msg_send_lem sender receiver kind (some src) (length src) now s other o))

  Hands-Next :
      (sender receiver ptr size now : ℕ) (c : Received Memory)
      → 16 < size
      → Next receiver 8 (fill_pointer A sender receiver ptr size now) c
      → Hands (fill_pointer A sender receiver ptr size now (fresh_message 0 8)) none c
  unfolding size_to_slab
  Hands-Next sender receiver ptr size now c large (next slab _ class_ h) =
      let fill = fill_pointer A sender receiver ptr size now in
      let zeroth : slab ≡ 0 = ap class_or_0 (sym class_) in
      let h' =
        subst (λ n. Hands (fill (fresh_message n 8)) (copied_out A (fill (fresh_message n 8))) c)
          zeroth h in
      subst (λ b. Hands (fill (fresh_message 0 8)) b c)
        (copied_out-fill_pointer A sender receiver ptr size now large) h'

  -- Over an allocator that fulfils `Laws` and in a state that satisfies `IsOwned`:
  -- if no message waits for the receiver and `msg_send_ptr` with a size above 16 succeeds, then the
  -- receiver's next `msg_receive` reads past the block of the message: `size` is stored as it was
  -- given, while the block has 16 bytes of room.
  pub msg_receive-msg_send_ptr :
      (sender receiver ptr size now : ℕ) (s s' : Ipc Memory)
      → IsOwned A laws s
      → 16 < size
      → view s receiver ≡ []
      → msg_send_ptr A sender receiver ptr size now s ≡ (success, s')
      → Hands
          (fill_pointer A sender receiver ptr size now (fresh_message 0 8))
          none
          (msg_receive A receiver s')
  unfolding msg_send_ptr
  msg_receive-msg_send_ptr sender receiver ptr size now s s' o large none_there e =
      Hands-Next sender receiver ptr size now _ large
        (Next-Sent receiver 8 _ s s' _ none_there e (deliver_lem A laws receiver 8 _ s o))
