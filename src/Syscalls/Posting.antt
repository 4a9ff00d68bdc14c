-- ===== src/Syscalls/Posting.antt =====
-- The calls SYS_MSGSND and SYS_MSGRCV of kernel/syscall.c together, over kernel/messages.c.
use mathlib.Core.Path.{subst}
use ne_xs_operate_system.Base.{
  ℕ, ◌<◌, ◌≡◌, ◌≢◌, refl, sym, ap, ◌∙◌, true, false, Option, none, some, [], ◌∷◌, ◌++◌, arith, leb,
  Bool-cases, inl, inr, length, length-append, ==_iff,
}
use ne_xs_operate_system.Permissions.{max_tasks}
use ne_xs_operate_system.Allocator.{Allocator, Laws}
use ne_xs_operate_system.Heap.{Heap}
use ne_xs_operate_system.Messages.{
  Ipc, Message, MsgQueue, Status, msg_available, pointer_bytes, fresh_message,
}
use ne_xs_operate_system.Messages.Calls.{msg_send}
use ne_xs_operate_system.Messages.Owners.{IsOwned, view, queued}
use ne_xs_operate_system.Messages.Deliver.{Sent, dropped, appended, length-view}
use ne_xs_operate_system.Messages.Order.{msg_send_lem}
use ne_xs_operate_system.Syscalls.{
  System, SystemOutcome, returns, yields, ends, waits_for_key, panics, out_of_fuel, has_right,
  perm_msg_send, perm_msg_receive, minus_one, sys_msgsnd, sys_msgrcv, sys_getpid, status_code,
}

module _ (A : Allocator) (laws : Laws A) (heap : A.Memory → Heap) where
  open A use {Memory}

  -- A message is available where one waits.
  msg_available-view :
      (r : ℕ) (s : Ipc Memory) → r < max_tasks → 0 < length (view s r) → msg_available r s ≡ true
  unfolding msg_available view queued
  msg_available-view r s lt waits = by_queue (s.task_queues r) refl
    where
      inside : leb max_tasks r ≡ false
      inside = ground (arith, lt)

      by_queue : (c : Option MsgQueue) → s.task_queues r ≡ c → msg_available r s ≡ true
      by_queue none e =
          let nothing : length (view s r) ≡ 0 = rw (view, queued, e) refl in
          absurd (omega (arith, nothing, waits))
      by_queue (some q) e =
          rw (msg_available, inside, e) (ground (arith, waits, length-view A laws s r q e))

  abbrev value : SystemOutcome Memory → ℕ
  value c = elim c [
    | returns ret s ↦ ret
    | yields ret s ↦ ret
    | ends s ↦ 0
    | waits_for_key s ↦ 0
    | panics ↦ 0
    | out_of_fuel ↦ 0
  ]

  abbrev after : System Memory → SystemOutcome Memory → System Memory
  after s₀ c = elim c [
    | returns ret s ↦ s
    | yields ret s ↦ s
    | ends s ↦ s
    | waits_for_key s ↦ s
    | panics ↦ s₀
    | out_of_fuel ↦ s₀
  ]

  available-Sent :
      (dest : ℕ) (fill : Message → Message) (s : Ipc Memory) (c : Status × Ipc Memory)
      → Sent A laws dest 8 fill s c
      → status_code c.0 ≡ 0
      → msg_available dest c.1 ≡ true
  available-Sent dest fill s c (dropped s' o views why others) e = absurd (omega (arith, e))
  available-Sent dest fill s c (appended slab s' o lt class_ room views others) e =
      let m = fill (fresh_message slab 8) in
      let there : view s' dest ≡ view s dest ++ m ∷ [] =
        views dest ∙ rw ((==_iff dest dest).1 refl) refl in
      let longer = ap length there ∙ length-append (view s dest) (m ∷ []) in
      msg_available-view dest s' lt (omega (arith, longer))

  -- Over an allocator that fulfils `Laws` and in a state that satisfies `IsOwned`:
  -- if `sys_msgsnd` to a task other than 0 answers 0, then a `sys_msgrcv` for that task that comes
  -- next answers 1, where the current task has the right PERM_MSG_RECEIVE.
  pub sys_msgrcv-sys_msgsnd :
      (dest kind word : ℕ) (s s' : System Memory)
      → IsOwned A laws s.ipc
      → dest ≢ 0
      → has_right perm_msg_receive s ≡ true
      → sys_msgsnd A heap dest kind word s ≡ returns 0 s'
      → sys_msgrcv dest s' ≡ returns 1 s'
  unfolding sys_msgsnd sys_msgrcv has_right
  sys_msgrcv-sys_msgsnd dest kind word s s' o other may e =
      elim (Bool-cases (has_right perm_msg_send s)) [
        | inr missing ↦
            let refused : sys_msgsnd A heap dest kind word s ≡ returns minus_one s =
              rw (sys_msgsnd, missing) refl in
            absurd (omega (arith, ap value (sym refused ∙ e)))
        | inl held ↦
            let c =
              msg_send A (sys_getpid s) dest kind (some (pointer_bytes 8 word)) 8 s.timer.pit_ticks
                s.ipc in
            let done : sys_msgsnd A heap dest kind word s
                ≡ returns (status_code c.0) (record s { ipc = c.1 }) =
              rw (sys_msgsnd, held) refl in
            let same : record s { ipc = c.1 } ≡ s' = ap (after s) (sym done ∙ e) in
            let there : msg_available dest c.1 ≡ true =
              available-Sent dest _ s.ipc c
                (msg_send_lem A laws (sys_getpid s) dest kind (some (pointer_bytes 8 word)) 8
                  s.timer.pit_ticks s.ipc other o)
                (ap value (sym done ∙ e)) in
            subst (λ t. sys_msgrcv dest t ≡ returns 1 t) same (rw (sys_msgrcv, may, there) refl)
      ]
