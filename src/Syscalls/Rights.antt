-- ===== src/Syscalls/Rights.antt =====
-- What a system call of kernel/syscall.c can change of the queues and of the rights of tasks, where
-- its pointers keep off them.
use ne_xs_operate_system.Base.{
  ℕ, ◌+◌, ◌≤◌, ◌<◌, Bool, true, not, ◌&&◌, ◌||◌, leb, ltb, arith, ◌∙◌, ◌%◌, ◌^◌, ◌≡◌, refl, false,
  Option, none, some, List, [], ◌∷◌, ◌==◌, Bool-cases, inl, inr, length,
}
use ne_xs_operate_system.Allocator.{Allocator}
use ne_xs_operate_system.Heap.{Heap, buddy_stats}
use ne_xs_operate_system.Keyboard.{
  Got, char, assert_failed, waits, keyboard_getchar, keyboard_available,
}
use ne_xs_operate_system.Messages.{pointer_bytes}
use ne_xs_operate_system.Syscalls.{
  Layout, poke_bytes, store_size, store_state, store_priority, sys_meminfo, SystemCall, Frame,
  System, call_of, numbers, has_right, perm_msg_send, minus_one, perform, outcome_of,
  syscall_handler, sys_msgsnd, text_at, find_pid, sys_read, sys_write, report, info_from,
  perform_if, read_key, write_text, call_read, call_write, call_getpid, call_exit, call_yield,
  call_sleep, call_msgsnd, call_msgrcv, call_uptime, call_meminfo, call_taskinfo, call_gettime_ns,
  call_getfreq,
}
use ne_xs_operate_system.Syscalls.Keeping.{
  Keeps, Kept, kept_returns, kept_yields, kept_ends, kept_waits, kept_panics, kept_fuel, Keeps-same,
  same-Kept, sys_msgrcv-Kept, yield_if-Kept, sys_sleep-masks, exit-masks,
}

-- The addresses of `n` bytes from a pointer on; none if it is null.
abbrev pub spans : ℕ → ℕ → ℕ → Bool
spans p n a = not (p == 0) && (leb p a && ltb a (p + n))

-- The addresses that a call with these registers may store to.
unfoldable pub may_store : Option SystemCall → Frame → ℕ → Bool
may_store (some call_read) f a = spans f.rsi 1 a
may_store (some call_meminfo) f a = spans f.rdi 8 a || (spans f.rsi 8 a || spans f.rdx 8 a)
may_store (some call_taskinfo) f a = spans f.rsi 4 a || spans f.rdx 1 a
may_store _ f a = false

-- A store to an address outside `protects` changes no queue and no rights.
module _ {M : Type 0} (L : Layout M) (protects : ℕ → Bool)
    (guarded : (s : System M) (a v : ℕ) → protects a ≡ false → Keeps s (L.poke s a v)) where
  Keeps-trans : (s s' s'' : System M) → Keeps s s' → Keeps s' s'' → Keeps s s''
  Keeps-trans s s' s'' k l = record {
    queues = l.queues ∙ k.queues;
    masks = λ i. l.masks i ∙ k.masks i;
  }

  -- None of the bytes at the pointer is protected.
  abbrev IsFree : ℕ → ℕ → Type 0
  IsFree p n = (a : ℕ) → spans p n a ≡ true → protects a ≡ false

  poke_bytes-Keeps :
      (bs : List ℕ) (p : ℕ) (s : System M)
      → ((a : ℕ) → p ≤ a → a < p + length bs → protects a ≡ false)
      → Keeps s (poke_bytes L s p bs)
  poke_bytes-Keeps [] p s free = Keeps-same s s refl refl
  poke_bytes-Keeps (b ∷ bs) p s free =
      let s' = L.poke s p b in
      Keeps-trans s s' (poke_bytes L s' (p + 1) bs)
        (guarded s p b (free p (omega arith) (omega arith)))
        (poke_bytes-Keeps bs (p + 1) s'
          (λ a low high. free a (omega (arith, low)) (omega (arith, high))))

  span-free :
      (p n : ℕ) → (p == 0) ≡ false → IsFree p n → (a : ℕ) → p ≤ a → a < p + n → protects a ≡ false
  span-free p n there free a low high = free a (ground (arith, there, low, high))

  store_size-Keeps : (p v : ℕ) (s : System M) → IsFree p 8 → Keeps s (store_size L p v s)
  store_size-Keeps p v s free = elim (Bool-cases (p == 0)) [
    | inl null ↦ rw null (Keeps-same s s refl refl)
    | inr there ↦ rw there (poke_bytes-Keeps (pointer_bytes 8 v) p s (span-free p 8 there free))
  ]

  store_state-Keeps : (p i : ℕ) (s : System M) → IsFree p 4 → Keeps s (store_state L p i s)
  store_state-Keeps p i s free = elim (Bool-cases (p == 0)) [
    | inl null ↦ rw null (Keeps-same s s refl refl)
    | inr there ↦ rw there (poke_bytes-Keeps (pointer_bytes 4 _) p s (span-free p 4 there free))
  ]

  store_priority-Keeps : (p i : ℕ) (s : System M) → IsFree p 1 → Keeps s (store_priority L p i s)
  store_priority-Keeps p i s free = elim (Bool-cases (p == 0)) [
    | inl null ↦ rw null (Keeps-same s s refl refl)
    | inr there ↦ rw there (guarded s p _ (span-free p 1 there free p (omega arith) (omega arith)))
  ]

  read_key-Kept :
      (buf : ℕ) (s : System M) (g : Got) → protects buf ≡ false → Kept s (read_key L buf s g)
  read_key-Kept buf s (char c k pending) free =
      let s' = record s { keyboard = k } in
      kept_returns 1 _ (Keeps-trans s s' _ (Keeps-same s s' refl refl) (guarded s' buf c free))
  read_key-Kept buf s assert_failed free = kept_panics
  read_key-Kept buf s (waits k) free = kept_waits _ (Keeps-same s _ refl refl)

  sys_read-Kept : (buf : ℕ) (s : System M) → IsFree buf 1 → Kept s (sys_read L buf s)
  sys_read-Kept buf s free = elim (Bool-cases (buf == 0)) [
    | inl null ↦ rw null (same-Kept minus_one s)
    | inr there ↦
        let free' = span-free buf 1 there free buf (omega arith) (omega arith) in
        elim (Bool-cases (keyboard_available s.keyboard)) [
          | inr no_key ↦ rw (there, no_key) (same-Kept 0 s)
          | inl key ↦ rw (there, key) (read_key-Kept buf s (keyboard_getchar s.keyboard []) free')
        ]
  ]

  write_text-Kept : (s : System M) (c : Option (List ℕ)) → Kept s (write_text L s c)
  write_text-Kept s none = kept_fuel
  write_text-Kept s (some bs) = kept_returns 0 _ (Keeps-same s _ refl refl)

  sys_write-Kept : (fuel buf : ℕ) (s : System M) → Kept s (sys_write L fuel buf s)
  sys_write-Kept fuel buf s = elim (Bool-cases (buf == 0)) [
    | inl null ↦ rw null (same-Kept minus_one s)
    | inr there ↦ rw there (write_text-Kept s (text_at fuel (L.peek s) buf))
  ]

  report-Kept :
      (state priority : ℕ) (s : System M) (c : Option ℕ)
      → IsFree state 4
      → IsFree priority 1
      → Kept s (report L state priority s c)
  report-Kept state priority s none free free' = same-Kept minus_one s
  report-Kept state priority s (some i) free free' = kept_returns 0 _ (
      Keeps-trans s (store_state L state i s) _ (store_state-Keeps state i s free)
        (store_priority-Keeps priority i (store_state L state i s) free'))

  info_from-Kept :
      (c : Option ℕ) (pid state priority : ℕ) (s : System M)
      → IsFree state 4
      → IsFree priority 1
      → Kept s (info_from L c pid state priority s)
  info_from-Kept none pid state priority s free free' = same-Kept minus_one s
  info_from-Kept (some c) pid state priority s free free' =
      report-Kept state priority s (find_pid (length s.scheduler.tasks) s.scheduler.tasks c pid)
        free free'

module _ (A : Allocator) (heap : A.Memory → Heap) (L : Layout A.Memory) (protects : ℕ → Bool)
    (guarded : (s : System A.Memory) (a v : ℕ) → protects a ≡ false → Keeps s (L.poke s a v)) where
  open A use {Memory}

  sys_meminfo-Kept :
      (total used free_mem : ℕ) (s : System Memory)
      → ((a : ℕ)
          → (spans total 8 a || (spans used 8 a || spans free_mem 8 a)) ≡ true
          → protects a ≡ false)
      → Kept s (sys_meminfo A heap L total used free_mem s)
  sys_meminfo-Kept total used free_mem s apart =
      let s₁ = store_size L total (buddy_stats (heap s.ipc.heap)).0 s in
      let s₂ = store_size L used (buddy_stats (heap s₁.ipc.heap)).1 s₁ in
      let size = store_size-Keeps L protects guarded in
      kept_returns 0 _ (
        Keeps-trans L protects guarded s s₁ _
          (size total _ s (λ a at. apart a (ground (arith, at))))
          (Keeps-trans L protects guarded s₁ s₂ _
            (size used _ s₁ (λ a at. apart a (ground (arith, at))))
            (size free_mem _ s₂ (λ a at. apart a (ground (arith, at))))))

  abbrev Apart : Option SystemCall → Frame → Type 0
  Apart c f = (a : ℕ) → may_store c f a ≡ true → protects a ≡ false

  perform-Kept :
      (call : SystemCall) (fuel now : ℕ) (f : Frame) (s : System Memory)
      → has_right perm_msg_send s ≡ false
      → Apart (some call) f
      → Kept s (perform A heap L call fuel now f s)
  unfolding perform sys_msgsnd may_store
  perform-Kept call_read fuel now f s e p = sys_read-Kept L protects guarded f.rsi s p
  perform-Kept call_write fuel now f s e p = sys_write-Kept L protects guarded fuel f.rsi s
  perform-Kept call_getpid fuel now f s e p = same-Kept _ s
  perform-Kept call_exit fuel now f s e p =
      kept_ends _ (record { queues = refl; masks = exit-masks s.scheduler })
  perform-Kept call_yield fuel now f s e p = kept_yields 0 s (Keeps-same s s refl refl)
  perform-Kept call_sleep fuel now f s e p =
      yield_if-Kept s.scheduler.current_task s _
        (record { queues = refl; masks = sys_sleep-masks s.scheduler f.rdi s.timer.pit_ticks })
  perform-Kept call_msgsnd fuel now f s e p = rw (sys_msgsnd, e) (same-Kept minus_one s)
  perform-Kept call_msgrcv fuel now f s e p = sys_msgrcv-Kept (f.rdi % 2 ^ 32) s
  perform-Kept call_uptime fuel now f s e p = same-Kept _ s
  perform-Kept call_meminfo fuel now f s e p = sys_meminfo-Kept f.rdi f.rsi f.rdx s p
  perform-Kept call_taskinfo fuel now f s e p =
      info_from-Kept L protects guarded s.scheduler.current_task (f.rdi % 2 ^ 32) f.rsi f.rdx s
        (λ a at. p a (ground (arith, at))) (λ a at. p a (ground (arith, at)))
  perform-Kept call_gettime_ns fuel now f s e p = same-Kept _ s
  perform-Kept call_getfreq fuel now f s e p = same-Kept _ s

  call-Kept :
      (c : Option SystemCall) (fuel now : ℕ) (f : Frame) (s : System Memory)
      → has_right perm_msg_send s ≡ false
      → Apart c f
      → Kept s (perform_if A heap L c fuel now f s)
  call-Kept none fuel now f s e p = same-Kept minus_one s
  call-Kept (some call) fuel now f s e p = perform-Kept call fuel now f s e p

  -- Where the addresses that the call may store to, 1 byte at RSI for SYS_READ, 8 at each of RDI,
  -- RSI and RDX for SYS_MEMINFO, 4 at RSI and 1 at RDX for SYS_TASKINFO, lie outside `protects`, and
  -- a store outside `protects` changes no message queue and no rights: a system call of a task
  -- without the right PERM_MSG_SEND, or without a current task, changes no message queue and the
  -- rights of no task. The handlers do not check where these pointers lie.
  pub syscall_handler-Kept :
      (fuel now : ℕ) (f : Frame) (s : System Memory)
      → has_right perm_msg_send s ≡ false
      → ((a : ℕ) → may_store (call_of numbers f.rax) f a ≡ true → protects a ≡ false)
      → Kept s (syscall_handler A heap L fuel now f s).1
  unfolding syscall_handler outcome_of
  syscall_handler-Kept fuel now f s e apart = call-Kept (call_of numbers f.rax) fuel now f s e apart
