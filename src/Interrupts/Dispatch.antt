-- ===== src/Interrupts/Dispatch.antt =====
-- Which handler an interrupt reaches in kernel/handlers.c.
use native.Mathlib.Decide.{ℕ_discrete}
use ne_xs_operate_system.Base.{
  ℕ, zero, suc, ◌+◌, ◌≤◌, ◌<◌, ◌≡◌, ◌⊎◌, refl, sym, ap, ◌∙◌, true, false, Option, none, some, List,
  [], ◌∷◌, ◌++◌, arith, ltb, ◌==◌, if◌then◌else◌, length, get_or, set, get_or-set_self,
  get_or-set_ne, Bool-cases, inl, inr, leb,
}
use ne_xs_operate_system.Interrupts.{
  Effect, timer_tick, keyboard_handler, call, outb, called, irq_install_handler, pic_send_eoi,
  line_of, irq_common_handler,
}

-- The work of line `k` before the end of the interrupt is signalled.
pub work_of : ℕ → Option ℕ → List Effect
work_of zero handler = timer_tick ∷ []
work_of (suc zero) handler = keyboard_handler ∷ []
work_of (suc (suc k)) none = []
work_of (suc (suc k)) (some f) = call f ∷ []

work_of-called : (k : ℕ) (handler : Option ℕ) → called handler ≡ work_of (suc (suc k)) handler
unfolding work_of
work_of-called k none = refl
work_of-called k (some f) = refl

line_of-line : (k : ℕ) → k < 16 → line_of (k + 32) ≡ k
line_of-line k h = grind arith

handler-line :
    (handlers : List (Option ℕ)) (k : ℕ)
    → k < 16
    → irq_common_handler handlers (k + 32) ≡ work_of k (get_or handlers k none) ++ pic_send_eoi k
unfolding irq_common_handler work_of
handler-line handlers zero h = refl
handler-line handlers (suc zero) h = refl
handler-line handlers (suc (suc k)) h =
    let n = suc (suc k) in
    let timer : (n == 0) ≡ false = ground arith in
    let keys : (n == 1) ≡ false = ground arith in
    let line : ltb n 16 ≡ true = ground arith in
    rw (irq_common_handler, line_of-line n h, timer, keys, line)
      (ap (λ w. w ++ pic_send_eoi n) (work_of-called k (get_or handlers n none)))

pic_send_eoi_lem :
    (j : ℕ) → (if ltb j 8 then [] else outb 0xa0 0x20 ∷ []) ++ outb 0x20 0x20 ∷ [] ≡ pic_send_eoi j
unfolding pic_send_eoi
pic_send_eoi_lem j = elim (Bool-cases (ltb j 8)) [
  | inl low ↦ let first : leb 8 j ≡ false = ground (arith, low) in rw (low, first) refl
  | inr high ↦ let second : leb 8 j ≡ true = ground (arith, high) in rw (high, second) refl
]

-- After `irq_install_handler` on one of the 16 lines an interrupt of that line calls the new
-- handler, and of any other line what it called before; but line 0 always runs the timer and line 1
-- the keyboard. The end of the interrupt is signalled last, by 0x20 to port 0x20 of the first
-- controller, and for the lines 8 to 15 by 0x20 to port 0xa0 of the second before that.
pub irq_install_handler_lem :
    (handlers : List (Option ℕ)) (k j f : ℕ)
    → length handlers ≡ 16
    → k < 16
    → j < 16
    → irq_common_handler (irq_install_handler handlers k (some f)) (j + 32)
      ≡ work_of j (if j == k then some f else get_or handlers j none)
        ++ ((if ltb j 8 then [] else outb 0xa0 0x20 ∷ []) ++ outb 0x20 0x20 ∷ [])
unfolding irq_install_handler
irq_install_handler_lem handlers k j f full h q =
    let line : ltb k 16 ≡ true = ground arith in
    elim (ℕ_discrete k j) [
      | yes same ↦
          let here : (j == k) ≡ true = ground (arith, same) in
          let there = get_or-set_self handlers k (some f) none (omega (arith, full, h)) in
          let found : get_or (set handlers k (some f)) j none ≡ some f = rw (sym same) there in
          rw (line, here, pic_send_eoi_lem j)
            (handler-line (set handlers k (some f)) j q
              ∙ ap (λ o. work_of j o ++ pic_send_eoi j) found)
      | no other ↦
          let apart : (j == k) ≡ false = ground (arith, other) in
          let found = get_or-set_ne handlers k j (some f) none other in
          rw (line, apart, pic_send_eoi_lem j)
            (handler-line (set handlers k (some f)) j q
              ∙ ap (λ o. work_of j o ++ pic_send_eoi j) found)
    ]

-- An interrupt below 256 outside the 16 lines has no effect, not even the signal of its end.
pub irq_common_handler-outside :
    (handlers : List (Option ℕ)) (int_no : ℕ)
    → (int_no < 32) ⊎ (48 ≤ int_no)
    → int_no < 256
    → irq_common_handler handlers int_no ≡ []
unfolding irq_common_handler
irq_common_handler-outside handlers int_no out h =
    let off : ltb (line_of int_no) 16 ≡ false = outside int_no out h in rw off refl
  where
    outside : (n : ℕ) → (n < 32) ⊎ (48 ≤ n) → n < 256 → ltb (line_of n) 16 ≡ false
    outside n out h = grind arith
