-- ===== src/Timer/Clock.antt =====
-- What the time functions of kernel/timer.c give, against the cycles since the calibration.
use native.Mathlib.Nat.{
  add-mul-div_right, div-div-eq-div-mul, mul-div-mul_right, div-mul-le_self, le-div_iff_mul-le,
  mod-eq_of_lt, mod-lt,
}
use ne_xs_operate_system.Base.{
  ℕ, ◌+◌, ◌-◌, ◌*◌, ◌/◌, ◌%◌, ◌^◌, ◌≤◌, ◌<◌, ◌≡◌, ◌≢◌, refl, sym, ap, ◌∙◌, true, false, Option,
  none, some, List, [], ◌∷◌, arith, zero, suc, get_elem?, ltb, ◌==◌, Bool-cases, inl, inr,
}
use ne_xs_operate_system.Timer.{
  Timer, minus, timer_get_ns, timer_get_us, timer_get_ms, wait_until, timer_delay_ms,
}

-- A finer unit divided by its share of a millisecond gives milliseconds.
finer :
    (cycles unit khz : ℕ)
    → 0 < unit
    → cycles * unit < 2 ^ 64
    → cycles * unit % 2 ^ 64 / khz / unit ≡ cycles / khz
finer cycles unit khz positive small =
    ap (λ n. n / khz / unit) (mod-eq_of_lt small)
    ∙ div-div-eq-div-mul (cycles * unit) khz unit
    ∙ mul-div-mul_right cycles khz positive

-- The cycles since the boot, for readings in order.
minus_later : (now boot : ℕ) → boot ≤ now → now < 2 ^ 64 → minus now boot ≡ now - boot
minus_later now boot after bound = omega arith

-- With the frequency known, and while the cycles since the calibration times a million stay below
-- 2^64, the nanoseconds and the microseconds agree with the milliseconds, rounded down. At any
-- time, the nanoseconds times the kHz stay below 2^64. At 18446744073710 cycles, the first number
-- whose product with a million is not below 2^64, the nanoseconds are 448384 divided by the kHz and
-- rounded down, which is 0 above 448384 kHz.
pub timer_get_ns_lem :
    (t : Timer) (now : ℕ)
    → t.tsc_freq_khz ≢ 0
    → (minus now t.tsc_boot * 1000000 < 2 ^ 64
        → (timer_get_ns t now / 1000000 ≡ timer_get_ms t now)
          × (timer_get_us t now / 1000 ≡ timer_get_ms t now))
      × (timer_get_ns t now * t.tsc_freq_khz < 2 ^ 64)
      × (minus now t.tsc_boot ≡ 18446744073710 → timer_get_ns t now ≡ 448384 / t.tsc_freq_khz)
unfolding timer_get_ns timer_get_us timer_get_ms
timer_get_ns_lem t now known =
    let khz = t.tsc_freq_khz in
    let cycles = minus now t.tsc_boot in
    let set : (khz == 0) ≡ false = ground (arith, known) in
    rw set (
      λ small. (
        finer cycles 1000000 khz (omega arith) small,
        finer cycles 1000 khz (omega arith) (omega (arith, small)),
      ),
      omega (
        arith,
        div-mul-le_self (cycles * 1000000 % 2 ^ 64) khz,
        mod-lt (cycles * 1000000) {m = 2 ^ 64} (omega arith),
      ),
      λ wraps. ap (λ c. c * 1000000 % 2 ^ 64 / khz) wraps,
    )

wait_until-reaches :
    (target : ℕ) (later : List ℕ) (end : ℕ) → wait_until target later ≡ some end → target ≤ end
unfolding wait_until
wait_until-reaches target [] end e = absurd (ground (arith, e))
wait_until-reaches target (now ∷ later) end e = elim (Bool-cases (ltb now target)) [
  | inl early ↦ wait_until-reaches target later end (sym (rw (wait_until, early) refl) ∙ e)
  | inr late ↦
      let first : some now ≡ some end = sym (rw (wait_until, late) refl) ∙ e in
      ground (arith, late, first)
]

below_target :
    (first : ℕ) (later : List ℕ) (i now target : ℕ)
    → ltb first target ≡ true
    → get_elem? (first ∷ later) i ≡ some now
    → ((j reading : ℕ) → get_elem? later j ≡ some reading → reading < target)
    → now < target
below_target first later zero now target early f rest = ground (arith, early, f)
below_target first later (suc j) now target early f rest = rest j now f

wait_until-none :
    (target : ℕ) (later : List ℕ)
    → wait_until target later ≡ none
    → (i now : ℕ) → get_elem? later i ≡ some now
    → now < target
unfolding wait_until
wait_until-none target [] e i now f = absurd (ground (arith, f))
wait_until-none target (first ∷ later) e i now f = elim (Bool-cases (ltb first target)) [
  | inl early ↦
      let rest : wait_until target later ≡ none = sym (rw (wait_until, early) refl) ∙ e in
      below_target first later i now target early f (wait_until-none target later rest)
  | inr late ↦
      let gone : some first ≡ none = sym (rw (wait_until, late) refl) ∙ e in
      absurd (ground (arith, gone))
]

-- A delay from the reading `now` on: it has ended at a reading where `timer_get_ms` is at least `ms`
-- larger, or every reading so far lies below the reading to wait for.
pub data Delayed (t : Timer) (ms now : ℕ) (later : List ℕ) : Option ℕ → Type 0 where
  ended :
      (end : ℕ)
      → (end < 2 ^ 64 → timer_get_ms t now + ms ≤ timer_get_ms t end)
      → Delayed t ms now later (some end)
  goes_on :
      ((i reading : ℕ) → get_elem? later i ≡ some reading → reading < now + ms * t.tsc_freq_khz)
      → Delayed t ms now later none

-- `end` lies the delay behind `now`.
ms_later :
    (t : Timer) (ms now end : ℕ)
    → t.tsc_freq_khz ≢ 0
    → t.tsc_boot ≤ now
    → now + ms * t.tsc_freq_khz ≤ end
    → end < 2 ^ 64
    → timer_get_ms t now + ms ≤ timer_get_ms t end
unfolding timer_get_ms
ms_later t ms now end known after reached bound =
    let khz = t.tsc_freq_khz in
    let boot = t.tsc_boot in
    let set : (khz == 0) ≡ false = ground (arith, known) in
    let positive : 0 < khz = omega (arith, known) in
    let start : minus now boot ≡ now - boot = minus_later now boot after (omega arith) in
    let stop : minus end boot ≡ end - boot = minus_later end boot (omega arith) bound in
    let sum = add-mul-div_right (now - boot) ms positive in
    let below = div-mul-le_self (now - boot + ms * khz) khz in
    let long : (now - boot + ms * khz) / khz ≤ (end - boot) / khz =
      (le-div_iff_mul-le positive).1 (omega (arith, below, reached, after)) in
    rw (set, start, stop) (omega (arith, sum, long))

-- With the frequency known, from a reading after the calibration on, and where the reading to wait
-- for stays below 2^64, `timer_delay_ms` ends at a reading where `timer_get_ms` gives at least `ms`
-- more than at the start; as long as it has not ended, all readings lie below the one to wait for.
pub timer_delay_ms_lem :
    (t : Timer) (ms now : ℕ) (later : List ℕ)
    → t.tsc_freq_khz ≢ 0
    → t.tsc_boot ≤ now
    → now + ms * t.tsc_freq_khz < 2 ^ 64
    → Delayed t ms now later (timer_delay_ms t ms now later)
unfolding timer_delay_ms
timer_delay_ms_lem t ms now later known after bound = by_end (wait_until target later) refl
  where
    target : ℕ
    target = (now + ms * t.tsc_freq_khz) % 2 ^ 64

    kept : target ≡ now + ms * t.tsc_freq_khz
    kept = mod-eq_of_lt bound

    set : (t.tsc_freq_khz == 0) ≡ false
    set = ground (arith, known)

    by_end :
        (c : Option ℕ)
        → wait_until target later ≡ c
        → Delayed t ms now later (timer_delay_ms t ms now later)
    by_end none e =
        rw (timer_delay_ms, set, e)
          (goes_on (λ i reading f. omega (arith, kept, wait_until-none target later e i reading f)))
    by_end (some end) e =
        rw (timer_delay_ms, set, e)
          (ended end (λ top.
            ms_later t ms now end known after
              (omega (arith, kept, wait_until-reaches target later end e)) top))
