-- ===== src/Timer.antt =====
-- kernel/timer.c and the constants of kernel/timer.h. A reading of the time stamp counter by
-- `rdtsc` is an argument, the readings of a loop a list; what is written to ports is a list of
-- ports with the bytes. What `tsc_calibrate` prints is left out.
pub mod Clock
pub mod Tests
use ne_xs_operate_system.Base.{
  ℕ, ◌+◌, ◌-◌, ◌*◌, ◌/◌, ◌%◌, ◌^◌, bit_and, bit_or, Option, none, some, List, [], ◌∷◌, ltb, ◌==◌,
  if◌then◌else◌,
}

abbrev pub pit_frequency : ℕ
pit_frequency = 1193182

abbrev pub pit_hz : ℕ
pit_hz = 1000

abbrev pub pit_divisor : ℕ
pit_divisor = pit_frequency / pit_hz

-- The static variables.
pub record Timer : Type 0 where
  pub pit_ticks : ℕ
  pub tsc_freq_hz : ℕ
  pub tsc_freq_khz : ℕ
  pub tsc_boot : ℕ

abbrev pub timer_zero : Timer
timer_zero = record { pit_ticks = 0; tsc_freq_hz = 0; tsc_freq_khz = 0; tsc_boot = 0 }

-- The difference of two 64-bit numbers.
abbrev pub minus : ℕ → ℕ → ℕ
minus a b = (a + (2 ^ 64 - b)) % 2 ^ 64

unfoldable pub pit_configure : ℕ → List (ℕ × ℕ)
pit_configure divisor =
    (0x43, 0x36) ∷ (0x40, bit_and divisor 0xFF) ∷ (0x40, bit_and (divisor / 2 ^ 8) 0xFF) ∷ []

-- The bytes written: `gate` and `gate_after` are what the port 0x61 gives before and after the wait.
unfoldable pub calibration_writes : ℕ → ℕ → List (ℕ × ℕ)
calibration_writes gate gate_after =
    (0x61, bit_or (bit_and gate 0xFD) 0x01)
    ∷ (0x43, 0xB0)
    ∷ (0x42, bit_and 11932 0xFF)
    ∷ (0x42, bit_and (11932 / 2 ^ 8) 0xFF)
    ∷ (0x61, bit_and gate_after 0xFC)
    ∷ []

-- The three readings are the ones before and after the wait, and the last.
unfoldable pub tsc_calibrate : ℕ → ℕ → ℕ → Timer → Timer
tsc_calibrate tsc_start tsc_end tsc_last t =
    let hz = minus tsc_end tsc_start * 100 % 2 ^ 64 in
    record t { tsc_freq_hz = hz; tsc_freq_khz = hz / 1000; tsc_boot = tsc_last }

unfoldable pub timer_init : ℕ → ℕ → ℕ → Timer → Timer × List (ℕ × ℕ)
timer_init tsc_start tsc_end tsc_last t =
    (tsc_calibrate tsc_start tsc_end tsc_last t, pit_configure pit_divisor)

unfoldable pub timer_tick : Timer → Timer
timer_tick t = record t { pit_ticks = (t.pit_ticks + 1) % 2 ^ 64 }

abbrev pub timer_get_tsc : ℕ → ℕ
timer_get_tsc now = now

abbrev pub timer_get_freq : Timer → ℕ
timer_get_freq t = t.tsc_freq_hz

abbrev pub timer_get_ticks : Timer → ℕ
timer_get_ticks t = t.pit_ticks

unfoldable pub timer_get_ns : Timer → ℕ → ℕ
timer_get_ns t now =
    if t.tsc_freq_khz == 0 then 0 else minus now t.tsc_boot * 1000000 % 2 ^ 64 / t.tsc_freq_khz

unfoldable pub timer_get_us : Timer → ℕ → ℕ
timer_get_us t now =
    if t.tsc_freq_khz == 0 then 0 else minus now t.tsc_boot * 1000 % 2 ^ 64 / t.tsc_freq_khz

unfoldable pub timer_get_ms : Timer → ℕ → ℕ
timer_get_ms t now = if t.tsc_freq_khz == 0 then 0 else minus now t.tsc_boot / t.tsc_freq_khz

unfoldable pub timer_get_sec : Timer → ℕ → ℕ
timer_get_sec t now = timer_get_ms t now / 1000

-- `while (rdtsc() < tsc_target)`: the reading that ends it, or `none` if none of them does.
unfoldable pub wait_until : ℕ → List ℕ → Option ℕ
wait_until target [] = none
wait_until target (now ∷ later) =
    let rest = wait_until target later in if ltb now target then rest else some now

-- The delays: `none` at once if the counter was not calibrated, or else what the loop comes to.
-- `now` is the first reading and the list holds those of the loop.
unfoldable pub timer_delay_ns : Timer → ℕ → ℕ → List ℕ → Option ℕ
timer_delay_ns t ns now later =
    if t.tsc_freq_khz == 0
    then some now
    else wait_until ((now + ns * t.tsc_freq_khz % 2 ^ 64 / 1000000) % 2 ^ 64) later

unfoldable pub timer_delay_us : Timer → ℕ → ℕ → List ℕ → Option ℕ
timer_delay_us t us now later =
    if t.tsc_freq_khz == 0
    then some now
    else wait_until ((now + us * t.tsc_freq_khz % 2 ^ 64 / 1000) % 2 ^ 64) later

unfoldable pub timer_delay_ms : Timer → ℕ → ℕ → List ℕ → Option ℕ
timer_delay_ms t ms now later =
    if t.tsc_freq_khz == 0
    then some now
    else wait_until ((now + ms * t.tsc_freq_khz) % 2 ^ 64) later
