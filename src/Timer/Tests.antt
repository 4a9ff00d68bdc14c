-- ===== src/Timer/Tests.antt =====
-- Runs of kernel/timer.c, and its theorems at a processor of 3 GHz.
use ne_xs_operate_system.Base.{◌+◌, ◌*◌, ◌/◌, ◌^◌, ◌<◌, ◌≡◌, refl, [], ◌∷◌, arith}
use ne_xs_operate_system.Timer.{
  Timer, timer_zero, minus, tsc_calibrate, timer_get_ns, timer_get_us, timer_get_ms, timer_delay_ms,
}
use ne_xs_operate_system.Timer.Clock.{Delayed, timer_get_ns_lem, timer_delay_ms_lem}

-- 30 million cycles in the 10 ms of the calibration.
abbrev three_ghz : Timer
three_ghz = tsc_calibrate 1000 30001000 40000000 timer_zero

calibrated : three_ghz.tsc_freq_khz ≡ 3000000
unfolding tsc_calibrate
calibrated = refl

-- After about 6149 seconds the nanoseconds have started again from 0.
nanoseconds_start_again : timer_get_ns three_ghz (40000000 + 18446744073710) ≡ 0
unfolding tsc_calibrate timer_get_ns
nanoseconds_start_again = refl

timer_get_ns_lem_example :
    (minus 3040000000 three_ghz.tsc_boot * 1000000 < 2 ^ 64
      → (timer_get_ns three_ghz 3040000000 / 1000000 ≡ timer_get_ms three_ghz 3040000000)
        × (timer_get_us three_ghz 3040000000 / 1000 ≡ timer_get_ms three_ghz 3040000000))
    × (timer_get_ns three_ghz 3040000000 * three_ghz.tsc_freq_khz < 2 ^ 64)
    × (minus 3040000000 three_ghz.tsc_boot ≡ 18446744073710
        → timer_get_ns three_ghz 3040000000 ≡ 448384 / three_ghz.tsc_freq_khz)
unfolding tsc_calibrate
timer_get_ns_lem_example = timer_get_ns_lem three_ghz 3040000000 (ground arith)

timer_delay_ms_lem_example :
    Delayed three_ghz 2 50000000
      (52000000 ∷ 57000000 ∷ [])
      (timer_delay_ms three_ghz 2 50000000 (52000000 ∷ 57000000 ∷ []))
unfolding tsc_calibrate
timer_delay_ms_lem_example =
    timer_delay_ms_lem three_ghz 2 50000000 (52000000 ∷ 57000000 ∷ []) (ground arith) (omega arith)
      (omega arith)
