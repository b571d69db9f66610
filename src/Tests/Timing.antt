-- ===== src/Tests/Timing.antt =====
-- Times that differ by less than a second, across the full second (worker.cc).
use rsj.Prelude.{ℕ, ◌*◌, ◌+◌, ◌<◌, ◌≡◌, refl, none, some, arith}
use rsj.Prelude.Int.{pos, ◌-ℤ◌, ◌*ℤ◌, ◌+ℤ◌}
use rsj.Timing.{
  timespec_diff, timeval_diff, time_after, timespec_diff-time_after, timeval_diff_close,
}

timespec_diff-time_after_example :
    timespec_diff
      (record { tv_sec = pos 7; tv_nsec = pos 999999000 })
      (time_after 7 999999000 1 5000)
    ≡ record { tv_sec = pos 1; tv_nsec = pos 5000 }
timespec_diff-time_after_example =
    timespec_diff-time_after 7 999999000 1 5000 (omega arith) (omega arith)

-- 1400 microseconds pass.
timeval_diff_close_example :
    (msec : ℕ) × (timeval_diff
        (record { tv_sec = pos 7; tv_usec = pos 999500 })
        (record { tv_sec = pos 8; tv_usec = pos 900 })
      ≡ some (pos msec))
    × (msec * 1000 < 1400 + 1000)
    × (1400 < msec * 1000 + 1000)
timeval_diff_close_example =
    timeval_diff_close 7 999500 8 900 1400 (omega arith) (omega arith) (omega arith) (omega arith)

-- Ten to the sixteenth seconds are too many milliseconds for a `long`.
too_long :
    timeval_diff
      (record { tv_sec = pos 0; tv_usec = pos 0 })
      (record { tv_sec = pos 10000000000000000; tv_usec = pos 0 })
    ≡ none
unfolding timeval_diff ◌-ℤ◌ ◌*ℤ◌ ◌+ℤ◌
too_long = refl
