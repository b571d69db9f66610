-- ===== src/Timing.antt =====
-- worker.cc: the differences of times, timespec_diff and timeval_diff, for the build that measures time.
-- The fields and `long` are signed and have 64 bits, and what is no `long` is undefined. The fields of
-- timespec_diff, for times from 1970 on, do not come near these bounds.
use rsj.Prelude.{
  Option, none, some, ◌&&◌, ◌^◌, ℕ, ◌+◌, ◌-◌, ◌*◌, ◌/◌, ◌<◌, ◌≤◌, ◌≡◌, suc, ltb, if◌then◌else◌,
  arith, Bool-cases, inl, inr,
}
use rsj.Prelude.Int.{ℤ, pos, negsuc, sub_ℕ, ltb_ℤ, ◌+ℤ◌, ◌-ℤ◌, ◌*ℤ◌}

-- `struct timespec`, and `struct timeval`.
pub record Timespec : Type 0 where
  pub tv_sec : ℤ
  pub tv_nsec : ℤ

pub record Timeval : Type 0 where
  pub tv_sec : ℤ
  pub tv_usec : ℤ

unfoldable pub timespec_diff : Timespec → Timespec → Timespec
timespec_diff start end =
    if ltb_ℤ (end.tv_nsec -ℤ start.tv_nsec) (pos 0)
    then record {
      tv_sec = end.tv_sec -ℤ start.tv_sec -ℤ pos 1;
      tv_nsec = pos 1000000000 +ℤ end.tv_nsec -ℤ start.tv_nsec;
    }
    else record { tv_sec = end.tv_sec -ℤ start.tv_sec; tv_nsec = end.tv_nsec -ℤ start.tv_nsec }

-- `a / 1000` of C, which rounds to zero.
abbrev pub thousandth : ℤ → ℤ
thousandth (pos n) = pos (n / 1000)
thousandth (negsuc n) = sub_ℕ 0 (suc n / 1000)

-- The value of an operation on `long`; `none` is an overflow, which is undefined.
abbrev pub long : ℤ → Option ℤ
long v = if ltb_ℤ v (pos (2 ^ 63)) && ltb_ℤ (negsuc (2 ^ 63)) v then some v else none

infixl 1 ◌>>=◌
abbrev ◌>>=◌ : {A B : Type 0} → Option A → (A → Option B) → Option B
none >>= f = none
some a >>= f = f a

unfoldable pub timeval_diff : Timeval → Timeval → Option ℤ
timeval_diff starttime finishtime = do
  sec ← long (finishtime.tv_sec -ℤ starttime.tv_sec)
  msec ← long (sec *ℤ pos 1000)
  usec ← long (finishtime.tv_usec -ℤ starttime.tv_usec)
  long (msec +ℤ thousandth usec)

-- The time `sec` seconds and `nsec` nanoseconds after another, with the carry.
abbrev pub time_after : ℕ → ℕ → ℕ → ℕ → Timespec
time_after start_sec start_nsec sec nsec =
    let n = start_nsec + nsec in
    if ltb n 1000000000
    then record { tv_sec = pos (start_sec + sec); tv_nsec = pos n }
    else record { tv_sec = pos (start_sec + sec + 1); tv_nsec = pos (n - 1000000000) }

-- timespec_diff takes back a time that has passed: from a time to that which is `sec` seconds and
-- `nsec` nanoseconds later, where both nanoseconds are below a second, it gives `sec` and `nsec`.
pub timespec_diff-time_after :
    (start_sec start_nsec sec nsec : ℕ)
    → start_nsec < 1000000000
    → nsec < 1000000000
    → timespec_diff
        (record { tv_sec = pos start_sec; tv_nsec = pos start_nsec })
        (time_after start_sec start_nsec sec nsec)
      ≡ record { tv_sec = pos sec; tv_nsec = pos nsec }
unfolding timespec_diff ◌-ℤ◌ ◌+ℤ◌
timespec_diff-time_after start_sec start_nsec sec nsec h k = ground arith

pos-sub : (a b : ℕ) → a ≤ b → pos b -ℤ pos a ≡ pos (b - a)
unfolding ◌-ℤ◌
pos-sub a b h = ground arith

negsuc-sub : (a b : ℕ) → b < a → pos b -ℤ pos a ≡ negsuc (a - b - 1)
unfolding ◌-ℤ◌
negsuc-sub a b h = ground arith

pos-mul : (a b : ℕ) → pos a *ℤ pos b ≡ pos (a * b)
unfolding ◌*ℤ◌
pos-mul a b = ground arith

pos-add : (a b : ℕ) → pos a +ℤ pos b ≡ pos (a + b)
unfolding ◌+ℤ◌
pos-add a b = ground arith

-- A number less one that is no greater.
pos-less : (a b : ℕ) → b ≤ a → pos a +ℤ sub_ℕ 0 b ≡ pos (a - b)
unfolding ◌+ℤ◌
pos-less a b h = ground arith

suc-pred : (b d : ℕ) → d < b → suc (b - d - 1) ≡ b - d
suc-pred b d l = ground arith

long_pos : (n : ℕ) → n < 2 ^ 63 → long (pos n) ≡ some (pos n)
long_pos n h = ground arith

long_negsuc : (n : ℕ) → n < 2 ^ 63 → long (negsuc n) ≡ some (negsuc n)
long_negsuc n h = ground arith

-- The two cases, of microseconds that are no less and of such that are less.
later_usec :
    (a b c d : ℕ)
    → a ≤ c
    → b ≤ d
    → c - a < 9223372036854775
    → d < 1000000
    → timeval_diff
        (record { tv_sec = pos a; tv_usec = pos b })
        (record { tv_sec = pos c; tv_usec = pos d })
      ≡ some (pos ((c - a) * 1000 + (d - b) / 1000))
unfolding timeval_diff
later_usec a b c d h k bound small =
    rw (pos-sub a c h, pos-sub b d k)
      (rw (long_pos (c - a) (omega arith)) (
        rw (pos-mul (c - a) 1000) (
          rw (long_pos ((c - a) * 1000) (omega arith)) (
            rw (long_pos (d - b) (omega arith)) (
              rw (pos-add ((c - a) * 1000) ((d - b) / 1000))
                (long_pos ((c - a) * 1000 + (d - b) / 1000) (omega arith)))))))

earlier_usec :
    (a b c d : ℕ)
    → a < c
    → d < b
    → c - a ≤ 9223372036854775
    → b < 1000000
    → timeval_diff
        (record { tv_sec = pos a; tv_usec = pos b })
        (record { tv_sec = pos c; tv_usec = pos d })
      ≡ some (pos ((c - a) * 1000 - (b - d) / 1000))
unfolding timeval_diff
earlier_usec a b c d h k bound small =
    rw (pos-sub a c (omega arith), negsuc-sub b d k)
      (rw (long_pos (c - a) (omega arith)) (
        rw (pos-mul (c - a) 1000) (
          rw (long_pos ((c - a) * 1000) (omega arith)) (
            rw (long_negsuc (b - d - 1) (omega arith)) (
              rw (suc-pred b d k) (
                rw (pos-less ((c - a) * 1000) ((b - d) / 1000) (omega arith))
                  (long_pos ((c - a) * 1000 - (b - d) / 1000) (omega arith))))))))

-- timeval_diff overflows nowhere and its milliseconds differ by less than one from the time that has
-- passed, which is given in microseconds: for a start and a finish that is no earlier, both in whole
-- microseconds below a second, and less than 9223372036854775 seconds apart, so that
-- the milliseconds are a `long`.
pub timeval_diff_close :
    (start_sec start_usec finish_sec finish_usec passed : ℕ)
    → start_usec < 1000000
    → finish_usec < 1000000
    → finish_sec * 1000000 + finish_usec ≡ start_sec * 1000000 + start_usec + passed
    → passed < 9223372036854775 * 1000000
    → (msec : ℕ) × (timeval_diff
          (record { tv_sec = pos start_sec; tv_usec = pos start_usec })
          (record { tv_sec = pos finish_sec; tv_usec = pos finish_usec })
        ≡ some (pos msec))
      × (msec * 1000 < passed + 1000)
      × (passed < msec * 1000 + 1000)
timeval_diff_close a b c d e h k eq bound = elim (Bool-cases (ltb d b)) [
  | inl l ↦
      let less : d < b = ground arith in
      (
        (c - a) * 1000 - (b - d) / 1000,
        earlier_usec a b c d (omega arith) less (omega arith) h,
        omega arith,
        omega arith,
      )
  | inr l ↦
      let no_less : b ≤ d = ground arith in
      (
        (c - a) * 1000 + (d - b) / 1000,
        later_usec a b c d (omega arith) no_less (omega arith) k,
        omega arith,
        omega arith,
      )
]
