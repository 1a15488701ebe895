-- ===== src/Clock/Carry.antt =====
-- The carry of `get_wake_up_time` and the split of a time in src/common/timeutils.c.
use concurrent_request_orche.Base.{ℕ, zero, suc, ◌+◌, ◌-◌, ◌*◌, ◌/◌, ◌%◌, ◌^◌, ◌<◌, ◌≡◌, arith}
use concurrent_request_orche.Base.Int.{pos}
use concurrent_request_orche.Clock.{Timeval, Timespec, carry, get_wake_up_time, time_in_us_to_ms}
use concurrent_request_orche.Words.{to_int}

abbrev pub nanoseconds : Timespec → ℕ
nanoseconds t = 1_000_000_000 * t.seconds + t.tv_nsec

-- With enough fuel the loop stops by its test, at the same time.
carry_lem :
    (f : ℕ) (t : Timespec)
    → t.tv_nsec < f * 1_000_000_000
    → (nanoseconds (carry f t) ≡ nanoseconds t) × ((carry f t).tv_nsec < 1_000_000_000)
unfolding carry
carry_lem zero t h = absurd (omega arith)
carry_lem (suc f) t h =
    ground
      (arith, carry_lem f (record { seconds = t.seconds + 1; tv_nsec = t.tv_nsec - 1_000_000_000 }))

-- The wake-up time is `time_ms` after the reading, and a normal time: its nanoseconds are below one
-- second.
pub get_wake_up_time_lem :
    (now : Timeval) (time_ms : ℕ)
    → now.tv_usec < 1_000_000
    → time_ms < 2_148
    → (nanoseconds (get_wake_up_time now time_ms)
        ≡ 1_000_000_000 * now.tv_sec + 1_000 * now.tv_usec + 1_000_000 * time_ms)
      × ((get_wake_up_time now time_ms).tv_nsec < 1_000_000_000)
unfolding get_wake_up_time
get_wake_up_time_lem now time_ms h k = ground (
  arith,
  carry_lem 4
      (record { seconds = now.tv_sec; tv_nsec = 1_000 * now.tv_usec + time_ms * 1_000_000 }),
)

-- The split of a time that fits.
pub time_in_us_to_ms_lem :
    (t : ℕ) → t < 2 ^ 31 * 1_000 → time_in_us_to_ms t ≡ (pos (t / 1_000), pos (t % 1_000))
unfolding time_in_us_to_ms to_int
time_in_us_to_ms_lem t h = ground arith
