-- ===== src/Clock.antt =====
-- src/common/timeutils.c: the readings of the clock.
pub mod Carry
mod Tests
use concurrent_request_orche.Base.{ℕ, zero, suc, ◌+◌, ◌-◌, ◌*◌, ◌/◌, ◌%◌, ◌^◌, leb, if◌then◌else◌}
use concurrent_request_orche.Base.Int.{ℤ}
use concurrent_request_orche.Words.{word, to_int}
use concurrent_request_orche.Text.{Text, codes, show_padded}

-- What `gettimeofday` gives.
pub record Timeval : Type 0 where
  pub tv_sec : ℕ
  pub tv_usec : ℕ

pub record Timespec : Type 0 where
  pub seconds : ℕ
  pub tv_nsec : ℕ

unfoldable pub get_time_in_us : (now : Timeval) → ℕ
get_time_in_us now = (now.tv_sec * 1_000_000 + now.tv_usec) % word

unfoldable pub time_in_us_to_ms : (current_time_us : ℕ) → ℤ × ℤ
time_in_us_to_ms t = (to_int (t / 1_000), to_int (t % 1_000))

-- The loop that deals with the carry. The fuel is a bound on its rounds.
unfoldable pub carry : (fuel : ℕ) → Timespec → Timespec
carry zero t = t
carry (suc f) t =
    let rest : Timespec =
      carry f (record { seconds = t.seconds + 1; tv_nsec = t.tv_nsec - 1_000_000_000 }) in
    if leb 1_000_000_000 t.tv_nsec then rest else t

-- `time_ms` is not negative and below 2148, so that the product is an `int`. A reading of the clock
-- has less than a million microseconds, so four rounds are enough.
unfoldable pub get_wake_up_time : (now : Timeval) → (time_ms : ℕ) → Timespec
unfolding carry
get_wake_up_time now time_ms =
    carry 4 (record { seconds = now.tv_sec; tv_nsec = 1_000 * now.tv_usec + time_ms * 1_000_000 })
