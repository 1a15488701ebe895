-- ===== src/Clock/Tests.antt =====
-- Readings of the clock.
use concurrent_request_orche.Base.{◌≡◌, refl}
use concurrent_request_orche.Base.Int.{pos}
use concurrent_request_orche.Clock.{Timeval, get_time_in_us, time_in_us_to_ms, get_wake_up_time}
use concurrent_request_orche.Words.{to_int}

abbrev late : Timeval
late = record { tv_sec = 7; tv_usec = 900_000 }

reading : get_time_in_us late ≡ 7_900_000
unfolding get_time_in_us
reading = refl

split : time_in_us_to_ms 250_457 ≡ (pos 250, pos 457)
unfolding time_in_us_to_ms to_int
split = refl

woken : get_wake_up_time late 2_000 ≡ record { seconds = 9; tv_nsec = 900_000_000 }
unfolding get_wake_up_time
woken = refl
