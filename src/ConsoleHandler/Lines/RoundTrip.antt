-- ===== src/ConsoleHandler/Lines/RoundTrip.antt =====
-- The time of a line that src/console_handler.c prints can be read back.
use concurrent_request_orche.Base.{
  ℕ, ◌+◌, ◌*◌, ◌/◌, ◌%◌, ◌^◌, ◌<◌, ◌≡◌, refl, ◌∙◌, [], ◌∷◌, ◌++◌, append_assoc, drop, false, arith,
}
use concurrent_request_orche.Base.Int.{pos, pos_part}
use concurrent_request_orche.Text.{Text, is_digit, digits, codes, padded, show_ℕ, atoi}
use concurrent_request_orche.Text.Decimal.{
  atoi-padded, after_digits, after_digits-padded, show_padded-pos,
}
use concurrent_request_orche.Text.Places.{three_places, three_places-padded}
use concurrent_request_orche.Clock.Carry.{time_in_us_to_ms_lem}
use concurrent_request_orche.Journal.{Message}
use concurrent_request_orche.ConsoleHandler.Lines.{
  time_format, log_time, message_text, console_line,
}

-- The milliseconds are read by `atoi`; after the point there are three places.
pub read_time : Text → ℕ
read_time s = pos_part (atoi s) * 1_000 + three_places (drop 1 (after_digits s))

time_format-eq :
    (ms us : ℕ) (rest : Text)
    → time_format (pos ms) (pos us) ++ rest
      ≡ padded 8 (show_ℕ ms) ++ b'.' ∷ (padded 3 (show_ℕ us) ++ (codes "ms: " ++ rest))
unfolding time_format
time_format-eq ms us rest = simp (show_padded-pos, append_assoc)

point_is_none : is_digit b'.' ≡ false
unfolding is_digit
point_is_none = refl

read-time_format :
    (ms us : ℕ) (rest : Text)
    → us < 1_000
    → read_time (time_format (pos ms) (pos us) ++ rest) ≡ 1_000 * ms + us
unfolding read_time
read-time_format ms us rest h =
    rw
      (
        time_format-eq ms us rest,
        atoi-padded 8 ms (b'.' ∷ (padded 3 (show_ℕ us) ++ (codes "ms: " ++ rest))),
        after_digits-padded 8 ms b'.' (padded 3 (show_ℕ us) ++ (codes "ms: " ++ rest))
            point_is_none,
        three_places-padded us (codes "ms: " ++ rest) h,
        point_stops ms (padded 3 (show_ℕ us) ++ (codes "ms: " ++ rest)),
      )
      (omega arith)
  where
    point_stops : (n : ℕ) (s : Text) → digits (b'.' ∷ s) n ≡ n
    point_stops n s = unfold digits is_digit in refl

console_line-eq :
    (time_us : ℕ) (m : Message)
    → time_us < 2 ^ 31 * 1_000
    → console_line time_us m
      ≡ time_format (pos (time_us / 1_000)) (pos (time_us % 1_000)) ++ (message_text m ++ 10 ∷ [])
unfolding console_line log_time
console_line-eq time_us m h = simp (time_in_us_to_ms_lem time_us h, append_assoc)

-- From a line on the terminal, whatever its message is, a time below 2 ^ 31 milliseconds can be read
-- back to the microsecond: the milliseconds stand before the point and the three digits of the
-- microseconds after it.
pub read-console_line :
    (time_us : ℕ) (m : Message)
    → time_us < 2 ^ 31 * 1_000
    → read_time (console_line time_us m) ≡ time_us
read-console_line time_us m h = rw (console_line-eq time_us m h) (
    read-time_format (time_us / 1_000) (time_us % 1_000) (message_text m ++ 10 ∷ []) (omega arith)
    ∙ omega arith)
