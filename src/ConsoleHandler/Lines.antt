-- ===== src/ConsoleHandler/Lines.antt =====
-- The text of the lines that src/console_handler.c prints.
pub mod RoundTrip
mod Tests
use concurrent_request_orche.Base.{
  ℕ, zero, suc, ◌+◌, ◌/◌, ◌%◌, ◌==◌, Bool, List, [], ◌∷◌, ◌++◌, if◌then◌else◌,
}
use concurrent_request_orche.Base.Int.{ℤ, pos, negsuc}
use concurrent_request_orche.Words.{to_int}
use concurrent_request_orche.Text.{Text, codes, show_ℕ, show_ℤ, show_padded}
use concurrent_request_orche.Clock.{time_in_us_to_ms}
use concurrent_request_orche.Journal.{
  Message, simulation_begins, simulation_ends, simulation_stopped, job_arrives, job_removed,
  enters_queue, leaves_queue, begins_service, departs, needs_paper, refill_starts, refill_ends,
  scaled_up, scaled_down,
}

-- `time_format` of src/common/timeutils.c, `"%08d.%03dms: "`.
unfoldable pub time_format : (milliseconds microseconds : ℤ) → Text
time_format ms us = show_padded 8 ms ++ b'.' ∷ show_padded 3 us ++ codes "ms: "

-- `time_us` is what the code passes on less the reference time.
unfoldable pub log_time : (time_us : ℕ) → Text
unfolding time_format
log_time time_us = let (ms, us) = time_in_us_to_ms time_us in time_format ms us

-- Division on `int` cuts off, and the remainder has the sign of the dividend.
negated : ℕ → ℤ
negated zero = pos 0
negated (suc n) = negsuc n

unfoldable pub quotient : ℤ → ℤ
unfolding negated
quotient (pos n) = pos (n / 1_000)
quotient (negsuc n) = negated (suc n / 1_000)

unfoldable pub remainder : ℤ → ℤ
unfolding negated
remainder (pos n) = pos (n % 1_000)
remainder (negsuc n) = negated (suc n % 1_000)

-- `%d.%03dms`.
unfoldable pub duration_text : (milliseconds microseconds : ℤ) → Text
duration_text ms us = show_ℤ ms ++ b'.' ∷ show_padded 3 us ++ codes "ms"

abbrev pub int_duration : ℤ → Text
int_duration t = duration_text (quotient t) (remainder t)

abbrev pub long_duration : ℕ → Text
long_duration t = duration_text (to_int (t / 1_000)) (to_int (t % 1_000))

unfoldable pub message_text : Message → Text
unfolding quotient remainder duration_text
message_text simulation_begins = codes "simulation begins"
message_text (simulation_ends t) = codes "simulation ends, duration = " ++ long_duration t
message_text (simulation_stopped t) = codes "simulation stopped, duration = " ++ long_duration t
message_text (job_arrives id papers t is_dropped) =
    codes "job"
    ++ show_ℕ id
    ++ codes " arrives, needs "
    ++ show_ℤ papers
    ++ codes " paper"
    ++ plural papers
    ++ codes ", inter-arrival time = "
    ++ int_duration t
    ++ (if is_dropped then codes ", dropped" else [])
  where
    plural : ℤ → Text
    plural (pos n) = if n == 1 then [] else codes "s"
    plural (negsuc n) = codes "s"
message_text (job_removed id) = codes "job" ++ show_ℕ id ++ codes " removed from system"
message_text (enters_queue id n) =
    codes "job" ++ show_ℕ id ++ codes " enters queue, queue length = " ++ show_ℕ n
message_text (leaves_queue id t n) =
    codes "job"
    ++ show_ℕ id
    ++ codes " leaves queue, time in queue = "
    ++ int_duration t
    ++ codes ", queue_length = "
    ++ show_ℕ n
message_text (begins_service id printer papers about_ms) =
    codes "job"
    ++ show_ℕ id
    ++ codes " begins service at printer"
    ++ show_ℕ printer
    ++ codes ", printing "
    ++ show_ℤ papers
    ++ codes " pages in about "
    ++ show_ℤ about_ms
    ++ codes "ms"
message_text (departs id printer t) =
    codes "job"
    ++ show_ℕ id
    ++ codes " departs from printer"
    ++ show_ℕ printer
    ++ codes ", service time = "
    ++ int_duration t
message_text (needs_paper printer id) =
    codes "printer"
    ++ show_ℕ printer
    ++ codes " does not have enough paper for job"
    ++ show_ℕ id
    ++ codes " and is requesting refill"
message_text (refill_starts printer papers t) =
    codes "printer"
    ++ show_ℕ printer
    ++ codes " starts refilling "
    ++ show_ℤ papers
    ++ codes " papers, estimated time = "
    ++ int_duration t
message_text (refill_ends printer t) =
    codes "printer"
    ++ show_ℕ printer
    ++ codes " finishes refilling paper, actual time = "
    ++ show_ℤ (quotient t)
    ++ b'.' ∷ show_padded 3 (remainder t)
    ++ codes " ms"
message_text (scaled_up n queue_length) =
    codes "Autoscaling: Scaled UP to "
    ++ show_ℕ n
    ++ codes " printers (queue length: "
    ++ show_ℕ queue_length
    ++ codes ")"
message_text (scaled_down n queue_length) =
    codes "Autoscaling: Scaled DOWN to "
    ++ show_ℕ n
    ++ codes " printers (queue length: "
    ++ show_ℕ queue_length
    ++ codes ")"

-- One line on the terminal, with its line feed.
unfoldable pub console_line : (time_us : ℕ) → Message → Text
unfolding log_time message_text
console_line time_us m = log_time time_us ++ message_text m ++ 10 ∷ []
