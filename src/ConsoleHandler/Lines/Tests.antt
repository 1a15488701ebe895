-- ===== src/ConsoleHandler/Lines/Tests.antt =====
-- Lines of output as src/console_handler.c prints them.
use concurrent_request_orche.Base.{◌≡◌, refl, false, arith}
use concurrent_request_orche.Base.Int.{pos}
use concurrent_request_orche.Text.{codes, show_ℕ, show_ℤ, show_padded}
use concurrent_request_orche.Clock.{time_in_us_to_ms}
use concurrent_request_orche.Words.{to_int}
use concurrent_request_orche.Journal.{job_arrives, enters_queue, simulation_ends}
use concurrent_request_orche.ConsoleHandler.Lines.{
  console_line, message_text, log_time, time_format, quotient, remainder, duration_text,
}
use concurrent_request_orche.ConsoleHandler.Lines.RoundTrip.{read_time, read-console_line}

arrival_line :
    console_line 250_457 (job_arrives 1 (pos 12) (pos 250_457) false)
    ≡ codes "00000250.457ms: job1 arrives, needs 12 papers, inter-arrival time = 250.457ms\n"
unfolding console_line message_text log_time time_format quotient remainder duration_text show_ℕ
    show_ℤ show_padded time_in_us_to_ms to_int
arrival_line = refl

last_line :
    console_line 6_000_020 (simulation_ends 6_000_020)
    ≡ codes "00006000.020ms: simulation ends, duration = 6000.020ms\n"
unfolding console_line message_text log_time time_format duration_text show_ℕ show_ℤ show_padded
    time_in_us_to_ms to_int
last_line = refl

read-console_line_example : read_time (console_line 250_457 (enters_queue 3 1)) ≡ 250_457
read-console_line_example = read-console_line 250_457 (enters_queue 3 1) (omega arith)
