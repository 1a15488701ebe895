-- ===== src/WebsocketHandler/Frames/Tests.antt =====
-- Messages as src/websocket_handler.c sends them.
use concurrent_request_orche.Base.{◌+◌, ◌≤◌, ◌≡◌, refl, some, true, [], ◌∷◌, length, arith}
use concurrent_request_orche.Base.Int.{pos}
use concurrent_request_orche.Text.{
  Text, codes, show_ℕ, show_ℤ, show_thousandths, show_thousandths_ℤ,
}
use concurrent_request_orche.SimulationStats.{no_statistics}
use concurrent_request_orche.SimulationStats.Averages.{
  Average, calculate_total_papers_used, sum_first,
}
use concurrent_request_orche.Journal.{job_arrives, waiting_refill}
use concurrent_request_orche.WebsocketHandler.Frames.{
  log_message, timestamp, log_frame, entry, entries, jobs_frame, status_text, current_job_text,
  consumer_frame, stats_frame,
}
use concurrent_request_orche.WebsocketHandler.Frames.Fits.{log_frame-fits, stats_frame-fits}

dropped_frame :
    log_frame 750_457 (job_arrives 3 (pos 1) (pos 500_000) true)
    ≡ codes
        "{\"type\":\"log\", \"data\":{\"timestamp\":750.457, \"message\":\"job3 arrives, needs 1 paper, inter-arrival time = 500.000ms, dropped\"}}"
unfolding log_frame log_message timestamp show_ℕ show_ℤ show_thousandths show_thousandths_ℤ
dropped_frame = refl

two_jobs :
    jobs_frame ((9, pos 8) ∷ (10, pos 12) ∷ [])
    ≡ codes
        "{\"type\":\"jobs_update\", \"data\":[{\"id\":9,\"papersRequired\":8},{\"id\":10,\"papersRequired\":12}]}"
unfolding jobs_frame entries entry show_ℕ show_ℤ
two_jobs = refl

waiting_printer :
    consumer_frame 2 (pos 4) waiting_refill (some 10)
    ≡ codes
        "{\"type\":\"consumer_update\", \"data\":{\"id\":2, \"papersLeft\":4, \"status\":\"waiting_refill\", \"currentJobId\":10}}"
unfolding consumer_frame status_text current_job_text show_ℕ show_ℤ
waiting_printer = refl

log_frame-fits_example :
    length (log_frame 750_457 (job_arrives 3 (pos 1) (pos 500_000) true)) + 1 ≤ 1_024
log_frame-fits_example =
    log_frame-fits 750_457 (job_arrives 3 (pos 1) (pos 500_000) true) (omega arith)
      (omega arith, (omega arith, omega arith), (omega arith, omega arith))

abbrev one_and_a_half : Average → Text
one_and_a_half a = codes "1.50"

no_papers : calculate_total_papers_used no_statistics ≡ pos 0
unfolding calculate_total_papers_used sum_first
no_papers = refl

stats_frame-fits_example : length (stats_frame one_and_a_half no_statistics 4) + 1 ≤ 1_024
stats_frame-fits_example =
    stats_frame-fits one_and_a_half no_statistics 4 (λ a. omega arith) (omega arith) (omega arith)
      (omega arith) (rw no_papers (omega arith, omega arith)) (omega arith)
