-- ===== src/SimulationStats/Spread/Departures/Tests.antt =====
-- Two departures, after 40 and 46 milliseconds in the system.
use concurrent_request_orche.Base.{ℕ, ◌*◌, ◌≡◌, ◌==◌, refl, List, [], ◌∷◌, leb, true, arith}
use concurrent_request_orche.Base.Int.{pos}
use concurrent_request_orche.Words.{to_int, sub64}
use concurrent_request_orche.Job.{Job}
use concurrent_request_orche.Printer.{Printer}
use concurrent_request_orche.SimulationStats.{no_statistics}
use concurrent_request_orche.SimulationStats.Averages.{
  over, guarded, calculate_variance, calculate_average_system_time,
}
use concurrent_request_orche.SimulationStats.Spread.{sum_of, spread}
use concurrent_request_orche.SimulationStats.Spread.Departures.{
  departures, Timed, departures-variance,
}

abbrev departing : (arrives departs : ℕ) → Job
departing arrives departs = record {
  id = 3;
  inter_arrival_time_us = pos 200_000;
  papers_required = pos 1;
  service_time_requested_ms = pos 30;
  system_arrival_time_us = arrives;
  queue_arrival_time_us = arrives;
  queue_departure_time_us = arrives;
  service_arrival_time_us = arrives;
  service_departure_time_us = departs;
}

abbrev printer : Printer
printer = record {
  id = 1;
  current_paper_count = pos 40;
  total_papers_used = pos 10;
  capacity = pos 50;
  jobs_printed_count = 1;
  last_job_completion_time_us = 750_000;
  is_idle = true;
}

abbrev two : List (Job × Printer)
two = (departing 100_000 140_000, printer) ∷ (departing 300_000 346_000, printer) ∷ []

two-Timed : Timed two (40_000 ∷ 46_000 ∷ [])
unfolding to_int sub64
two-Timed = (refl, omega arith, (refl, omega arith, tt))

departures-variance_example :
    (calculate_variance (departures two no_statistics)
      ≡ guarded (leb 2 1) (over (spread (40_000 ∷ 46_000 ∷ [])) (2 * 2)))
    × (calculate_average_system_time (departures two no_statistics)
        ≡ guarded (2 == 0) (over (sum_of (40_000 ∷ 46_000 ∷ [])) (1_000_000 * 2)))
departures-variance_example = departures-variance two (40_000 ∷ 46_000 ∷ []) two-Timed (omega arith)
