-- ===== src/SimulationStats.antt =====
-- `simulation_statistics_t` of include/simulation_stats.h. The counters that C keeps as `double` are
-- only ever raised by one, so they are natural numbers here (a `double` counts exactly up to 2 ^ 53).
pub mod Averages
pub mod Papers
pub mod Report
pub mod Defined
pub mod Spread
pub mod Printed
use concurrent_request_orche.Base.{ℕ, zero, suc, List, [], ◌∷◌}
use concurrent_request_orche.Base.Int.{ℤ, pos}

pub record SimulationStatistics : Type 0 where
  pub simulation_start_time_us : ℕ
  pub simulation_duration_us : ℕ
  pub total_jobs_arrived : ℕ
  pub total_jobs_served : ℕ
  pub total_jobs_dropped : ℕ
  pub total_jobs_removed : ℕ
  pub total_inter_arrival_time_us : ℕ
  pub total_system_time_us : ℕ
  pub sum_of_system_time_squared_us2 : ℤ
  pub total_queue_wait_time_us : ℕ
  pub area_num_in_job_queue_us : ℕ
  pub max_job_queue_length : ℕ
  pub jobs_served_by_printer : List ℕ
  pub printer_paper_used : List ℤ
  pub total_service_time_printer_us : List ℕ
  pub printer_paper_empty_time_us : List ℕ
  pub max_printers_used : ℕ
  pub paper_refill_events : ℕ
  pub total_refill_service_time_us : ℕ
  pub papers_refilled : ℤ

-- `(simulation_statistics_t){0}`.
abbrev pub no_statistics : SimulationStatistics
no_statistics = record {
  simulation_start_time_us = 0;
  simulation_duration_us = 0;
  total_jobs_arrived = 0;
  total_jobs_served = 0;
  total_jobs_dropped = 0;
  total_jobs_removed = 0;
  total_inter_arrival_time_us = 0;
  total_system_time_us = 0;
  sum_of_system_time_squared_us2 = pos 0;
  total_queue_wait_time_us = 0;
  area_num_in_job_queue_us = 0;
  max_job_queue_length = 0;
  jobs_served_by_printer = 0 ∷ 0 ∷ 0 ∷ 0 ∷ 0 ∷ [];
  printer_paper_used = pos 0 ∷ pos 0 ∷ pos 0 ∷ pos 0 ∷ pos 0 ∷ [];
  total_service_time_printer_us = 0 ∷ 0 ∷ 0 ∷ 0 ∷ 0 ∷ [];
  printer_paper_empty_time_us = 0 ∷ 0 ∷ 0 ∷ 0 ∷ 0 ∷ [];
  max_printers_used = 0;
  paper_refill_events = 0;
  total_refill_service_time_us = 0;
  papers_refilled = pos 0;
}

-- `xs[i] += …` on an array; the callers test the index first.
abbrev pub modify {ℓ} : {A : Type ℓ} → List A → ℕ → (A → A) → List A
modify [] i f = []
modify (x ∷ xs) zero f = f x ∷ xs
modify (x ∷ xs) (suc i) f = x ∷ modify xs i f
