-- ===== src/SimulationStats/Defined.antt =====
-- The guards of the averages in src/simulation_stats.c, and what the share of dropped jobs is.
use concurrent_request_orche.Base.{ℕ, ◌≤◌, arith}
use concurrent_request_orche.SimulationStats.{SimulationStatistics}
use concurrent_request_orche.SimulationStats.Averages.{
  Average, zero_average, over, IsDefined, calculate_average_inter_arrival_time,
  calculate_average_queue_wait_time, calculate_average_service_time, calculate_average_queue_length,
  calculate_system_utilization, calculate_job_arrival_rate, calculate_job_drop_probability,
  calculate_average_system_time, calculate_overall_average_service_time,
}

-- Whatever the statistics and the index of the printer, no average divides by zero.
pub averages_lem :
    (s : SimulationStatistics) (i : ℕ)
    → IsDefined (calculate_average_inter_arrival_time s)
      × IsDefined (calculate_average_queue_wait_time s)
      × IsDefined (calculate_average_service_time s i)
      × IsDefined (calculate_average_queue_length s)
      × IsDefined (calculate_system_utilization s i)
      × IsDefined (calculate_job_arrival_rate s)
      × IsDefined (calculate_job_drop_probability s)
      × IsDefined (calculate_average_system_time s)
      × IsDefined (calculate_overall_average_service_time s)
unfolding calculate_average_inter_arrival_time calculate_average_queue_wait_time
    calculate_average_service_time calculate_average_queue_length calculate_system_utilization
    calculate_job_arrival_rate calculate_job_drop_probability calculate_average_system_time
    calculate_overall_average_service_time
averages_lem s i = (
  ground arith,
  ground arith,
  ground arith,
  ground arith,
  ground arith,
  ground arith,
  ground arith,
  ground arith,
  ground arith,
)

-- A share is at most one.
abbrev pub IsShare : Average → Type 0
IsShare zero_average = Unit
IsShare (over n d) = (1 ≤ d) × (n ≤ d)

pub drop_probability-IsShare :
    (s : SimulationStatistics)
    → s.total_jobs_dropped ≤ s.total_jobs_arrived
    → IsShare (calculate_job_drop_probability s)
unfolding calculate_job_drop_probability
drop_probability-IsShare s h = ground arith
