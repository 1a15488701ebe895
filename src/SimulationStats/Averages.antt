-- ===== src/SimulationStats/Averages.antt =====
-- The averages of src/simulation_stats.c. A quotient of doubles is the exact fraction that it
-- approximates: `zero_average` is the guarded 0.0, and `over n d` is n / d.
use concurrent_request_orche.Base.{
  ℕ, zero, suc, ◌-◌, ◌*◌, ◌≤◌, Bool, none, some, List, [], ◌∷◌, leb, ◌==◌, if◌then◌else◌, get_elem?,
}
use concurrent_request_orche.Base.Int.{ℤ, pos, pos_part, ◌+ℤ◌, ◌-ℤ◌, ◌*ℤ◌}
use concurrent_request_orche.Words.{add64}
use concurrent_request_orche.SimulationStats.{SimulationStatistics}

pub data Average : Type 0 where
  zero_average : Average
  over : (numerator denominator : ℕ) → Average

abbrev pub guarded : Bool → Average → Average
guarded is_zero a = if is_zero then zero_average else a

unfoldable pub calculate_average_inter_arrival_time : SimulationStatistics → Average
calculate_average_inter_arrival_time s =
    guarded (leb s.total_jobs_arrived 1)
      (over s.total_inter_arrival_time_us (1_000_000 * (s.total_jobs_arrived - 1)))

unfoldable pub calculate_average_queue_wait_time : SimulationStatistics → Average
calculate_average_queue_wait_time s =
    guarded (s.total_jobs_served == 0)
      (over s.total_queue_wait_time_us (1_000_000 * s.total_jobs_served))

-- An index outside the arrays gives 0.0.
unfoldable pub calculate_average_service_time : SimulationStatistics → (printer_index : ℕ) → Average
calculate_average_service_time s i = elim (get_elem? s.jobs_served_by_printer i) [
  | none ↦ zero_average
  | some served ↦ elim (get_elem? s.total_service_time_printer_us i) [
    | none ↦ zero_average
    | some time ↦ guarded (served == 0) (over time (1_000_000 * served))
  ]
]

unfoldable pub calculate_average_queue_length : SimulationStatistics → Average
calculate_average_queue_length s =
    guarded (s.simulation_duration_us == 0)
      (over s.area_num_in_job_queue_us s.simulation_duration_us)

unfoldable pub calculate_system_utilization : SimulationStatistics → (printer_index : ℕ) → Average
calculate_system_utilization s i = elim (get_elem? s.total_service_time_printer_us i) [
  | none ↦ zero_average
  | some time ↦ guarded (s.simulation_duration_us == 0) (over time s.simulation_duration_us)
]

unfoldable pub calculate_job_arrival_rate : SimulationStatistics → Average
calculate_job_arrival_rate s =
    guarded (s.simulation_duration_us == 0)
      (over (1_000_000 * s.total_jobs_arrived) s.simulation_duration_us)

unfoldable pub calculate_job_drop_probability : SimulationStatistics → Average
calculate_job_drop_probability s =
    guarded (s.total_jobs_arrived == 0) (over s.total_jobs_dropped s.total_jobs_arrived)

unfoldable pub calculate_average_system_time : SimulationStatistics → Average
calculate_average_system_time s =
    guarded (s.total_jobs_served == 0)
      (over s.total_system_time_us (1_000_000 * s.total_jobs_served))

-- The sum of the first `n` elements, or of all if there are fewer.
unfoldable pub sum_first : (n : ℕ) → List ℤ → ℤ
sum_first zero xs = pos 0
sum_first (suc n) [] = pos 0
sum_first (suc n) (x ∷ xs) = x +ℤ sum_first n xs

unfoldable pub calculate_total_papers_used : SimulationStatistics → ℤ
unfolding sum_first
calculate_total_papers_used s = sum_first s.max_printers_used s.printer_paper_used

unfoldable pub time_first : (n : ℕ) → List ℕ → ℕ
time_first zero ts = 0
time_first (suc n) [] = 0
time_first (suc n) (t ∷ ts) = add64 t (time_first n ts)

unfoldable pub calculate_overall_average_service_time : SimulationStatistics → Average
unfolding time_first
calculate_overall_average_service_time s = guarded (s.total_jobs_served == 0) (
    over (time_first s.max_printers_used s.total_service_time_printer_us)
      (1_000_000 * s.total_jobs_served))

-- The variance of the system time in square microseconds, of which `calculate_system_time_std_dev`
-- takes the root: the mean of the squares less the square of the mean, and never below zero.
unfoldable pub calculate_variance : SimulationStatistics → Average
calculate_variance s =
    let n = s.total_jobs_served in
    let variance =
      s.sum_of_system_time_squared_us2 *ℤ pos n
      -ℤ pos (s.total_system_time_us * s.total_system_time_us) in
    guarded (leb n 1) (over (pos_part variance) (n * n))

-- No zero in a denominator.
abbrev pub IsDefined : Average → Type 0
IsDefined zero_average = Unit
IsDefined (over n d) = 1 ≤ d
