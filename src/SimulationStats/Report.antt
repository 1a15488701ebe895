-- ===== src/SimulationStats/Report.antt =====
-- `write_statistics_to_buffer` of src/simulation_stats.c: the statistics as JSON, printed piece by
-- piece into a buffer by `snprintf`.
pub mod Fits
pub mod Blank
mod Tests
use concurrent_request_orche.Base.{
  ℕ, zero, suc, ◌+◌, ◌-◌, ◌*◌, Bool, true, false, ◌||◌, Option, none, some, List, [], ◌∷◌, ◌++◌,
  length, take, get_elem?, ltb, leb, if◌then◌else◌,
}
use concurrent_request_orche.Base.Int.{ℤ, pos, ◌-ℤ◌, ltb_ℤ}
use concurrent_request_orche.Text.{Text, codes, joined, show_ℕ, show_ℤ}
use concurrent_request_orche.SimulationStats.{SimulationStatistics}
use concurrent_request_orche.SimulationStats.Averages.{
  Average, zero_average, over, calculate_average_inter_arrival_time, calculate_average_system_time,
  calculate_average_queue_wait_time, calculate_average_queue_length, calculate_variance,
  calculate_job_arrival_rate, calculate_job_drop_probability, calculate_average_service_time,
  calculate_system_utilization,
}

-- What is in the buffer up to the first zero byte, the offset at which the next piece is put, and
-- whether a piece was put behind the end.
pub record Buffer : Type 0 where
  pub size : ℕ
  pub content : Text
  pub offset : ℕ
  pub is_overrun : Bool

-- `offset += snprintf(buf + offset, buf_size - offset, …)`: `snprintf` leaves room for a zero byte,
-- and gives the length that the whole text has. Behind the end of the buffer `buf_size - offset` is
-- negative, and as a `size_t` no bound at all.
unfoldable pub put : Text → Buffer → Buffer
put t b = record b {
  content = b.content ++ take (b.size - b.offset - 1) t;
  offset = b.offset + length t;
  is_overrun = b.is_overrun || ltb b.size b.offset;
}

-- `%.3g`, and `%.3g` of the square root, in seconds for a number of square microseconds.
pub record Format : Type 0 where
  pub general3 : Average → Text
  pub root3 : Average → Text

abbrev pub seconds : (us : ℕ) → Average
seconds us = over us 1_000_000

-- `max_printers_used` if there were any, else two.
unfoldable pub printers_to_report : SimulationStatistics → ℕ
printers_to_report s = if ltb 0 s.max_printers_used then s.max_printers_used else 2

module _ (f : Format) where
  unfoldable pub head_text : SimulationStatistics → Text
  head_text s = joined (
      codes "{\"type\":\"statistics\", \"data\":{\"simulation_duration_sec\":"
      ∷ f.general3 (seconds s.simulation_duration_us)
      ∷ codes ",\"total_jobs_arrived\":"
      ∷ show_ℕ s.total_jobs_arrived
      ∷ codes ",\"total_jobs_served\":"
      ∷ show_ℕ s.total_jobs_served
      ∷ codes ",\"total_jobs_dropped\":"
      ∷ show_ℕ s.total_jobs_dropped
      ∷ codes ",\"total_jobs_removed\":"
      ∷ show_ℕ s.total_jobs_removed
      ∷ codes ",\"job_arrival_rate_per_sec\":"
      ∷ f.general3 (calculate_job_arrival_rate s)
      ∷ codes ",\"job_drop_probability\":"
      ∷ f.general3 (calculate_job_drop_probability s)
      ∷ codes ",\"avg_inter_arrival_time_sec\":"
      ∷ f.general3 (calculate_average_inter_arrival_time s)
      ∷ codes ",\"avg_system_time_sec\":"
      ∷ f.general3 (calculate_average_system_time s)
      ∷ codes ",\"system_time_std_dev_sec\":"
      ∷ f.root3 (calculate_variance s)
      ∷ codes ",\"avg_queue_wait_time_sec\":"
      ∷ f.general3 (calculate_average_queue_wait_time s)
      ∷ codes ",\"avg_queue_length\":"
      ∷ f.general3 (calculate_average_queue_length s)
      ∷ codes ",\"max_queue_length\":"
      ∷ show_ℕ s.max_job_queue_length
      ∷ codes ","
      ∷ [])

  unfoldable pub printer_entry :
      (is_last : Bool) → (index served : ℕ) → (papers : ℤ) → SimulationStatistics → Text
  printer_entry is_last i served papers s = joined (
      codes "{\"id\":"
      ∷ show_ℕ (i + 1)
      ∷ codes ",\"jobs_served\":"
      ∷ show_ℕ served
      ∷ codes ",\"paper_used\":"
      ∷ show_ℤ papers
      ∷ codes ",\"avg_service_time_sec\":"
      ∷ f.general3 (calculate_average_service_time s i)
      ∷ codes ",\"utilization\":"
      ∷ f.general3 (calculate_system_utilization s i)
      ∷ codes "}"
      ∷ (if is_last then [] else codes ",")
      ∷ [])

  -- The arrays are read at the index; outside them the code reads what lies behind.
  unfoldable pub printer_text : (is_last : Bool) → (index : ℕ) → SimulationStatistics → Option Text
  unfolding printer_entry
  printer_text is_last i s = elim (get_elem? s.jobs_served_by_printer i) [
    | none ↦ none
    | some served ↦ elim (get_elem? s.printer_paper_used i) [
      | none ↦ none
      | some papers ↦ some (printer_entry is_last i served papers s)
    ]
  ]

  -- The loop over the printers; `remaining` counts down to the last.
  unfoldable pub put_printers :
      (remaining index : ℕ) → SimulationStatistics → Buffer → Option Buffer
  put_printers zero i s b = some b
  put_printers (suc n) i s b = elim (printer_text (leb n 0) i s) [
    | none ↦ none
    | some t ↦ put_printers n (i + 1) s (put t b)
  ]

  unfoldable pub tail_text : SimulationStatistics → Text
  tail_text s = joined (
      codes "],\"paper_refill_events\":"
      ∷ show_ℕ s.paper_refill_events
      ∷ codes ",\"total_refill_service_time_sec\":"
      ∷ f.general3 (seconds s.total_refill_service_time_us)
      ∷ codes ",\"papers_refilled\":"
      ∷ show_ℤ s.papers_refilled
      ∷ codes "}}"
      ∷ [])

  abbrev empty_buffer : (buf_size : ℕ) → Buffer
  empty_buffer n = record { size = n; content = []; offset = 0; is_overrun = false }

  -- The pointers are not null; a size that is not positive is refused (-1 in C, `none` here), and so
  -- counts as a failure what reads behind the arrays.
  unfoldable pub write_statistics_to_buffer : SimulationStatistics → (buf_size : ℕ) → Option Buffer
  unfolding printers_to_report put_printers
  write_statistics_to_buffer s zero = none
  write_statistics_to_buffer s (suc n) =
      elim (put_printers (printers_to_report s) 0 s
        (put (codes "\"printers\":[") (put (head_text s) (empty_buffer (suc n))))) [
          | none ↦ none
          | some b ↦ some (put (tail_text s) b)
        ]
