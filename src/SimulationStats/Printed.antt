-- ===== src/SimulationStats/Printed.antt =====
-- `log_statistics` of src/simulation_stats.c: the statistics as they are printed on the terminal.
mod Tests
use concurrent_request_orche.Base.{
  ℕ, zero, suc, ◌+◌, ◌*◌, Bool, true, false, Option, none, some, List, [], ◌∷◌, ◌++◌, get_elem?,
  leb, if◌then◌else◌,
}
use concurrent_request_orche.Text.{Text, codes, joined, show_ℕ, show_ℤ}
use concurrent_request_orche.SimulationStats.{SimulationStatistics}
use concurrent_request_orche.SimulationStats.Averages.{
  Average, zero_average, over, calculate_average_inter_arrival_time, calculate_average_system_time,
  calculate_average_queue_wait_time, calculate_average_queue_length, calculate_variance,
  calculate_job_arrival_rate, calculate_job_drop_probability, calculate_average_service_time,
  calculate_system_utilization,
}
use concurrent_request_orche.SimulationStats.Report.{Format, seconds, printers_to_report}

abbrev in_percent : Average → Average
in_percent zero_average = zero_average
in_percent (over n d) = over (100 * n) d

-- `%s:` padded by the code, the number, and what follows it up to the end of the line.
printed_line : (label number unit : Text) → Text
printed_line label number unit = joined (label ∷ number ∷ unit ∷ codes "\n" ∷ [])

-- `fixed2` is `%.2f`.
module _ (f : Format) (fixed2 : Average → Text) where
  unfoldable pub flow_text : SimulationStatistics → Text
  unfolding printed_line
  flow_text s =
      let dropped = calculate_job_drop_probability s in
      joined (
        codes "\n"
        ∷ codes "================= SIMULATION STATISTICS =================\n"
        ∷ printed_line (codes "Simulation Duration:               ")
            (f.general3 (seconds s.simulation_duration_us)) (codes " sec")
        ∷ codes "\n"
        ∷ codes "--- Job Flow Statistics ---\n"
        ∷ printed_line (codes "Total Jobs Arrived:                ") (show_ℕ s.total_jobs_arrived)
            []
        ∷ printed_line (codes "Total Jobs Served:                 ") (show_ℕ s.total_jobs_served) []
        ∷ printed_line (codes "Total Jobs Dropped:                ") (show_ℕ s.total_jobs_dropped)
            []
        ∷ printed_line (codes "Total Jobs Removed:                ") (show_ℕ s.total_jobs_removed)
            []
        ∷ printed_line (codes "Job Arrival Rate (" ++ 206 ∷ 187 ∷ codes "):              ")
            (f.general3 (calculate_job_arrival_rate s)) (codes " jobs/sec")
        ∷ printed_line (codes "Job Drop Probability:              ") (f.general3 dropped)
            (joined (codes " (" ∷ fixed2 (in_percent dropped) ∷ codes "%)" ∷ []))
        ∷ codes "\n"
        ∷ [])

  unfoldable pub timing_text : SimulationStatistics → Text
  unfolding printed_line
  timing_text s = joined (
      codes "--- Timing Statistics ---\n"
      ∷ printed_line (codes "Average Inter-arrival Time:        ")
          (f.general3 (calculate_average_inter_arrival_time s)) (codes " sec")
      ∷ printed_line (codes "Average System Time:               ")
          (f.general3 (calculate_average_system_time s)) (codes " sec")
      ∷ printed_line (codes "System Time Standard Deviation:    ") (f.root3 (calculate_variance s))
          (codes " sec")
      ∷ printed_line (codes "Average Queue Wait Time:           ")
          (f.general3 (calculate_average_queue_wait_time s)) (codes " sec")
      ∷ codes "\n"
      ∷ codes "--- Queue Statistics ---\n"
      ∷ printed_line (codes "Average Queue Length:              ")
          (f.general3 (calculate_average_queue_length s)) (codes " jobs")
      ∷ printed_line (codes "Maximum Queue Length:              ") (show_ℕ s.max_job_queue_length)
          (codes " jobs")
      ∷ codes "\n"
      ∷ codes "--- Printer Statistics ---\n"
      ∷ [])

  -- The four lines of a printer, and an empty one unless it is the last. The arrays are read at the
  -- index; outside them the code reads what lies behind.
  unfoldable pub printer_lines : (is_last : Bool) → (index : ℕ) → SimulationStatistics → Option Text
  unfolding printed_line
  printer_lines is_last i s =
      let number = show_ℕ (i + 1) in
      elim (get_elem? s.jobs_served_by_printer i) [
        | none ↦ none
        | some served ↦ elim (get_elem? s.printer_paper_used i) [
          | none ↦ none
          | some papers ↦ some (
              joined (
                printed_line
                  (joined (codes "Jobs Served by Printer " ∷ number ∷ codes ":          " ∷ []))
                  (show_ℕ served) []
                ∷ printed_line
                    (joined (codes "Total Paper Used by Printer " ∷ number ∷ codes ":     " ∷ []))
                    (show_ℤ papers) []
                ∷ printed_line
                    (joined (codes "Avg Service Time (Printer " ∷ number ∷ codes "):      " ∷ []))
                    (f.general3 (calculate_average_service_time s i)) (codes " sec")
                ∷ printed_line
                    (joined (codes "Utilization (Printer " ∷ number ∷ codes "):           " ∷ []))
                    (f.general3 (in_percent (calculate_system_utilization s i))) (codes "%")
                ∷ (if is_last then [] else codes "\n")
                ∷ []))
        ]
      ]

  -- The loop over the printers; `remaining` counts down to the last.
  unfoldable pub all_printer_lines : (remaining index : ℕ) → SimulationStatistics → Option Text
  unfolding printer_lines
  all_printer_lines zero i s = some []
  all_printer_lines (suc n) i s = elim (printer_lines (leb n 0) i s) [
    | none ↦ none
    | some t ↦ elim (all_printer_lines n (i + 1) s) [ none ↦ none | some rest ↦ some (t ++ rest) ]
  ]

  unfoldable pub paper_text : SimulationStatistics → Text
  unfolding printed_line
  paper_text s = joined (
      codes "\n"
      ∷ codes "--- Paper Management ---\n"
      ∷ printed_line (codes "Paper Refill Events:               ") (show_ℕ s.paper_refill_events) []
      ∷ printed_line (codes "Total Refill Service Time:         ")
          (f.general3 (seconds s.total_refill_service_time_us)) (codes " sec")
      ∷ printed_line (codes "Papers Refilled:                   ") (show_ℤ s.papers_refilled) []
      ∷ codes "=========================================================\n"
      ∷ [])

  -- What is printed, as one text.
  unfoldable pub log_statistics : SimulationStatistics → Option Text
  unfolding printers_to_report flow_text timing_text all_printer_lines paper_text
  log_statistics s = elim (all_printer_lines (printers_to_report s) 0 s) [
    | none ↦ none
    | some t ↦ some (joined (flow_text s ∷ timing_text s ∷ t ∷ paper_text s ∷ []))
  ]
