-- ===== src/SimulationStats/Printed/Tests.antt =====
-- What is printed at the end of a run in which nothing happened.
use concurrent_request_orche.Base.{◌≡◌, ◌++◌, ◌∷◌, refl, some}
use concurrent_request_orche.Text.{Text, codes, show_ℕ, show_ℤ}
use concurrent_request_orche.SimulationStats.{no_statistics}
use concurrent_request_orche.SimulationStats.Averages.{
  Average, zero_average, over, calculate_average_service_time, calculate_system_utilization,
  calculate_average_inter_arrival_time, calculate_average_system_time,
  calculate_average_queue_wait_time, calculate_average_queue_length, calculate_variance,
  calculate_job_arrival_rate, calculate_job_drop_probability,
}
use concurrent_request_orche.SimulationStats.Report.{Format, printers_to_report}
use concurrent_request_orche.SimulationStats.Printed.{
  log_statistics, flow_text, timing_text, all_printer_lines, printer_lines, paper_text,
}

-- Numbers of which only zero is printed.
abbrev zeros : Average → Text
zeros zero_average = codes "0"
zeros (over n d) = codes "0"

abbrev plain : Format
plain = record { general3 = zeros; root3 = zeros }

nothing_happened :
    log_statistics plain zeros no_statistics
    ≡ some (
        codes
          "\n================= SIMULATION STATISTICS =================\nSimulation Duration:               0 sec\n\n--- Job Flow Statistics ---\nTotal Jobs Arrived:                0\nTotal Jobs Served:                 0\nTotal Jobs Dropped:                0\nTotal Jobs Removed:                0\nJob Arrival Rate ("
        ++ 206
          ∷ 187
          ∷ codes
              "):              0 jobs/sec\nJob Drop Probability:              0 (0%)\n\n--- Timing Statistics ---\nAverage Inter-arrival Time:        0 sec\nAverage System Time:               0 sec\nSystem Time Standard Deviation:    0 sec\nAverage Queue Wait Time:           0 sec\n\n--- Queue Statistics ---\nAverage Queue Length:              0 jobs\nMaximum Queue Length:              0 jobs\n\n--- Printer Statistics ---\nJobs Served by Printer 1:          0\nTotal Paper Used by Printer 1:     0\nAvg Service Time (Printer 1):      0 sec\nUtilization (Printer 1):           0%\n\nJobs Served by Printer 2:          0\nTotal Paper Used by Printer 2:     0\nAvg Service Time (Printer 2):      0 sec\nUtilization (Printer 2):           0%\n\n--- Paper Management ---\nPaper Refill Events:               0\nTotal Refill Service Time:         0 sec\nPapers Refilled:                   0\n=========================================================\n")
unfolding log_statistics printers_to_report flow_text timing_text all_printer_lines printer_lines
    paper_text show_ℕ show_ℤ calculate_average_service_time calculate_system_utilization
    calculate_average_inter_arrival_time calculate_average_system_time
    calculate_average_queue_wait_time calculate_average_queue_length calculate_variance
    calculate_job_arrival_rate calculate_job_drop_probability
nothing_happened = refl
