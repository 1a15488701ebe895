-- ===== src/ConsoleHandler/Tests.antt =====
-- A departure after 50000 us in the system.
use concurrent_request_orche.Base.{◌-◌, ◌*◌, ◌^◌, ◌≤◌, ◌≡◌, refl, ◌⊎◌, true, arith}
use concurrent_request_orche.Base.Int.{pos, negsuc, ◌+ℤ◌}
use concurrent_request_orche.Words.{to_int, sub64}
use concurrent_request_orche.Job.{Job}
use concurrent_request_orche.Printer.{Printer}
use concurrent_request_orche.SimulationStats.{no_statistics}
use concurrent_request_orche.ConsoleHandler.{departure_stats}
use concurrent_request_orche.ConsoleHandler.Squares.{system_time, departure_stats-square}

abbrev quick : Job
quick = record {
  id = 3;
  inter_arrival_time_us = pos 200_000;
  papers_required = pos 10;
  service_time_requested_ms = pos 40;
  system_arrival_time_us = 700_000;
  queue_arrival_time_us = 700_010;
  queue_departure_time_us = 700_100;
  service_arrival_time_us = 700_110;
  service_departure_time_us = 750_000;
}

abbrev second : Printer
second = record {
  id = 2;
  current_paper_count = pos 40;
  total_papers_used = pos 10;
  capacity = pos 50;
  jobs_printed_count = 1;
  last_job_completion_time_us = 750_000;
  is_idle = true;
}

fifty : system_time quick ≡ pos 50_000
unfolding to_int sub64
fifty = refl

departure_stats-square_example :
    (50_000 ≤ 46_340)
      × ((departure_stats quick second no_statistics).sum_of_system_time_squared_us2
          ≡ pos 0 +ℤ pos (50_000 * 50_000))
    ⊎ (46_341 ≤ 50_000)
      × ((departure_stats quick second no_statistics).sum_of_system_time_squared_us2
          ≡ pos 0 +ℤ negsuc (2 ^ 32 - 50_000 * 50_000 - 1))
departure_stats-square_example =
    departure_stats-square quick second no_statistics 50_000 fifty (omega arith)
