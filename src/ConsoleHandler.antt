-- ===== src/ConsoleHandler.antt =====
-- src/console_handler.c: the handlers that print to the terminal. `now` is the clock reading.
pub mod Lines
pub mod Parameters
pub mod Squares
mod Tests
use concurrent_request_orche.Base.{ℕ, ◌+◌, ◌-◌, Bool, true, false, leb, ltb, if◌then◌else◌}
use concurrent_request_orche.Base.Int.{ℤ, ◌+ℤ◌}
use concurrent_request_orche.Words.{add64, sub64, mul64, to_int, to_word, mul_int}
use concurrent_request_orche.Config.{consumer_count_max}
use concurrent_request_orche.Job.{Job}
use concurrent_request_orche.Printer.{Printer}
use concurrent_request_orche.SimulationStats.{SimulationStatistics, modify}
use concurrent_request_orche.Journal.{Journal, Message, line, say}

-- `log_time` and what follows it on the line.
abbrev log_line : Journal → (time_us : ℕ) → Message → Journal
log_line j time_us m = say j (line (sub64 time_us j.reference_time_us) m)

unfoldable pub log_simulation_start : (now : ℕ) → Journal → Journal
log_simulation_start now j =
    let j' : Journal = record j {
      reference_time_us = now;
      stats = record (j.stats) { simulation_start_time_us = now };
    } in
    log_line j' now Message.simulation_begins

unfoldable pub log_simulation_end : (now : ℕ) → Journal → Journal
log_simulation_end now j =
    let duration = sub64 now j.reference_time_us in
    let j' : Journal = record j {
      reference_end_time_us = now;
      stats = record (j.stats) { simulation_duration_us = duration };
    } in
    log_line j' now (Message.simulation_ends duration)

unfoldable pub job_arrival_helper :
    Job
    → (previous_job_arrival_time_us current_job_arrival_time_us : ℕ) → (is_dropped : Bool) → Journal
    → Journal
job_arrival_helper job previous current is_dropped j =
    log_line j current
      (Message.job_arrives job.id job.papers_required (to_int (sub64 current previous)) is_dropped)

unfoldable pub log_system_arrival : Job → (previous_job_arrival_time_us : ℕ) → Journal → Journal
unfolding job_arrival_helper
log_system_arrival job previous j =
    let s : SimulationStatistics = record (j.stats) {
      total_jobs_arrived = j.stats.total_jobs_arrived + 1;
      total_inter_arrival_time_us =
          add64 j.stats.total_inter_arrival_time_us (sub64 job.system_arrival_time_us previous);
    } in
    job_arrival_helper job previous job.system_arrival_time_us false (record j { stats = s })

unfoldable pub log_dropped_job : Job → (previous_job_arrival_time_us : ℕ) → Journal → Journal
unfolding job_arrival_helper
log_dropped_job job previous j =
    let s : SimulationStatistics = record (j.stats) {
      total_jobs_dropped = j.stats.total_jobs_dropped + 1;
    } in
    job_arrival_helper job previous job.system_arrival_time_us true (record j { stats = s })

unfoldable pub log_removed_job : (now : ℕ) → Job → Journal → Journal
log_removed_job now job j = log_line j now (Message.job_removed job.id)

-- `queue_length` is the length of the queue after the job went in; C subtracts 1 from it as an `int`.
unfoldable pub log_queue_arrival :
    Job → (queue_length last_interaction_time_us : ℕ) → Journal → Journal
log_queue_arrival job queue_length last_interaction j =
    let s : SimulationStatistics = record (j.stats) {
      area_num_in_job_queue_us =
          add64 j.stats.area_num_in_job_queue_us
            (mul64 (sub64 job.queue_arrival_time_us last_interaction) (sub64 queue_length 1));
    } in
    log_line (record j { stats = s; queue_stamp = job.queue_arrival_time_us })
      job.queue_arrival_time_us (Message.enters_queue job.id queue_length)

unfoldable pub log_queue_departure :
    Job → (queue_length last_interaction_time_us : ℕ) → Journal → Journal
log_queue_departure job queue_length last_interaction j =
    let s : SimulationStatistics = record (j.stats) {
      area_num_in_job_queue_us =
          add64 j.stats.area_num_in_job_queue_us
            (mul64 (sub64 job.queue_departure_time_us last_interaction) (queue_length + 1));
    } in
    log_line (record j { stats = s; queue_stamp = job.queue_departure_time_us })
      job.queue_departure_time_us
      (Message.leaves_queue job.id
        (to_int (sub64 job.queue_departure_time_us job.queue_arrival_time_us)) queue_length)

unfoldable pub log_printer_arrival : Job → Printer → Journal → Journal
log_printer_arrival job printer j =
    log_line j job.service_arrival_time_us
      (Message.begins_service job.id printer.id job.papers_required job.service_time_requested_ms)

-- The statistics of `log_system_departure`.
unfoldable pub departure_stats : Job → Printer → SimulationStatistics → SimulationStatistics
departure_stats job printer s =
    let system_time = to_int (sub64 job.service_departure_time_us job.system_arrival_time_us) in
    let service_duration =
      to_int (sub64 job.service_departure_time_us job.service_arrival_time_us) in
    let s' : SimulationStatistics = record s {
      total_system_time_us = add64 s.total_system_time_us (to_word system_time);
      sum_of_system_time_squared_us2 =
          s.sum_of_system_time_squared_us2 +ℤ mul_int system_time system_time;
      total_jobs_served = s.total_jobs_served + 1;
      total_queue_wait_time_us =
          add64 s.total_queue_wait_time_us
            (sub64 job.queue_departure_time_us job.queue_arrival_time_us);
    } in
    if leb 1 printer.id
    then if leb printer.id consumer_count_max
      then record s' {
        jobs_served_by_printer = modify s.jobs_served_by_printer (printer.id - 1) (λ n. n + 1);
        printer_paper_used =
            modify s.printer_paper_used (printer.id - 1) (λ n. n +ℤ job.papers_required);
        total_service_time_printer_us =
            modify s.total_service_time_printer_us (printer.id - 1)
              (λ n. add64 n (to_word service_duration));
        max_printers_used =
            if ltb s.max_printers_used printer.id then printer.id else s.max_printers_used;
      }
      else s'
    else s'

unfoldable pub log_system_departure : Job → Printer → Journal → Journal
unfolding departure_stats
log_system_departure job printer j =
    log_line (record j { stats = departure_stats job printer j.stats })
      job.service_departure_time_us
      (Message.departs job.id printer.id
        (to_int (sub64 job.service_departure_time_us job.service_arrival_time_us)))

unfoldable pub log_paper_empty : Printer → (job_id now : ℕ) → Journal → Journal
log_paper_empty printer job_id now j = log_line j now (Message.needs_paper printer.id job_id)

unfoldable pub log_paper_refill_start :
    Printer → (papers_needed time_to_refill_us : ℤ) → (now : ℕ) → Journal → Journal
log_paper_refill_start printer papers time now j =
    log_line j now (Message.refill_starts printer.id papers time)

unfoldable pub log_paper_refill_end :
    Printer → (refill_duration_us : ℤ) → (now : ℕ) → Journal → Journal
log_paper_refill_end printer duration now j =
    log_line j now (Message.refill_ends printer.id duration)

unfoldable pub log_ctrl_c_pressed : (now : ℕ) → Journal → Journal
log_ctrl_c_pressed now j =
    let duration = sub64 now j.reference_time_us in
    let j' : Journal = record j {
      reference_end_time_us = now;
      stats = record (j.stats) { simulation_duration_us = duration };
    } in
    log_line j' now (Message.simulation_stopped duration)

unfoldable pub log_scale_up : (new_printer_count queue_length now : ℕ) → Journal → Journal
log_scale_up n queue_length now j = log_line j now (Message.scaled_up n queue_length)

unfoldable pub log_scale_down : (new_printer_count queue_length now : ℕ) → Journal → Journal
log_scale_down n queue_length now j = log_line j now (Message.scaled_down n queue_length)
