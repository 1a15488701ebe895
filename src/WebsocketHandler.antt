-- ===== src/WebsocketHandler.antt =====
-- src/websocket_handler.c: the handlers that send JSON messages to the browser. `now` is the clock
-- reading; a message goes to `ws_bridge_send_json_from_any_thread`.
pub mod JobsBuffer
pub mod Frames
mod Tests
use concurrent_request_orche.Base.{
  ℕ, ◌+◌, ◌-◌, Bool, true, false, none, some, List, map, leb, ltb, if◌then◌else◌,
}
use concurrent_request_orche.Base.Int.{ℤ, pos, ◌+ℤ◌}
use concurrent_request_orche.Words.{add64, sub64, mul64, to_int, to_word, mul_int}
use concurrent_request_orche.Config.{consumer_count_max}
use concurrent_request_orche.Job.{Job}
use concurrent_request_orche.Printer.{Printer}
use concurrent_request_orche.SimulationStats.{SimulationStatistics, modify}
use concurrent_request_orche.WebsocketHandler.JobsBuffer.{shown_jobs, header_width}
use concurrent_request_orche.Journal.{Journal, Message, Output, Status, line, say}

-- A message of type `log`.
abbrev publish_log : Journal → (time_us : ℕ) → Message → Journal
publish_log j time_us m = say j (line (sub64 time_us j.reference_time_us) m)

unfoldable pub publish_simulation_start : (now : ℕ) → Journal → Journal
publish_simulation_start now j =
    let j' : Journal = record j {
      reference_time_us = now;
      stats = record (j.stats) { simulation_start_time_us = now };
    } in
    publish_log (say j' Output.simulation_started) now Message.simulation_begins

unfoldable pub publish_simulation_end : (now : ℕ) → Journal → Journal
publish_simulation_end now j =
    let duration = sub64 now j.reference_time_us in
    let j' : Journal = record j {
      reference_end_time_us = now;
      stats = record (j.stats) { simulation_duration_us = duration };
    } in
    say (publish_log j' now (Message.simulation_ends duration))
      (Output.simulation_complete duration)

unfoldable pub arrival_message :
    Job
    → (previous_job_arrival_time_us current_job_arrival_time_us : ℕ) → (is_dropped : Bool) → Journal
    → Journal
arrival_message job previous current is_dropped j =
    publish_log j current
      (Message.job_arrives job.id job.papers_required (to_int (sub64 current previous)) is_dropped)

unfoldable pub publish_system_arrival : Job → (previous_job_arrival_time_us : ℕ) → Journal → Journal
unfolding arrival_message
publish_system_arrival job previous j =
    let s : SimulationStatistics = record (j.stats) {
      total_jobs_arrived = j.stats.total_jobs_arrived + 1;
      total_inter_arrival_time_us =
          add64 j.stats.total_inter_arrival_time_us (sub64 job.system_arrival_time_us previous);
    } in
    arrival_message job previous job.system_arrival_time_us false (record j { stats = s })

unfoldable pub publish_dropped_job : Job → (previous_job_arrival_time_us : ℕ) → Journal → Journal
unfolding arrival_message
publish_dropped_job job previous j =
    let s : SimulationStatistics = record (j.stats) {
      total_jobs_dropped = j.stats.total_jobs_dropped + 1;
    } in
    arrival_message job previous job.system_arrival_time_us true (record j { stats = s })

unfoldable pub publish_removed_job : (now : ℕ) → Job → Journal → Journal
publish_removed_job now job j = publish_log j now (Message.job_removed job.id)

unfoldable pub publish_queue_arrival :
    Job → (queue_length last_interaction_time_us : ℕ) → Journal → Journal
publish_queue_arrival job queue_length last_interaction j =
    let s : SimulationStatistics = record (j.stats) {
      area_num_in_job_queue_us =
          add64 j.stats.area_num_in_job_queue_us
            (mul64 (sub64 job.queue_arrival_time_us last_interaction) (sub64 queue_length 1));
    } in
    publish_log (record j { stats = s; queue_stamp = job.queue_arrival_time_us })
      job.queue_arrival_time_us (Message.enters_queue job.id queue_length)

unfoldable pub publish_queue_departure :
    Job → (queue_length last_interaction_time_us : ℕ) → Journal → Journal
publish_queue_departure job queue_length last_interaction j =
    let s : SimulationStatistics = record (j.stats) {
      area_num_in_job_queue_us =
          add64 j.stats.area_num_in_job_queue_us
            (mul64 (sub64 job.queue_departure_time_us last_interaction) (queue_length + 1));
    } in
    publish_log (record j { stats = s; queue_stamp = job.queue_departure_time_us })
      job.queue_departure_time_us
      (Message.leaves_queue job.id
        (pos (sub64 job.queue_departure_time_us job.queue_arrival_time_us)) queue_length)

unfoldable pub publish_job_update : Job → Journal → Journal
publish_job_update job j = say j (Output.job_update job.id job.papers_required)

unfoldable pub publish_jobs_update : (job_queue : List Job) → Journal → Journal
publish_jobs_update queue j =
    let shown : List Job = (shown_jobs true header_width queue).0 in
    say j (Output.jobs_update (map (λ (job : Job). (job.id, job.papers_required)) shown))

unfoldable pub publish_printer_arrival : Job → Printer → Journal → Journal
publish_printer_arrival job printer j =
    publish_log j job.service_arrival_time_us
      (Message.begins_service job.id printer.id job.papers_required job.service_time_requested_ms)

-- The per-printer part of the statistics of `publish_system_departure`.
unfoldable pub count_for_printer :
    Job → Printer → (service_duration : ℤ) → SimulationStatistics → SimulationStatistics
count_for_printer job printer service_duration s =
    if leb 1 printer.id
    then if leb printer.id consumer_count_max
      then record s {
        jobs_served_by_printer = modify s.jobs_served_by_printer (printer.id - 1) (λ n. n + 1);
        printer_paper_used =
            modify s.printer_paper_used (printer.id - 1) (λ n. n +ℤ job.papers_required);
        total_service_time_printer_us =
            modify s.total_service_time_printer_us (printer.id - 1)
              (λ n. add64 n (to_word service_duration));
        max_printers_used =
            if ltb s.max_printers_used printer.id then printer.id else s.max_printers_used;
      }
      else s
    else s

unfoldable pub publish_system_departure : Job → Printer → Journal → Journal
unfolding count_for_printer
publish_system_departure job printer j =
    let system_time = to_int (sub64 job.service_departure_time_us job.system_arrival_time_us) in
    let service_duration =
      to_int (sub64 job.service_departure_time_us job.service_arrival_time_us) in
    let s : SimulationStatistics = record (j.stats) {
      total_system_time_us = add64 j.stats.total_system_time_us (to_word system_time);
      sum_of_system_time_squared_us2 =
          j.stats.sum_of_system_time_squared_us2 +ℤ mul_int system_time system_time;
      total_jobs_served = j.stats.total_jobs_served + 1;
    } in
    let s' = count_for_printer job printer service_duration s in
    let s'' : SimulationStatistics = record s' {
      total_queue_wait_time_us =
          add64 s'.total_queue_wait_time_us
            (sub64 job.queue_departure_time_us job.queue_arrival_time_us);
    } in
    publish_log (record j { stats = s'' }) job.service_departure_time_us
      (Message.departs job.id printer.id service_duration)

unfoldable pub publish_paper_empty : Printer → (job_id now : ℕ) → Journal → Journal
publish_paper_empty printer job_id now j = publish_log j now (Message.needs_paper printer.id job_id)

unfoldable pub publish_paper_refill_start :
    Printer → (papers_needed time_to_refill_us : ℤ) → (now : ℕ) → Journal → Journal
publish_paper_refill_start printer papers time now j =
    publish_log j now (Message.refill_starts printer.id papers time)

unfoldable pub publish_paper_refill_end :
    Printer → (refill_duration_us : ℤ) → (now : ℕ) → Journal → Journal
publish_paper_refill_end printer duration now j =
    publish_log j now (Message.refill_ends printer.id duration)

unfoldable pub publish_simulation_stopped : (now : ℕ) → Journal → Journal
publish_simulation_stopped now j =
    let duration = sub64 now j.reference_time_us in
    let j' : Journal = record j {
      reference_end_time_us = now;
      stats = record (j.stats) { simulation_duration_us = duration };
    } in
    publish_log j' now (Message.simulation_stopped duration)

unfoldable pub publish_scale_up : (new_printer_count queue_length now : ℕ) → Journal → Journal
publish_scale_up n queue_length now j = publish_log j now (Message.scaled_up n queue_length)

unfoldable pub publish_scale_down : (new_printer_count queue_length now : ℕ) → Journal → Journal
publish_scale_down n queue_length now j = publish_log j now (Message.scaled_down n queue_length)

unfoldable pub publish_printer_idle : Printer → Journal → Journal
publish_printer_idle printer j =
    say j (Output.consumer_update printer.id printer.current_paper_count Status.idle none)

unfoldable pub publish_printer_busy : Printer → (job_id : ℕ) → Journal → Journal
publish_printer_busy printer job_id j =
    say j
      (Output.consumer_update printer.id printer.current_paper_count Status.serving (some job_id))

unfoldable pub publish_printer_waiting_refill : Printer → Journal → Journal
publish_printer_waiting_refill printer j =
    say j (Output.consumer_update printer.id printer.current_paper_count Status.waiting_refill none)

unfoldable pub publish_stats_update : (queue_length : ℕ) → Journal → Journal
publish_stats_update queue_length j = say j (Output.stats_update j.stats queue_length)

unfoldable pub publish_statistics : Journal → Journal
publish_statistics j = say j (Output.statistics j.stats)
