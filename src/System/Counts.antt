-- ===== src/System/Counts.antt =====
-- What each segment of a thread adds to the four counts of jobs in the statistics.
use concurrent_request_orche.Base.{ℕ, ◌+◌, ◌≡◌, Bool, true, false, List, if-both, leb, arith}
use concurrent_request_orche.Base.Int.{ℤ, ◌+ℤ◌, ◌-ℤ◌}
use concurrent_request_orche.Words.{add64, sub64, to_int, to_word, mul_int}
use concurrent_request_orche.Journal.{Journal}
use concurrent_request_orche.Config.{consumer_count_max}
use concurrent_request_orche.Job.{Job}
use concurrent_request_orche.Printer.{Printer}
use concurrent_request_orche.SimulationStats.{SimulationStatistics}
use concurrent_request_orche.ConsoleHandler.{
  log_ctrl_c_pressed, log_dropped_job, log_paper_empty, log_paper_refill_end,
  log_paper_refill_start, log_printer_arrival, log_queue_arrival, log_queue_departure,
  log_system_arrival, log_system_departure, job_arrival_helper, departure_stats,
}
use concurrent_request_orche.WebsocketHandler.{
  publish_dropped_job, publish_job_update, publish_jobs_update, publish_paper_empty,
  publish_paper_refill_end, publish_paper_refill_start, publish_printer_arrival,
  publish_printer_busy, publish_printer_idle, publish_printer_waiting_refill, publish_queue_arrival,
  publish_queue_departure, publish_simulation_stopped, publish_stats_update, publish_system_arrival,
  publish_system_departure, arrival_message, count_for_printer,
}
use concurrent_request_orche.LogRouter.{
  console_ops, websocket_ops, emit_dropped_job, emit_job_update, emit_jobs_update, emit_paper_empty,
  emit_paper_refill_end, emit_paper_refill_start, emit_printer_arrival, emit_printer_busy,
  emit_printer_idle, emit_printer_waiting_refill, emit_queue_arrival, emit_queue_departure,
  emit_simulation_stopped, emit_stats_update, emit_system_arrival, emit_system_departure,
}
use concurrent_request_orche.Simulation.{Simulation, backend}
use concurrent_request_orche.SignalCatcher.{stop_simulation}
use concurrent_request_orche.JobReceiver.{
  arrive, drop_job_from_system, enqueue_allocated, enqueue_failed,
}
use concurrent_request_orche.Printer.Service.{
  take_job, begin_service, finish_service, request_refill_allocated, request_refill_failed, resume,
}
use concurrent_request_orche.PaperRefiller.{begin_refill, finish_refill}

pub record Gains (arrived served dropped removed : ℕ) (s t : SimulationStatistics) : Type 0 where
  pub gain_arrived : t.total_jobs_arrived ≡ s.total_jobs_arrived + arrived
  pub gain_served : t.total_jobs_served ≡ s.total_jobs_served + served
  pub gain_dropped : t.total_jobs_dropped ≡ s.total_jobs_dropped + dropped
  pub gain_removed : t.total_jobs_removed ≡ s.total_jobs_removed + removed

gains :
    {a b c d : ℕ} {s t : SimulationStatistics}
    → t.total_jobs_arrived ≡ s.total_jobs_arrived + a
    → t.total_jobs_served ≡ s.total_jobs_served + b
    → t.total_jobs_dropped ≡ s.total_jobs_dropped + c
    → t.total_jobs_removed ≡ s.total_jobs_removed + d
    → Gains a b c d s t
gains e f g h = record { gain_arrived = e; gain_served = f; gain_dropped = g; gain_removed = h }

departure_stats-Gains :
    (job : Job) (printer : Printer) (s : SimulationStatistics)
    → Gains 0 1 0 0 s (departure_stats job printer s)
unfolding departure_stats
departure_stats-Gains job printer s =
    if-both (Gains 0 1 0 0 s) (leb 1 printer.id)
      (if-both (Gains 0 1 0 0 s) (leb printer.id consumer_count_max)
        (gains (omega arith) (omega arith) (omega arith) (omega arith))
        (gains (omega arith) (omega arith) (omega arith) (omega arith)))
      (gains (omega arith) (omega arith) (omega arith) (omega arith))

count_for_printer-Gains :
    (job : Job) (printer : Printer) (duration : ℤ) (s : SimulationStatistics)
    → Gains 0 0 0 0 s (count_for_printer job printer duration s)
unfolding count_for_printer
count_for_printer-Gains job printer duration s =
    if-both (Gains 0 0 0 0 s) (leb 1 printer.id)
      (if-both (Gains 0 0 0 0 s) (leb printer.id consumer_count_max)
        (gains (omega arith) (omega arith) (omega arith) (omega arith))
        (gains (omega arith) (omega arith) (omega arith) (omega arith)))
      (gains (omega arith) (omega arith) (omega arith) (omega arith))

publish_system_departure-Gains :
    (job : Job) (printer : Printer) (j : Journal)
    → Gains 0 1 0 0 j.stats ((publish_system_departure job printer j).stats)
unfolding publish_system_departure
publish_system_departure-Gains job printer j =
    let system_time = to_int (sub64 job.service_departure_time_us job.system_arrival_time_us) in
    let duration = to_int (sub64 job.service_departure_time_us job.service_arrival_time_us) in
    let s : SimulationStatistics = record (j.stats) {
      total_system_time_us = add64 j.stats.total_system_time_us (to_word system_time);
      sum_of_system_time_squared_us2 =
          j.stats.sum_of_system_time_squared_us2 +ℤ mul_int system_time system_time;
      total_jobs_served = j.stats.total_jobs_served + 1;
    } in
    let g = count_for_printer-Gains job printer duration s in
    record {
      gain_arrived = omega (arith, g.gain_arrived);
      gain_served = omega (arith, g.gain_served);
      gain_dropped = omega (arith, g.gain_dropped);
      gain_removed = omega (arith, g.gain_removed);
    }

pub arrive-Gains :
    (is_server : Bool) (now previous : ℕ) (job : Job) (s : Simulation)
    → Gains 1 0 0 0 s.journal.stats
        (((arrive (backend is_server) now previous job s).1).journal.stats)
unfolding arrive console_ops websocket_ops emit_system_arrival emit_stats_update log_system_arrival
    job_arrival_helper publish_system_arrival arrival_message publish_stats_update
arrive-Gains true now previous job s = gains (omega arith) (omega arith) (omega arith) (omega arith)
arrive-Gains false now previous job s =
    gains (omega arith) (omega arith) (omega arith) (omega arith)

pub drop_job_from_system-Gains :
    (is_server : Bool) (previous : ℕ) (job : Job) (s : Simulation)
    → Gains 0 0 1 0 s.journal.stats
        ((drop_job_from_system (backend is_server) previous job s).journal.stats)
unfolding drop_job_from_system console_ops websocket_ops emit_dropped_job log_dropped_job
    job_arrival_helper publish_dropped_job arrival_message
drop_job_from_system-Gains true previous job s =
    gains (omega arith) (omega arith) (omega arith) (omega arith)
drop_job_from_system-Gains false previous job s =
    gains (omega arith) (omega arith) (omega arith) (omega arith)

pub enqueue-Gains :
    (is_server : Bool) (now now' : ℕ) (job : Job) (s : Simulation)
    → Gains 0 0 0 0 s.journal.stats
        ((enqueue_allocated (backend is_server) now now' job s).journal.stats)
unfolding enqueue_allocated console_ops websocket_ops emit_queue_arrival emit_job_update
    emit_stats_update log_queue_arrival publish_queue_arrival publish_job_update
    publish_stats_update
enqueue-Gains true now now' job s = gains (omega arith) (omega arith) (omega arith) (omega arith)
enqueue-Gains false now now' job s = gains (omega arith) (omega arith) (omega arith) (omega arith)

pub enqueue_failed-Gains :
    (is_server : Bool) (now : ℕ) (job : Job) (s : Simulation)
    → Gains 0 0 0 0 s.journal.stats ((enqueue_failed (backend is_server) now job s).journal.stats)
unfolding enqueue_failed console_ops websocket_ops emit_queue_arrival emit_job_update
    emit_stats_update log_queue_arrival publish_queue_arrival publish_job_update
    publish_stats_update
enqueue_failed-Gains true now job s = gains (omega arith) (omega arith) (omega arith) (omega arith)
enqueue_failed-Gains false now job s = gains (omega arith) (omega arith) (omega arith) (omega arith)

pub take_job-Gains :
    (is_server : Bool) (stamp now : ℕ) (job : Job) (rest : List Job) (s : Simulation)
    → Gains 0 0 0 0 s.journal.stats
        (((take_job (backend is_server) stamp now job rest s).1).journal.stats)
unfolding take_job console_ops websocket_ops emit_queue_departure emit_jobs_update emit_stats_update
    log_queue_departure publish_queue_departure publish_jobs_update publish_stats_update
take_job-Gains true stamp now job rest s =
    gains (omega arith) (omega arith) (omega arith) (omega arith)
take_job-Gains false stamp now job rest s =
    gains (omega arith) (omega arith) (omega arith) (omega arith)

pub begin_service-Gains :
    (is_server : Bool) (service_ms : ℤ → ℤ) (now : ℕ) (printer : Printer) (job : Job)
    (s : Simulation)
    → Gains 0 0 0 0 s.journal.stats
        (((begin_service (backend is_server) service_ms now printer job s).2).journal.stats)
unfolding begin_service console_ops websocket_ops emit_printer_arrival emit_printer_busy
    log_printer_arrival publish_printer_arrival publish_printer_busy
begin_service-Gains true service_ms now printer job s =
    gains (omega arith) (omega arith) (omega arith) (omega arith)
begin_service-Gains false service_ms now printer job s =
    gains (omega arith) (omega arith) (omega arith) (omega arith)

pub finish_service-Gains :
    (is_server : Bool) (now : ℕ) (printer : Printer) (job : Job) (s : Simulation)
    → Gains 0 1 0 0 s.journal.stats
        (((finish_service (backend is_server) now printer job s).1).journal.stats)
unfolding finish_service console_ops websocket_ops emit_system_departure emit_printer_idle
    emit_stats_update log_system_departure publish_printer_idle publish_stats_update
finish_service-Gains true now printer job s =
    let idle : Printer = record printer {
      current_paper_count = printer.current_paper_count -ℤ job.papers_required;
      total_papers_used = printer.total_papers_used +ℤ job.papers_required;
      last_job_completion_time_us = now;
      is_idle = true;
    } in
    let counted : Printer = record idle { jobs_printed_count = idle.jobs_printed_count + 1 } in
    let job' : Job = record job { service_departure_time_us = now } in
    publish_system_departure-Gains job' counted (publish_printer_idle idle s.journal)
finish_service-Gains false now printer job s =
    let idle : Printer = record printer {
      current_paper_count = printer.current_paper_count -ℤ job.papers_required;
      total_papers_used = printer.total_papers_used +ℤ job.papers_required;
      last_job_completion_time_us = now;
      is_idle = true;
    } in
    let counted : Printer = record idle { jobs_printed_count = idle.jobs_printed_count + 1 } in
    let job' : Job = record job { service_departure_time_us = now } in
    departure_stats-Gains job' counted s.journal.stats

pub request_refill-Gains :
    (is_server : Bool) (now index : ℕ) (printer : Printer) (job_id : ℕ) (s : Simulation)
    → Gains 0 0 0 0 s.journal.stats
        ((request_refill_allocated (backend is_server) now index printer job_id s).journal.stats)
unfolding request_refill_allocated console_ops websocket_ops emit_paper_empty
    emit_printer_waiting_refill log_paper_empty publish_paper_empty publish_printer_waiting_refill
request_refill-Gains true now index printer job_id s =
    gains (omega arith) (omega arith) (omega arith) (omega arith)
request_refill-Gains false now index printer job_id s =
    gains (omega arith) (omega arith) (omega arith) (omega arith)

pub request_refill_failed-Gains :
    (is_server : Bool) (now : ℕ) (printer : Printer) (job_id : ℕ) (s : Simulation)
    → Gains 0 0 0 0 s.journal.stats
        ((request_refill_failed (backend is_server) now printer job_id s).journal.stats)
unfolding request_refill_failed console_ops websocket_ops emit_paper_empty
    emit_printer_waiting_refill log_paper_empty publish_paper_empty publish_printer_waiting_refill
request_refill_failed-Gains true now printer job_id s =
    gains (omega arith) (omega arith) (omega arith) (omega arith)
request_refill_failed-Gains false now printer job_id s =
    gains (omega arith) (omega arith) (omega arith) (omega arith)

pub resume-Gains :
    (is_server : Bool) (refill_start now : ℕ) (printer : Printer) (s : Simulation)
    → Gains 0 0 0 0 s.journal.stats
        ((resume (backend is_server) refill_start now printer s).journal.stats)
unfolding resume console_ops websocket_ops emit_printer_idle publish_printer_idle
resume-Gains true refill_start now printer s =
    if-both (λ (k : Journal). Gains 0 0 0 0 s.journal.stats k.stats) (leb 1 printer.id)
      (if-both (λ (k : Journal). Gains 0 0 0 0 s.journal.stats k.stats)
        (leb printer.id consumer_count_max)
        (gains (omega arith) (omega arith) (omega arith) (omega arith))
        (gains (omega arith) (omega arith) (omega arith) (omega arith)))
      (gains (omega arith) (omega arith) (omega arith) (omega arith))
resume-Gains false refill_start now printer s =
    if-both (λ (k : Journal). Gains 0 0 0 0 s.journal.stats k.stats) (leb 1 printer.id)
      (if-both (λ (k : Journal). Gains 0 0 0 0 s.journal.stats k.stats)
        (leb printer.id consumer_count_max)
        (gains (omega arith) (omega arith) (omega arith) (omega arith))
        (gains (omega arith) (omega arith) (omega arith) (omega arith)))
      (gains (omega arith) (omega arith) (omega arith) (omega arith))

pub begin_refill-Gains :
    (is_server : Bool) (refill_us : ℤ → ℤ) (now : ℕ) (printer : Printer) (s : Simulation)
    → Gains 0 0 0 0 s.journal.stats
        ((begin_refill (backend is_server) refill_us now printer s).journal.stats)
unfolding begin_refill console_ops websocket_ops emit_paper_refill_start log_paper_refill_start
    publish_paper_refill_start
begin_refill-Gains true refill_us now printer s =
    gains (omega arith) (omega arith) (omega arith) (omega arith)
begin_refill-Gains false refill_us now printer s =
    gains (omega arith) (omega arith) (omega arith) (omega arith)

pub finish_refill-Gains :
    (is_server : Bool) (refill_start now : ℕ) (needed : ℤ) (printer : Printer) (s : Simulation)
    → Gains 0 0 0 0 s.journal.stats
        (((finish_refill (backend is_server) refill_start now needed printer s).1).journal.stats)
unfolding finish_refill console_ops websocket_ops emit_paper_refill_end emit_stats_update
    log_paper_refill_end publish_paper_refill_end publish_stats_update
finish_refill-Gains true refill_start now needed printer s =
    gains (omega arith) (omega arith) (omega arith) (omega arith)
finish_refill-Gains false refill_start now needed printer s =
    gains (omega arith) (omega arith) (omega arith) (omega arith)

pub stop_simulation-Gains :
    (is_server : Bool) (now : ℕ) (s : Simulation)
    → Gains 0 0 0 0 s.journal.stats ((stop_simulation (backend is_server) now s).journal.stats)
unfolding stop_simulation console_ops websocket_ops emit_simulation_stopped log_ctrl_c_pressed
    publish_simulation_stopped
stop_simulation-Gains true now s = gains (omega arith) (omega arith) (omega arith) (omega arith)
stop_simulation-Gains false now s = gains (omega arith) (omega arith) (omega arith) (omega arith)
