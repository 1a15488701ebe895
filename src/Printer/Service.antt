-- ===== src/Printer/Service.antt =====
-- `printer_thread_func` of src/printer.c, cut at the locks and sleeps: what a printer does when it
-- looks at the queue, takes a job, prints it, asks for paper, and stops.
pub mod Paper
use concurrent_request_orche.Base.{
  ℕ, suc, ◌+◌, ◌-◌, Bool, true, false, Option, none, some, List, [], ◌∷◌, ◌++◌, length, leb,
  if◌then◌else◌,
}
use concurrent_request_orche.Base.Int.{ℤ, pos, ◌+ℤ◌, ◌-ℤ◌, ltb_ℤ}
use concurrent_request_orche.Words.{add64, sub64, to_int, to_word}
use concurrent_request_orche.Config.{consumer_count_max}
use concurrent_request_orche.Job.{Job}
use concurrent_request_orche.Printer.{Printer}
use concurrent_request_orche.SimulationStats.{modify}
use concurrent_request_orche.Journal.{Journal}
use concurrent_request_orche.LogRouter.{
  LogOps, emit_queue_departure, emit_jobs_update, emit_stats_update, emit_printer_arrival,
  emit_printer_busy, emit_printer_idle, emit_system_departure, emit_paper_empty,
  emit_printer_waiting_refill,
}
use concurrent_request_orche.Simulation.{Simulation}

unfoldable pub is_exit_condition_met : (all_jobs_arrived : Bool) → List Job → Bool
is_exit_condition_met false queue = false
is_exit_condition_met true [] = true
is_exit_condition_met true (_ ∷ _) = false

-- `job->papers_required > printer->current_paper_count`.
unfoldable pub lacks : Printer → Job → Bool
lacks printer job = ltb_ℤ printer.current_paper_count job.papers_required

-- What the printer finds under the lock of the queue.
pub data Look : Type 0 where
  ends : Look
  sleeps : Look
  short_of_paper : Job → Look
  takes : (job : Job) (rest : List Job) → Look

-- The flag `terminate` was read before, under another lock.
unfoldable pub look : (terminate : Bool) → Printer → Simulation → Look
unfolding is_exit_condition_met lacks
look terminate printer s =
    if terminate
    then ends
    else if is_exit_condition_met s.all_jobs_arrived s.job_queue
    then ends
    else elim (s.job_queue) [
      | [] ↦ sleeps
      | job ∷ rest ↦ if lacks printer job then short_of_paper job else takes job rest
    ]

-- The job leaves the queue; `stamp` is the reading that the timed queue makes for itself.
unfoldable pub take_job :
    Option LogOps → (stamp now : ℕ) → Job → List Job → Simulation → Job × Simulation
take_job logger stamp now job rest s =
    let last_interaction = s.journal.queue_stamp in
    let job' : Job = record job { queue_departure_time_us = now } in
    let stamped : Journal = record (s.journal) { queue_stamp = stamp } in
    (
      job',
      record s {
        job_queue = rest;
        journal = emit_stats_update logger (length rest) (
            emit_jobs_update logger rest
              (emit_queue_departure logger job' (length rest) last_interaction stamped));
      },
    )

-- The division by the printing rate is floating-point arithmetic: `service_ms papers` is what
-- `(int)((papers / printing_rate) * 1000)` gives.
unfoldable pub begin_service :
    Option LogOps
    → (service_ms : ℤ → ℤ) → (now : ℕ) → Printer
    → Job
    → Simulation
    → Printer × Job × Simulation
begin_service logger service_ms now printer job s =
    let job' : Job = record job {
      service_time_requested_ms = service_ms job.papers_required;
      service_arrival_time_us = now;
    } in
    let busy : Printer = record printer { is_idle = false } in
    (
      busy,
      job',
      record s {
        journal =
            emit_printer_busy logger busy job'.id
              (emit_printer_arrival logger job' printer s.journal);
      },
    )

-- After the sleep: the paper is used up, and the departure counted.
unfoldable pub finish_service :
    Option LogOps → (now : ℕ) → Printer → Job → Simulation → Printer × Simulation
finish_service logger now printer job s =
    let job' : Job = record job { service_departure_time_us = now } in
    let idle : Printer = record printer {
      current_paper_count = printer.current_paper_count -ℤ job.papers_required;
      total_papers_used = printer.total_papers_used +ℤ job.papers_required;
      last_job_completion_time_us = now;
      is_idle = true;
    } in
    let counted : Printer = record idle { jobs_printed_count = idle.jobs_printed_count + 1 } in
    (
      counted,
      record s {
        journal =
            emit_stats_update logger (length s.job_queue)
              (emit_system_departure logger job' counted (emit_printer_idle logger idle s.journal));
      },
    )

-- The printer enters itself, by its index, in the queue of the refiller.
unfoldable pub request_refill_allocated :
    Option LogOps → (now index : ℕ) → Printer → (job_id : ℕ) → Simulation → Simulation
request_refill_allocated logger now index printer job_id s = record s {
  refill_queue = s.refill_queue ++ index ∷ [];
  journal =
      emit_printer_waiting_refill logger printer
        (emit_paper_empty logger printer job_id now s.journal);
}

-- When the node of the list cannot be allocated the request is lost; the result of `list_append` is
-- ignored.
unfoldable pub request_refill_failed :
    Option LogOps → (now : ℕ) → Printer → (job_id : ℕ) → Simulation → Simulation
request_refill_failed logger now printer job_id s = record s {
  journal =
      emit_printer_waiting_refill logger printer
        (emit_paper_empty logger printer job_id now s.journal);
}

abbrev pub request_refill :
    Option LogOps
    → (allocated : Bool) → (now index : ℕ) → Printer
    → (job_id : ℕ) → Simulation
    → Simulation
request_refill logger true now index printer job_id s =
    request_refill_allocated logger now index printer job_id s
request_refill logger false now index printer job_id s =
    request_refill_failed logger now printer job_id s

-- Once there is paper enough: the time without it is counted.
unfoldable pub resume : Option LogOps → (refill_start now : ℕ) → Printer → Simulation → Simulation
resume logger refill_start now printer s =
    let j = emit_printer_idle logger printer s.journal in
    let empty_duration = to_int (sub64 now refill_start) in
    let counted : Journal = record j {
      stats = record (j.stats) {
        printer_paper_empty_time_us =
            modify j.stats.printer_paper_empty_time_us (printer.id - 1)
              (λ n. add64 n (to_word empty_duration));
      };
    } in
    record s {
      journal =
          if leb 1 printer.id then if leb printer.id consumer_count_max then counted else j else j;
    }

-- At `exit_printer` (the thread of the refiller is then cancelled).
unfoldable pub exit_printer : Simulation → Simulation
exit_printer s = record s { all_jobs_served = true }
