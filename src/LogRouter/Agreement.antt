-- ===== src/LogRouter/Agreement.antt =====
-- What the two backends of src/log_router.c keep beside their output, event by event.
use concurrent_request_orche.Base.{
  ℕ, Option, some, List, [], ◌∷◌, ◌≡◌, ◌∙◌, ap, sym, leb, Bool-cases, inl, inr, refl,
}
use concurrent_request_orche.Base.Int.{ℤ}
use concurrent_request_orche.Job.{Job}
use concurrent_request_orche.Printer.{Printer}
use concurrent_request_orche.Journal.{Journal}
use concurrent_request_orche.SimulationStats.{SimulationStatistics}
use concurrent_request_orche.Config.{consumer_count_max}
use concurrent_request_orche.ConsoleHandler.{
  log_simulation_start, log_simulation_end, log_system_arrival, log_dropped_job, log_removed_job,
  log_queue_arrival, log_queue_departure, log_printer_arrival, log_system_departure,
  log_paper_empty, log_paper_refill_start, log_paper_refill_end, log_scale_up, log_scale_down,
  log_ctrl_c_pressed, job_arrival_helper, departure_stats,
}
use concurrent_request_orche.WebsocketHandler.{
  publish_simulation_start, publish_simulation_end, publish_system_arrival, publish_dropped_job,
  publish_removed_job, publish_queue_arrival, publish_queue_departure, publish_job_update,
  publish_jobs_update, publish_printer_arrival, publish_system_departure, publish_paper_empty,
  publish_paper_refill_start, publish_paper_refill_end, publish_scale_up, publish_scale_down,
  publish_printer_idle, publish_printer_busy, publish_printer_waiting_refill, publish_stats_update,
  publish_simulation_stopped, publish_statistics, arrival_message, count_for_printer,
}
use concurrent_request_orche.LogRouter.{
  LogOps, console_ops, websocket_ops, emit_simulation_start, emit_simulation_end,
  emit_system_arrival, emit_dropped_job, emit_removed_job, emit_queue_arrival, emit_queue_departure,
  emit_job_update, emit_jobs_update, emit_printer_arrival, emit_system_departure, emit_paper_empty,
  emit_paper_refill_start, emit_paper_refill_end, emit_scale_up, emit_scale_down, emit_printer_idle,
  emit_printer_busy, emit_printer_waiting_refill, emit_stats_update, emit_simulation_stopped,
  emit_statistics,
}

-- A call of the router, with its arguments.
pub data Event : Type 0 where
  starts : (now : ℕ) → Event
  ends : (now : ℕ) → Event
  arrives : (job : Job) (previous : ℕ) → Event
  drops : (job : Job) (previous : ℕ) → Event
  removes : (now : ℕ) (job : Job) → Event
  enters : (job : Job) (queue_length last_interaction : ℕ) → Event
  leaves : (job : Job) (queue_length last_interaction : ℕ) → Event
  shows : (job : Job) → Event
  lists : (shown : List Job) → Event
  begins : (job : Job) (printer : Printer) → Event
  departs : (job : Job) (printer : Printer) → Event
  lacks_paper : (printer : Printer) (job_id now : ℕ) → Event
  refill_starts : (printer : Printer) (papers time : ℤ) (now : ℕ) → Event
  refill_ends : (printer : Printer) (duration : ℤ) (now : ℕ) → Event
  scales_up : (printers queue_length now : ℕ) → Event
  scales_down : (printers queue_length now : ℕ) → Event
  idles : (printer : Printer) → Event
  works : (printer : Printer) (job_id : ℕ) → Event
  waits : (printer : Printer) → Event
  counts : (queue_length : ℕ) → Event
  stops : (now : ℕ) → Event
  reports : Event

unfoldable pub emit : Option LogOps → Event → Journal → Journal
unfolding emit_simulation_start emit_simulation_end emit_system_arrival emit_dropped_job
    emit_removed_job emit_queue_arrival emit_queue_departure emit_job_update emit_jobs_update
    emit_printer_arrival emit_system_departure emit_paper_empty emit_paper_refill_start
    emit_paper_refill_end emit_scale_up emit_scale_down emit_printer_idle emit_printer_busy
    emit_printer_waiting_refill emit_stats_update emit_simulation_stopped emit_statistics
emit logger (starts now) j = emit_simulation_start logger now j
emit logger (ends now) j = emit_simulation_end logger now j
emit logger (arrives job previous) j = emit_system_arrival logger job previous j
emit logger (drops job previous) j = emit_dropped_job logger job previous j
emit logger (removes now job) j = emit_removed_job logger now job j
emit logger (enters job queue_length last_interaction) j =
    emit_queue_arrival logger job queue_length last_interaction j
emit logger (leaves job queue_length last_interaction) j =
    emit_queue_departure logger job queue_length last_interaction j
emit logger (shows job) j = emit_job_update logger job j
emit logger (lists shown) j = emit_jobs_update logger shown j
emit logger (begins job printer) j = emit_printer_arrival logger job printer j
emit logger (departs job printer) j = emit_system_departure logger job printer j
emit logger (lacks_paper printer job_id now) j = emit_paper_empty logger printer job_id now j
emit logger (refill_starts printer papers time now) j =
    emit_paper_refill_start logger printer papers time now j
emit logger (refill_ends printer duration now) j =
    emit_paper_refill_end logger printer duration now j
emit logger (scales_up printers queue_length now) j =
    emit_scale_up logger printers queue_length now j
emit logger (scales_down printers queue_length now) j =
    emit_scale_down logger printers queue_length now j
emit logger (idles printer) j = emit_printer_idle logger printer j
emit logger (works printer job_id) j = emit_printer_busy logger printer job_id j
emit logger (waits printer) j = emit_printer_waiting_refill logger printer j
emit logger (counts queue_length) j = emit_stats_update logger queue_length j
emit logger (stops now) j = emit_simulation_stopped logger now j
emit logger reports j = emit_statistics logger j

unfoldable pub emit_all : Option LogOps → List Event → Journal → Journal
unfolding emit
emit_all logger [] j = j
emit_all logger (e ∷ es) j = emit_all logger es (emit logger e j)

-- What a journal holds beside its output.
pub record Books : Type 0 where
  pub book_stats : SimulationStatistics
  pub book_stamp : ℕ
  pub book_reference : ℕ
  pub book_end : ℕ

abbrev pub books : Journal → Books
books j = record {
  book_stats = j.stats;
  book_stamp = j.queue_stamp;
  book_reference = j.reference_time_us;
  book_end = j.reference_end_time_us;
}

abbrev blank : Books → Journal
blank b = record {
  stats = b.book_stats;
  queue_stamp = b.book_stamp;
  reference_time_us = b.book_reference;
  reference_end_time_us = b.book_end;
  out = [];
}

departure_stats-eq :
    (job : Job) (printer : Printer) (j : Journal)
    → books (publish_system_departure job printer j) ≡ books (log_system_departure job printer j)
unfolding publish_system_departure log_system_departure departure_stats count_for_printer
departure_stats-eq job printer j = elim (Bool-cases (leb 1 printer.id)) [
  | inl e ↦ elim (Bool-cases (leb printer.id consumer_count_max)) [
    | inl f ↦ rw (e, f) refl
    | inr f ↦ rw (e, f) refl
  ]
  | inr e ↦ rw e refl
]

-- The books after an event depend on the books before it alone.
console-books :
    (e : Event) (j : Journal)
    → books (emit (some console_ops) e j) ≡ books (emit (some console_ops) e (blank (books j)))
unfolding emit console_ops emit_simulation_start emit_simulation_end emit_system_arrival
    emit_dropped_job emit_removed_job emit_queue_arrival emit_queue_departure emit_job_update
    emit_jobs_update emit_printer_arrival emit_system_departure emit_paper_empty
    emit_paper_refill_start emit_paper_refill_end emit_scale_up emit_scale_down emit_printer_idle
    emit_printer_busy emit_printer_waiting_refill emit_stats_update emit_simulation_stopped
    emit_statistics log_simulation_start log_simulation_end log_system_arrival log_dropped_job
    log_removed_job log_queue_arrival log_queue_departure log_printer_arrival log_system_departure
    log_paper_empty log_paper_refill_start log_paper_refill_end log_scale_up log_scale_down
    log_ctrl_c_pressed job_arrival_helper
console-books (starts now) j = refl
console-books (ends now) j = refl
console-books (arrives job previous) j = refl
console-books (drops job previous) j = refl
console-books (removes now job) j = refl
console-books (enters job queue_length last_interaction) j = refl
console-books (leaves job queue_length last_interaction) j = refl
console-books (shows job) j = refl
console-books (lists shown) j = refl
console-books (begins job printer) j = refl
console-books (departs job printer) j = refl
console-books (lacks_paper printer job_id now) j = refl
console-books (refill_starts printer papers time now) j = refl
console-books (refill_ends printer duration now) j = refl
console-books (scales_up printers queue_length now) j = refl
console-books (scales_down printers queue_length now) j = refl
console-books (idles printer) j = refl
console-books (works printer job_id) j = refl
console-books (waits printer) j = refl
console-books (counts queue_length) j = refl
console-books (stops now) j = refl
console-books reports j = refl

agree-books :
    (e : Event) (j : Journal)
    → books (emit (some websocket_ops) e j) ≡ books (emit (some console_ops) e (blank (books j)))
unfolding emit console_ops websocket_ops emit_simulation_start emit_simulation_end
    emit_system_arrival emit_dropped_job emit_removed_job emit_queue_arrival emit_queue_departure
    emit_job_update emit_jobs_update emit_printer_arrival emit_system_departure emit_paper_empty
    emit_paper_refill_start emit_paper_refill_end emit_scale_up emit_scale_down emit_printer_idle
    emit_printer_busy emit_printer_waiting_refill emit_stats_update emit_simulation_stopped
    emit_statistics log_simulation_start log_simulation_end log_system_arrival log_dropped_job
    log_removed_job log_queue_arrival log_queue_departure log_printer_arrival log_system_departure
    log_paper_empty log_paper_refill_start log_paper_refill_end log_scale_up log_scale_down
    log_ctrl_c_pressed job_arrival_helper publish_simulation_start publish_simulation_end
    publish_system_arrival publish_dropped_job publish_removed_job publish_queue_arrival
    publish_queue_departure publish_job_update publish_jobs_update publish_printer_arrival
    publish_paper_empty publish_paper_refill_start publish_paper_refill_end publish_scale_up
    publish_scale_down publish_printer_idle publish_printer_busy publish_printer_waiting_refill
    publish_stats_update publish_simulation_stopped publish_statistics arrival_message
agree-books (starts now) j = refl
agree-books (ends now) j = refl
agree-books (arrives job previous) j = refl
agree-books (drops job previous) j = refl
agree-books (removes now job) j = refl
agree-books (enters job queue_length last_interaction) j = refl
agree-books (leaves job queue_length last_interaction) j = refl
agree-books (shows job) j = refl
agree-books (lists shown) j = refl
agree-books (begins job printer) j = refl
agree-books (departs job printer) j = departure_stats-eq job printer j
agree-books (lacks_paper printer job_id now) j = refl
agree-books (refill_starts printer papers time now) j = refl
agree-books (refill_ends printer duration now) j = refl
agree-books (scales_up printers queue_length now) j = refl
agree-books (scales_down printers queue_length now) j = refl
agree-books (idles printer) j = refl
agree-books (works printer job_id) j = refl
agree-books (waits printer) j = refl
agree-books (counts queue_length) j = refl
agree-books (stops now) j = refl
agree-books reports j = refl

-- From journals with the same statistics, queue stamp and reference times, any sequence of events
-- leaves both backends with the same statistics, queue stamp and reference times.
pub emit_all-agree :
    (es : List Event) (j k : Journal)
    → books j ≡ books k
    → books (emit_all (some console_ops) es j) ≡ books (emit_all (some websocket_ops) es k)
unfolding emit_all
emit_all-agree [] j k h = h
emit_all-agree (e ∷ es) j k h =
    emit_all-agree es (emit (some console_ops) e j) (emit (some websocket_ops) e k) (
      console-books e j
      ∙ ap (λ b. books (emit (some console_ops) e (blank b))) h
      ∙ sym (agree-books e k))
