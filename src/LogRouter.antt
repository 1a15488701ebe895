-- ===== src/LogRouter.antt =====
-- src/log_router.c: each `emit` function calls the handler of the backend that was chosen, if there is
-- one. A table of handlers has `NULL` for what a backend leaves out.
pub mod Agreement
mod Tests
use concurrent_request_orche.Base.{ℕ, Bool, true, false, Option, none, some, List, if◌then◌else◌}
use concurrent_request_orche.Base.Int.{ℤ}
use concurrent_request_orche.Job.{Job}
use concurrent_request_orche.Printer.{Printer}
use concurrent_request_orche.Journal.{Journal, Output, say}
use concurrent_request_orche.ConsoleHandler.{
  log_simulation_start, log_simulation_end, log_system_arrival, log_dropped_job, log_removed_job,
  log_queue_arrival, log_queue_departure, log_printer_arrival, log_system_departure,
  log_paper_empty, log_paper_refill_start, log_paper_refill_end, log_scale_up, log_scale_down,
  log_ctrl_c_pressed,
}
use concurrent_request_orche.WebsocketHandler.{
  publish_simulation_start, publish_simulation_end, publish_system_arrival, publish_dropped_job,
  publish_removed_job, publish_queue_arrival, publish_queue_departure, publish_job_update,
  publish_jobs_update, publish_printer_arrival, publish_system_departure, publish_paper_empty,
  publish_paper_refill_start, publish_paper_refill_end, publish_scale_up, publish_scale_down,
  publish_printer_idle, publish_printer_busy, publish_printer_waiting_refill, publish_stats_update,
  publish_simulation_stopped, publish_statistics,
}

-- `log_ops_t`, less `simulation_parameters`, which only prints.
pub record LogOps : Type 0 where
  pub simulation_start : Option (ℕ → Journal → Journal)
  pub simulation_end : Option (ℕ → Journal → Journal)
  pub system_arrival : Option (Job → ℕ → Journal → Journal)
  pub dropped_job : Option (Job → ℕ → Journal → Journal)
  pub removed_job : Option (ℕ → Job → Journal → Journal)
  pub queue_arrival : Option (Job → ℕ → ℕ → Journal → Journal)
  pub queue_departure : Option (Job → ℕ → ℕ → Journal → Journal)
  pub job_update : Option (Job → Journal → Journal)
  pub jobs_update : Option (List Job → Journal → Journal)
  pub printer_arrival : Option (Job → Printer → Journal → Journal)
  pub system_departure : Option (Job → Printer → Journal → Journal)
  pub paper_empty : Option (Printer → ℕ → ℕ → Journal → Journal)
  pub paper_refill_start : Option (Printer → ℤ → ℤ → ℕ → Journal → Journal)
  pub paper_refill_end : Option (Printer → ℤ → ℕ → Journal → Journal)
  pub scale_up : Option (ℕ → ℕ → ℕ → Journal → Journal)
  pub scale_down : Option (ℕ → ℕ → ℕ → Journal → Journal)
  pub printer_idle : Option (Printer → Journal → Journal)
  pub printer_busy : Option (Printer → ℕ → Journal → Journal)
  pub printer_waiting_refill : Option (Printer → Journal → Journal)
  pub stats_update : Option (ℕ → Journal → Journal)
  pub simulation_stopped : Option (ℕ → Journal → Journal)
  pub statistics : Option (Journal → Journal)

-- `log_statistics` prints the statistics and changes nothing.
abbrev log_statistics : Journal → Journal
log_statistics j = say j (Output.statistics j.stats)

unfoldable pub console_ops : LogOps
console_ops = record {
  simulation_start = some log_simulation_start;
  simulation_end = some log_simulation_end;
  system_arrival = some log_system_arrival;
  dropped_job = some log_dropped_job;
  removed_job = some log_removed_job;
  queue_arrival = some log_queue_arrival;
  queue_departure = some log_queue_departure;
  job_update = none;
  jobs_update = none;
  printer_arrival = some log_printer_arrival;
  system_departure = some log_system_departure;
  paper_empty = some log_paper_empty;
  paper_refill_start = some log_paper_refill_start;
  paper_refill_end = some log_paper_refill_end;
  scale_up = some log_scale_up;
  scale_down = some log_scale_down;
  printer_idle = none;
  printer_busy = none;
  printer_waiting_refill = none;
  stats_update = none;
  simulation_stopped = some log_ctrl_c_pressed;
  statistics = some log_statistics;
}

unfoldable pub websocket_ops : LogOps
websocket_ops = record {
  simulation_start = some publish_simulation_start;
  simulation_end = some publish_simulation_end;
  system_arrival = some publish_system_arrival;
  dropped_job = some publish_dropped_job;
  removed_job = some publish_removed_job;
  queue_arrival = some publish_queue_arrival;
  queue_departure = some publish_queue_departure;
  job_update = some publish_job_update;
  jobs_update = some publish_jobs_update;
  printer_arrival = some publish_printer_arrival;
  system_departure = some publish_system_departure;
  paper_empty = some publish_paper_empty;
  paper_refill_start = some publish_paper_refill_start;
  paper_refill_end = some publish_paper_refill_end;
  scale_up = some publish_scale_up;
  scale_down = some publish_scale_down;
  printer_idle = some publish_printer_idle;
  printer_busy = some publish_printer_busy;
  printer_waiting_refill = some publish_printer_waiting_refill;
  stats_update = some publish_stats_update;
  simulation_stopped = some publish_simulation_stopped;
  statistics = some publish_statistics;
}

-- The registered handlers, and the one in use.
pub record LogRouter : Type 0 where
  pub s_console_handler : Option LogOps
  pub s_websocket_handler : Option LogOps
  pub logger : Option LogOps

unfoldable pub log_router_register_console_handler : LogOps → LogRouter → LogRouter
log_router_register_console_handler ops r = record r { s_console_handler = some ops }

unfoldable pub log_router_register_websocket_handler : LogOps → LogRouter → LogRouter
log_router_register_websocket_handler ops r = record r { s_websocket_handler = some ops }

-- `is_server` says that the mode is `LOG_MODE_SERVER`.
unfoldable pub set_log_mode : (is_server : Bool) → LogRouter → LogRouter
set_log_mode is_server r = record r {
  logger = if is_server then r.s_websocket_handler else r.s_console_handler;
}

unfoldable pub emit_simulation_start : Option LogOps → ℕ → Journal → Journal
emit_simulation_start logger now j = elim logger [
  | none ↦ j
  | some ops ↦ elim (ops.simulation_start) [ none ↦ j | some handler ↦ handler now j ]
]

unfoldable pub emit_simulation_end : Option LogOps → ℕ → Journal → Journal
emit_simulation_end logger now j = elim logger [
  | none ↦ j
  | some ops ↦ elim (ops.simulation_end) [ none ↦ j | some handler ↦ handler now j ]
]

unfoldable pub emit_system_arrival : Option LogOps → Job → ℕ → Journal → Journal
emit_system_arrival logger job previous j = elim logger [
  | none ↦ j
  | some ops ↦ elim (ops.system_arrival) [ none ↦ j | some handler ↦ handler job previous j ]
]

unfoldable pub emit_dropped_job : Option LogOps → Job → ℕ → Journal → Journal
emit_dropped_job logger job previous j = elim logger [
  | none ↦ j
  | some ops ↦ elim (ops.dropped_job) [ none ↦ j | some handler ↦ handler job previous j ]
]

unfoldable pub emit_removed_job : Option LogOps → ℕ → Job → Journal → Journal
emit_removed_job logger now job j = elim logger [
  | none ↦ j
  | some ops ↦ elim (ops.removed_job) [ none ↦ j | some handler ↦ handler now job j ]
]

unfoldable pub emit_queue_arrival : Option LogOps → Job → ℕ → ℕ → Journal → Journal
emit_queue_arrival logger job queue_length last_interaction j = elim logger [
  | none ↦ j
  | some ops ↦ elim (ops.queue_arrival) [
    | none ↦ j
    | some handler ↦ handler job queue_length last_interaction j
  ]
]

unfoldable pub emit_queue_departure : Option LogOps → Job → ℕ → ℕ → Journal → Journal
emit_queue_departure logger job queue_length last_interaction j = elim logger [
  | none ↦ j
  | some ops ↦ elim (ops.queue_departure) [
    | none ↦ j
    | some handler ↦ handler job queue_length last_interaction j
  ]
]

unfoldable pub emit_job_update : Option LogOps → Job → Journal → Journal
emit_job_update logger job j = elim logger [
  | none ↦ j
  | some ops ↦ elim (ops.job_update) [ none ↦ j | some handler ↦ handler job j ]
]

unfoldable pub emit_jobs_update : Option LogOps → List Job → Journal → Journal
emit_jobs_update logger shown j = elim logger [
  | none ↦ j
  | some ops ↦ elim (ops.jobs_update) [ none ↦ j | some handler ↦ handler shown j ]
]

unfoldable pub emit_printer_arrival : Option LogOps → Job → Printer → Journal → Journal
emit_printer_arrival logger job printer j = elim logger [
  | none ↦ j
  | some ops ↦ elim (ops.printer_arrival) [ none ↦ j | some handler ↦ handler job printer j ]
]

unfoldable pub emit_system_departure : Option LogOps → Job → Printer → Journal → Journal
emit_system_departure logger job printer j = elim logger [
  | none ↦ j
  | some ops ↦ elim (ops.system_departure) [ none ↦ j | some handler ↦ handler job printer j ]
]

unfoldable pub emit_paper_empty : Option LogOps → Printer → ℕ → ℕ → Journal → Journal
emit_paper_empty logger printer job_id now j = elim logger [
  | none ↦ j
  | some ops ↦ elim (ops.paper_empty) [ none ↦ j | some handler ↦ handler printer job_id now j ]
]

unfoldable pub emit_paper_refill_start : Option LogOps → Printer → ℤ → ℤ → ℕ → Journal → Journal
emit_paper_refill_start logger printer papers time now j = elim logger [
  | none ↦ j
  | some ops ↦ elim (ops.paper_refill_start) [
    | none ↦ j
    | some handler ↦ handler printer papers time now j
  ]
]

unfoldable pub emit_paper_refill_end : Option LogOps → Printer → ℤ → ℕ → Journal → Journal
emit_paper_refill_end logger printer duration now j = elim logger [
  | none ↦ j
  | some ops ↦ elim (ops.paper_refill_end) [
    | none ↦ j
    | some handler ↦ handler printer duration now j
  ]
]

unfoldable pub emit_scale_up : Option LogOps → ℕ → ℕ → ℕ → Journal → Journal
emit_scale_up logger printers queue_length now j = elim logger [
  | none ↦ j
  | some ops ↦ elim (ops.scale_up) [ none ↦ j | some handler ↦ handler printers queue_length now j ]
]

unfoldable pub emit_scale_down : Option LogOps → ℕ → ℕ → ℕ → Journal → Journal
emit_scale_down logger printers queue_length now j = elim logger [
  | none ↦ j
  | some ops ↦ elim (ops.scale_down) [
    | none ↦ j
    | some handler ↦ handler printers queue_length now j
  ]
]

unfoldable pub emit_printer_idle : Option LogOps → Printer → Journal → Journal
emit_printer_idle logger printer j = elim logger [
  | none ↦ j
  | some ops ↦ elim (ops.printer_idle) [ none ↦ j | some handler ↦ handler printer j ]
]

unfoldable pub emit_printer_busy : Option LogOps → Printer → ℕ → Journal → Journal
emit_printer_busy logger printer job_id j = elim logger [
  | none ↦ j
  | some ops ↦ elim (ops.printer_busy) [ none ↦ j | some handler ↦ handler printer job_id j ]
]

unfoldable pub emit_printer_waiting_refill : Option LogOps → Printer → Journal → Journal
emit_printer_waiting_refill logger printer j = elim logger [
  | none ↦ j
  | some ops ↦ elim (ops.printer_waiting_refill) [ none ↦ j | some handler ↦ handler printer j ]
]

unfoldable pub emit_stats_update : Option LogOps → ℕ → Journal → Journal
emit_stats_update logger queue_length j = elim logger [
  | none ↦ j
  | some ops ↦ elim (ops.stats_update) [ none ↦ j | some handler ↦ handler queue_length j ]
]

unfoldable pub emit_simulation_stopped : Option LogOps → ℕ → Journal → Journal
emit_simulation_stopped logger now j = elim logger [
  | none ↦ j
  | some ops ↦ elim (ops.simulation_stopped) [ none ↦ j | some handler ↦ handler now j ]
]

unfoldable pub emit_statistics : Option LogOps → Journal → Journal
emit_statistics logger j = elim logger [
  | none ↦ j
  | some ops ↦ elim (ops.statistics) [ none ↦ j | some handler ↦ handler j ]
]
