-- ===== src/WebsocketHandler/Frames.antt =====
-- The text of the messages that src/websocket_handler.c puts into its buffers.
pub mod Fits
mod Tests
use concurrent_request_orche.Base.{
  ℕ, zero, suc, ◌+◌, ◌==◌, Bool, true, false, Option, none, some, List, [], ◌∷◌, ◌++◌,
  if◌then◌else◌,
}
use concurrent_request_orche.Base.Int.{ℤ, pos, negsuc}
use concurrent_request_orche.Text.{
  Text, codes, joined, show_ℕ, show_ℤ, show_thousandths, show_thousandths_ℤ,
}
use concurrent_request_orche.SimulationStats.{SimulationStatistics}
use concurrent_request_orche.SimulationStats.Averages.{
  Average, calculate_average_system_time, calculate_total_papers_used,
  calculate_overall_average_service_time,
}
use concurrent_request_orche.Journal.{
  Message, simulation_begins, simulation_ends, simulation_stopped, job_arrives, job_removed,
  enters_queue, leaves_queue, begins_service, departs, needs_paper, refill_starts, refill_ends,
  scaled_up, scaled_down, Status, idle, serving, waiting_refill, Output, line, simulation_started,
  simulation_complete, job_update, jobs_update, consumer_update, stats_update, statistics,
}

plural : ℤ → Text
plural (pos n) = if n == 1 then [] else codes "s"
plural (negsuc n) = codes "s"

-- The `message` of a log. A time in milliseconds is a `double`, printed by `%.3f`; up to 2 ^ 52
-- microseconds that gives the number exactly.
unfoldable pub log_message : Message → Text
unfolding plural
log_message simulation_begins = codes "simulation begins"
log_message (simulation_ends t) =
    joined (codes "simulation ends, duration = " ∷ show_thousandths t ∷ codes "ms" ∷ [])
log_message (simulation_stopped t) =
    joined (codes "simulation stopped, duration = " ∷ show_thousandths t ∷ codes "ms" ∷ [])
log_message (job_arrives id papers t is_dropped) = joined (
    codes "job"
    ∷ show_ℕ id
    ∷ codes " arrives, needs "
    ∷ show_ℤ papers
    ∷ codes " paper"
    ∷ plural papers
    ∷ codes ", inter-arrival time = "
    ∷ show_thousandths_ℤ t
    ∷ codes "ms"
    ∷ (if is_dropped then codes ", dropped" else [])
    ∷ [])
log_message (job_removed id) = joined (codes "job" ∷ show_ℕ id ∷ codes " removed from system" ∷ [])
log_message (enters_queue id n) =
    joined (codes "job" ∷ show_ℕ id ∷ codes " enters queue, queue length = " ∷ show_ℕ n ∷ [])
log_message (leaves_queue id t n) = joined (
    codes "job"
    ∷ show_ℕ id
    ∷ codes " leaves queue, time in queue = "
    ∷ show_thousandths_ℤ t
    ∷ codes "ms, queue_length = "
    ∷ show_ℕ n
    ∷ [])
log_message (begins_service id printer papers about_ms) = joined (
    codes "job"
    ∷ show_ℕ id
    ∷ codes " begins service at printer"
    ∷ show_ℕ printer
    ∷ codes ", printing "
    ∷ show_ℤ papers
    ∷ codes " pages in about "
    ∷ show_ℤ about_ms
    ∷ codes "ms"
    ∷ [])
log_message (departs id printer t) = joined (
    codes "job"
    ∷ show_ℕ id
    ∷ codes " departs from printer"
    ∷ show_ℕ printer
    ∷ codes ", service time = "
    ∷ show_thousandths_ℤ t
    ∷ codes "ms"
    ∷ [])
log_message (needs_paper printer id) = joined (
    codes "printer"
    ∷ show_ℕ printer
    ∷ codes " does not have enough paper for job"
    ∷ show_ℕ id
    ∷ codes " and is requesting refill"
    ∷ [])
log_message (refill_starts printer papers t) = joined (
    codes "printer"
    ∷ show_ℕ printer
    ∷ codes " starts refilling "
    ∷ show_ℤ papers
    ∷ codes " papers, estimated time = "
    ∷ show_thousandths_ℤ t
    ∷ codes "ms"
    ∷ [])
log_message (refill_ends printer t) = joined (
    codes "printer"
    ∷ show_ℕ printer
    ∷ codes " finishes refilling, actual time = "
    ∷ show_thousandths_ℤ t
    ∷ codes "ms"
    ∷ [])
log_message (scaled_up n queue_length) = joined (
    codes "Autoscaling: Scaled UP to "
    ∷ show_ℕ n
    ∷ codes " printers (queue length: "
    ∷ show_ℕ queue_length
    ∷ codes ")"
    ∷ [])
log_message (scaled_down n queue_length) = joined (
    codes "Autoscaling: Scaled DOWN to "
    ∷ show_ℕ n
    ∷ codes " printers (queue length: "
    ∷ show_ℕ queue_length
    ∷ codes ")"
    ∷ [])

-- The first message of a run has the number 0 for its time.
unfoldable pub timestamp : (time_us : ℕ) → Message → Text
timestamp t simulation_begins = codes "0"
timestamp t _ = show_thousandths t

unfoldable pub log_frame : (time_us : ℕ) → Message → Text
unfolding log_message timestamp
log_frame t m = joined (
    codes "{\"type\":\"log\", \"data\":{\"timestamp\":"
    ∷ timestamp t m
    ∷ codes ", \"message\":\""
    ∷ log_message m
    ∷ codes "\"}}"
    ∷ [])

unfoldable pub job_frame : (id : ℕ) (papers : ℤ) → Text
job_frame id papers = joined (
    codes "{\"type\":\"job_update\", \"data\":{\"id\":"
    ∷ show_ℕ id
    ∷ codes ", \"papersRequired\":"
    ∷ show_ℤ papers
    ∷ codes "}}"
    ∷ [])

-- `{"id":%d,"papersRequired":%d}`, with a comma before it but for the first.
unfoldable pub entry : (first : Bool) (id : ℕ) (papers : ℤ) → Text
entry first id papers = joined (
    (if first then [] else codes ",")
    ∷ codes "{\"id\":"
    ∷ show_ℕ id
    ∷ codes ",\"papersRequired\":"
    ∷ show_ℤ papers
    ∷ codes "}"
    ∷ [])

unfoldable pub entries : (first : Bool) → List (ℕ × ℤ) → Text
unfolding entry
entries first [] = []
entries first ((id, papers) ∷ jobs) = entry first id papers ++ entries false jobs

unfoldable pub jobs_frame : List (ℕ × ℤ) → Text
unfolding entries
jobs_frame jobs =
    joined (codes "{\"type\":\"jobs_update\", \"data\":[" ∷ entries true jobs ∷ codes "]}" ∷ [])

status_text : Status → Text
status_text idle = codes "idle"
status_text serving = codes "serving"
status_text waiting_refill = codes "waiting_refill"

current_job_text : Option ℕ → Text
current_job_text none = codes "null"
current_job_text (some id) = show_ℕ id

unfoldable pub consumer_frame : (id : ℕ) (papers_left : ℤ) → Status → Option ℕ → Text
unfolding status_text current_job_text
consumer_frame id papers status job = joined (
    codes "{\"type\":\"consumer_update\", \"data\":{\"id\":"
    ∷ show_ℕ id
    ∷ codes ", \"papersLeft\":"
    ∷ show_ℤ papers
    ∷ codes ", \"status\":\""
    ∷ status_text status
    ∷ codes "\", \"currentJobId\":"
    ∷ current_job_text job
    ∷ codes "}}"
    ∷ [])

unfoldable pub complete_frame : (duration_us : ℕ) → Text
complete_frame t = joined (
    codes "{\"type\":\"simulation_complete\", \"data\":{\"duration\":"
    ∷ show_thousandths t
    ∷ codes "}}"
    ∷ [])

-- `fixed2` is `%.2f` of the C library.
module _ (fixed2 : Average → Text) where
  unfoldable pub stats_frame : SimulationStatistics → (queue_length : ℕ) → Text
  stats_frame s queue_length = joined (
      codes "{\"type\":\"stats_update\", \"data\":{\"jobsProcessed\":"
      ∷ show_ℕ s.total_jobs_served
      ∷ codes ", \"jobsReceived\":"
      ∷ show_ℕ s.total_jobs_arrived
      ∷ codes ", \"queueLength\":"
      ∷ show_ℕ queue_length
      ∷ codes ", \"avgCompletionTime\":"
      ∷ fixed2 (calculate_average_system_time s)
      ∷ codes ", \"papersUsed\":"
      ∷ show_ℤ (calculate_total_papers_used s)
      ∷ codes ", \"refillEvents\":"
      ∷ show_ℕ s.paper_refill_events
      ∷ codes ", \"avgServiceTime\":"
      ∷ fixed2 (calculate_overall_average_service_time s)
      ∷ codes "}}"
      ∷ [])
