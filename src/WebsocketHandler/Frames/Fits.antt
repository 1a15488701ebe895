-- ===== src/WebsocketHandler/Frames/Fits.antt =====
-- The buffers of src/websocket_handler.c are large enough for the messages.
use concurrent_request_orche.Base.{
  ℕ, ◌+◌, ◌≤◌, ◌<◌, ◌^◌, Bool, true, false, Option, none, some, [], length, if◌then◌else◌, arith,
}
use concurrent_request_orche.Base.Int.{ℤ, pos, negsuc}
use concurrent_request_orche.Text.{Text, codes, show_ℕ}
use concurrent_request_orche.Text.Width.{
  IsInt, IsTime, length-show_ℕ, length-show_ℤ, length-show_thousandths, length-show_thousandths_ℤ,
  lengths,
}
use concurrent_request_orche.SimulationStats.{SimulationStatistics}
use concurrent_request_orche.SimulationStats.Averages.{
  Average, calculate_average_system_time, calculate_total_papers_used,
  calculate_overall_average_service_time,
}
use concurrent_request_orche.Journal.{
  Message, simulation_begins, simulation_ends, simulation_stopped, job_arrives, job_removed,
  enters_queue, leaves_queue, begins_service, departs, needs_paper, refill_starts, refill_ends,
  scaled_up, scaled_down, Status, idle, serving, waiting_refill,
}
use concurrent_request_orche.WebsocketHandler.Frames.{
  plural, log_message, timestamp, log_frame, job_frame, status_text, current_job_text,
  consumer_frame, complete_frame, stats_frame,
}

-- A count or an id is an `int` that is not negative.
abbrev pub IsCount : ℕ → Type 0
IsCount n = n < 2 ^ 31

-- The numbers of a message are what the types of the code hold.
abbrev pub InRange : Message → Type 0
InRange simulation_begins = Unit
InRange (simulation_ends t) = t < 2 ^ 64
InRange (simulation_stopped t) = t < 2 ^ 64
InRange (job_arrives id papers t is_dropped) = IsCount id × IsInt papers × IsTime t
InRange (job_removed id) = IsCount id
InRange (enters_queue id n) = IsCount id × IsCount n
InRange (leaves_queue id t n) = IsCount id × IsTime t × IsCount n
InRange (begins_service id printer papers ms) =
    IsCount id × IsCount printer × IsInt papers × IsInt ms
InRange (departs id printer t) = IsCount id × IsCount printer × IsTime t
InRange (needs_paper printer id) = IsCount printer × IsCount id
InRange (refill_starts printer papers t) = IsCount printer × IsInt papers × IsTime t
InRange (refill_ends printer t) = IsCount printer × IsTime t
InRange (scaled_up n queue_length) = IsCount n × IsCount queue_length
InRange (scaled_down n queue_length) = IsCount n × IsCount queue_length

length-show_count : (n : ℕ) → IsCount n → length (show_ℕ n) ≤ 10
length-show_count n h = length-show_ℕ 9 n (omega arith)

length-plural : (a : ℤ) → length (plural a) ≤ 1
unfolding plural
length-plural (pos n) = ground arith
length-plural (negsuc n) = omega arith

length-dropped : (b : Bool) → length (if b then codes ", dropped" else []) ≤ 9
length-dropped true = omega arith
length-dropped false = omega arith

length-log_message : (m : Message) → InRange m → length (log_message m) ≤ 150
unfolding log_message
length-log_message simulation_begins h = omega arith
length-log_message (simulation_ends t) h = omega (lengths, length-show_thousandths t h)
length-log_message (simulation_stopped t) h = omega (lengths, length-show_thousandths t h)
length-log_message (job_arrives id papers t is_dropped) h = omega (
  lengths,
  length-show_count id h.0,
  length-show_ℤ papers h.1,
  length-show_thousandths_ℤ t h.2,
  length-dropped is_dropped,
  length-plural papers,
)
length-log_message (job_removed id) h = omega (lengths, length-show_count id h)
length-log_message (enters_queue id n) h =
    omega (lengths, length-show_count id h.0, length-show_count n h.1)
length-log_message (leaves_queue id t n) h =
    omega
      (lengths, length-show_count id h.0, length-show_thousandths_ℤ t h.1, length-show_count n h.2)
length-log_message (begins_service id printer papers ms) h = omega (
  lengths,
  length-show_count id h.0,
  length-show_count printer h.1,
  length-show_ℤ papers h.2,
  length-show_ℤ ms h.3,
)
length-log_message (departs id printer t) h = omega (
  lengths,
  length-show_count id h.0,
  length-show_count printer h.1,
  length-show_thousandths_ℤ t h.2,
)
length-log_message (needs_paper printer id) h =
    omega (lengths, length-show_count printer h.0, length-show_count id h.1)
length-log_message (refill_starts printer papers t) h = omega (
  lengths,
  length-show_count printer h.0,
  length-show_ℤ papers h.1,
  length-show_thousandths_ℤ t h.2,
)
length-log_message (refill_ends printer t) h =
    omega (lengths, length-show_count printer h.0, length-show_thousandths_ℤ t h.1)
length-log_message (scaled_up n queue_length) h =
    omega (lengths, length-show_count n h.0, length-show_count queue_length h.1)
length-log_message (scaled_down n queue_length) h =
    omega (lengths, length-show_count n h.0, length-show_count queue_length h.1)

length-timestamp : (t : ℕ) (m : Message) → t < 2 ^ 64 → length (timestamp t m) ≤ 21
unfolding timestamp
length-timestamp t simulation_begins h = omega arith
length-timestamp t _ h = length-show_thousandths t h

length-status_text : (s : Status) → length (status_text s) ≤ 14
unfolding status_text
length-status_text idle = omega arith
length-status_text serving = omega arith
length-status_text waiting_refill = omega arith

-- No job, or one with an id in range.
abbrev pub IsJob : Option ℕ → Type 0
IsJob none = Unit
IsJob (some id) = IsCount id

length-current_job_text : (o : Option ℕ) → IsJob o → length (current_job_text o) ≤ 10
unfolding current_job_text
length-current_job_text none h = omega arith
length-current_job_text (some id) h = length-show_count id h

-- Every log message, with its closing zero byte, fits into the 1024 bytes of its buffer, whatever
-- times and numbers the machine's integers hold.
pub log_frame-fits :
    (t : ℕ) (m : Message) → t < 2 ^ 64 → InRange m → length (log_frame t m) + 1 ≤ 1_024
unfolding log_frame
log_frame-fits t m k h = omega (lengths, length-timestamp t m k, length-log_message m h)

pub consumer_frame-fits :
    (id : ℕ) (papers : ℤ) (s : Status) (job : Option ℕ)
    → IsCount id
    → IsInt papers
    → IsJob job
    → length (consumer_frame id papers s job) + 1 ≤ 1_024
unfolding consumer_frame
consumer_frame-fits id papers s job h k l = omega (
  lengths,
  length-show_count id h,
  length-show_ℤ papers k,
  length-status_text s,
  length-current_job_text job l,
)

pub job_frame-fits :
    (id : ℕ) (papers : ℤ) → IsCount id → IsInt papers → length (job_frame id papers) + 1 ≤ 512
unfolding job_frame
job_frame-fits id papers h k = omega (lengths, length-show_count id h, length-show_ℤ papers k)

pub complete_frame-fits : (t : ℕ) → t < 2 ^ 64 → length (complete_frame t) + 1 ≤ 1_024
unfolding complete_frame
complete_frame-fits t h = omega (lengths, length-show_thousandths t h)

-- `%.2f` of a `double` is at most 313 characters long. The counts are below 2 ^ 53, so that a
-- `double` holds them.
pub stats_frame-fits :
    (fixed2 : Average → Text) (s : SimulationStatistics) (queue_length : ℕ)
    → ((a : Average) → length (fixed2 a) ≤ 313)
    → s.total_jobs_served < 2 ^ 53
    → s.total_jobs_arrived < 2 ^ 53
    → s.paper_refill_events < 2 ^ 53
    → IsInt (calculate_total_papers_used s)
    → IsCount queue_length
    → length (stats_frame fixed2 s queue_length) + 1 ≤ 1_024
unfolding stats_frame
stats_frame-fits fixed2 s queue_length f a b c d e = omega (
  lengths,
  f (calculate_average_system_time s),
  f (calculate_overall_average_service_time s),
  length-show_ℕ 15 s.total_jobs_served (omega arith),
  length-show_ℕ 15 s.total_jobs_arrived (omega arith),
  length-show_ℕ 15 s.paper_refill_events (omega arith),
  length-show_ℤ (calculate_total_papers_used s) d,
  length-show_count queue_length e,
)
