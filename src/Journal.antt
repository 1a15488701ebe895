-- ===== src/Journal.antt =====
-- What the log handlers of src/console_handler.c and src/websocket_handler.c read and change: the
-- statistics, the time stamp of the job queue, their own reference times, and what they put out.
--
-- An output stands for one `printf` or one message: the constructor for the text of its format, the
-- arguments for what is filled in. A time is in microseconds since the simulation began; the code
-- prints it in milliseconds with three decimals.
use concurrent_request_orche.Base.{ℕ, Bool, List, [], ◌∷◌, ◌++◌, Option}
use concurrent_request_orche.Base.Int.{ℤ}
use concurrent_request_orche.SimulationStats.{SimulationStatistics}

pub data Message : Type 0 where
  simulation_begins : Message
  simulation_ends simulation_stopped : (duration_us : ℕ) → Message
  job_arrives : (id : ℕ) (papers inter_arrival_us : ℤ) (is_dropped : Bool) → Message
  job_removed : (id : ℕ) → Message
  enters_queue : (id queue_length : ℕ) → Message
  leaves_queue : (id : ℕ) (queue_duration_us : ℤ) (queue_length : ℕ) → Message
  begins_service : (id printer : ℕ) (papers about_ms : ℤ) → Message
  departs : (id printer : ℕ) (service_us : ℤ) → Message
  needs_paper : (printer id : ℕ) → Message
  refill_starts : (printer : ℕ) (papers estimated_us : ℤ) → Message
  refill_ends : (printer : ℕ) (actual_us : ℤ) → Message
  scaled_up scaled_down : (printers queue_length : ℕ) → Message

pub data Status : Type 0 where
  idle serving waiting_refill : Status

pub data Output : Type 0 where
  line : (time_us : ℕ) → Message → Output
  simulation_started : Output
  simulation_complete : (duration_us : ℕ) → Output
  job_update : (id : ℕ) (papers : ℤ) → Output
  jobs_update : List (ℕ × ℤ) → Output
  consumer_update : (id : ℕ) (papers_left : ℤ) → Status → (current_job : Option ℕ) → Output
  stats_update : SimulationStatistics → (queue_length : ℕ) → Output
  statistics : SimulationStatistics → Output

pub record Journal : Type 0 where
  pub stats : SimulationStatistics
  pub queue_stamp : ℕ
  pub reference_time_us : ℕ
  pub reference_end_time_us : ℕ
  pub out : List Output

abbrev pub say : Journal → Output → Journal
say j o = record j { out = j.out ++ o ∷ [] }
