-- ===== src/Simulation.antt =====
-- What the threads of a simulation share: the job queue, the flags, and the journal of statistics and
-- output. The timed queue of jobs is the list that it stands for, oldest job first; its time stamp is
-- `queue_stamp` of the journal. A thread works in segments between two locks or sleeps; each segment
-- is a function here.
use concurrent_request_orche.Base.{ℕ, Bool, List, Option, some, if◌then◌else◌}
use concurrent_request_orche.Base.Int.{ℤ}
use concurrent_request_orche.Job.{Job}
use concurrent_request_orche.Journal.{Journal}
use concurrent_request_orche.LogRouter.{LogOps, console_ops, websocket_ops}

pub record Simulation : Type 0 where
  pub job_queue : List Job
  pub refill_queue : List ℕ
  pub journal : Journal
  pub all_jobs_arrived : Bool
  pub all_jobs_served : Bool
  pub terminate_now : Bool

-- The fields of `simulation_parameters_t` that the threads read. The interval is what the conversion
-- to `int` made of it, and `queue_capacity` is -1 for a queue without a bound.
pub record Parameters : Type 0 where
  pub job_arrival_time_us : ℤ
  pub queue_capacity : ℤ

-- The handlers in use, in a run from the terminal or in the server.
abbrev pub backend : (is_server : Bool) → Option LogOps
backend is_server = if is_server then some websocket_ops else some console_ops
