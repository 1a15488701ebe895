-- ===== src/System.antt =====
-- The threads of a simulation side by side: the job receiver, the printers, the paper refiller and
-- the signal catcher of src/, without the autoscaler. A step is one segment of one thread, so a
-- sequence of steps is an interleaving. The arguments of a step are the clock readings of its
-- segment and what the random generator gave.
pub mod Steps
pub mod Counts
pub mod Workers
pub mod Requests
pub mod Conservation
pub mod Safety
pub mod Capacity
pub mod Shares
pub mod Completion
pub mod Announced
pub mod Measure
pub mod Progress
mod Tests
use concurrent_request_orche.Base.{
  ℕ, zero, suc, ◌+◌, ◌≤◌, ◌<◌, ◌≡◌, ◌≢◌, ◌⊎◌, Bool, true, false, Option, none, some, List, [], ◌∷◌,
  map, get_elem?, set, length,
}
use concurrent_request_orche.Base.Int.{ℤ}
use concurrent_request_orche.Job.{Job, init_job}
use concurrent_request_orche.Printer.{Printer}
use concurrent_request_orche.Journal.{Journal}
use concurrent_request_orche.SimulationStats.{no_statistics}
use concurrent_request_orche.LogRouter.{LogOps, emit_simulation_start}
use concurrent_request_orche.Simulation.{Simulation, Parameters, backend}
use concurrent_request_orche.JobReceiver.{
  is_full, arrive, drop_job_from_system, enqueue_allocated, all_arrived,
}
use concurrent_request_orche.Printer.Service.{
  Look, look, lacks, take_job, begin_service, finish_service, request_refill_allocated, resume,
  exit_printer,
}
use concurrent_request_orche.PaperRefiller.{
  Demand, next_demand, take_demand, papers_needed, is_filled, begin_refill, finish_refill,
}
use concurrent_request_orche.SignalCatcher.{stop_simulation, empty_queue_if_terminating}

-- The receiver sleeps before the job with number `job_id`, or has a job in hand, or is done.
pub data Receiver : Type 0 where
  between : (job_id previous : ℕ) → Receiver
  arrived : Job → (job_id previous : ℕ) → Receiver
  refusing : Job → (job_id previous : ℕ) → Receiver
  finished : Receiver

-- A printer that lacks paper keeps a pointer to the job it found at the front of the queue; another
-- printer may have printed and freed that job meanwhile. The model keeps the job as it was found.
pub data Doing : Type 0 where
  looking : Doing
  holding : Job → Doing
  printing : Job → Doing
  lacking : Job → (since : ℕ) → Doing
  stopped : Doing

pub record Worker : Type 0 where
  pub printer : Printer
  pub doing : Doing

pub data Refiller : Type 0 where
  waiting : Refiller
  filling : (index since : ℕ) (needed : ℤ) → Refiller
  ended : Refiller

pub data Catcher : Type 0 where
  listening : Catcher
  flagged : Catcher
  caught : Catcher

pub record System : Type 0 where
  pub sim : Simulation
  pub receiver : Receiver
  pub workers : List Worker
  pub refiller : Refiller
  pub catcher : Catcher

abbrev pub work : System → (index : ℕ) → Worker → Simulation → System
work σ i w s = record σ { sim = s; workers = set σ.workers i w }

abbrev pub new_worker : Printer → Worker
new_worker p = record { printer = p; doing = looking }

-- What `main` of src/cli.c and `simulation_runner` of src/server.c set up: empty queues, no flag, the
-- start of the simulation on record, and a thread for each printer.
unfoldable pub start_system : Option LogOps → (made now : ℕ) → List Printer → System
start_system logger made now printers =
    let j : Journal = record {
      stats = no_statistics;
      queue_stamp = made;
      reference_time_us = 0;
      reference_end_time_us = 0;
      out = [];
    } in
    record {
      sim = record {
        job_queue = [];
        refill_queue = [];
        journal = emit_simulation_start logger now j;
        all_jobs_arrived = false;
        all_jobs_served = false;
        terminate_now = false;
      };
      receiver = between 0 (emit_simulation_start logger now j).stats.simulation_start_time_us;
      workers = map new_worker printers;
      refiller = waiting;
      catcher = listening;
    }
