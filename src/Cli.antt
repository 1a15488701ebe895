-- ===== src/Cli.antt =====
-- `main` of src/cli.c: the options, the printer pool, the threads and the report at the end. A run is
-- one without the autoscaler and without a failure of `malloc`; its threads are those of `System`.
pub mod Stocked
pub mod Defaults
pub mod WholeRun
mod Tests
use Prim.Native.String.{String}
use concurrent_request_orche.Base.{
  ℕ, zero, suc, ◌+◌, ◌≡◌, Bool, true, false, Option, none, some, List, [], ◌∷◌, length, get_elem?,
  if◌then◌else◌,
}
use concurrent_request_orche.Base.Int.{ℤ, pos, negsuc, pos_part}
use concurrent_request_orche.Printer.{
  Printer, Mutex, Cond, PrinterThreadArgs, PrinterInstance, PrinterPool, printer_pool_init,
  start_printers,
}
use concurrent_request_orche.Journal.{Journal}
use concurrent_request_orche.LogRouter.{console_ops, emit_simulation_end, emit_statistics}
use concurrent_request_orche.Simulation.{Parameters, backend}
use concurrent_request_orche.Preprocessing.{SimulationParameters, Doubles, accepted, process_args}
use concurrent_request_orche.System.{Worker, System, start_system, finished, stopped, ended}
use concurrent_request_orche.System.Steps.{Steps}

-- `SIMULATION_DEFAULT_PARAMS_HIGH_LOAD`, with its two rates.
abbrev pub high_load :
    {Double : Type 0} → (printing_rate refill_rate : Double) → SimulationParameters Double
high_load five twenty_five = record {
  job_arrival_time_us = pos 200_000;
  papers_required_lower_bound = pos 10;
  papers_required_upper_bound = pos 30;
  queue_capacity = negsuc 0;
  printing_rate = five;
  printer_paper_capacity = pos 90;
  refill_rate = twenty_five;
  num_jobs = pos 20;
  consumer_count = pos 2;
  auto_scaling = pos 1;
  fixed_arrival = pos 1;
  min_arrival_time = pos 300;
  max_arrival_time = pos 600;
  g_debug = false;
}

-- `shared_printer_args`: each thread of a printer gets the mutex and the condition of that name.
abbrev pub shared_printer_args : PrinterThreadArgs
shared_printer_args = record {
  paper_refill_queue_mutex = Mutex.paper_refill_queue;
  job_queue_mutex = Mutex.job_queue;
  stats_mutex = Mutex.stats;
  simulation_state_mutex = Mutex.simulation_state;
  job_queue_not_empty_cv = Cond.job_queue_not_empty;
  refill_needed_cv = Cond.refill_needed;
  refill_supplier_cv = Cond.refill_supplier;
  printer = none;
}

-- The pool, and the loop that starts its first printers; `answers` is what `pthread_create` says.
unfoldable pub prepare_pool :
    {Double : Type 0} → (answers : List Bool) → SimulationParameters Double → Option PrinterPool
prepare_pool answers p =
    start_printers answers 1 shared_printer_args
      (printer_pool_init (pos_part p.consumer_count) p.printer_paper_capacity)

-- The printers that have a thread.
unfoldable pub running_printers : List PrinterInstance → List Printer
running_printers [] = []
running_printers (p ∷ ps) =
    let rest = running_printers ps in if p.active then p.printer ∷ rest else rest

abbrev pub thread_params : {Double : Type 0} → SimulationParameters Double → Parameters
thread_params p = record {
  job_arrival_time_us = p.job_arrival_time_us;
  queue_capacity = p.queue_capacity;
}

-- The end of `main`, after its joins.
unfoldable pub final_journal : (now : ℕ) → Journal → Journal
final_journal now j =
    emit_statistics (some console_ops) (emit_simulation_end (some console_ops) now j)

-- A run of `main` up to its last join: the options are accepted, the pool is started, and the threads
-- run until those that `main` joins have ended. `service_ms` and `refill_us` are the times that the
-- rates give.
pub record Run (D : Doubles) (default_rates : D.Double × D.Double) (args : List String)
    : Type 0 where
  pub chosen : SimulationParameters D.Double
  pub parsed : process_args D args (high_load (default_rates.0) (default_rates.1)) ≡ accepted chosen
  pub unscaled : chosen.auto_scaling ≡ pos 0
  pub answers : List Bool
  pub answered : length answers ≡ pos_part chosen.consumer_count
  pub pool : PrinterPool
  pub prepared : prepare_pool answers chosen ≡ some pool
  pub made : ℕ
  pub start_us : ℕ
  pub service_ms : ℤ → ℤ
  pub refill_us : ℤ → ℤ
  pub last : System
  pub steps :
      Steps false
        (thread_params chosen)
        (pos_part chosen.num_jobs)
        service_ms
        refill_us
        (start_system (backend false) made start_us (running_printers pool.printers))
        last
  pub receiver_joined : last.receiver ≡ finished
  pub printers_joined : (i : ℕ) (w : Worker) → get_elem? last.workers i ≡ some w → w.doing ≡ stopped
  pub refiller_joined : last.refiller ≡ ended
  pub end_us : ℕ
