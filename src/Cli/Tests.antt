-- ===== src/Cli/Tests.antt =====
-- `./bin/cli -num 1 -q 3 -consumers 1 -auto_scale 0`: one job, one printer.
use Prim.Native.String.{String}
use concurrent_request_orche.Base.{
  ℕ, zero, suc, ◌+◌, ◌*◌, ◌/◌, ◌≤◌, ◌≡◌, ◌++◌, refl, ◌⊎◌, inl, Bool, true, false, Option, none,
  some, List, [], ◌∷◌, length, get_elem?, arith,
}
use concurrent_request_orche.Base.Int.{ℤ, pos, pos_part}
use concurrent_request_orche.Text.{codes, show_ℕ, show_ℤ, show_thousandths_ℤ, atoi}
use concurrent_request_orche.Job.{init_job}
use concurrent_request_orche.Journal.{Message, Output, line}
use concurrent_request_orche.Printer.{
  PrinterThreadArgs, PrinterInstance, PrinterPool, printer_pool_init, start_printers,
  printer_pool_start_printer,
}
use concurrent_request_orche.Preprocessing.{SimulationParameters, is_capacity, process_args}
use concurrent_request_orche.Preprocessing.Valid.{IsValid}
use concurrent_request_orche.Simulation.{backend}
use concurrent_request_orche.JobReceiver.{is_full, arrive, enqueue_allocated}
use concurrent_request_orche.Printer.Service.{
  look, is_exit_condition_met, lacks, take_job, begin_service, finish_service, exit_printer,
}
use concurrent_request_orche.PaperRefiller.{next_demand}
use concurrent_request_orche.System.{Worker, System, start_system, listening, stopped}
use concurrent_request_orche.System.Steps.{Step, Steps, here, then, own_steps, lost_jobs}
use concurrent_request_orche.System.Safety.{IsStocked}
use concurrent_request_orche.ConsoleHandler.Parameters.{log_simulation_parameters}
use concurrent_request_orche.Cli.{
  high_load, shared_printer_args, prepare_pool, running_printers, thread_params, final_journal, Run,
}
use concurrent_request_orche.Cli.Defaults.{hundredths, high_load-IsValid}
use concurrent_request_orche.Cli.WholeRun.{whole_run}

abbrev args : List String
args = "-num" ∷ "1" ∷ "-q" ∷ "3" ∷ "-consumers" ∷ "1" ∷ "-auto_scale" ∷ "0" ∷ []

abbrev one_job : SimulationParameters ℕ
one_job = record (high_load 500 2_500) {
  num_jobs = pos 1;
  queue_capacity = pos 3;
  consumer_count = pos 1;
  auto_scaling = pos 0;
}

-- The table at the start of this run; its rates are in hundredths.
table :
    log_simulation_parameters (λ n. show_ℕ (n / 100)) show_thousandths_ℤ one_job
    ≡ codes
        "================= Simulation parameters =================\n  Number of jobs: 1\n  Job arrival time: 200.000 ms\n  Printing rate: 5 pages/sec\n  Printer paper capacity: 90\n  Queue capacity: 3\n  Refill rate: 25 papers/sec\n  Papers required (lower bound): 10\n  Papers required (upper bound): 30\n"
unfolding log_simulation_parameters show_ℕ show_ℤ show_thousandths_ℤ
table = refl

abbrev args_of : (active : Bool) → Option PrinterThreadArgs
args_of true = some (record shared_printer_args { printer = some 0 })
args_of false = none

abbrev slot_of : (id : ℕ) (active : Bool) → PrinterInstance
slot_of id active = record {
  printer = record {
    id = id;
    current_paper_count = pos 90;
    total_papers_used = pos 0;
    capacity = pos 90;
    jobs_printed_count = 0;
    last_job_completion_time_us = 0;
    is_idle = true;
  };
  args = args_of active;
  active = active;
}

abbrev one_printer : PrinterPool
one_printer = record {
  printers =
      slot_of 1 true ∷ slot_of 2 false ∷ slot_of 3 false ∷ slot_of 4 false ∷ slot_of 5 false ∷ [];
  active_count = 1;
  min_count = 1;
  last_scale_time_us = 0;
  low_queue_start_time_us = 0;
}

abbrev two_seconds_ms : ℤ → ℤ
two_seconds_ms papers = pos 2_000

abbrev begin : System
begin = start_system (backend false) 900 1_000 (running_printers one_printer.printers)

unfoldable session :
    (σ : System) × Steps false (thread_params one_job) 1 two_seconds_ms two_seconds_ms begin σ
unfolding start_system running_printers arrive is_full enqueue_allocated look take_job begin_service
    finish_service exit_printer lacks is_exit_condition_met init_job next_demand
session = (
  _,
  then
      (then
        (then
          (then
            (then
              (then
                (then (then here (Step.arrives 0 _ 201_000 (pos 10) refl (omega arith) refl))
                  (Step.admits _ 0 _ 201_100 201_101 refl refl))
                (Step.takes_job 0 _ false _ [] 201_150 201_200 refl refl (inl refl) refl))
              (Step.begins 0 _ _ 201_300 refl refl))
            (Step.arrivals_end 1 _ refl (inl (omega arith))))
          (Step.finishes 0 _ _ 2_201_300 refl refl))
        (Step.stops 0 _ false refl refl (inl refl) refl))
      (Step.refiller_ends refl refl),
)

run : Run hundredths (500, 2_500) args
unfolding session start_system running_printers arrive is_full enqueue_allocated look take_job
    begin_service finish_service exit_printer lacks is_exit_condition_met init_job next_demand
    process_args atoi is_capacity prepare_pool start_printers printer_pool_start_printer
    printer_pool_init
run = record {
  chosen = one_job;
  parsed = refl;
  unscaled = refl;
  answers = true ∷ [];
  answered = refl;
  pool = one_printer;
  prepared = refl;
  made = 900;
  start_us = 1_000;
  service_ms = two_seconds_ms;
  refill_us = two_seconds_ms;
  last = session.0;
  steps = session.1;
  receiver_joined = refl;
  printers_joined = joined;
  refiller_joined = refl;
  end_us = 2_202_000;
}
  where
    joined : (i : ℕ) (w : Worker) → get_elem? (session.0).workers i ≡ some w → w.doing ≡ stopped
    joined zero w e = ground arith
    joined (suc i) w e = absurd (ground arith)

calm : run.last.catcher ≡ listening
unfolding run session start_system arrive enqueue_allocated take_job begin_service finish_service
    exit_printer next_demand
calm = refl

whole_run_example :
    let j = final_journal run.end_us run.last.sim.journal in
    let n = pos_part run.chosen.num_jobs in
    IsValid hundredths run.chosen
    × (own_steps false (thread_params run.chosen) n run.service_ms run.refill_us run.steps
        ≤ 20 * n + 11 * length (running_printers run.pool.printers) + 4)
    × IsStocked run.last
    × ((out : List Output) × (t : ℕ) × (j.out
          ≡ out ++ line t (Message.simulation_ends t) ∷ Output.statistics j.stats ∷ []))
    × ((running_printers run.pool.printers ≡ [])
        ⊎ (run.last.sim.job_queue ≡ [])
          × (j.stats.total_jobs_arrived
              ≡ j.stats.total_jobs_served
                + j.stats.total_jobs_dropped
                + j.stats.total_jobs_removed
                + lost_jobs false
                    (thread_params run.chosen)
                    n
                    run.service_ms
                    run.refill_us
                    run.steps))
whole_run_example = whole_run hundredths (500, 2_500) args run high_load-IsValid calm
