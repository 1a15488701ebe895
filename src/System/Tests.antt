-- ===== src/System/Tests.antt =====
-- One job goes through the system: it arrives, is queued, printed, and the printer stops.
mod Lost
use concurrent_request_orche.Base.{
  zero, suc, ◌+◌, ◌≤◌, ◌≡◌, refl, ◌⊎◌, inl, ℕ, true, false, some, [], ◌∷◌, map, get_elem?, length,
  arith,
}
use concurrent_request_orche.Base.Int.{ℤ, pos}
use concurrent_request_orche.Job.{init_job}
use concurrent_request_orche.Printer.{Printer}
use concurrent_request_orche.ConsoleHandler.{
  log_simulation_start, log_system_arrival, job_arrival_helper, log_queue_arrival,
  log_queue_departure, log_printer_arrival, log_system_departure, departure_stats,
}
use concurrent_request_orche.LogRouter.{
  console_ops, emit_simulation_start, emit_system_arrival, emit_queue_arrival, emit_job_update,
  emit_stats_update, emit_queue_departure, emit_jobs_update, emit_printer_arrival,
  emit_printer_busy, emit_printer_idle, emit_system_departure,
}
use concurrent_request_orche.Simulation.{Parameters, backend}
use concurrent_request_orche.JobReceiver.{is_full, arrive, enqueue_allocated}
use concurrent_request_orche.Printer.Service.{
  look, is_exit_condition_met, lacks, take_job, begin_service, finish_service, exit_printer,
}
use concurrent_request_orche.System.{
  Worker, System, new_worker, start_system, listening, finished, stopped,
}
use concurrent_request_orche.System.Steps.{
  Step, Steps, here, then, own_steps, lost_jobs, lost_requests,
}
use concurrent_request_orche.System.Conservation.{Conserved, conservation, hands, departed}
use concurrent_request_orche.System.Completion.{completion}
use concurrent_request_orche.System.Safety.{IsStocked, AllProvided, Steps-IsStocked}
use concurrent_request_orche.SimulationStats.Averages.{calculate_job_drop_probability}
use concurrent_request_orche.SimulationStats.Defined.{IsShare}
use concurrent_request_orche.System.Shares.{drop_probability_lem}
use concurrent_request_orche.System.Capacity.{Steps-bound}
use concurrent_request_orche.PaperRefiller.{next_demand}
use concurrent_request_orche.System.Progress.{Moves, Rests, IsSettled, progress}
use concurrent_request_orche.System.Progress.Settled.{Outgrown, outcome}
use concurrent_request_orche.System.Progress.Bounded.{own_steps-bound}

abbrev pub params : Parameters
params = record { job_arrival_time_us = pos 500_000; queue_capacity = pos 3 }

abbrev pub printer : Printer
printer = record {
  id = 1;
  current_paper_count = pos 50;
  total_papers_used = pos 0;
  capacity = pos 50;
  jobs_printed_count = 0;
  last_job_completion_time_us = 0;
  is_idle = true;
}

abbrev pub second_ms : ℤ → ℤ
second_ms papers = pos 1000

abbrev begin : System
begin = start_system (backend false) 900 1_000 (printer ∷ [])

unfoldable session : (σ : System) × Steps false params 1 second_ms second_ms begin σ
unfolding start_system arrive is_full enqueue_allocated look take_job begin_service finish_service
    exit_printer lacks is_exit_condition_met init_job
session = (
  _,
  then
      (then
        (then
          (then
            (then
              (then (then here (Step.arrives 0 _ 501_000 (pos 10) refl (omega arith) refl))
                (Step.admits _ 0 _ 501_100 501_101 refl refl))
              (Step.takes_job 0 _ false _ [] 501_150 501_200 refl refl (inl refl) refl))
            (Step.begins 0 _ _ 501_300 refl refl))
          (Step.arrivals_end 1 _ refl (inl (omega arith))))
        (Step.finishes 0 _ _ 2_501_300 refl refl))
      (Step.stops 0 _ false refl refl (inl refl) refl),
)

all_served :
    (session.0.sim.journal.stats.total_jobs_served ≡ 1)
    × (length session.0.sim.job_queue ≡ 0)
    × (session.0.sim.all_jobs_served ≡ true)
unfolding session start_system arrive enqueue_allocated take_job begin_service finish_service
    exit_printer emit_simulation_start emit_system_arrival emit_queue_arrival emit_job_update
    emit_stats_update emit_queue_departure emit_jobs_update emit_printer_arrival emit_printer_busy
    emit_printer_idle emit_system_departure console_ops log_simulation_start log_system_arrival
    job_arrival_helper log_queue_arrival log_queue_departure log_printer_arrival
    log_system_departure departure_stats
all_served = (refl, refl, refl)

begin-IsStocked : IsStocked begin
unfolding start_system
begin-IsStocked = record { provided = stocked; adding = omega arith }
  where
    stocked : AllProvided (map new_worker (printer ∷ []))
    stocked zero w e = grind arith
    stocked (suc i) w e = absurd (ground arith)

Steps-IsStocked_example : IsStocked (session.0)
Steps-IsStocked_example =
    Steps-IsStocked false params 1 second_ms second_ms begin (session.0) (session.1) begin-IsStocked

begin-empty : length begin.sim.job_queue ≤ 3
unfolding start_system
begin-empty = omega arith

Steps-bound_example : length (session.0).sim.job_queue ≤ 3
Steps-bound_example =
    Steps-bound false params 1 second_ms second_ms 3 begin (session.0) refl (session.1) begin-empty

drop_probability_example : IsShare (calculate_job_drop_probability (session.0).sim.journal.stats)
drop_probability_example =
    drop_probability_lem false params 1 second_ms second_ms 900 1_000 (printer ∷ []) (session.0)
      (session.1)

-- The refiller ends last.
unfoldable whole : (σ : System) × Steps false params 1 second_ms second_ms begin σ
unfolding session start_system arrive enqueue_allocated take_job begin_service finish_service
    exit_printer next_demand
whole = (_, then (session.1) (Step.refiller_ends refl refl))

whole-IsSettled :
    IsSettled (λ i. 1 ≤ lost_requests false params 1 second_ms second_ms i (whole.1)) (whole.0)
unfolding whole session start_system arrive enqueue_allocated take_job begin_service finish_service
    exit_printer next_demand
whole-IsSettled = record {
  receiver_done = refl;
  catcher_done = inl refl;
  refiller_rests = inl refl;
  workers_rest = rest;
}
  where
    rest :
        (i : ℕ) (w : Worker)
        → get_elem? (whole.0).workers i ≡ some w
        → Rests (1 ≤ lost_requests false params 1 second_ms second_ms i (whole.1)) (whole.0) w
    rest zero w e = inl (ground arith)
    rest (suc i) w e = absurd (ground arith)

whole-calm : (whole.0).catcher ≡ listening
unfolding whole session start_system arrive enqueue_allocated take_job begin_service finish_service
    exit_printer next_demand
whole-calm = refl

whole-kept : (i : ℕ) → lost_requests false params 1 second_ms second_ms i (whole.1) ≡ 0
unfolding whole session start_system arrive enqueue_allocated take_job begin_service finish_service
    exit_printer next_demand
whole-kept i = refl

outcome_example :
    (((whole.0).sim.job_queue ≡ [])
      × ((whole.0).sim.journal.stats.total_jobs_arrived
          ≡ departed (whole.0).sim.journal.stats
            + lost_jobs false params 1 second_ms second_ms (whole.1)))
    ⊎ ((i : ℕ) (w : Worker) → get_elem? (whole.0).workers i ≡ some w → Outgrown w)
outcome_example =
    outcome false params 1 second_ms second_ms 900 1_000 (printer ∷ []) (whole.0) (whole.1)
      whole-calm whole-kept whole-IsSettled

own_steps-bound_example : own_steps false params 1 second_ms second_ms (whole.1) ≤ 35
own_steps-bound_example =
    own_steps-bound false params 1 second_ms second_ms 900 1_000 (printer ∷ []) (whole.0) (whole.1)
