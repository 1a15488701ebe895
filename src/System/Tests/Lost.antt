-- ===== src/System/Tests/Lost.antt =====
-- What becomes of a job and of a request for paper for which no node can be allocated.
use concurrent_request_orche.Base.{
  ◌+◌, ◌≤◌, ◌≡◌, refl, ◌⊎◌, inl, false, some, [], ◌∷◌, length, get_elem?, arith,
}
use concurrent_request_orche.Base.Int.{ℤ, pos}
use concurrent_request_orche.Job.{init_job}
use concurrent_request_orche.Simulation.{backend}
use concurrent_request_orche.JobReceiver.{is_full, arrive, enqueue_allocated, enqueue_failed}
use concurrent_request_orche.Printer.Service.{
  look, is_exit_condition_met, lacks, request_refill_failed, exit_printer,
}
use concurrent_request_orche.System.{Worker, System, start_system, listening, finished, stopped}
use concurrent_request_orche.System.Steps.{Step, Steps, here, then, lost_jobs, lost_requests}
use concurrent_request_orche.System.Conservation.{Conserved, conservation, hands, departed}
use concurrent_request_orche.System.Completion.{completion}
use concurrent_request_orche.System.Progress.{Moves, IsSettled, progress}
use concurrent_request_orche.System.Tests.{params, printer, second_ms}

abbrev begin : (papers : ℤ) → System
begin papers =
    start_system (backend false) 900 1_000 (record printer { current_paper_count = papers } ∷ [])

-- The only job is lost, and the printer stops without having seen it.
unfoldable job_lost : (σ : System) × Steps false params 1 second_ms second_ms (begin (pos 50)) σ
unfolding start_system arrive is_full enqueue_failed look exit_printer is_exit_condition_met
    init_job
job_lost = (
  _,
  then
      (then
        (then (then here (Step.arrives 0 _ 501_000 (pos 10) refl (omega arith) refl))
          (Step.loses_job _ 0 _ 501_100 refl refl))
        (Step.arrivals_end 1 _ refl (inl (omega arith))))
      (Step.stops 0 _ false refl refl (inl refl) refl),
)

one_lost : lost_jobs false params 1 second_ms second_ms (job_lost.1) ≡ 1
unfolding job_lost
one_lost = refl

last_worker : (w : Worker) × (get_elem? (job_lost.0).workers 0 ≡ some w) × (w.doing ≡ stopped)
unfolding job_lost start_system arrive enqueue_failed exit_printer
last_worker = (_, refl, refl)

undisturbed : (job_lost.0).catcher ≡ listening
unfolding job_lost start_system arrive enqueue_failed exit_printer
undisturbed = refl

conservation_example :
    Conserved (lost_jobs false params 1 second_ms second_ms (job_lost.1)) (job_lost.0)
conservation_example =
    conservation false params 1 second_ms second_ms 900 1_000
      (record printer { current_paper_count = pos 50 } ∷ []) (job_lost.0) (job_lost.1)

completion_example :
    ((job_lost.0).receiver ≡ finished)
    × ((job_lost.0).sim.job_queue ≡ [])
    × ((job_lost.0).sim.journal.stats.total_jobs_arrived
        ≡ hands (job_lost.0).workers
          + departed (job_lost.0).sim.journal.stats
          + lost_jobs false params 1 second_ms second_ms (job_lost.1))
completion_example =
    completion false params 1 second_ms second_ms 900 1_000
      (record printer { current_paper_count = pos 50 } ∷ []) (job_lost.0) 0 (last_worker.0)
      (job_lost.1) undisturbed (last_worker.1) (last_worker.2)

-- The printer lacks paper for the only job, and its request is lost.
unfoldable request_lost : (σ : System) × Steps false params 1 second_ms second_ms (begin (pos 4)) σ
unfolding start_system arrive is_full enqueue_allocated look lacks request_refill_failed
    is_exit_condition_met init_job
request_lost = (
  _,
  then
      (then
        (then (then here (Step.arrives 0 _ 501_000 (pos 10) refl (omega arith) refl))
          (Step.admits _ 0 _ 501_100 501_101 refl refl))
        (Step.asks_in_vain 0 _ false _ 501_200 refl refl (inl refl) refl))
      (Step.arrivals_end 1 _ refl (inl (omega arith))),
)

-- The job stays in the queue.
still_queued : length (request_lost.0).sim.job_queue ≡ 1
unfolding request_lost start_system arrive enqueue_allocated request_refill_failed
still_queued = refl

progress_example :
    Moves false params 1 second_ms second_ms (request_lost.0)
    ⊎ IsSettled
        (λ i. 1 ≤ lost_requests false params 1 second_ms second_ms i (request_lost.1))
        (request_lost.0)
progress_example =
    progress false params 1 second_ms second_ms 900 1_000
      (record printer { current_paper_count = pos 4 } ∷ []) (request_lost.0) (request_lost.1)
