-- ===== src/System/Capacity.antt =====
-- The length of the job queue over the interleavings of the threads.
use concurrent_request_orche.Base.{ℕ, ◌≤◌, ◌≡◌, ap, Bool, [], ◌∷◌, length, length-append, arith}
use concurrent_request_orche.Base.Int.{ℤ, pos}
use concurrent_request_orche.Simulation.{Parameters}
use concurrent_request_orche.JobReceiver.{
  arrive, drop_job_from_system, enqueue_allocated, enqueue_failed,
}
use concurrent_request_orche.JobReceiver.Bound.{full-lt}
use concurrent_request_orche.Printer.Service.{
  take_job, begin_service, finish_service, request_refill_allocated, request_refill_failed, resume,
  exit_printer,
}
use concurrent_request_orche.PaperRefiller.{take_demand, begin_refill, finish_refill}
use concurrent_request_orche.SignalCatcher.{stop_simulation, empty_queue_if_terminating}
use concurrent_request_orche.System.{System}
use concurrent_request_orche.System.Steps.{Step, Steps}
use concurrent_request_orche.System.Conservation.{taken-front}

module _ (is_server : Bool) (params : Parameters) (num_jobs : ℕ)
    (service_ms refill_us : ℤ → ℤ) where
  Step-bound :
      (capacity : ℕ) (σ τ : System)
      → params.queue_capacity ≡ pos capacity
      → Step is_server params num_jobs service_ms refill_us σ τ
      → length σ.sim.job_queue ≤ capacity
      → length τ.sim.job_queue ≤ capacity
  unfolding arrive drop_job_from_system enqueue_allocated enqueue_failed take_job begin_service
      finish_service request_refill_allocated request_refill_failed resume exit_printer take_demand
      begin_refill finish_refill stop_simulation empty_queue_if_terminating
  Step-bound capacity σ τ c (Step.passes_over n p e lt) h = h
  Step-bound capacity σ τ c (Step.arrives n p now papers e lt f) h = h
  Step-bound capacity σ τ c (Step.arrivals_end n p e d) h = h
  Step-bound capacity σ τ c (Step.receiver_cancelled n p e d) h = h
  Step-bound capacity σ τ c (Step.refuses job n p e f) h = h
  Step-bound capacity σ τ c (Step.drops job n p e) h = h
  Step-bound capacity σ τ c (Step.admits job n p now now' e f) h = omega (
    arith,
    full-lt capacity (length σ.sim.job_queue) (rw c at f),
    length-append σ.sim.job_queue (record job { queue_arrival_time_us = now } ∷ []),
  )
  Step-bound capacity σ τ c (Step.loses_job job n p now e f) h = omega (
    arith,
    full-lt capacity (length σ.sim.job_queue) (rw c at f),
    length-append σ.sim.job_queue (record job { queue_arrival_time_us = now } ∷ []),
  )
  Step-bound capacity σ τ c (Step.takes_job i w terminate job rest stamp now at d t e) h =
      omega (arith, h, ap length (taken-front terminate w σ.sim job rest e))
  Step-bound capacity σ τ c (Step.asks_for_paper i w terminate job now at d t e) h = h
  Step-bound capacity σ τ c (Step.asks_in_vain i w terminate job now at d t e) h = h
  Step-bound capacity σ τ c (Step.stops i w terminate at d t e) h = h
  Step-bound capacity σ τ c (Step.begins i w job now at d) h = h
  Step-bound capacity σ τ c (Step.finishes i w job now at d) h = h
  Step-bound capacity σ τ c (Step.resumes i w job since now at d l) h = h
  Step-bound capacity σ τ c (Step.gives_up i w job since at d t) h = h
  Step-bound capacity σ τ c (Step.fetches i rest w now e n at f) h = h
  Step-bound capacity σ τ c (Step.finds_full i rest w e n at f) h = h
  Step-bound capacity σ τ c (Step.fills i since needed w now e at) h = h
  Step-bound capacity σ τ c (Step.refiller_ends e n) h = h
  Step-bound capacity σ τ c (Step.refiller_cancelled d) h = h
  Step-bound capacity σ τ c (Step.signal now e) h = h
  Step-bound capacity σ τ c (Step.empties clock e) h = omega arith

  -- With a bounded queue that starts within its capacity, the queue is within its capacity after any
  -- interleaving of the threads.
  pub Steps-bound :
      (capacity : ℕ) (σ τ : System)
      → params.queue_capacity ≡ pos capacity
      → Steps is_server params num_jobs service_ms refill_us σ τ
      → length σ.sim.job_queue ≤ capacity
      → length τ.sim.job_queue ≤ capacity
  Steps-bound capacity σ τ c Steps.here h = h
  Steps-bound capacity σ τ c (Steps.then {τ = υ} rest step) h =
      Step-bound capacity υ τ c step (Steps-bound capacity σ υ c rest h)
