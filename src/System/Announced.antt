-- ===== src/System/Announced.antt =====
-- The announcement that no more jobs arrive, by src/job_receiver.c and src/signalcatcher.c.
use concurrent_request_orche.Base.{◌≡◌, ◌≢◌, ◌⊎◌, Bool, true, ℕ, arith}
use concurrent_request_orche.Base.Int.{ℤ}
use concurrent_request_orche.Simulation.{Parameters}
use concurrent_request_orche.JobReceiver.{
  arrive, drop_job_from_system, enqueue_allocated, enqueue_failed,
}
use concurrent_request_orche.Printer.Service.{
  take_job, begin_service, finish_service, request_refill_allocated, request_refill_failed, resume,
  exit_printer,
}
use concurrent_request_orche.PaperRefiller.{take_demand, begin_refill, finish_refill}
use concurrent_request_orche.SignalCatcher.{stop_simulation, empty_queue_if_terminating}
use concurrent_request_orche.System.{finished, listening, System}
use concurrent_request_orche.System.Steps.{Step}

-- Once there will be no more arrivals, the printers know.
pub record IsAnnounced (σ : System) : Type 0 where
  pub at_finish : (σ.receiver ≢ finished) ⊎ (σ.sim.all_jobs_arrived ≡ true)
  pub at_signal : (σ.catcher ≡ listening) ⊎ (σ.sim.all_jobs_arrived ≡ true)

module _ (is_server : Bool) (params : Parameters) (num_jobs : ℕ)
    (service_ms refill_us : ℤ → ℤ) where
  pub Step-IsAnnounced :
      (σ τ : System)
      → Step is_server params num_jobs service_ms refill_us σ τ
      → IsAnnounced σ
      → IsAnnounced τ
  unfolding arrive drop_job_from_system enqueue_allocated enqueue_failed take_job begin_service
      finish_service request_refill_allocated request_refill_failed resume exit_printer take_demand
      begin_refill finish_refill stop_simulation empty_queue_if_terminating
  Step-IsAnnounced σ τ (Step.passes_over n p e lt) h = ground (arith, h.at_finish, h.at_signal)
  Step-IsAnnounced σ τ (Step.arrives n p now papers e lt f) h =
      ground (arith, h.at_finish, h.at_signal)
  Step-IsAnnounced σ τ (Step.arrivals_end n p e d) h = ground (arith, h.at_finish, h.at_signal)
  Step-IsAnnounced σ τ (Step.receiver_cancelled n p e d) h =
      ground (arith, h.at_finish, h.at_signal)
  Step-IsAnnounced σ τ (Step.refuses job n p e f) h = ground (arith, h.at_finish, h.at_signal)
  Step-IsAnnounced σ τ (Step.drops job n p e) h = ground (arith, h.at_finish, h.at_signal)
  Step-IsAnnounced σ τ (Step.admits job n p now now' e f) h =
      ground (arith, h.at_finish, h.at_signal)
  Step-IsAnnounced σ τ (Step.loses_job job n p now e f) h = ground (arith, h.at_finish, h.at_signal)
  Step-IsAnnounced σ τ (Step.takes_job i w terminate job rest stamp now at d t e) h =
      ground (arith, h.at_finish, h.at_signal)
  Step-IsAnnounced σ τ (Step.asks_for_paper i w terminate job now at d t e) h =
      ground (arith, h.at_finish, h.at_signal)
  Step-IsAnnounced σ τ (Step.asks_in_vain i w terminate job now at d t e) h =
      ground (arith, h.at_finish, h.at_signal)
  Step-IsAnnounced σ τ (Step.stops i w terminate at d t e) h =
      ground (arith, h.at_finish, h.at_signal)
  Step-IsAnnounced σ τ (Step.begins i w job now at d) h = ground (arith, h.at_finish, h.at_signal)
  Step-IsAnnounced σ τ (Step.finishes i w job now at d) h = ground (arith, h.at_finish, h.at_signal)
  Step-IsAnnounced σ τ (Step.resumes i w job since now at d l) h =
      ground (arith, h.at_finish, h.at_signal)
  Step-IsAnnounced σ τ (Step.gives_up i w job since at d t) h =
      ground (arith, h.at_finish, h.at_signal)
  Step-IsAnnounced σ τ (Step.fetches i rest w now e n at f) h =
      ground (arith, h.at_finish, h.at_signal)
  Step-IsAnnounced σ τ (Step.finds_full i rest w e n at f) h =
      ground (arith, h.at_finish, h.at_signal)
  Step-IsAnnounced σ τ (Step.fills i since needed w now e at) h =
      ground (arith, h.at_finish, h.at_signal)
  Step-IsAnnounced σ τ (Step.refiller_ends e n) h = ground (arith, h.at_finish, h.at_signal)
  Step-IsAnnounced σ τ (Step.refiller_cancelled d) h = ground (arith, h.at_finish, h.at_signal)
  Step-IsAnnounced σ τ (Step.signal now e) h = ground (arith, h.at_finish, h.at_signal)
  Step-IsAnnounced σ τ (Step.empties clock e) h = ground (arith, h.at_finish, h.at_signal)
