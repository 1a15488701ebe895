-- ===== src/System/Completion/Supplied.antt =====
-- The refiller of src/paper_refiller.c does not end before the work does.
use concurrent_request_orche.Base.{◌≡◌, ◌≢◌, ◌⊎◌, inl, inr, Bool, false, ℕ, arith}
use concurrent_request_orche.Base.Int.{ℤ}
use concurrent_request_orche.Simulation.{Parameters}
use concurrent_request_orche.JobReceiver.{
  arrive, drop_job_from_system, enqueue_allocated, enqueue_failed,
}
use concurrent_request_orche.Printer.Service.{
  Look, take_job, begin_service, finish_service, request_refill_allocated, request_refill_failed,
  resume, exit_printer,
}
use concurrent_request_orche.Printer.Service.Paper.{Meaning, look_lem}
use concurrent_request_orche.PaperRefiller.{next_demand, take_demand, begin_refill, finish_refill}
use concurrent_request_orche.SignalCatcher.{stop_simulation, empty_queue_if_terminating}
use concurrent_request_orche.System.{ended, System}
use concurrent_request_orche.System.Steps.{Step}
use concurrent_request_orche.System.Completion.Ending.{IsOrderly, Over, still-Over}

-- Jobs are still to be printed and the refiller is there, or it is over.
abbrev pub IsSupplied : System → Type 0
IsSupplied σ = ((σ.sim.all_jobs_served ≡ false) × (σ.refiller ≢ ended)) ⊎ Over σ

module _ (is_server : Bool) (params : Parameters) (num_jobs : ℕ)
    (service_ms refill_us : ℤ → ℤ) where
  running_on :
      (σ τ : System)
      → Step is_server params num_jobs service_ms refill_us σ τ
      → IsOrderly σ
      → σ.sim.all_jobs_served ≡ false
      → σ.refiller ≢ ended
      → IsSupplied τ
  unfolding arrive drop_job_from_system enqueue_allocated enqueue_failed take_job begin_service
      finish_service request_refill_allocated request_refill_failed resume exit_printer next_demand
      take_demand begin_refill finish_refill stop_simulation empty_queue_if_terminating
  running_on σ τ (Step.passes_over n p e lt) h served alive =
      ground (arith, h.on_signal, h.on_finish)
  running_on σ τ (Step.arrives n p now papers e lt f) h served alive =
      ground (arith, h.on_signal, h.on_finish)
  running_on σ τ (Step.arrivals_end n p e d) h served alive =
      ground (arith, h.on_signal, h.on_finish)
  running_on σ τ (Step.receiver_cancelled n p e d) h served alive =
      ground (arith, h.on_signal, h.on_finish)
  running_on σ τ (Step.refuses job n p e f) h served alive =
      ground (arith, h.on_signal, h.on_finish)
  running_on σ τ (Step.drops job n p e) h served alive = ground (arith, h.on_signal, h.on_finish)
  running_on σ τ (Step.admits job n p now now' e f) h served alive =
      ground (arith, h.on_signal, h.on_finish)
  running_on σ τ (Step.loses_job job n p now e f) h served alive =
      ground (arith, h.on_signal, h.on_finish)
  running_on σ τ (Step.takes_job i w terminate job rest stamp now at d t e) h served alive =
      ground (arith, h.on_signal, h.on_finish)
  running_on σ τ (Step.asks_for_paper i w terminate job now at d t e) h served alive =
      ground (arith, h.on_signal, h.on_finish)
  running_on σ τ (Step.asks_in_vain i w terminate job now at d t e) h served alive =
      ground (arith, h.on_signal, h.on_finish)
  running_on σ τ (Step.stops i w terminate at d t e) h served alive =
      let m : Meaning w.printer σ.sim terminate Look.ends =
        rw e at (look_lem terminate w.printer σ.sim) in
      inr (ground (arith, m, h.on_signal, h.on_finish))
  running_on σ τ (Step.begins i w job now at d) h served alive =
      ground (arith, h.on_signal, h.on_finish)
  running_on σ τ (Step.finishes i w job now at d) h served alive =
      ground (arith, h.on_signal, h.on_finish)
  running_on σ τ (Step.resumes i w job since now at d l) h served alive =
      ground (arith, h.on_signal, h.on_finish)
  running_on σ τ (Step.gives_up i w job since at d t) h served alive =
      ground (arith, h.on_signal, h.on_finish)
  running_on σ τ (Step.fetches i rest w now e n at f) h served alive =
      ground (arith, h.on_signal, h.on_finish)
  running_on σ τ (Step.finds_full i rest w e n at f) h served alive =
      ground (arith, h.on_signal, h.on_finish)
  running_on σ τ (Step.fills i since needed w now e at) h served alive =
      ground (arith, h.on_signal, h.on_finish)
  running_on σ τ (Step.refiller_ends e n) h served alive = ground (arith, h.on_signal, h.on_finish)
  running_on σ τ (Step.refiller_cancelled d) h served alive =
      ground (arith, h.on_signal, h.on_finish)
  running_on σ τ (Step.signal now e) h served alive = ground (arith, h.on_signal, h.on_finish)
  running_on σ τ (Step.empties clock e) h served alive = ground (arith, h.on_signal, h.on_finish)

  pub Step-IsSupplied :
      (σ τ : System)
      → Step is_server params num_jobs service_ms refill_us σ τ
      → IsOrderly σ
      → IsSupplied σ
      → IsSupplied τ
  Step-IsSupplied σ τ step h (inl k) = running_on σ τ step h (k.0) (k.1)
  Step-IsSupplied σ τ step h (inr over) =
      inr (still-Over is_server params num_jobs service_ms refill_us σ τ step h over)
