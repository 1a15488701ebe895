-- ===== src/System/Completion/Order.antt =====
-- The invariant on flags, stopped printers and the end of the work, step by step.
use concurrent_request_orche.Base.{ℕ, refl, inl, inr, Bool, arith}
use concurrent_request_orche.Base.Int.{ℤ}
use concurrent_request_orche.Simulation.{Parameters, backend}
use concurrent_request_orche.JobReceiver.{
  arrive, drop_job_from_system, enqueue_allocated, enqueue_failed,
}
use concurrent_request_orche.Printer.Service.{
  Look, take_job, begin_service, finish_service, request_refill_allocated, request_refill_failed,
  resume, exit_printer,
}
use concurrent_request_orche.Printer.Service.Paper.{Meaning, look_lem}
use concurrent_request_orche.PaperRefiller.{take_demand, begin_refill, finish_refill}
use concurrent_request_orche.SignalCatcher.{stop_simulation, empty_queue_if_terminating}
use concurrent_request_orche.System.{looking, holding, printing, lacking, stopped, System}
use concurrent_request_orche.System.Steps.{Step}
use concurrent_request_orche.System.Completion.Ending.{
  IsOrderly, StopsIn, Over, set-StopsIn, weaken, still-Over, flags-orderly,
}

module _ (is_server : Bool) (params : Parameters) (num_jobs : ℕ)
    (service_ms refill_us : ℤ → ℤ) where
  carried :
      (σ τ : System)
      → Step is_server params num_jobs service_ms refill_us σ τ
      → IsOrderly σ
      → (StopsIn (Over τ) σ.workers → StopsIn (Over τ) τ.workers)
      → IsOrderly τ
  carried σ τ step h f =
      let (a, b) = flags-orderly is_server params num_jobs service_ms refill_us σ τ step h in
      record {
        on_signal = a;
        on_finish = b;
        on_stop = f (
            weaken (Over σ) (Over τ) σ.workers
              (still-Over is_server params num_jobs service_ms refill_us σ τ step h) h.on_stop);
      }

  pub Step-IsOrderly :
      (σ τ : System)
      → Step is_server params num_jobs service_ms refill_us σ τ
      → IsOrderly σ
      → IsOrderly τ
  unfolding arrive drop_job_from_system enqueue_allocated enqueue_failed take_job begin_service
      finish_service request_refill_allocated request_refill_failed resume exit_printer take_demand
      begin_refill finish_refill stop_simulation empty_queue_if_terminating
  Step-IsOrderly σ τ (Step.passes_over n p e lt) h =
      carried σ τ (Step.passes_over n p e lt) h (λ kept. kept)
  Step-IsOrderly σ τ (Step.arrives n p now papers e lt f) h =
      carried σ τ (Step.arrives n p now papers e lt f) h (λ kept. kept)
  Step-IsOrderly σ τ (Step.arrivals_end n p e d) h =
      carried σ τ (Step.arrivals_end n p e d) h (λ kept. kept)
  Step-IsOrderly σ τ (Step.receiver_cancelled n p e d) h =
      carried σ τ (Step.receiver_cancelled n p e d) h (λ kept. kept)
  Step-IsOrderly σ τ (Step.refuses job n p e f) h =
      carried σ τ (Step.refuses job n p e f) h (λ kept. kept)
  Step-IsOrderly σ τ (Step.drops job n p e) h = carried σ τ (Step.drops job n p e) h (λ kept. kept)
  Step-IsOrderly σ τ (Step.admits job n p now now' e f) h =
      carried σ τ (Step.admits job n p now now' e f) h (λ kept. kept)
  Step-IsOrderly σ τ (Step.loses_job job n p now e f) h =
      carried σ τ (Step.loses_job job n p now e f) h (λ kept. kept)
  Step-IsOrderly σ τ (Step.takes_job i w terminate job rest stamp now at d t e) h =
      carried σ τ (Step.takes_job i w terminate job rest stamp now at d t e) h (λ kept.
        set-StopsIn (Over τ) σ.workers i
          (record w { doing = holding (record job { queue_departure_time_us = now }) }) kept
          (inl refl))
  Step-IsOrderly σ τ (Step.asks_for_paper i w terminate job now at d t e) h =
      carried σ τ (Step.asks_for_paper i w terminate job now at d t e) h (λ kept.
        set-StopsIn (Over τ) σ.workers i (record w { doing = lacking job now }) kept (inl refl))
  Step-IsOrderly σ τ (Step.asks_in_vain i w terminate job now at d t e) h =
      carried σ τ (Step.asks_in_vain i w terminate job now at d t e) h (λ kept.
        set-StopsIn (Over τ) σ.workers i (record w { doing = lacking job now }) kept (inl refl))
  Step-IsOrderly σ τ (Step.stops i w terminate at d t e) h =
      let m : Meaning w.printer σ.sim terminate Look.ends =
        rw e at (look_lem terminate w.printer σ.sim) in
      let over : Over τ = ground (arith, m, h.on_signal, h.on_finish) in
      carried σ τ (Step.stops i w terminate at d t e) h
        (λ kept. set-StopsIn (Over τ) σ.workers i (record w { doing = stopped }) kept (inr over))
  Step-IsOrderly σ τ (Step.begins i w job now at d) h =
      carried σ τ (Step.begins i w job now at d) h (λ kept.
        set-StopsIn (Over τ) σ.workers i
          (record {
            printer = (begin_service (backend is_server) service_ms now w.printer job σ.sim).0;
            doing =
                printing ((begin_service (backend is_server) service_ms now w.printer job σ.sim).1);
          })
          kept (inl refl))
  Step-IsOrderly σ τ (Step.finishes i w job now at d) h =
      carried σ τ (Step.finishes i w job now at d) h (λ kept.
        set-StopsIn (Over τ) σ.workers i
          (record {
            printer = (finish_service (backend is_server) now w.printer job σ.sim).0;
            doing = looking;
          })
          kept (inl refl))
  Step-IsOrderly σ τ (Step.resumes i w job since now at d l) h =
      carried σ τ (Step.resumes i w job since now at d l) h
        (λ kept. set-StopsIn (Over τ) σ.workers i (record w { doing = looking }) kept (inl refl))
  Step-IsOrderly σ τ (Step.gives_up i w job since at d t) h =
      carried σ τ (Step.gives_up i w job since at d t) h (λ kept.
        set-StopsIn (Over τ) σ.workers i (record w { doing = stopped }) kept
          (inr (inl (ground (arith, h.on_signal)))))
  Step-IsOrderly σ τ (Step.fetches i rest w now e n at f) h =
      carried σ τ (Step.fetches i rest w now e n at f) h (λ kept. kept)
  Step-IsOrderly σ τ (Step.finds_full i rest w e n at f) h =
      carried σ τ (Step.finds_full i rest w e n at f) h (λ kept. kept)
  Step-IsOrderly σ τ (Step.fills i since needed w now e at) h =
      carried σ τ (Step.fills i since needed w now e at) h (λ kept.
        set-StopsIn (Over τ) σ.workers i
          (record w {
            printer = (finish_refill (backend is_server) since now needed w.printer σ.sim).0;
          })
          kept (kept i w at))
  Step-IsOrderly σ τ (Step.refiller_ends e n) h =
      carried σ τ (Step.refiller_ends e n) h (λ kept. kept)
  Step-IsOrderly σ τ (Step.refiller_cancelled d) h =
      carried σ τ (Step.refiller_cancelled d) h (λ kept. kept)
  Step-IsOrderly σ τ (Step.signal now e) h = carried σ τ (Step.signal now e) h (λ kept. kept)
  Step-IsOrderly σ τ (Step.empties clock e) h = carried σ τ (Step.empties clock e) h (λ kept. kept)
