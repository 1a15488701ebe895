-- ===== src/System/Completion.antt =====
-- The end of the work: the state in which a printer of src/printer.c stops of its own accord.
pub mod Ending
pub mod Order
pub mod Supplied
use concurrent_request_orche.Base.{
  ℕ, zero, suc, ◌+◌, ◌≡◌, ◌≢◌, refl, ap, ◌⊎◌, inl, inr, Bool, true, false, some, List, [], ◌∷◌, map,
  get_elem?, set, length, arith,
}
use concurrent_request_orche.Base.Int.{ℤ}
use concurrent_request_orche.Printer.{Printer}
use concurrent_request_orche.Simulation.{Parameters, backend}
use concurrent_request_orche.JobReceiver.{arrive, drop_job_from_system, enqueue_allocated}
use concurrent_request_orche.Printer.Service.{
  Look, take_job, begin_service, finish_service, request_refill_allocated, resume, exit_printer,
}
use concurrent_request_orche.Printer.Service.Paper.{Meaning, look_lem}
use concurrent_request_orche.PaperRefiller.{take_demand, begin_refill, finish_refill}
use concurrent_request_orche.SignalCatcher.{stop_simulation, empty_queue_if_terminating}
use concurrent_request_orche.System.{
  finished, Doing, looking, holding, printing, lacking, stopped, listening, Worker, System,
  new_worker, start_system,
}
use concurrent_request_orche.System.Steps.{Step, Steps, lost_jobs}
use concurrent_request_orche.System.Conservation.{
  in_hand, conservation, hands, departed, taken-front,
}
use concurrent_request_orche.System.Completion.Ending.{IsDone, IsOrderly, StopsIn, Over}
use concurrent_request_orche.System.Completion.Order.{Step-IsOrderly}

module _ (is_server : Bool) (params : Parameters) (num_jobs : ℕ)
    (service_ms refill_us : ℤ → ℤ) where
  pub Steps-IsOrderly :
      (σ τ : System)
      → Steps is_server params num_jobs service_ms refill_us σ τ
      → IsOrderly σ
      → IsOrderly τ
  Steps-IsOrderly σ τ Steps.here h = h
  Steps-IsOrderly σ τ (Steps.then {τ = υ} rest step) h =
      Step-IsOrderly is_server params num_jobs service_ms refill_us υ τ step
        (Steps-IsOrderly σ υ rest h)

  pub start-StopsIn : (O : Type 0) (printers : List Printer) → StopsIn O (map new_worker printers)
  start-StopsIn O [] i w e = absurd (ground arith)
  start-StopsIn O (p ∷ ps) zero w e = inl (ground arith)
  start-StopsIn O (p ∷ ps) (suc i) w e = start-StopsIn O ps i w e

  -- As long as there is no signal, a printer that has stopped means that the receiver is finished and
  -- the queue is empty, and every job that arrived is still being printed, or is counted as served,
  -- dropped or removed, or was lost since no node could be allocated for it.
  pub completion :
      (made now : ℕ) (printers : List Printer) (σ : System) (i : ℕ) (w : Worker)
      (steps : Steps is_server params num_jobs service_ms refill_us
        (start_system (backend is_server) made now printers)
        σ)
      → σ.catcher ≡ listening
      → get_elem? σ.workers i ≡ some w
      → w.doing ≡ stopped
      → (σ.receiver ≡ finished)
        × (σ.sim.job_queue ≡ [])
        × (σ.sim.journal.stats.total_jobs_arrived
            ≡ hands σ.workers
              + departed σ.sim.journal.stats
              + lost_jobs is_server params num_jobs service_ms refill_us steps)
  unfolding start_system
  completion made now printers σ i w steps calm at stop =
      let begin : IsOrderly (start_system (backend is_server) made now printers) = record {
        on_signal = inl refl;
        on_finish = inl refl;
        on_stop = start-StopsIn _ printers;
      } in
      let h = Steps-IsOrderly (start_system (backend is_server) made now printers) σ steps begin in
      let (done, empty) : IsDone σ = ground (arith, h.on_stop i w at) in
      (
        done,
        empty,
        omega (
          arith,
          conservation is_server params num_jobs service_ms refill_us made now printers σ steps,
          ap in_hand done,
          ap length empty,
        ),
      )
