-- ===== src/System/Conservation.antt =====
-- The counts of the statistics and the jobs in the system, over the interleavings of the threads.
use concurrent_request_orche.Base.{
  ℕ, zero, suc, ◌+◌, ◌≡◌, refl, ap, inl, inr, Bool, some, List, [], ◌∷◌, map, Bool-cases, get_elem?,
  set, length, length-append, arith,
}
use concurrent_request_orche.Base.Int.{ℤ}
use concurrent_request_orche.Job.{Job, init_job}
use concurrent_request_orche.Printer.{Printer}
use concurrent_request_orche.ConsoleHandler.{log_simulation_start}
use concurrent_request_orche.WebsocketHandler.{publish_simulation_start}
use concurrent_request_orche.LogRouter.{console_ops, websocket_ops, emit_simulation_start}
use concurrent_request_orche.SimulationStats.{SimulationStatistics}
use concurrent_request_orche.Simulation.{Simulation, Parameters, backend}
use concurrent_request_orche.JobReceiver.{
  arrive, drop_job_from_system, enqueue_allocated, enqueue_failed,
}
use concurrent_request_orche.Printer.Service.{
  Look, look, take_job, begin_service, finish_service, request_refill_allocated,
  request_refill_failed, resume, exit_printer,
}
use concurrent_request_orche.Printer.Service.Paper.{Meaning, look_lem}
use concurrent_request_orche.PaperRefiller.{take_demand, begin_refill, finish_refill}
use concurrent_request_orche.SignalCatcher.{stop_simulation, empty_queue_if_terminating}
use concurrent_request_orche.SignalCatcher.Emptied.{remove_jobs-Removed}
use concurrent_request_orche.System.{
  Receiver, between, arrived, refusing, finished, Doing, looking, holding, printing, lacking,
  stopped, Worker, System, new_worker, start_system,
}
use concurrent_request_orche.System.Steps.{Step, Steps, loses, lost_jobs}
use concurrent_request_orche.System.Counts.{
  arrive-Gains, drop_job_from_system-Gains, enqueue-Gains, enqueue_failed-Gains, take_job-Gains,
  begin_service-Gains, finish_service-Gains, request_refill-Gains, request_refill_failed-Gains,
  resume-Gains, begin_refill-Gains, finish_refill-Gains, stop_simulation-Gains,
}

-- The jobs in the hands of a thread.
abbrev pub in_hand : Receiver → ℕ
in_hand (between n p) = 0
in_hand (arrived job n p) = 1
in_hand (refusing job n p) = 1
in_hand finished = 0

abbrev pub held : Doing → ℕ
held looking = 0
held (holding job) = 1
held (printing job) = 1
held (lacking job since) = 0
held stopped = 0

unfoldable pub hands : List Worker → ℕ
hands [] = 0
hands (w ∷ ws) = held w.doing + hands ws

hands-set :
    (ws : List Worker) (i : ℕ) (w v : Worker)
    → get_elem? ws i ≡ some w
    → hands (set ws i v) + held w.doing ≡ hands ws + held v.doing
unfolding hands
hands-set [] i w v h = absurd (ground arith)
hands-set (x ∷ ws) zero w v h = grind arith
hands-set (x ∷ ws) (suc i) w v h = omega (arith, hands-set ws i w v h)

abbrev pub departed : SimulationStatistics → ℕ
departed s = s.total_jobs_served + s.total_jobs_dropped + s.total_jobs_removed

-- Every job that has arrived is queued, in the hands of a thread, counted as served, dropped or
-- removed, or one of those lost for want of memory.
abbrev pub Conserved : (lost : ℕ) → System → Type 0
Conserved lost σ =
    σ.sim.journal.stats.total_jobs_arrived
    ≡ length σ.sim.job_queue
      + in_hand σ.receiver
      + hands σ.workers
      + departed σ.sim.journal.stats
      + lost

pub taken-front :
    (terminate : Bool) (w : Worker) (s : Simulation) (job : Job) (rest : List Job)
    → look terminate w.printer s ≡ Look.takes job rest
    → s.job_queue ≡ job ∷ rest
taken-front terminate w s job rest e =
    let m : Meaning w.printer s terminate (Look.takes job rest) =
      rw e at (look_lem terminate w.printer s) in
    m.1

module _ (is_server : Bool) (params : Parameters) (num_jobs : ℕ)
    (service_ms refill_us : ℤ → ℤ) where
  Step-Conserved :
      (lost : ℕ) (σ τ : System) (step : Step is_server params num_jobs service_ms refill_us σ τ)
      → Conserved lost σ
      → Conserved (lost + loses is_server params num_jobs service_ms refill_us step) τ
  unfolding arrive drop_job_from_system enqueue_allocated enqueue_failed take_job begin_service
      finish_service request_refill_allocated request_refill_failed resume exit_printer take_demand
      begin_refill finish_refill stop_simulation empty_queue_if_terminating
  Step-Conserved lost σ τ (Step.passes_over n p e lt) h = omega (arith, h, ap in_hand e)
  Step-Conserved lost σ τ (Step.arrives n p now papers e lt f) h =
      let g =
        arrive-Gains is_server now p (init_job (n + 1) params.job_arrival_time_us papers) σ.sim in
      omega (arith, h, ap in_hand e, g.gain_arrived, g.gain_served, g.gain_dropped, g.gain_removed)
  Step-Conserved lost σ τ (Step.arrivals_end n p e d) h = omega (arith, h, ap in_hand e)
  Step-Conserved lost σ τ (Step.receiver_cancelled n p e d) h = omega (arith, h, ap in_hand e)
  Step-Conserved lost σ τ (Step.refuses job n p e f) h = omega (arith, h, ap in_hand e)
  Step-Conserved lost σ τ (Step.drops job n p e) h =
      let g = drop_job_from_system-Gains is_server p job σ.sim in
      omega (arith, h, ap in_hand e, g.gain_arrived, g.gain_served, g.gain_dropped, g.gain_removed)
  Step-Conserved lost σ τ (Step.admits job n p now now' e f) h =
      let g = enqueue-Gains is_server now now' job σ.sim in
      omega (
        arith,
        h,
        ap in_hand e,
        length-append σ.sim.job_queue (record job { queue_arrival_time_us = now } ∷ []),
        g.gain_arrived,
        g.gain_served,
        g.gain_dropped,
        g.gain_removed,
      )
  Step-Conserved lost σ τ (Step.loses_job job n p now e f) h =
      let g = enqueue_failed-Gains is_server now job σ.sim in
      omega (arith, h, ap in_hand e, g.gain_arrived, g.gain_served, g.gain_dropped, g.gain_removed)
  Step-Conserved lost σ τ (Step.takes_job i w terminate job rest stamp now at d t e) h =
      let q = taken-front terminate w σ.sim job rest e in
      let g = take_job-Gains is_server stamp now job rest σ.sim in
      omega (
        arith,
        h,
        ap held d,
        hands-set σ.workers i w
            (record w { doing = holding (record job { queue_departure_time_us = now }) }) at,
        ap length q,
        g.gain_arrived,
        g.gain_served,
        g.gain_dropped,
        g.gain_removed,
      )
  Step-Conserved lost σ τ (Step.asks_for_paper i w terminate job now at d t e) h =
      let g = request_refill-Gains is_server now i w.printer job.id σ.sim in
      omega (
        arith,
        h,
        ap held d,
        hands-set σ.workers i w (record w { doing = lacking job now }) at,
        g.gain_arrived,
        g.gain_served,
        g.gain_dropped,
        g.gain_removed,
      )
  Step-Conserved lost σ τ (Step.asks_in_vain i w terminate job now at d t e) h =
      let g = request_refill_failed-Gains is_server now w.printer job.id σ.sim in
      omega (
        arith,
        h,
        ap held d,
        hands-set σ.workers i w (record w { doing = lacking job now }) at,
        g.gain_arrived,
        g.gain_served,
        g.gain_dropped,
        g.gain_removed,
      )
  Step-Conserved lost σ τ (Step.stops i w terminate at d t e) h =
      omega (arith, h, ap held d, hands-set σ.workers i w (record w { doing = stopped }) at)
  Step-Conserved lost σ τ (Step.begins i w job now at d) h =
      let g = begin_service-Gains is_server service_ms now w.printer job σ.sim in
      omega (
        arith,
        h,
        ap held d,
        hands-set σ.workers i w
            (record {
              printer = (begin_service (backend is_server) service_ms now w.printer job σ.sim).0;
              doing =
                  printing
                    ((begin_service (backend is_server) service_ms now w.printer job σ.sim).1);
            })
            at,
        g.gain_arrived,
        g.gain_served,
        g.gain_dropped,
        g.gain_removed,
      )
  Step-Conserved lost σ τ (Step.finishes i w job now at d) h =
      let g = finish_service-Gains is_server now w.printer job σ.sim in
      omega (
        arith,
        h,
        ap held d,
        hands-set σ.workers i w
            (record {
              printer = (finish_service (backend is_server) now w.printer job σ.sim).0;
              doing = looking;
            })
            at,
        g.gain_arrived,
        g.gain_served,
        g.gain_dropped,
        g.gain_removed,
      )
  Step-Conserved lost σ τ (Step.resumes i w job since now at d l) h =
      let g = resume-Gains is_server since now w.printer σ.sim in
      omega (
        arith,
        h,
        ap held d,
        hands-set σ.workers i w (record w { doing = looking }) at,
        g.gain_arrived,
        g.gain_served,
        g.gain_dropped,
        g.gain_removed,
      )
  Step-Conserved lost σ τ (Step.gives_up i w job since at d t) h =
      omega (arith, h, ap held d, hands-set σ.workers i w (record w { doing = stopped }) at)
  Step-Conserved lost σ τ (Step.fetches i rest w now e n at f) h =
      let g = begin_refill-Gains is_server refill_us now w.printer (take_demand rest σ.sim) in
      omega (arith, h, g.gain_arrived, g.gain_served, g.gain_dropped, g.gain_removed)
  Step-Conserved lost σ τ (Step.finds_full i rest w e n at f) h = omega (arith, h)
  Step-Conserved lost σ τ (Step.fills i since needed w now e at) h =
      let g = finish_refill-Gains is_server since now needed w.printer σ.sim in
      omega (
        arith,
        h,
        hands-set σ.workers i w
            (record w {
              printer = (finish_refill (backend is_server) since now needed w.printer σ.sim).0;
            })
            at,
        g.gain_arrived,
        g.gain_served,
        g.gain_dropped,
        g.gain_removed,
      )
  Step-Conserved lost σ τ (Step.refiller_ends e n) h = omega (arith, h)
  Step-Conserved lost σ τ (Step.refiller_cancelled d) h = omega (arith, h)
  Step-Conserved lost σ τ (Step.signal now e) h =
      let g = stop_simulation-Gains is_server now σ.sim in
      omega (arith, h, g.gain_arrived, g.gain_served, g.gain_dropped, g.gain_removed)
  Step-Conserved lost σ τ (Step.empties clock e) h =
      let r = remove_jobs-Removed is_server clock 0 σ.sim.job_queue σ.sim.journal in
      omega (arith, h, r.counted, r.arrived_same, r.served_same, r.dropped_same)

  Steps-Conserved :
      (σ τ : System) (steps : Steps is_server params num_jobs service_ms refill_us σ τ)
      → Conserved 0 σ
      → Conserved (lost_jobs is_server params num_jobs service_ms refill_us steps) τ
  Steps-Conserved σ τ Steps.here h = h
  Steps-Conserved σ τ (Steps.then {τ = υ} rest step) h =
      Step-Conserved (lost_jobs is_server params num_jobs service_ms refill_us rest) υ τ step
        (Steps-Conserved σ υ rest h)

  hands-start : (printers : List Printer) → hands (map new_worker printers) ≡ 0
  unfolding hands
  hands-start [] = refl
  hands-start (p ∷ ps) = omega (arith, hands-start ps)

  start-Conserved :
      (made now : ℕ) (printers : List Printer)
      → Conserved 0 (start_system (backend is_server) made now printers)
  unfolding start_system emit_simulation_start console_ops websocket_ops log_simulation_start
      publish_simulation_start
  start-Conserved made now printers = elim (Bool-cases is_server) [
    | inl e ↦ rw e (omega (arith, hands-start printers))
    | inr e ↦ rw e (omega (arith, hands-start printers))
  ]

  -- In every state that the threads can reach from the start, in any interleaving, the number of jobs
  -- that arrived is the number of those queued, in the hands of a thread, served, dropped, removed, and
  -- lost since no node could be allocated for them.
  pub conservation :
      (made now : ℕ) (printers : List Printer) (σ : System)
      (steps : Steps is_server params num_jobs service_ms refill_us
        (start_system (backend is_server) made now printers)
        σ)
      → Conserved (lost_jobs is_server params num_jobs service_ms refill_us steps) σ
  conservation made now printers σ steps =
      Steps-Conserved (start_system (backend is_server) made now printers) σ steps
        (start-Conserved made now printers)
