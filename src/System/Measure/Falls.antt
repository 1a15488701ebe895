-- ===== src/System/Measure/Falls.antt =====
-- The work left falls with every step of a thread of src/.
use concurrent_request_orche.Base.{
  ℕ, ◌+◌, ◌≤◌, ◌≡◌, ap, inl, inr, Bool, true, false, some, [], ◌∷◌, length, length-append, arith,
}
use concurrent_request_orche.Base.Int.{ℤ, ◌+ℤ◌, ◌-ℤ◌}
use concurrent_request_orche.Job.{Job}
use concurrent_request_orche.Printer.{Printer}
use concurrent_request_orche.Simulation.{Parameters, backend}
use concurrent_request_orche.JobReceiver.{
  arrive, drop_job_from_system, enqueue_allocated, enqueue_failed,
}
use concurrent_request_orche.Printer.Service.{
  lacks, take_job, begin_service, finish_service, request_refill_allocated, request_refill_failed,
  resume, exit_printer,
}
use concurrent_request_orche.PaperRefiller.{
  take_demand, begin_refill, finish_refill, is_filled, papers_needed,
}
use concurrent_request_orche.SignalCatcher.{stop_simulation, empty_queue_if_terminating}
use concurrent_request_orche.System.{Doing, looking, holding, printing, lacking, stopped, System}
use concurrent_request_orche.System.Steps.{Step, own}
use concurrent_request_orche.System.Conservation.{taken-front}
use concurrent_request_orche.System.Requests.{Full, Awaits, Tracked}
use concurrent_request_orche.System.Requests.Kept.{short-lacks, next_demand-serves}
use concurrent_request_orche.System.Measure.{
  measure, receiver_left, worker_left, refiller_left, catcher_left, workers_left-set,
}
use concurrent_request_orche.System.Measure.Short.{IsShort, AllShort, served}

filled-Full : (p : Printer) → Full p → is_filled p ≡ true
unfolding is_filled papers_needed ◌-ℤ◌
filled-Full p h = ground arith

resuming :
    (p : Printer) (d : Doing) (job : Job) (since : ℕ)
    → d ≡ lacking job since
    → lacks p job ≡ false
    → IsShort p d
    → worker_left p looking + 1 ≤ worker_left p d
resuming p d job since e enough h =
    let k : IsShort p (lacking job since) = rw e at h in
    elim k [
      | inl short ↦ absurd (cc (short, enough))
      | inr full ↦ rw e (rw (filled-Full p full) (rw enough (omega arith)))
    ]

-- A printer gains nothing by paper but the rest.
filling_up :
    (L : Type 0) (n : ℕ) (needed : ℤ) (p : Printer) (d : Doing)
    → Awaits L n (some needed) p d
    → worker_left (record p { current_paper_count = p.current_paper_count +ℤ needed }) d
      ≤ worker_left p d
filling_up L n needed p looking h = absurd (ground arith)
filling_up L n needed p (holding job) h = omega arith
filling_up L n needed p (printing job) h = omega arith
filling_up L n needed p (lacking job since) (inl h) = absurd (ground arith)
filling_up L n needed p (lacking job since) (inr (inl h)) = rw (h.3) (ground arith)
filling_up L n needed p (lacking job since) (inr (inr h)) = absurd (ground arith)
filling_up L n needed p stopped h = omega arith

module _ (L : ℕ → Type 0) (is_server : Bool) (params : Parameters) (num_jobs : ℕ)
    (service_ms refill_us : ℤ → ℤ) where
  pub Step-measure :
      (σ τ : System) (step : Step is_server params num_jobs service_ms refill_us σ τ)
      → Tracked L σ
      → AllShort σ.workers
      → measure num_jobs τ + own is_server params num_jobs service_ms refill_us step
        ≤ measure num_jobs σ
  unfolding arrive drop_job_from_system enqueue_allocated enqueue_failed take_job begin_service
      finish_service request_refill_allocated request_refill_failed resume exit_printer take_demand
      begin_refill finish_refill stop_simulation empty_queue_if_terminating
  Step-measure σ τ (Step.passes_over n p e lt) tracked h =
      ground (arith, ap (receiver_left num_jobs) e)
  Step-measure σ τ (Step.arrives n p now papers e lt f) tracked h =
      ground (arith, ap (receiver_left num_jobs) e)
  Step-measure σ τ (Step.arrivals_end n p e d) tracked h =
      ground (arith, ap (receiver_left num_jobs) e)
  Step-measure σ τ (Step.receiver_cancelled n p e d) tracked h =
      ground (arith, ap (receiver_left num_jobs) e)
  Step-measure σ τ (Step.refuses job n p e f) tracked h =
      ground (arith, ap (receiver_left num_jobs) e)
  Step-measure σ τ (Step.drops job n p e) tracked h = ground (arith, ap (receiver_left num_jobs) e)
  Step-measure σ τ (Step.admits job n p now now' e f) tracked h = ground (
    arith,
    ap (receiver_left num_jobs) e,
    length-append σ.sim.job_queue (record job { queue_arrival_time_us = now } ∷ []),
  )
  Step-measure σ τ (Step.loses_job job n p now e f) tracked h = ground (
    arith,
    ap (receiver_left num_jobs) e,
    length-append σ.sim.job_queue (record job { queue_arrival_time_us = now } ∷ []),
  )
  Step-measure σ τ (Step.takes_job i w terminate job rest stamp now at d t e) tracked h = ground (
    arith,
    workers_left-set σ.workers i w
        (record w { doing = holding ((take_job (backend is_server) stamp now job rest σ.sim).0) })
        at,
    ap (worker_left w.printer) d,
    ap length (taken-front terminate w σ.sim job rest e),
  )
  Step-measure σ τ (Step.asks_for_paper i w terminate job now at d t e) tracked h = ground (
    arith,
    workers_left-set σ.workers i w (record w { doing = lacking job now }) at,
    ap (worker_left w.printer) d,
    short-lacks terminate w.printer σ.sim job e,
    length-append σ.sim.refill_queue (i ∷ []),
  )
  Step-measure σ τ (Step.asks_in_vain i w terminate job now at d t e) tracked h = ground (
    arith,
    workers_left-set σ.workers i w (record w { doing = lacking job now }) at,
    ap (worker_left w.printer) d,
    short-lacks terminate w.printer σ.sim job e,
    length-append σ.sim.refill_queue (i ∷ []),
  )
  Step-measure σ τ (Step.stops i w terminate at d t e) tracked h = ground (
    arith,
    workers_left-set σ.workers i w (record w { doing = stopped }) at,
    ap (worker_left w.printer) d,
  )
  Step-measure σ τ (Step.begins i w job now at d) tracked h = ground (
    arith,
    workers_left-set σ.workers i w
        (record {
          printer = (begin_service (backend is_server) service_ms now w.printer job σ.sim).0;
          doing =
              printing ((begin_service (backend is_server) service_ms now w.printer job σ.sim).1);
        })
        at,
    ap (worker_left w.printer) d,
  )
  Step-measure σ τ (Step.finishes i w job now at d) tracked h = ground (
    arith,
    workers_left-set σ.workers i w
        (record {
          printer = (finish_service (backend is_server) now w.printer job σ.sim).0;
          doing = looking;
        })
        at,
    ap (worker_left w.printer) d,
  )
  Step-measure σ τ (Step.resumes i w job since now at d l) tracked h = ground (
    arith,
    workers_left-set σ.workers i w (record w { doing = looking }) at,
    resuming w.printer w.doing job since d l (h i w at),
  )
  Step-measure σ τ (Step.gives_up i w job since at d t) tracked h = ground (
    arith,
    workers_left-set σ.workers i w (record w { doing = stopped }) at,
    ap (worker_left w.printer) d,
  )
  Step-measure σ τ (Step.fetches i rest w now e n at f) tracked h =
      ground (arith, ap refiller_left e, ap length (next_demand-serves σ.sim i rest n))
  Step-measure σ τ (Step.finds_full i rest w e n at f) tracked h =
      ground (arith, ap refiller_left e, ap length (next_demand-serves σ.sim i rest n))
  Step-measure σ τ (Step.fills i since needed w now e at) tracked h = ground (
    arith,
    ap refiller_left e,
    workers_left-set σ.workers i w
        (record w {
          printer = (finish_refill (backend is_server) since now needed w.printer σ.sim).0;
        })
        at,
    filling_up (L i) _ needed w.printer w.doing (served L σ i since needed w e at tracked),
  )
  Step-measure σ τ (Step.refiller_ends e n) tracked h = ground (arith, ap refiller_left e)
  Step-measure σ τ (Step.refiller_cancelled d) tracked h = ground arith
  Step-measure σ τ (Step.signal now e) tracked h = ground (arith, ap catcher_left e)
  Step-measure σ τ (Step.empties clock e) tracked h = ground (arith, ap catcher_left e)
