-- ===== src/System/Measure/Short.antt =====
-- A printer of src/printer.c that waits for paper lacks it, or has been filled meanwhile.
use concurrent_request_orche.Base.{
  ℕ, ◌≡◌, ◌⊎◌, inl, inr, Bool, true, Option, none, some, List, get_elem?, set-each, arith,
}
use concurrent_request_orche.Base.Int.{ℤ}
use concurrent_request_orche.Printer.{Printer}
use concurrent_request_orche.Simulation.{Parameters, backend}
use concurrent_request_orche.JobReceiver.{
  arrive, drop_job_from_system, enqueue_allocated, enqueue_failed,
}
use concurrent_request_orche.Printer.Service.{
  lacks, take_job, begin_service, finish_service, request_refill_allocated, request_refill_failed,
  resume, exit_printer,
}
use concurrent_request_orche.PaperRefiller.{take_demand, begin_refill, finish_refill}
use concurrent_request_orche.SignalCatcher.{stop_simulation, empty_queue_if_terminating}
use concurrent_request_orche.System.{
  Doing, looking, holding, printing, lacking, stopped, filling, Worker, System,
}
use concurrent_request_orche.System.Steps.{Step}
use concurrent_request_orche.System.Requests.{asked, brought, Full, Awaits, Tracked}
use concurrent_request_orche.System.Requests.Kept.{short-lacks, filled}

abbrev pub IsShort : Printer → Doing → Type 0
IsShort p looking = Unit {0}
IsShort p (holding job) = Unit {0}
IsShort p (printing job) = Unit {0}
IsShort p (lacking job since) = (lacks p job ≡ true) ⊎ Full p
IsShort p stopped = Unit {0}

abbrev pub AllShort : List Worker → Type 0
AllShort ws = (i : ℕ) (w : Worker) → get_elem? ws i ≡ some w → IsShort w.printer w.doing

waits-IsShort :
    (L : Type 0) (n : ℕ) (o : Option ℤ) (p : Printer) (d : Doing) → Awaits L n o p d → IsShort p d
waits-IsShort L n o p looking h = tt
waits-IsShort L n o p (holding job) h = tt
waits-IsShort L n o p (printing job) h = tt
waits-IsShort L n o p (lacking job since) (inl h) = inl (h.2)
waits-IsShort L n o p (lacking job since) (inr (inl h)) = inl (h.2)
waits-IsShort L n o p (lacking job since) (inr (inr (inl h))) = inr (h.2)
waits-IsShort L n o p (lacking job since) (inr (inr (inr h))) = inl (h.3)
waits-IsShort L n o p stopped h = tt

-- What the printer waits for while the refiller brings it paper.
pub served :
    (L : ℕ → Type 0) (σ : System) (i since : ℕ) (needed : ℤ) (w : Worker)
    → σ.refiller ≡ filling i since needed
    → get_elem? σ.workers i ≡ some w
    → Tracked L σ
    → Awaits (L i) (asked i σ.sim.refill_queue) (some needed) w.printer w.doing
served L σ i since needed w e at (inl over) = absurd (cc)
served L σ i since needed w e at (inr h) =
    let n : brought i (filling i since needed) ≡ some needed = ground arith in
    rw n at (rw e at (rw at at (h i)))

module _ (L : ℕ → Type 0) (is_server : Bool) (params : Parameters) (num_jobs : ℕ)
    (service_ms refill_us : ℤ → ℤ) where
  pub Step-AllShort :
      (σ τ : System)
      → Step is_server params num_jobs service_ms refill_us σ τ
      → Tracked L σ
      → AllShort σ.workers
      → AllShort τ.workers
  unfolding arrive drop_job_from_system enqueue_allocated enqueue_failed take_job begin_service
      finish_service request_refill_allocated request_refill_failed resume exit_printer take_demand
      begin_refill finish_refill stop_simulation empty_queue_if_terminating
  Step-AllShort σ τ (Step.passes_over n p e lt) tracked h = h
  Step-AllShort σ τ (Step.arrives n p now papers e lt f) tracked h = h
  Step-AllShort σ τ (Step.arrivals_end n p e d) tracked h = h
  Step-AllShort σ τ (Step.receiver_cancelled n p e d) tracked h = h
  Step-AllShort σ τ (Step.refuses job n p e f) tracked h = h
  Step-AllShort σ τ (Step.drops job n p e) tracked h = h
  Step-AllShort σ τ (Step.admits job n p now now' e f) tracked h = h
  Step-AllShort σ τ (Step.loses_job job n p now e f) tracked h = h
  Step-AllShort σ τ (Step.takes_job i w terminate job rest stamp now at d t e) tracked h =
      set-each (λ (v : Worker). IsShort v.printer v.doing) σ.workers i
        (record w { doing = holding ((take_job (backend is_server) stamp now job rest σ.sim).0) }) h
        tt
  Step-AllShort σ τ (Step.asks_for_paper i w terminate job now at d t e) tracked h =
      set-each (λ (v : Worker). IsShort v.printer v.doing) σ.workers i
        (record w { doing = lacking job now }) h (inl (short-lacks terminate w.printer σ.sim job e))
  Step-AllShort σ τ (Step.asks_in_vain i w terminate job now at d t e) tracked h =
      set-each (λ (v : Worker). IsShort v.printer v.doing) σ.workers i
        (record w { doing = lacking job now }) h (inl (short-lacks terminate w.printer σ.sim job e))
  Step-AllShort σ τ (Step.stops i w terminate at d t e) tracked h =
      set-each (λ (v : Worker). IsShort v.printer v.doing) σ.workers i
        (record w { doing = stopped }) h tt
  Step-AllShort σ τ (Step.begins i w job now at d) tracked h =
      set-each (λ (v : Worker). IsShort v.printer v.doing) σ.workers i
        (record {
          printer = (begin_service (backend is_server) service_ms now w.printer job σ.sim).0;
          doing =
              printing ((begin_service (backend is_server) service_ms now w.printer job σ.sim).1);
        })
        h tt
  Step-AllShort σ τ (Step.finishes i w job now at d) tracked h =
      set-each (λ (v : Worker). IsShort v.printer v.doing) σ.workers i
        (record {
          printer = (finish_service (backend is_server) now w.printer job σ.sim).0;
          doing = looking;
        })
        h tt
  Step-AllShort σ τ (Step.resumes i w job since now at d l) tracked h =
      set-each (λ (v : Worker). IsShort v.printer v.doing) σ.workers i
        (record w { doing = looking }) h tt
  Step-AllShort σ τ (Step.gives_up i w job since at d t) tracked h =
      set-each (λ (v : Worker). IsShort v.printer v.doing) σ.workers i
        (record w { doing = stopped }) h tt
  Step-AllShort σ τ (Step.fetches i rest w now e n at f) tracked h = h
  Step-AllShort σ τ (Step.finds_full i rest w e n at f) tracked h = h
  Step-AllShort σ τ (Step.fills i since needed w now e at) tracked h =
      set-each (λ (v : Worker). IsShort v.printer v.doing) σ.workers i
        (record w {
          printer = (finish_refill (backend is_server) since now needed w.printer σ.sim).0;
        })
        h
        (waits-IsShort (L i) _ none _ w.doing
          (filled (L i) _ needed w.printer w.doing (served L σ i since needed w e at tracked)))
  Step-AllShort σ τ (Step.refiller_ends e n) tracked h = h
  Step-AllShort σ τ (Step.refiller_cancelled d) tracked h = h
  Step-AllShort σ τ (Step.signal now e) tracked h = h
  Step-AllShort σ τ (Step.empties clock e) tracked h = h
