-- ===== src/System/Completion/Ending.antt =====
-- The flags at the end of the work or at a signal, and that neither is taken back.
use concurrent_request_orche.Base.{
  ℕ, zero, suc, ◌≡◌, ◌≢◌, refl, ◌⊎◌, inl, inr, Bool, true, false, some, List, [], ◌∷◌, get_elem?,
  set, arith,
}
use concurrent_request_orche.Base.Int.{ℤ}
use concurrent_request_orche.Simulation.{Parameters}
use concurrent_request_orche.JobReceiver.{
  arrive, drop_job_from_system, enqueue_allocated, enqueue_failed,
}
use concurrent_request_orche.Printer.Service.{
  take_job, begin_service, finish_service, request_refill_allocated, request_refill_failed, resume,
  exit_printer,
}
use concurrent_request_orche.PaperRefiller.{take_demand, begin_refill, finish_refill}
use concurrent_request_orche.SignalCatcher.{stop_simulation, empty_queue_if_terminating}
use concurrent_request_orche.System.{
  finished, Doing, looking, holding, printing, lacking, stopped, listening, Worker, System,
}
use concurrent_request_orche.System.Steps.{Step}
use concurrent_request_orche.System.Conservation.{taken-front}

-- No thread has work to hand to the printers.
abbrev pub IsDone : System → Type 0
IsDone σ = (σ.receiver ≡ finished) × (σ.sim.job_queue ≡ [])

abbrev pub is_stopped : Doing → Bool
is_stopped looking = false
is_stopped (holding job) = false
is_stopped (printing job) = false
is_stopped (lacking job since) = false
is_stopped stopped = true

-- The flags are set, and printers stopped, by a signal or at the end of the work alone.
pub record IsOrderly (σ : System) : Type 0 where
  pub on_signal : (σ.sim.terminate_now ≡ false) ⊎ (σ.catcher ≢ listening)
  pub on_finish :
      (σ.sim.all_jobs_arrived ≡ false) ⊎ (σ.catcher ≢ listening) ⊎ (σ.receiver ≡ finished)
  pub on_stop :
      (i : ℕ) (w : Worker)
      → get_elem? σ.workers i ≡ some w
      → (is_stopped w.doing ≡ false) ⊎ (σ.catcher ≢ listening) ⊎ IsDone σ

abbrev pub StopsIn : Type 0 → List Worker → Type 0
StopsIn Over ws =
    (i : ℕ) (w : Worker) → get_elem? ws i ≡ some w → (is_stopped w.doing ≡ false) ⊎ Over

pub set-StopsIn :
    (Over : Type 0) (ws : List Worker) (i : ℕ) (v : Worker)
    → StopsIn Over ws
    → (is_stopped v.doing ≡ false) ⊎ Over
    → StopsIn Over (set ws i v)
set-StopsIn O [] i v h k j u e = absurd (ground arith)
set-StopsIn O (x ∷ ws) zero v h k zero u e = (let same : v ≡ u = ground arith in rw same at k)
set-StopsIn O (x ∷ ws) zero v h k (suc j) u e = h (suc j) u e
set-StopsIn O (x ∷ ws) (suc i) v h k zero u e = h zero u e
set-StopsIn O (x ∷ ws) (suc i) v h k (suc j) u e =
    set-StopsIn O ws i v (λ j' u' e'. h (suc j') u' e') k j u e

abbrev pub Over : System → Type 0
Over σ = (σ.catcher ≢ listening) ⊎ IsDone σ

pub weaken : (A B : Type 0) (ws : List Worker) → (A → B) → StopsIn A ws → StopsIn B ws
weaken A B ws f h i w e = elim (h i w e) [ inl k ↦ inl k | inr a ↦ inr (f a) ]

module _ (is_server : Bool) (params : Parameters) (num_jobs : ℕ)
    (service_ms refill_us : ℤ → ℤ) where
  pub still-Over :
      (σ τ : System)
      → Step is_server params num_jobs service_ms refill_us σ τ
      → IsOrderly σ
      → Over σ
      → Over τ
  unfolding arrive drop_job_from_system enqueue_allocated enqueue_failed take_job begin_service
      finish_service request_refill_allocated request_refill_failed resume exit_printer take_demand
      begin_refill finish_refill stop_simulation empty_queue_if_terminating
  still-Over σ τ (Step.passes_over n p e lt) h o = ground arith
  still-Over σ τ (Step.arrives n p now papers e lt f) h o = ground arith
  still-Over σ τ (Step.arrivals_end n p e d) h o = ground arith
  still-Over σ τ (Step.receiver_cancelled n p e d) h o = ground arith
  still-Over σ τ (Step.refuses job n p e f) h o = ground arith
  still-Over σ τ (Step.drops job n p e) h o = ground arith
  still-Over σ τ (Step.admits job n p now now' e f) h o = ground arith
  still-Over σ τ (Step.loses_job job n p now e f) h o = ground arith
  still-Over σ τ (Step.takes_job i w terminate job rest stamp now at d t e) h o =
      let q = taken-front terminate w σ.sim job rest e in ground arith
  still-Over σ τ (Step.asks_for_paper i w terminate job now at d t e) h o = ground arith
  still-Over σ τ (Step.asks_in_vain i w terminate job now at d t e) h o = ground arith
  still-Over σ τ (Step.stops i w terminate at d t e) h o = ground arith
  still-Over σ τ (Step.begins i w job now at d) h o = ground arith
  still-Over σ τ (Step.finishes i w job now at d) h o = ground arith
  still-Over σ τ (Step.resumes i w job since now at d l) h o = ground arith
  still-Over σ τ (Step.gives_up i w job since at d t) h o = ground arith
  still-Over σ τ (Step.fetches i rest w now e n at f) h o = ground arith
  still-Over σ τ (Step.finds_full i rest w e n at f) h o = ground arith
  still-Over σ τ (Step.fills i since needed w now e at) h o = ground arith
  still-Over σ τ (Step.refiller_ends e n) h o = ground arith
  still-Over σ τ (Step.refiller_cancelled d) h o = ground arith
  still-Over σ τ (Step.signal now e) h o = ground arith
  still-Over σ τ (Step.empties clock e) h o = elim o [
    | inl k ↦ inl (ground arith)
    | inr k ↦ inr (k.0, refl)
  ]

  pub flags-orderly :
      (σ τ : System)
      → Step is_server params num_jobs service_ms refill_us σ τ
      → IsOrderly σ
      → ((τ.sim.terminate_now ≡ false) ⊎ (τ.catcher ≢ listening))
        × ((τ.sim.all_jobs_arrived ≡ false) ⊎ (τ.catcher ≢ listening) ⊎ (τ.receiver ≡ finished))
  unfolding arrive drop_job_from_system enqueue_allocated enqueue_failed take_job begin_service
      finish_service request_refill_allocated request_refill_failed resume exit_printer take_demand
      begin_refill finish_refill stop_simulation empty_queue_if_terminating
  flags-orderly σ τ (Step.passes_over n p e lt) h =
      (ground (arith, h.on_signal, h.on_finish), ground (arith, h.on_signal, h.on_finish))
  flags-orderly σ τ (Step.arrives n p now papers e lt f) h =
      (ground (arith, h.on_signal, h.on_finish), ground (arith, h.on_signal, h.on_finish))
  flags-orderly σ τ (Step.arrivals_end n p e d) h =
      (ground (arith, h.on_signal, h.on_finish), ground (arith, h.on_signal, h.on_finish))
  flags-orderly σ τ (Step.receiver_cancelled n p e d) h =
      (ground (arith, h.on_signal, h.on_finish), ground (arith, h.on_signal, h.on_finish))
  flags-orderly σ τ (Step.refuses job n p e f) h =
      (ground (arith, h.on_signal, h.on_finish), ground (arith, h.on_signal, h.on_finish))
  flags-orderly σ τ (Step.drops job n p e) h =
      (ground (arith, h.on_signal, h.on_finish), ground (arith, h.on_signal, h.on_finish))
  flags-orderly σ τ (Step.admits job n p now now' e f) h =
      (ground (arith, h.on_signal, h.on_finish), ground (arith, h.on_signal, h.on_finish))
  flags-orderly σ τ (Step.loses_job job n p now e f) h =
      (ground (arith, h.on_signal, h.on_finish), ground (arith, h.on_signal, h.on_finish))
  flags-orderly σ τ (Step.takes_job i w terminate job rest stamp now at d t e) h =
      (ground (arith, h.on_signal, h.on_finish), ground (arith, h.on_signal, h.on_finish))
  flags-orderly σ τ (Step.asks_for_paper i w terminate job now at d t e) h =
      (ground (arith, h.on_signal, h.on_finish), ground (arith, h.on_signal, h.on_finish))
  flags-orderly σ τ (Step.asks_in_vain i w terminate job now at d t e) h =
      (ground (arith, h.on_signal, h.on_finish), ground (arith, h.on_signal, h.on_finish))
  flags-orderly σ τ (Step.stops i w terminate at d t e) h =
      (ground (arith, h.on_signal, h.on_finish), ground (arith, h.on_signal, h.on_finish))
  flags-orderly σ τ (Step.begins i w job now at d) h =
      (ground (arith, h.on_signal, h.on_finish), ground (arith, h.on_signal, h.on_finish))
  flags-orderly σ τ (Step.finishes i w job now at d) h =
      (ground (arith, h.on_signal, h.on_finish), ground (arith, h.on_signal, h.on_finish))
  flags-orderly σ τ (Step.resumes i w job since now at d l) h =
      (ground (arith, h.on_signal, h.on_finish), ground (arith, h.on_signal, h.on_finish))
  flags-orderly σ τ (Step.gives_up i w job since at d t) h =
      (ground (arith, h.on_signal, h.on_finish), ground (arith, h.on_signal, h.on_finish))
  flags-orderly σ τ (Step.fetches i rest w now e n at f) h =
      (ground (arith, h.on_signal, h.on_finish), ground (arith, h.on_signal, h.on_finish))
  flags-orderly σ τ (Step.finds_full i rest w e n at f) h =
      (ground (arith, h.on_signal, h.on_finish), ground (arith, h.on_signal, h.on_finish))
  flags-orderly σ τ (Step.fills i since needed w now e at) h =
      (ground (arith, h.on_signal, h.on_finish), ground (arith, h.on_signal, h.on_finish))
  flags-orderly σ τ (Step.refiller_ends e n) h =
      (ground (arith, h.on_signal, h.on_finish), ground (arith, h.on_signal, h.on_finish))
  flags-orderly σ τ (Step.refiller_cancelled d) h =
      (ground (arith, h.on_signal, h.on_finish), ground (arith, h.on_signal, h.on_finish))
  flags-orderly σ τ (Step.signal now e) h =
      (ground (arith, h.on_signal, h.on_finish), ground (arith, h.on_signal, h.on_finish))
  flags-orderly σ τ (Step.empties clock e) h =
      (ground (arith, h.on_signal, h.on_finish), ground (arith, h.on_signal, h.on_finish))
