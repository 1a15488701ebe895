-- ===== src/System/Workers.antt =====
-- No step of the threads of src/ adds or takes away a printer.
use concurrent_request_orche.Base.{ℕ, ◌≡◌, refl, ◌∙◌, Bool, length, length-set}
use concurrent_request_orche.Base.Int.{ℤ}
use concurrent_request_orche.Simulation.{Parameters}
use concurrent_request_orche.System.{System}
use concurrent_request_orche.System.Steps.{Step, Steps}

module _ (is_server : Bool) (params : Parameters) (num_jobs : ℕ)
    (service_ms refill_us : ℤ → ℤ) where
  Step-length :
      (σ τ : System)
      → Step is_server params num_jobs service_ms refill_us σ τ
      → length τ.workers ≡ length σ.workers
  Step-length σ τ (Step.passes_over n p e lt) = refl
  Step-length σ τ (Step.arrives n p now papers e lt f) = refl
  Step-length σ τ (Step.arrivals_end n p e d) = refl
  Step-length σ τ (Step.receiver_cancelled n p e d) = refl
  Step-length σ τ (Step.refuses job n p e f) = refl
  Step-length σ τ (Step.drops job n p e) = refl
  Step-length σ τ (Step.admits job n p now now' e f) = refl
  Step-length σ τ (Step.loses_job job n p now e f) = refl
  Step-length σ τ (Step.takes_job i w terminate job rest stamp now at d t e) =
      length-set σ.workers i _
  Step-length σ τ (Step.asks_for_paper i w terminate job now at d t e) = length-set σ.workers i _
  Step-length σ τ (Step.asks_in_vain i w terminate job now at d t e) = length-set σ.workers i _
  Step-length σ τ (Step.stops i w terminate at d t e) = length-set σ.workers i _
  Step-length σ τ (Step.begins i w job now at d) = length-set σ.workers i _
  Step-length σ τ (Step.finishes i w job now at d) = length-set σ.workers i _
  Step-length σ τ (Step.resumes i w job since now at d l) = length-set σ.workers i _
  Step-length σ τ (Step.gives_up i w job since at d t) = length-set σ.workers i _
  Step-length σ τ (Step.fetches i rest w now e n at f) = refl
  Step-length σ τ (Step.finds_full i rest w e n at f) = refl
  Step-length σ τ (Step.fills i since needed w now e at) = length-set σ.workers i _
  Step-length σ τ (Step.refiller_ends e n) = refl
  Step-length σ τ (Step.refiller_cancelled d) = refl
  Step-length σ τ (Step.signal now e) = refl
  Step-length σ τ (Step.empties clock e) = refl

  pub Steps-length :
      (σ τ : System)
      → Steps is_server params num_jobs service_ms refill_us σ τ
      → length τ.workers ≡ length σ.workers
  Steps-length σ τ Steps.here = refl
  Steps-length σ τ (Steps.then {τ = υ} rest step) = Step-length υ τ step ∙ Steps-length σ υ rest
