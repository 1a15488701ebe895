-- ===== src/System/Progress/Bounded.antt =====
-- The length of a run of the threads of src/.
use concurrent_request_orche.Base.{
  ℕ, zero, suc, ◌+◌, ◌*◌, ◌≤◌, ◌≡◌, inr, Bool, List, [], ◌∷◌, map, length, arith,
}
use concurrent_request_orche.Base.Int.{ℤ}
use concurrent_request_orche.Printer.{Printer}
use concurrent_request_orche.Simulation.{Parameters, backend}
use concurrent_request_orche.System.{System, new_worker, start_system}
use concurrent_request_orche.System.Steps.{Steps, own_steps}
use concurrent_request_orche.System.Requests.{Tracked}
use concurrent_request_orche.System.Requests.Kept.{Step-Tracked}
use concurrent_request_orche.System.Measure.{measure, workers_left-map}
use concurrent_request_orche.System.Measure.Short.{AllShort, Step-AllShort}
use concurrent_request_orche.System.Measure.Falls.{Step-measure}
use concurrent_request_orche.System.Progress.{start-AwaitsAt}

start-AllShort : (printers : List Printer) → AllShort (map new_worker printers)
start-AllShort [] i w e = absurd (ground arith)
start-AllShort (p ∷ ps) zero w e = (let same : new_worker p ≡ w = ground arith in rw (← same) tt)
start-AllShort (p ∷ ps) (suc i) w e = start-AllShort ps i w e

module _ (is_server : Bool) (params : Parameters) (num_jobs : ℕ)
    (service_ms refill_us : ℤ → ℤ) where
  Steps-measure :
      (σ τ : System) (steps : Steps is_server params num_jobs service_ms refill_us σ τ)
      → Tracked (λ i. Unit) σ
      → AllShort σ.workers
      → Tracked (λ i. Unit) τ
        × AllShort τ.workers
        × (measure num_jobs τ + own_steps is_server params num_jobs service_ms refill_us steps
            ≤ measure num_jobs σ)
  Steps-measure σ τ Steps.here h k = (h, k, omega arith)
  Steps-measure σ τ (Steps.then {τ = υ} rest step) h k =
      let (t, s, m) = Steps-measure σ υ rest h k in
      (
        Step-Tracked (λ i. Unit) is_server params num_jobs service_ms refill_us υ τ step (λ i e. tt)
            t,
        Step-AllShort (λ i. Unit) is_server params num_jobs service_ms refill_us υ τ step t s,
        omega (
          arith,
          Step-measure (λ i. Unit) is_server params num_jobs service_ms refill_us υ τ step t s,
          m,
        ),
      )

  -- However the threads are interleaved, they take no more than twenty steps for each job and eleven
  -- for each printer, and four more, not counting failed allocations, the signal and cancellations.
  pub own_steps-bound :
      (made now : ℕ) (printers : List Printer) (σ : System)
      (steps : Steps is_server params num_jobs service_ms refill_us
        (start_system (backend is_server) made now printers)
        σ)
      → own_steps is_server params num_jobs service_ms refill_us steps
        ≤ 20 * num_jobs + 11 * length printers + 4
  unfolding start_system
  own_steps-bound made now printers σ steps = omega (
    arith,
    Steps-measure (start_system (backend is_server) made now printers) σ steps
        (inr (λ i. start-AwaitsAt is_server params num_jobs service_ms refill_us Unit i printers))
        (start-AllShort printers),
    workers_left-map printers,
  )
