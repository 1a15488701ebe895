-- ===== src/System/Progress/Settled.antt =====
-- What is left when the threads of src/ have nothing more to do.
use concurrent_request_orche.Base.{
  ℕ, suc, ◌+◌, ◌≤◌, false, ◌≡◌, ◌≢◌, refl, ap, ◌⊎◌, inl, inr, Bool, some, List, [], ◌∷◌, get_elem?,
  length, arith,
}
use concurrent_request_orche.Base.Int.{ℤ, pos, ◌+ℤ◌, ◌≤ℤ◌}
use concurrent_request_orche.Printer.{Printer}
use concurrent_request_orche.Printer.Service.{lacks}
use concurrent_request_orche.Job.{Job}
use concurrent_request_orche.Simulation.{Parameters, backend}
use concurrent_request_orche.System.{
  lacking, stopped, listening, ended, Worker, System, start_system,
}
use concurrent_request_orche.System.Steps.{Steps, lost_jobs, lost_requests}
use concurrent_request_orche.System.Conservation.{in_hand, conservation, hands, held, departed}
use concurrent_request_orche.System.Completion.{Steps-IsOrderly, start-StopsIn}
use concurrent_request_orche.System.Completion.Ending.{IsDone, IsOrderly}
use concurrent_request_orche.System.Completion.Supplied.{IsSupplied, Step-IsSupplied}
use concurrent_request_orche.System.Progress.{Rests, IsSettled, any_or_all}

-- Nobody who rests has a job in hand.
hands-Rests :
    (L : Type 0) (σ : System) (ws : List Worker)
    → ((i : ℕ) (w : Worker) → get_elem? ws i ≡ some w → Rests L σ w)
    → hands ws ≡ 0
unfolding hands
hands-Rests L σ [] all = refl
hands-Rests L σ (w ∷ ws) all =
    omega (arith, hands-Rests L σ ws (λ i v e. all (suc i) v e), held-Rests (all 0 w refl))
  where
    held-Rests : Rests L σ w → held w.doing ≡ 0
    held-Rests (inl e) = rw e
    held-Rests (inr (job, since, e, short, reason)) = rw e

-- A printer that lacks paper for a job though it is full.
abbrev pub Outgrown : Worker → Type 0
Outgrown w =
    (job : Job) × (since : ℕ) × (w.doing ≡ lacking job since)
    × (w.printer.capacity +ℤ pos 1 ≤ℤ job.papers_required)

module _ (is_server : Bool) (params : Parameters) (num_jobs : ℕ)
    (service_ms refill_us : ℤ → ℤ) where
  Steps-IsSupplied :
      (σ τ : System)
      → Steps is_server params num_jobs service_ms refill_us σ τ
      → IsOrderly σ
      → IsSupplied σ
      → IsSupplied τ
  Steps-IsSupplied σ τ Steps.here h k = k
  Steps-IsSupplied σ τ (Steps.then {τ = υ} rest step) h k =
      Step-IsSupplied is_server params num_jobs service_ms refill_us υ τ step
        (Steps-IsOrderly is_server params num_jobs service_ms refill_us σ υ rest h)
        (Steps-IsSupplied σ υ rest h k)

none_lost : (L : Type 0) (σ : System) (w : Worker) → (L → ⊥) → Rests L σ w → Rests ⊥ σ w
none_lost L σ w f (inl e) = inl e
none_lost L σ w f (inr (job, since, e, short, inl over)) = inr (job, since, e, short, inl over)
none_lost L σ w f (inr (job, since, e, short, inr (inl full))) =
    inr (job, since, e, short, inr (inl full))
none_lost L σ w f (inr (job, since, e, short, inr (inr (inl lost)))) =
    inr (job, since, e, short, inr (inr (inl (f lost))))
none_lost L σ w f (inr (job, since, e, short, inr (inr (inr told)))) =
    inr (job, since, e, short, inr (inr (inr told)))

outgrown :
    (σ : System) (w : Worker)
    → σ.refiller ≢ ended
    → σ.sim.terminate_now ≡ false
    → w.doing ≢ stopped
    → Rests ⊥ σ w
    → Outgrown w
unfolding lacks ◌+ℤ◌
outgrown σ w alive calm working (inl e) = absurd (working e)
outgrown σ w alive calm working (inr (job, since, e, short, inl over)) = absurd (alive over)
outgrown σ w alive calm working (inr (job, since, e, short, inr (inl full))) =
    (job, since, e, ground arith)
outgrown σ w alive calm working (inr (job, since, e, short, inr (inr (inl lost)))) = elim lost [ ]
outgrown σ w alive calm working (inr (job, since, e, short, inr (inr (inr told)))) =
    absurd (ground arith)

final_cases :
    (σ : System)
    → IsOrderly σ
    → IsSupplied σ
    → σ.catcher ≡ listening
    → ((i : ℕ) (w : Worker) → get_elem? σ.workers i ≡ some w → Rests ⊥ σ w)
    → IsDone σ ⊎ ((i : ℕ) (w : Worker) → get_elem? σ.workers i ≡ some w → Outgrown w)
final_cases σ h (inr over) calm rests = inl (ground arith)
final_cases σ h (inl (served, alive)) calm rests =
    any_or_all (IsDone σ) (λ i. Outgrown) σ.workers
      (λ i w at. elim (h.on_stop i w at) [
        | inl working ↦
            inr
              (outgrown σ w alive (ground (arith, h.on_signal)) (λ e. ground arith) (rests i w at))
        | inr over ↦ inl (ground arith)
      ])

module _ (is_server : Bool) (params : Parameters) (num_jobs : ℕ)
    (service_ms refill_us : ℤ → ℤ) where
  -- If there was no signal when the threads have nothing more to do, and no request for paper was
  -- lost for want of memory, then the queue is empty and each job that arrived is counted as served,
  -- dropped or removed, or was lost since no node could be allocated for it; or else every printer lacks
  -- paper for a job that needs more than the printer can hold.
  pub outcome :
      (made now : ℕ) (printers : List Printer) (σ : System)
      (steps : Steps is_server params num_jobs service_ms refill_us
        (start_system (backend is_server) made now printers)
        σ)
      → σ.catcher ≡ listening
      → ((i : ℕ) → lost_requests is_server params num_jobs service_ms refill_us i steps ≡ 0)
      → IsSettled (λ i. 1 ≤ lost_requests is_server params num_jobs service_ms refill_us i steps) σ
      → ((σ.sim.job_queue ≡ [])
          × (σ.sim.journal.stats.total_jobs_arrived
              ≡ departed σ.sim.journal.stats
                + lost_jobs is_server params num_jobs service_ms refill_us steps))
        ⊎ ((i : ℕ) (w : Worker) → get_elem? σ.workers i ≡ some w → Outgrown w)
  unfolding start_system
  outcome made now printers σ steps calm kept s =
      let start = start_system (backend is_server) made now printers in
      let begin : IsOrderly start = record {
        on_signal = inl refl;
        on_finish = inl refl;
        on_stop = start-StopsIn is_server params num_jobs service_ms refill_us _ printers;
      } in
      let h = Steps-IsOrderly is_server params num_jobs service_ms refill_us start σ steps begin in
      let k =
        Steps-IsSupplied is_server params num_jobs service_ms refill_us start σ steps begin
          (inl (refl, ground arith)) in
      let rest : (i : ℕ) (w : Worker) → get_elem? σ.workers i ≡ some w → Rests ⊥ σ w = λ i w at.
        none_lost _ σ w (λ some_lost. absurd (omega (arith, kept i, some_lost)))
          (s.workers_rest i w at) in
      elim (final_cases σ h k calm rest) [
        | inl done ↦ inl (
          done.1,
          omega (
            arith,
            conservation is_server params num_jobs service_ms refill_us made now printers σ steps,
            ap in_hand (done.0),
            ap length (done.1),
            hands-Rests ⊥ σ σ.workers rest,
          ),
        )
        | inr all ↦ inr all
      ]
