-- ===== src/System/Progress.antt =====
-- That the threads of src/ do not block one another. A thread that waits for a condition is taken to
-- look again at any time, but for a printer that waits for paper when the signal comes.
pub mod Settled
pub mod Bounded
use concurrent_request_orche.Base.{
  ℕ, zero, suc, ◌+◌, ◌≤◌, ◌<◌, ◌≡◌, ◌≢◌, refl, ◌⊎◌, inl, inr, Bool, true, false, Option, none, some,
  List, [], ◌∷◌, get_elem?, set, length, Bool-cases, Option-cases, arith, dec_lt, map,
}
use concurrent_request_orche.Base.Int.{ℤ, pos}
use concurrent_request_orche.Printer.{Printer}
use concurrent_request_orche.Job.{Job}
use concurrent_request_orche.Simulation.{Simulation, Parameters, backend}
use concurrent_request_orche.JobReceiver.{is_full, arrive, drop_job_from_system, enqueue_allocated}
use concurrent_request_orche.Printer.Service.{
  Look, look, is_exit_condition_met, lacks, take_job, begin_service, finish_service,
  request_refill_allocated, resume, exit_printer,
}
use concurrent_request_orche.Printer.Service.Paper.{Meaning, look_lem}
use concurrent_request_orche.PaperRefiller.{
  Demand, next_demand, take_demand, begin_refill, finish_refill, papers_needed, is_filled,
}
use concurrent_request_orche.SignalCatcher.{stop_simulation, empty_queue_if_terminating}
use concurrent_request_orche.System.{
  Receiver, between, arrived, refusing, finished, Doing, looking, holding, printing, lacking,
  stopped, Refiller, waiting, filling, ended, Catcher, listening, flagged, caught, Worker,
  new_worker, start_system, System,
}
use concurrent_request_orche.System.Steps.{Step, Steps, own, lost_requests}
use concurrent_request_orche.System.Announced.{IsAnnounced, Step-IsAnnounced}
use concurrent_request_orche.System.Requests.Kept.{next_demand-serves, Step-Tracked}
use concurrent_request_orche.System.Requests.{
  asked, brought, Full, Awaits, AwaitsAt, AllAwait, Tracked,
}

-- The refiller is gone, or nobody has asked it for anything.
abbrev pub RefillerRests : System → Type 0
RefillerRests σ =
    (σ.refiller ≡ ended)
    ⊎ ((σ.refiller ≡ waiting) × (σ.sim.refill_queue ≡ []) × (σ.sim.terminate_now ≡ false))

-- The printer has stopped, or it lacks paper for good: the refiller is gone, the printer is full, its
-- request was lost where `L` says so, or there was a signal. Then the printer is told once,
-- and it may have missed that.
abbrev pub Rests : (L : Type 0) → System → Worker → Type 0
Rests L σ w =
    (w.doing ≡ stopped)
    ⊎ ((job : Job) × (since : ℕ) × (w.doing ≡ lacking job since)
        × (lacks w.printer job ≡ true)
        × ((σ.refiller ≡ ended) ⊎ Full w.printer ⊎ L ⊎ (σ.sim.terminate_now ≡ true)))

pub record IsSettled (L : ℕ → Type 0) (σ : System) : Type 0 where
  pub receiver_done : σ.receiver ≡ finished
  pub catcher_done : (σ.catcher ≡ listening) ⊎ (σ.catcher ≡ caught)
  pub refiller_rests : RefillerRests σ
  pub workers_rest : (i : ℕ) (w : Worker) → get_elem? σ.workers i ≡ some w → Rests (L i) σ w

-- A printer that waits while the refiller rests was filled before, or the refiller is gone.
unserved :
    (L : ℕ → Type 0) (σ : System) (i : ℕ) (w : Worker) (job : Job) (since : ℕ)
    → RefillerRests σ
    → Tracked L σ
    → get_elem? σ.workers i ≡ some w
    → w.doing ≡ lacking job since
    → (σ.refiller ≡ ended) ⊎ Full w.printer ⊎ L i ⊎ (σ.sim.terminate_now ≡ true)
unserved L σ i w job since (inl over) h at d = inl over
unserved L σ i w job since (inr r) (inl over) at d = inl over
unserved L σ i w job since (inr r) (inr h) at d =
    let b : Awaits (L i) (asked i []) (brought i waiting) w.printer (lacking job since) =
      rw d at (rw (r.1) at (rw (r.0) at (rw at at (h i)))) in
    elim b [
      | inl asking ↦ absurd (ground arith)
      | inr (inl served) ↦ elim (served.1) [ ]
      | inr (inr (inl full)) ↦ inr (inl (full.2))
      | inr (inr (inr lost)) ↦ inr (inr (inl (lost.0)))
    ]

-- Looks at one worker after the other for one that can move on.
pub any_or_all :
    (M : Type 0) (R : ℕ → Worker → Type 0) (ws : List Worker)
    → ((i : ℕ) (w : Worker) → get_elem? ws i ≡ some w → M ⊎ R i w)
    → M ⊎ ((i : ℕ) (w : Worker) → get_elem? ws i ≡ some w → R i w)
any_or_all M R [] f = inr (λ i w e. absurd (ground arith))
any_or_all M R (x ∷ ws) f = elim (f 0 x refl) [
  | inl m ↦ inl m
  | inr r ↦ elim (any_or_all M (λ i. R (suc i)) ws (λ i w e. f (suc i) w e)) [
    | inl m ↦ inl m
    | inr rest ↦ inr (joined r rest)
  ]
]
  where
    joined :
        R 0 x
        → ((i : ℕ) (w : Worker) → get_elem? ws i ≡ some w → R (suc i) w)
        → (i : ℕ) (w : Worker) → get_elem? (x ∷ ws) i ≡ some w
        → R i w
    joined r rest zero w e = (let same : x ≡ w = ground arith in rw same at r)
    joined r rest (suc i) w e = rest i w e

module _ (is_server : Bool) (params : Parameters) (num_jobs : ℕ)
    (service_ms refill_us : ℤ → ℤ) where
  abbrev pub Moves : System → Type 0
  Moves σ =
      (τ : System) × (s : Step is_server params num_jobs service_ms refill_us σ τ) × (own is_server
          params num_jobs service_ms refill_us s
        ≡ 1)

  receiver-Moves : (σ : System) (r : Receiver) → σ.receiver ≡ r → Moves σ ⊎ (σ.receiver ≡ finished)
  receiver-Moves σ (between n p) e = elim (dec_lt n num_jobs) [
    | yes more ↦ elim (Bool-cases σ.sim.terminate_now) [
      | inl told ↦ inl (_, Step.arrivals_end n p e (inr told), refl)
      | inr calm ↦ inl (_, Step.arrives n p 0 (pos 0) e more calm, refl)
    ]
    | no enough ↦ inl (_, Step.arrivals_end n p e (inl (omega arith)), refl)
  ]
  receiver-Moves σ (arrived job n p) e =
      elim (Bool-cases (is_full params.queue_capacity (length σ.sim.job_queue))) [
        | inl full ↦ inl (_, Step.refuses job n p e full, refl)
        | inr space ↦ inl (_, Step.admits job n p 0 0 e space, refl)
      ]
  receiver-Moves σ (refusing job n p) e = inl (_, Step.drops job n p e, refl)
  receiver-Moves σ finished e = inr e

  catcher-Moves :
      (σ : System) (c : Catcher)
      → σ.catcher ≡ c
      → Moves σ ⊎ ((σ.catcher ≡ listening) ⊎ (σ.catcher ≡ caught))
  catcher-Moves σ listening e = inr (inl e)
  catcher-Moves σ flagged e = inl (_, Step.empties (λ n. (0, 0, 0)) e, refl)
  catcher-Moves σ caught e = inr (inr e)

  -- What stands in the queue of the refiller, or is being filled, is a printer that exists.
  fetch-Moves :
      (L : ℕ → Type 0) (σ : System) (i : ℕ) (rest : List ℕ)
      → σ.refiller ≡ waiting
      → next_demand σ.sim ≡ Demand.serves i rest
      → AllAwait L σ.sim.refill_queue σ.refiller σ.workers
      → Moves σ
  fetch-Moves L σ i rest e n h = elim (Option-cases (get_elem? σ.workers i)) [
    | inl nobody ↦ absurd (
        let q = next_demand-serves σ.sim i rest n in
        let a : AwaitsAt (L i) (asked i (i ∷ rest)) (brought i σ.refiller) none =
          rw nobody at (rw q at (h i)) in
        ground arith)
    | inr (w, at) ↦ elim (Bool-cases (is_filled w.printer)) [
      | inl full ↦ (_, Step.finds_full i rest w e n at full, refl)
      | inr low ↦ (_, Step.fetches i rest w 0 e n at low, refl)
    ]
  ]

  demand-Moves :
      (L : ℕ → Type 0) (σ : System) (d : Demand)
      → σ.refiller ≡ waiting
      → AllAwait L σ.sim.refill_queue σ.refiller σ.workers
      → next_demand σ.sim ≡ d
      → Moves σ ⊎ RefillerRests σ
  demand-Moves L σ Demand.ends e h n = inl (_, Step.refiller_ends e n, refl)
  demand-Moves L σ Demand.sleeps e h n =
      inr (inr (e, unfold next_demand in ground arith, unfold next_demand in ground arith))
  demand-Moves L σ (Demand.serves i rest) e h n = inl (fetch-Moves L σ i rest e n h)

  refiller-Moves :
      (L : ℕ → Type 0) (σ : System) (r : Refiller)
      → σ.refiller ≡ r
      → AllAwait L σ.sim.refill_queue σ.refiller σ.workers
      → Moves σ ⊎ RefillerRests σ
  unfolding next_demand
  refiller-Moves L σ ended e h = inr (inl e)
  refiller-Moves L σ (filling i since needed) e h = elim (Option-cases (get_elem? σ.workers i)) [
    | inl nobody ↦ absurd (
        let a : AwaitsAt (L i) (asked i σ.sim.refill_queue) (brought i (filling i since needed))
            none =
          rw nobody at (rw e at (h i)) in
        ground arith)
    | inr (w, at) ↦ inl (_, Step.fills i since needed w 0 e at, refl)
  ]
  refiller-Moves L σ waiting e h = demand-Moves L σ (next_demand σ.sim) e h refl

  look-Moves :
      (σ : System) (i : ℕ) (w : Worker) (l : Look)
      → σ.sim.all_jobs_arrived ≡ true
      → get_elem? σ.workers i ≡ some w
      → w.doing ≡ looking
      → look false w.printer σ.sim ≡ l
      → Moves σ
  look-Moves σ i w Look.ends a at d e = (_, Step.stops i w false at d (inl refl) e, refl)
  look-Moves σ i w Look.sleeps a at d e =
      let m : Meaning w.printer σ.sim false Look.sleeps =
        rw e at (look_lem false w.printer σ.sim) in
      absurd (cc (a, m.1))
  look-Moves σ i w (Look.short_of_paper job) a at d e =
      (_, Step.asks_for_paper i w false job 0 at d (inl refl) e, refl)
  look-Moves σ i w (Look.takes job rest) a at d e =
      (_, Step.takes_job i w false job rest 0 0 at d (inl refl) e, refl)

  worker-Moves :
      (L : ℕ → Type 0) (σ : System) (i : ℕ) (w : Worker) (d : Doing)
      → σ.receiver ≡ finished
      → σ.sim.all_jobs_arrived ≡ true
      → RefillerRests σ
      → Tracked L σ
      → get_elem? σ.workers i ≡ some w
      → w.doing ≡ d
      → Moves σ ⊎ Rests (L i) σ w
  worker-Moves L σ i w looking e a r h at d =
      inl (look-Moves σ i w (look false w.printer σ.sim) a at d refl)
  worker-Moves L σ i w (holding job) e a r h at d = inl (_, Step.begins i w job 0 at d, refl)
  worker-Moves L σ i w (printing job) e a r h at d = inl (_, Step.finishes i w job 0 at d, refl)
  worker-Moves L σ i w (lacking job since) e a r h at d = elim (Bool-cases (lacks w.printer job)) [
    | inl short ↦ inr (inr (job, since, d, short, unserved L σ i w job since r h at d))
    | inr enough ↦ inl (_, Step.resumes i w job since 0 at d enough, refl)
  ]
  worker-Moves L σ i w stopped e a r h at d = inr (inl d)

  Tracked-Moves : (L : ℕ → Type 0) (σ : System) → Tracked L σ → Moves σ ⊎ RefillerRests σ
  Tracked-Moves L σ (inl over) = inr (inl over)
  Tracked-Moves L σ (inr h) = refiller-Moves L σ σ.refiller refl h

  settle : (L : ℕ → Type 0) (σ : System) → IsAnnounced σ → Tracked L σ → Moves σ ⊎ IsSettled L σ
  settle L σ a h = elim (receiver-Moves σ σ.receiver refl) [
    | inl m ↦ inl m
    | inr finish ↦ elim (catcher-Moves σ σ.catcher refl) [
      | inl m ↦ inl m
      | inr caught_or_calm ↦ elim (Tracked-Moves L σ h) [
        | inl m ↦ inl m
        | inr r ↦
            elim (any_or_all (Moves σ) (λ i. Rests (L i) σ) σ.workers
              (λ i w at.
                worker-Moves L σ i w w.doing finish (ground (arith, a.at_finish)) r h at refl)) [
                  | inl m ↦ inl m
                  | inr all ↦ inr (record {
                    receiver_done = finish;
                    catcher_done = caught_or_calm;
                    refiller_rests = r;
                    workers_rest = all;
                  })
                ]
      ]
    ]
  ]

  pub Steps-Announced-Tracked :
      (L : ℕ → Type 0) (σ τ : System)
      (steps : Steps is_server params num_jobs service_ms refill_us σ τ)
      → ((i : ℕ) → 1 ≤ lost_requests is_server params num_jobs service_ms refill_us i steps → L i)
      → IsAnnounced σ × Tracked L σ
      → IsAnnounced τ × Tracked L τ
  Steps-Announced-Tracked L σ τ Steps.here f h = h
  Steps-Announced-Tracked L σ τ (Steps.then {τ = υ} rest step) f h =
      let k = Steps-Announced-Tracked L σ υ rest (λ i e. f i (omega (arith, e))) h in
      (
        Step-IsAnnounced is_server params num_jobs service_ms refill_us υ τ step k.0,
        Step-Tracked L is_server params num_jobs service_ms refill_us υ τ step
            (λ i e. f i (omega (arith, e))) k.1,
      )

  pub start-AwaitsAt :
      (L : Type 0) (i : ℕ) (printers : List Printer)
      → AwaitsAt L 0 none (get_elem? (map new_worker printers) i)
  start-AwaitsAt L i [] = (refl, refl)
  start-AwaitsAt L zero (p ∷ ps) = (refl, refl)
  start-AwaitsAt L (suc i) (p ∷ ps) = start-AwaitsAt L i ps

  -- From every state that the threads can reach, one of them can go on by itself, or the receiver is
  -- done, the signal catcher and the refiller have nothing to do, and every printer has stopped or
  -- lacks paper that it will not get, since the refiller is gone, the printer is full already, or a request of
  -- this printer was lost for want of memory. After a signal a printer that lacks paper counts as one that
  -- has nothing more to do, since it may have missed being told.
  pub progress :
      (made now : ℕ) (printers : List Printer) (σ : System)
      (steps : Steps is_server params num_jobs service_ms refill_us
        (start_system (backend is_server) made now printers)
        σ)
      → Moves σ
        ⊎ IsSettled
            (λ i. 1 ≤ lost_requests is_server params num_jobs service_ms refill_us i steps)
            σ
  unfolding start_system
  progress made now printers σ steps =
      let L : ℕ → Type 0 =
        λ i. 1 ≤ lost_requests is_server params num_jobs service_ms refill_us i steps in
      let k =
        Steps-Announced-Tracked L (start_system (backend is_server) made now printers) σ steps
          (λ i e. e)
          (
            record { at_finish = inl (ground arith); at_signal = inl refl },
            inr (λ i. start-AwaitsAt (L i) i printers),
          ) in
      settle L σ (k.0) (k.1)
