-- ===== src/System/Requests/Kept.antt =====
-- The requests for paper through the steps of the threads.
use concurrent_request_orche.Base.{
  ℕ, suc, ◌≡◌, refl, ◌⊎◌, inl, inr, Bool, true, false, Option, none, some, List, [], ◌∷◌, ◌++◌,
  get_elem?, set, ◌==◌, arith,
}
use concurrent_request_orche.Base.Int.{ℤ, ◌+ℤ◌, ◌-ℤ◌, int_laws}
use concurrent_request_orche.Printer.{Printer}
use concurrent_request_orche.Job.{Job}
use concurrent_request_orche.Simulation.{Simulation, Parameters, backend}
use concurrent_request_orche.JobReceiver.{
  arrive, drop_job_from_system, enqueue_allocated, enqueue_failed,
}
use concurrent_request_orche.Printer.Service.{
  Look, look, is_exit_condition_met, lacks, take_job, begin_service, finish_service,
  request_refill_allocated, request_refill_failed, resume, exit_printer,
}
use concurrent_request_orche.PaperRefiller.{
  Demand, next_demand, take_demand, begin_refill, finish_refill, papers_needed, is_filled,
}
use concurrent_request_orche.SignalCatcher.{stop_simulation, empty_queue_if_terminating}
use concurrent_request_orche.System.{
  Doing, looking, holding, printing, lacking, stopped, Refiller, waiting, filling, ended, Worker,
  System,
}
use concurrent_request_orche.System.Steps.{Step, is_vain}
use concurrent_request_orche.System.Requests.{
  asked, brought, Full, Awaits, AllAwait, Tracked, asked-append, get_elem?-set, others-AllAwait,
  read_self,
}

-- A printer that moves on without a word to the refiller.
quietly :
    (L : ℕ → Type 0) (σ : System) (i : ℕ) (w v : Worker)
    → get_elem? σ.workers i ≡ some w
    → ((n : ℕ) (o : Option ℤ)
        → Awaits (L i) n o w.printer w.doing
        → Awaits (L i) n o v.printer v.doing)
    → Tracked L σ
    → (σ.refiller ≡ ended) ⊎ AllAwait L σ.sim.refill_queue σ.refiller (set σ.workers i v)
quietly L σ i w v at keeps (inl over) = inl over
quietly L σ i w v at keeps (inr h) =
    let before : Awaits (L i) (asked i σ.sim.refill_queue) (brought i σ.refiller) w.printer
        w.doing =
      rw at at (h i) in
    inr (
      others-AllAwait L σ.sim.refill_queue σ.sim.refill_queue σ.refiller σ.refiller σ.workers
        (set σ.workers i v) i v h (keeps _ _ before) (λ j other. (refl, refl))
        (λ j. get_elem?-set σ.workers i j w v at))

resumed :
    (L : Type 0) (n : ℕ) (o : Option ℤ) (p : Printer) (d : Doing) (job : Job) (since : ℕ)
    → d ≡ lacking job since
    → lacks p job ≡ false
    → Awaits L n o p d
    → Awaits L n o p looking
resumed L n o p d job since e f h =
    let a : Awaits L n o p (lacking job since) = rw e at h in ground arith

pub short-lacks :
    (terminate : Bool) (p : Printer) (s : Simulation) (job : Job)
    → look terminate p s ≡ Look.short_of_paper job
    → lacks p job ≡ true
unfolding look is_exit_condition_met
short-lacks terminate p s job e = ground arith

pub next_demand-serves :
    (s : Simulation) (i : ℕ) (rest : List ℕ)
    → next_demand s ≡ Demand.serves i rest
    → s.refill_queue ≡ i ∷ rest
unfolding next_demand
next_demand-serves s i rest e = ground arith

-- The printer at the front of the queue leaves it to be filled.
fetched :
    (L : Type 0) (n : ℕ) (p : Printer) (d : Doing)
    → is_filled p ≡ false
    → Awaits L (suc n) none p d
    → Awaits L n (some (papers_needed p)) p d
unfolding papers_needed
fetched L n p looking f h = absurd (omega arith)
fetched L n p (holding job) f h = absurd (omega arith)
fetched L n p (printing job) f h = absurd (omega arith)
fetched L n p (lacking job since) f (inl h) = inr (inl (omega arith, omega int_laws, h.2, f))
fetched L n p (lacking job since) f (inr (inl h)) = absurd (omega arith)
fetched L n p (lacking job since) f (inr (inr (inl h))) = absurd (omega arith)
fetched L n p (lacking job since) f (inr (inr (inr h))) = absurd (omega (arith, h.1))
fetched L n p stopped f h = tt

pub filled_up : (p : Printer) → is_filled p ≡ true → Full p
unfolding is_filled papers_needed ◌-ℤ◌
filled_up p f = ground arith

passed :
    (L : Type 0) (n : ℕ) (p : Printer) (d : Doing)
    → is_filled p ≡ true
    → Awaits L (suc n) none p d
    → Awaits L n none p d
unfolding is_filled papers_needed
passed L n p looking f h = absurd (omega arith)
passed L n p (holding job) f h = absurd (omega arith)
passed L n p (printing job) f h = absurd (omega arith)
passed L n p (lacking job since) f (inl h) = inr (inr (inl (omega arith, refl, filled_up p f)))
passed L n p (lacking job since) f (inr (inl h)) = absurd (omega arith)
passed L n p (lacking job since) f (inr (inr (inl h))) = absurd (omega arith)
passed L n p (lacking job since) f (inr (inr (inr h))) = absurd (omega (arith, h.1))
passed L n p stopped f h = tt

pub filled :
    (L : Type 0) (n : ℕ) (needed : ℤ) (p : Printer) (d : Doing)
    → Awaits L n (some needed) p d
    → Awaits L n none (record p { current_paper_count = p.current_paper_count +ℤ needed }) d
filled L n needed p looking h = absurd (ground arith)
filled L n needed p (holding job) h = absurd (ground arith)
filled L n needed p (printing job) h = absurd (ground arith)
filled L n needed p (lacking job since) (inl h) = absurd (ground arith)
filled L n needed p (lacking job since) (inr (inl h)) = inr (inr (inl (h.0, refl, h.1)))
filled L n needed p (lacking job since) (inr (inr (inl h))) = absurd (ground arith)
filled L n needed p (lacking job since) (inr (inr (inr h))) = absurd (ground (arith, h.2))
filled L n needed p stopped h = tt

brought_self : (i since : ℕ) (needed : ℤ) → brought i (filling i since needed) ≡ some needed
brought_self i since needed = ground arith

-- The printer at the front leaves the queue.
next-AllAwait :
    (L : ℕ → Type 0) (σ : System) (i : ℕ) (rest : List ℕ) (w : Worker) (r : Refiller)
    → σ.refiller ≡ waiting
    → next_demand σ.sim ≡ Demand.serves i rest
    → get_elem? σ.workers i ≡ some w
    → AllAwait L σ.sim.refill_queue σ.refiller σ.workers
    → (Awaits (L i) (suc (asked i rest)) none w.printer w.doing
        → Awaits (L i) (asked i rest) (brought i r) w.printer w.doing)
    → ((j : ℕ) → (i == j) ≡ false → brought j r ≡ brought j σ.refiller)
    → AllAwait L rest r σ.workers
next-AllAwait L σ i rest w r e n at h served others =
    let q = next_demand-serves σ.sim i rest n in
    let one : asked i (i ∷ rest) ≡ suc (asked i rest) = ground arith in
    let before : Awaits (L i) (asked i (i ∷ rest)) (brought i waiting) w.printer w.doing =
      rw q at (rw e at (rw at at (h i))) in
    others-AllAwait L σ.sim.refill_queue rest σ.refiller r σ.workers σ.workers i w h
      (served (rw one at before)) (λ j other. (rw q (ground arith), others j other))
      (λ j. read_self σ.workers i j w at)

module _ (L : ℕ → Type 0) (is_server : Bool) (params : Parameters) (num_jobs : ℕ)
    (service_ms refill_us : ℤ → ℤ) where
  pub Step-Tracked :
      (σ τ : System) (step : Step is_server params num_jobs service_ms refill_us σ τ)
      → ((j : ℕ) → is_vain is_server params num_jobs service_ms refill_us j step ≡ 1 → L j)
      → Tracked L σ
      → Tracked L τ
  unfolding arrive drop_job_from_system enqueue_allocated enqueue_failed take_job begin_service
      finish_service request_refill_allocated request_refill_failed resume exit_printer take_demand
      begin_refill finish_refill stop_simulation empty_queue_if_terminating
  Step-Tracked σ τ (Step.passes_over n p e lt) v h = h
  Step-Tracked σ τ (Step.arrives n p now papers e lt f) v h = h
  Step-Tracked σ τ (Step.arrivals_end n p e d) v h = h
  Step-Tracked σ τ (Step.receiver_cancelled n p e d) v h = h
  Step-Tracked σ τ (Step.refuses job n p e f) v h = h
  Step-Tracked σ τ (Step.drops job n p e) v h = h
  Step-Tracked σ τ (Step.admits job n p now now' e f) v h = h
  Step-Tracked σ τ (Step.loses_job job n p now e f) v h = h
  Step-Tracked σ τ (Step.takes_job i w terminate job rest stamp now at d t e) v h =
      quietly L σ i w
        (record w { doing = holding ((take_job (backend is_server) stamp now job rest σ.sim).0) })
        at (λ n o a. (let b : Awaits (L i) n o w.printer looking = rw d at a in b)) h
  Step-Tracked σ τ (Step.asks_for_paper i w terminate job now at d t e) v (inl over) = inl over
  Step-Tracked σ τ (Step.asks_for_paper i w terminate job now at d t e) v (inr h) =
      let b : Awaits (L i) (asked i σ.sim.refill_queue) (brought i σ.refiller) w.printer looking =
        rw d at (rw at at (h i)) in
      inr (
        others-AllAwait L σ.sim.refill_queue (σ.sim.refill_queue ++ i ∷ []) σ.refiller σ.refiller
          σ.workers (set σ.workers i (record w { doing = lacking job now })) i
          (record w { doing = lacking job now }) h
          (inl (
            ground (arith, asked-append i i σ.sim.refill_queue),
            b.1,
            short-lacks terminate w.printer σ.sim job e,
          ))
          (λ j other. (ground (arith, asked-append j i σ.sim.refill_queue), refl))
          (λ j. get_elem?-set σ.workers i j w _ at))
  Step-Tracked σ τ (Step.asks_in_vain i w terminate job now at d t e) v h =
      quietly L σ i w (record w { doing = lacking job now }) at
        (λ n o a.
          (let b : Awaits (L i) n o w.printer looking = rw d at a in
            inr (
              inr
                (inr (v i (ground arith), b.0, b.1, short-lacks terminate w.printer σ.sim job e)))))
        h
  Step-Tracked σ τ (Step.stops i w terminate at d t e) v h =
      quietly L σ i w (record w { doing = stopped }) at (λ n o a. tt) h
  Step-Tracked σ τ (Step.begins i w job now at d) v h =
      quietly L σ i w
        (record {
          printer = (begin_service (backend is_server) service_ms now w.printer job σ.sim).0;
          doing =
              printing ((begin_service (backend is_server) service_ms now w.printer job σ.sim).1);
        })
        at (λ n o a. (let b : Awaits (L i) n o w.printer (holding job) = rw d at a in b)) h
  Step-Tracked σ τ (Step.finishes i w job now at d) v h =
      quietly L σ i w
        (record {
          printer = (finish_service (backend is_server) now w.printer job σ.sim).0;
          doing = looking;
        })
        at (λ n o a. (let b : Awaits (L i) n o w.printer (printing job) = rw d at a in b)) h
  Step-Tracked σ τ (Step.resumes i w job since now at d l) v h =
      quietly L σ i w (record w { doing = looking }) at
        (λ n o a. resumed (L i) n o w.printer w.doing job since d l a) h
  Step-Tracked σ τ (Step.gives_up i w job since at d t) v h =
      quietly L σ i w (record w { doing = stopped }) at (λ n o a. tt) h
  Step-Tracked σ τ (Step.fetches i rest w now e n at f) v (inl over) = absurd (cc)
  Step-Tracked σ τ (Step.fetches i rest w now e n at f) v (inr h) = inr (
      next-AllAwait L σ i rest w (filling i now (papers_needed w.printer)) e n at h
        (λ k.
          rw (brought_self i now (papers_needed w.printer))
            (fetched (L i) (asked i rest) w.printer w.doing f k))
        (λ j other. ground arith))
  Step-Tracked σ τ (Step.finds_full i rest w e n at f) v (inl over) = absurd (cc)
  Step-Tracked σ τ (Step.finds_full i rest w e n at f) v (inr h) = inr (
      next-AllAwait L σ i rest w σ.refiller e n at h
        (λ k. rw e (passed (L i) (asked i rest) w.printer w.doing f k)) (λ j other. refl))
  Step-Tracked σ τ (Step.fills i since needed w now e at) v (inl over) = absurd (cc)
  Step-Tracked σ τ (Step.fills i since needed w now e at) v (inr h) =
      let n : brought i (filling i since needed) ≡ some needed = ground arith in
      let b : Awaits (L i) (asked i σ.sim.refill_queue) (some needed) w.printer w.doing =
        rw n at (rw e at (rw at at (h i))) in
      let v : Worker = record w {
        printer = (finish_refill (backend is_server) since now needed w.printer σ.sim).0;
      } in
      inr (
        others-AllAwait L σ.sim.refill_queue σ.sim.refill_queue σ.refiller waiting σ.workers
          (set σ.workers i v) i v h (filled (L i) _ needed w.printer w.doing b)
          (λ j other. (refl, rw e (ground arith))) (λ j. get_elem?-set σ.workers i j w v at))
  Step-Tracked σ τ (Step.refiller_ends e n) v h = inl refl
  Step-Tracked σ τ (Step.refiller_cancelled d) v h = inl refl
  Step-Tracked σ τ (Step.signal now e) v h = h
  Step-Tracked σ τ (Step.empties clock e) v h = h
