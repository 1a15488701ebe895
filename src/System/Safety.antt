-- ===== src/System/Safety.antt =====
-- The paper of the printers over the interleavings of the threads.
use concurrent_request_orche.Base.{
  ℕ, zero, suc, ◌≡◌, Bool, false, some, List, [], ◌∷◌, get_elem?, set, arith,
}
use concurrent_request_orche.Base.Int.{ℤ, pos, ◌+ℤ◌, ◌≤ℤ◌, int_laws}
use concurrent_request_orche.Printer.{Printer}
use concurrent_request_orche.Simulation.{Parameters, backend}
use concurrent_request_orche.JobReceiver.{
  arrive, drop_job_from_system, enqueue_allocated, enqueue_failed,
}
use concurrent_request_orche.Printer.Service.{
  Look, take_job, begin_service, finish_service, request_refill_allocated, request_refill_failed,
  resume, exit_printer,
}
use concurrent_request_orche.Printer.Service.Paper.{Meaning, look_lem}
use concurrent_request_orche.PaperRefiller.{
  take_demand, begin_refill, finish_refill, papers_needed, is_filled,
}
use concurrent_request_orche.SignalCatcher.{stop_simulation, empty_queue_if_terminating}
use concurrent_request_orche.System.{
  Doing, looking, holding, printing, lacking, stopped, Refiller, waiting, filling, ended, Worker,
  System,
}
use concurrent_request_orche.System.Steps.{Step, Steps}

-- A job in hand has its paper in the printer.
abbrev pub Provided : ℤ → Doing → Type 0
Provided count looking = pos 0 ≤ℤ count
Provided count (holding job) = (pos 0 ≤ℤ count) × (job.papers_required ≤ℤ count)
Provided count (printing job) = (pos 0 ≤ℤ count) × (job.papers_required ≤ℤ count)
Provided count (lacking job since) = pos 0 ≤ℤ count
Provided count stopped = pos 0 ≤ℤ count

abbrev pub AllProvided : List Worker → Type 0
AllProvided ws =
    (i : ℕ) (w : Worker) → get_elem? ws i ≡ some w → Provided w.printer.current_paper_count w.doing

-- What is being filled in is no negative amount.
abbrev pub Adds : Refiller → Type 0
Adds (filling i since needed) = pos 0 ≤ℤ needed
Adds waiting = pos 0 ≤ℤ pos 0
Adds ended = pos 0 ≤ℤ pos 0

pub record IsStocked (σ : System) : Type 0 where
  pub provided : AllProvided σ.workers
  pub adding : Adds σ.refiller

set-AllProvided :
    (ws : List Worker) (i : ℕ) (v : Worker)
    → AllProvided ws
    → Provided v.printer.current_paper_count v.doing
    → AllProvided (set ws i v)
set-AllProvided [] i v h k j u e = absurd (ground arith)
set-AllProvided (x ∷ ws) zero v h k zero u e = grind arith
set-AllProvided (x ∷ ws) zero v h k (suc j) u e = h (suc j) u e
set-AllProvided (x ∷ ws) (suc i) v h k zero u e = h zero u e
set-AllProvided (x ∷ ws) (suc i) v h k (suc j) u e =
    set-AllProvided ws i v (λ j' u' e'. h (suc j') u' e') k j u e

as_doing : (count : ℤ) (d d' : Doing) → d ≡ d' → Provided count d → Provided count d'
as_doing count d d' e h = rw e at h

grown :
    (count needed : ℤ) (d : Doing)
    → pos 0 ≤ℤ needed
    → Provided count d
    → Provided (count +ℤ needed) d
grown count needed looking a h = omega int_laws
grown count needed (holding job) a h = (omega int_laws, omega int_laws)
grown count needed (printing job) a h = (omega int_laws, omega int_laws)
grown count needed (lacking job since) a h = omega int_laws
grown count needed stopped a h = omega int_laws

needed-nonneg : (p : Printer) → is_filled p ≡ false → pos 0 ≤ℤ papers_needed p
unfolding is_filled
needed-nonneg p e = ground arith

module _ (is_server : Bool) (params : Parameters) (num_jobs : ℕ)
    (service_ms refill_us : ℤ → ℤ) where
  Step-IsStocked :
      (σ τ : System)
      → Step is_server params num_jobs service_ms refill_us σ τ
      → IsStocked σ
      → IsStocked τ
  unfolding arrive drop_job_from_system enqueue_allocated enqueue_failed take_job begin_service
      finish_service request_refill_allocated request_refill_failed resume exit_printer take_demand
      begin_refill finish_refill stop_simulation empty_queue_if_terminating
  Step-IsStocked σ τ (Step.passes_over n p e lt) h = record {
    provided = h.provided;
    adding = h.adding;
  }
  Step-IsStocked σ τ (Step.arrives n p now papers e lt f) h = record {
    provided = h.provided;
    adding = h.adding;
  }
  Step-IsStocked σ τ (Step.arrivals_end n p e d) h = record {
    provided = h.provided;
    adding = h.adding;
  }
  Step-IsStocked σ τ (Step.receiver_cancelled n p e d) h = record {
    provided = h.provided;
    adding = h.adding;
  }
  Step-IsStocked σ τ (Step.refuses job n p e f) h = record {
    provided = h.provided;
    adding = h.adding;
  }
  Step-IsStocked σ τ (Step.drops job n p e) h = record { provided = h.provided; adding = h.adding }
  Step-IsStocked σ τ (Step.admits job n p now now' e f) h = record {
    provided = h.provided;
    adding = h.adding;
  }
  Step-IsStocked σ τ (Step.loses_job job n p now e f) h = record {
    provided = h.provided;
    adding = h.adding;
  }
  Step-IsStocked σ τ (Step.takes_job i w terminate job rest stamp now at d t e) h =
      let m : Meaning w.printer σ.sim terminate (Look.takes job rest) =
        rw e at (look_lem terminate w.printer σ.sim) in
      let p = as_doing _ _ _ d (h.provided i w at) in
      record {
        provided =
            set-AllProvided σ.workers i
              (record w { doing = holding (record job { queue_departure_time_us = now }) })
              h.provided ((p, m.2));
        adding = h.adding;
      }
  Step-IsStocked σ τ (Step.asks_for_paper i w terminate job now at d t e) h =
      let p = as_doing _ _ _ d (h.provided i w at) in
      record {
        provided = set-AllProvided σ.workers i (record w { doing = lacking job now }) h.provided p;
        adding = h.adding;
      }
  Step-IsStocked σ τ (Step.asks_in_vain i w terminate job now at d t e) h =
      let p = as_doing _ _ _ d (h.provided i w at) in
      record {
        provided = set-AllProvided σ.workers i (record w { doing = lacking job now }) h.provided p;
        adding = h.adding;
      }
  Step-IsStocked σ τ (Step.stops i w terminate at d t e) h =
      let p = as_doing _ _ _ d (h.provided i w at) in
      record {
        provided = set-AllProvided σ.workers i (record w { doing = stopped }) h.provided p;
        adding = h.adding;
      }
  Step-IsStocked σ τ (Step.begins i w job now at d) h =
      let p = as_doing _ _ _ d (h.provided i w at) in
      record {
        provided =
            set-AllProvided σ.workers i
              (record {
                printer = (begin_service (backend is_server) service_ms now w.printer job σ.sim).0;
                doing =
                    printing
                      ((begin_service (backend is_server) service_ms now w.printer job σ.sim).1);
              })
              h.provided (p);
        adding = h.adding;
      }
  Step-IsStocked σ τ (Step.finishes i w job now at d) h =
      let p = as_doing _ _ _ d (h.provided i w at) in
      record {
        provided =
            set-AllProvided σ.workers i
              (record {
                printer = (finish_service (backend is_server) now w.printer job σ.sim).0;
                doing = looking;
              })
              h.provided (omega (int_laws, p.1));
        adding = h.adding;
      }
  Step-IsStocked σ τ (Step.resumes i w job since now at d l) h =
      let p = as_doing _ _ _ d (h.provided i w at) in
      record {
        provided = set-AllProvided σ.workers i (record w { doing = looking }) h.provided p;
        adding = h.adding;
      }
  Step-IsStocked σ τ (Step.gives_up i w job since at d t) h =
      let p = as_doing _ _ _ d (h.provided i w at) in
      record {
        provided = set-AllProvided σ.workers i (record w { doing = stopped }) h.provided p;
        adding = h.adding;
      }
  Step-IsStocked σ τ (Step.fetches i rest w now e n at f) h = record {
    provided = h.provided;
    adding = needed-nonneg w.printer f;
  }
  Step-IsStocked σ τ (Step.finds_full i rest w e n at f) h = record {
    provided = h.provided;
    adding = h.adding;
  }
  Step-IsStocked σ τ (Step.fills i since needed w now e at) h =
      let a : Adds (filling i since needed) = rw e at h.adding in
      record {
        provided =
            set-AllProvided σ.workers i
              (record w {
                printer = (finish_refill (backend is_server) since now needed w.printer σ.sim).0;
              })
              h.provided (grown w.printer.current_paper_count needed w.doing a (h.provided i w at));
        adding = omega arith;
      }
  Step-IsStocked σ τ (Step.refiller_ends e n) h = record {
    provided = h.provided;
    adding = omega arith;
  }
  Step-IsStocked σ τ (Step.refiller_cancelled d) h = record {
    provided = h.provided;
    adding = omega arith;
  }
  Step-IsStocked σ τ (Step.signal now e) h = record { provided = h.provided; adding = h.adding }
  Step-IsStocked σ τ (Step.empties clock e) h = record { provided = h.provided; adding = h.adding }

  -- From printers that hold no negative amount of paper, whatever the threads do and in any order, no
  -- printer's paper ever falls below zero, and a printer that has taken a job holds the paper for it.
  pub Steps-IsStocked :
      (σ τ : System)
      → Steps is_server params num_jobs service_ms refill_us σ τ
      → IsStocked σ
      → IsStocked τ
  Steps-IsStocked σ τ Steps.here h = h
  Steps-IsStocked σ τ (Steps.then {τ = υ} rest step) h =
      Step-IsStocked υ τ step (Steps-IsStocked σ υ rest h)
