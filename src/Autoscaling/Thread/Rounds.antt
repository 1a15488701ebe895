-- ===== src/Autoscaling/Thread/Rounds.antt =====
-- The thread of the autoscaler in src/autoscaling.c over its rounds, and what it announces.
use concurrent_request_orche.Base.{
  ℕ, suc, ◌+◌, ◌≤◌, ◌<◌, ◌≡◌, refl, ◌∙◌, true, false, ◌||◌, Option, none, some, List, [], ◌∷◌, ◌++◌,
  length, leb, inl, inr, Bool-cases, Defined, Defined-mono, arith,
}
use concurrent_request_orche.Words.{sub64}
use concurrent_request_orche.Config.{consumer_count_max}
use concurrent_request_orche.Journal.{Message, line}
use concurrent_request_orche.ConsoleHandler.{log_scale_up}
use concurrent_request_orche.LogRouter.{LogOps, console_ops, emit_scale_up}
use concurrent_request_orche.Simulation.{Simulation}
use concurrent_request_orche.Printer.{Printer, PrinterInstance, PrinterPool}
use concurrent_request_orche.Printer.PoolInvariant.{IsPool, HasIds, count_active}
use concurrent_request_orche.Autoscaling.{should_scale_up, scale_down, autoscaling_round}
use concurrent_request_orche.Autoscaling.Scaling.{IsRunning}
use concurrent_request_orche.Autoscaling.Round.{Round, autoscaling_round_lem}
use concurrent_request_orche.Autoscaling.Gap.{IsPacked, scale_up-after-gap}
use concurrent_request_orche.Autoscaling.Thread.{
  Reading, work, worked, announce_up, autoscaling_turn, autoscaling_thread,
}

pool_of {ℓ} : {A : Type ℓ} → Option (PrinterPool × A) → Option PrinterPool
pool_of none = none
pool_of (some (pool, _)) = some pool

-- A turn changes the pool as a round does.
autoscaling_turn-pool :
    (logger : Option LogOps) (r : Reading) (pool : PrinterPool) (s : Simulation)
    → pool_of (autoscaling_turn logger r pool s)
      ≡ autoscaling_round r.created pool (length s.job_queue) r.now r.later
unfolding autoscaling_turn autoscaling_round pool_of
autoscaling_turn-pool logger r pool s = ground arith

pool_of-Defined {ℓ} :
    {A : Type ℓ} (P : PrinterPool → Type 0) (o : Option (PrinterPool × A))
    → Defined P (pool_of o)
    → Defined (λ x. P (x.0)) o
unfolding pool_of
pool_of-Defined P none h = h
pool_of-Defined P (some o) h = h

autoscaling_turn-Round :
    (logger : Option LogOps) (r : Reading) (pool : PrinterPool) (s : Simulation)
    → IsRunning pool
    → Defined (λ o. Round pool (o.0)) (autoscaling_turn logger r pool s)
autoscaling_turn-Round logger r pool s run =
    pool_of-Defined (Round pool) (autoscaling_turn logger r pool s) (
      rw (autoscaling_turn-pool logger r pool s)
        (autoscaling_round_lem r.created pool (length s.job_queue) r.now r.later run))

-- What holds of the pool after `n` rounds.
abbrev pub Reached : PrinterPool → (n : ℕ) → PrinterPool × Simulation → Type 0
Reached pool n o =
    IsRunning (o.0)
    × (o.0.active_count ≤ consumer_count_max)
    × (o.0.min_count ≡ pool.min_count)
    × (o.0.active_count ≤ pool.active_count + n)
    × (pool.active_count ≤ o.0.active_count + n)

length-work : (f : Printer → Printer) (ps : List PrinterInstance) → length (work f ps) ≡ length ps
unfolding work
length-work f [] = refl
length-work f (p ∷ ps) = ground (arith, length-work f ps)

count_active-work :
    (f : Printer → Printer) (ps : List PrinterInstance) → count_active (work f ps) ≡ count_active ps
unfolding work
count_active-work f [] = refl
count_active-work f (p ∷ ps) = ground (arith, count_active-work f ps)

work-HasIds :
    (f : Printer → Printer) (ps : List PrinterInstance) (i : ℕ) → HasIds i ps → HasIds i (work f ps)
unfolding work
work-HasIds f [] i h = tt
work-HasIds f (p ∷ ps) i h = (h.0, work-HasIds f ps (i + 1) h.1)

-- The pool is as well formed after the printers have worked as before.
worked-IsRunning :
    (f : Printer → Printer) (pool : PrinterPool) → IsRunning pool → IsRunning (worked f pool)
worked-IsRunning f pool h = record {
  pool_ok = record {
    sized = length-work f pool.printers ∙ h.pool_ok.sized;
    numbered = work-HasIds f pool.printers 0 h.pool_ok.numbered;
    counted = omega (arith, h.pool_ok.counted, count_active-work f pool.printers);
  };
  enough = h.enough;
}

next-Round :
    (logger : Option LogOps) (works : Printer → Printer) (asleep : Simulation → Simulation)
    (rs : List Reading) (pool : PrinterPool) (o : Option (PrinterPool × Simulation))
    → Defined (λ x. Round pool (x.0)) o
    → ((p : PrinterPool) (s : Simulation)
        → IsRunning p
        → p.active_count ≤ consumer_count_max
        → Defined (Reached p (length rs)) (autoscaling_thread logger rs p s))
    → Defined (Reached pool (suc (length rs))) (elim o [
      | none ↦ none
      | some x ↦ autoscaling_thread logger rs (worked works (x.0)) (asleep (x.1))
    ])
next-Round logger works asleep rs pool none h again = h
next-Round logger works asleep rs pool (some (p, s)) h again =
    Defined-mono (Reached p (length rs)) (Reached pool (suc (length rs)))
      (autoscaling_thread logger rs (worked works p) (asleep s))
      (again (worked works p) (asleep s) (worked-IsRunning works p h.0) h.1)
      (λ o k. (k.0, k.1, k.2 ∙ h.2, omega (arith, k.3, h.3), omega (arith, k.4, h.4)))

-- However many rounds the autoscaler takes, and whatever the other threads do to the simulation and
-- the printers to their records between the rounds, a pool that is well formed, with between the
-- minimum and five printers active, stays so, no round reads outside its array, and over n rounds the
-- number of active printers changes by n at most.
pub autoscaling_thread_lem :
    (logger : Option LogOps) (rs : List Reading) (pool : PrinterPool) (s : Simulation)
    → IsRunning pool
    → pool.active_count ≤ consumer_count_max
    → Defined (Reached pool (length rs)) (autoscaling_thread logger rs pool s)
unfolding autoscaling_thread
autoscaling_thread_lem logger [] pool s run few = (run, few, refl, omega arith, omega arith)
autoscaling_thread_lem logger (r ∷ rs) pool s run few =
    elim (Bool-cases (s.terminate_now || s.all_jobs_served)) [
      | inl done ↦ rw (done, autoscaling_thread) (run, few, refl, omega arith, omega arith)
      | inr on ↦
          rw (on, autoscaling_thread)
            (next-Round logger (r.works) (r.asleep) rs pool (autoscaling_turn logger r pool s)
              (autoscaling_turn-Round logger r pool s run)
              (λ p s' k m. autoscaling_thread_lem logger rs p s' k m))
    ]

-- After a scale-down of any printer but the last, a round that decides to grow writes the line that
-- one more printer was started, and starts none.
pub turn-after-gap :
    (r : Reading) (pool pool' : PrinterPool) (s : Simulation) (then' i : ℕ)
    → IsPool pool
    → IsPacked pool
    → scale_down pool then' ≡ some (pool', some i)
    → i + 1 < pool.active_count
    → should_scale_up pool' (length s.job_queue) r.now ≡ true
    → let s' : Simulation = r.meanwhile s in
      let t = sub64 r.later s'.journal.reference_time_us in
      autoscaling_turn (some console_ops) r pool' s
      ≡ some (
        pool',
        record s' {
          journal = record (s'.journal) {
            out =
                s'.journal.out
                ++ line t (Message.scaled_up (pool'.active_count + 1) (length s'.job_queue)) ∷ [];
          };
        },
      )
unfolding autoscaling_turn announce_up emit_scale_up console_ops log_scale_up
turn-after-gap r pool pool' s then' i ok packed e h grow =
    let (room, stuck) = scale_up-after-gap r.created pool pool' then' r.later i ok packed e h in
    let below : leb consumer_count_max pool'.active_count ≡ false = ground arith in
    rw (grow, stuck, below) refl
