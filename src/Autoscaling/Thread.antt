-- ===== src/Autoscaling/Thread.antt =====
-- `autoscaling_thread_func` of src/autoscaling.c with the lines that a change of the pool writes. What
-- the other threads do between its looks at the job queue is an argument.
pub mod Rounds
use concurrent_request_orche.Base.{
  ℕ, zero, suc, ◌+◌, ◌≤◌, ◌<◌, ◌≡◌, refl, ap, ◌∙◌, Bool, true, false, ◌||◌, Option, none, some,
  List, [], ◌∷◌, ◌++◌, length, leb, ltb, if◌then◌else◌, inl, inr, Bool-cases, if-both, Defined,
  Defined-mono, arith,
}
use concurrent_request_orche.Words.{sub64}
use concurrent_request_orche.Config.{consumer_count_max}
use concurrent_request_orche.Journal.{Journal, Message, Output, line}
use concurrent_request_orche.ConsoleHandler.{log_scale_up}
use concurrent_request_orche.LogRouter.{LogOps, console_ops, emit_scale_up, emit_scale_down}
use concurrent_request_orche.Simulation.{Simulation}
use concurrent_request_orche.Printer.{Printer, PrinterInstance, PrinterPool}
use concurrent_request_orche.Printer.PoolInvariant.{IsPool}
use concurrent_request_orche.Autoscaling.{
  should_scale_up, should_scale_down, scale_up, scale_down, autoscaling_round,
}
use concurrent_request_orche.Autoscaling.Scaling.{IsRunning}
use concurrent_request_orche.Autoscaling.Round.{Round, autoscaling_round_lem}
use concurrent_request_orche.Autoscaling.Gap.{IsPacked, scale_up-after-gap}

-- What a round gets from outside: the clock at the decision and in `scale_up` or `scale_down`, whether
-- a thread can be created, the other threads before the second look at the queue and during the sleep,
-- and what the printers do to their own records during the sleep. A round reads the records of the
-- printers at one moment.
pub record Reading : Type 0 where
  pub now : ℕ
  pub later : ℕ
  pub created : Bool
  pub meanwhile : Simulation → Simulation
  pub asleep : Simulation → Simulation
  pub works : Printer → Printer

-- The threads of the printers write every field of their records but the id.
unfoldable pub work : (Printer → Printer) → List PrinterInstance → List PrinterInstance
work f [] = []
work f (p ∷ ps) = record p { printer = record (f p.printer) { id = p.printer.id } } ∷ work f ps

abbrev pub worked : (Printer → Printer) → PrinterPool → PrinterPool
worked f pool = record pool { printers = work f pool.printers }

-- `scale_up` writes its line before it starts the printer.
unfoldable pub announce_up :
    Option LogOps → PrinterPool → (queue_length now : ℕ) → Journal → Journal
announce_up logger pool queue_length now j =
    if leb consumer_count_max pool.active_count
    then j
    else emit_scale_up logger (pool.active_count + 1) queue_length now j

-- `scale_down` writes its line after a printer was stopped.
unfoldable pub announce_down :
    Option LogOps → PrinterPool × Option ℕ → (queue_length now : ℕ) → Journal → Journal
announce_down logger (pool, none) queue_length now j = j
announce_down logger (pool, some _) queue_length now j =
    emit_scale_down logger pool.active_count queue_length now j

-- A round that finds no reason to end, up to its sleep.
unfoldable pub autoscaling_turn :
    Option LogOps → Reading → PrinterPool → Simulation → Option (PrinterPool × Simulation)
unfolding announce_up announce_down
autoscaling_turn logger r pool s =
    let s' : Simulation = r.meanwhile s in
    if should_scale_up pool (length s.job_queue) r.now
    then elim (scale_up r.created pool r.later) [
      | none ↦ none
      | some (pool', _) ↦ some (
        pool',
        record s' { journal = announce_up logger pool (length s'.job_queue) r.later s'.journal },
      )
    ]
    else elim (should_scale_down pool (length s.job_queue) r.now) [
      | none ↦ none
      | some (pool', true) ↦ elim (scale_down pool' r.later) [
        | none ↦ none
        | some o ↦ some (
          o.0,
          record s' { journal = announce_down logger o (length s'.job_queue) r.later s'.journal },
        )
      ]
      | some (pool', false) ↦ some (pool', s')
    ]

-- The whole thread, for as many rounds as there are readings.
unfoldable pub autoscaling_thread :
    Option LogOps → List Reading → PrinterPool → Simulation → Option (PrinterPool × Simulation)
unfolding autoscaling_turn work
autoscaling_thread logger [] pool s = some (pool, s)
autoscaling_thread logger (r ∷ rs) pool s = elim (s.terminate_now || s.all_jobs_served) [
  | true ↦ some (pool, s)
  | false ↦ elim (autoscaling_turn logger r pool s) [
    | none ↦ none
    | some o ↦ autoscaling_thread logger rs (worked r.works (o.0)) (r.asleep (o.1))
  ]
]
