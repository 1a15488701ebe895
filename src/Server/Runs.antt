-- ===== src/Server/Runs.antt =====
-- The runs of the simulation in src/server.c, one after another.
use text.Mathlib.Text.{◌==◌}
use concurrent_request_orche.Base.{
  ℕ, ◌≤◌, ◌≡◌, Bool, true, false, Option, List, [], ◌∷◌, ltb, if◌then◌else◌, arith,
}
use concurrent_request_orche.Printer.{Printer}
use concurrent_request_orche.LogRouter.{LogOps}
use concurrent_request_orche.Printer.Service.{Look, look, is_exit_condition_met}
use concurrent_request_orche.Server.{
  Context, Request, handle_command, start_simulation_async, request_stop_simulation, runner_begins,
  runner_ends,
}

-- No runner is alive while the flag is off, and no more than one while it is on.
abbrev pub IsSingle : {Double : Type 0} → Context Double → Type 0
IsSingle ctx = ctx.runners ≤ (if ctx.is_running then 1 else 0)

-- What happens to the context: a message comes in, or the runner goes through its two parts.
pub data Event (Double : Type 0) : Type 0 where
  message : Request Double → Event Double
  begins : (now : ℕ) → Event Double
  ends : (now : ℕ) → Event Double

module _ {Double : Type 0} (logger : Option LogOps) where
  -- The runner can end only if there is one.
  unfoldable pub happens : Event Double → Context Double → Context Double
  happens (message r) ctx = (handle_command logger r ctx).0
  happens (begins now) ctx = runner_begins logger now ctx
  happens (ends now) ctx = if ltb 0 ctx.runners then runner_ends logger now ctx else ctx

  unfoldable pub all_happen : List (Event Double) → Context Double → Context Double
  unfolding happens
  all_happen [] ctx = ctx
  all_happen (e ∷ es) ctx = all_happen es (happens e ctx)

  event-IsSingle :
      (e : Event Double) (ctx : Context Double) → IsSingle ctx → IsSingle (happens e ctx)
  unfolding happens handle_command start_simulation_async request_stop_simulation runner_begins
      runner_ends
  event-IsSingle (message r) ctx h = ground arith
  event-IsSingle (begins now) ctx h = h
  event-IsSingle (ends now) ctx h = ground arith

  -- From a context with no runner while its flag is off and one at most while it is on, whatever
  -- messages come in, whether threads can be created, and whenever runs end, there is never more than
  -- one runner, and none while the context says that nothing runs.
  pub all_happen-IsSingle :
      (es : List (Event Double)) (ctx : Context Double)
      → IsSingle ctx
      → IsSingle (all_happen es ctx) × ((all_happen es ctx).runners ≤ 1)
  unfolding all_happen
  all_happen-IsSingle [] ctx h = (h, ground arith)
  all_happen-IsSingle (e ∷ es) ctx h =
      all_happen-IsSingle es (happens e ctx) (event-IsSingle e ctx h)

  still-stuck :
      (es : List (Event Double)) (ctx : Context Double)
      → ctx.is_running ≡ true
      → ctx.runners ≡ 0
      → ((all_happen es ctx).is_running ≡ true) × ((all_happen es ctx).runners ≡ 0)
  unfolding all_happen happens handle_command start_simulation_async request_stop_simulation
      runner_begins runner_ends
  still-stuck [] ctx on nobody = (on, nobody)
  still-stuck (message r ∷ es) ctx on nobody =
      still-stuck es ((handle_command logger r ctx).0) (ground arith) (ground arith)
  still-stuck (begins now ∷ es) ctx on nobody =
      still-stuck es (runner_begins logger now ctx) on nobody
  still-stuck (ends now ∷ es) ctx on nobody =
      still-stuck es (happens (ends now) ctx) (ground arith) (ground arith)

  -- When no thread can be created for a start message to an idle context, then whatever comes after
  -- it, the context says for ever that a simulation runs, and no runner is ever started.
  pub failed_start-stuck :
      (es : List (Event Double)) (ctx : Context Double) (r : Request Double)
      → (r.command == "start") ≡ true
      → r.created ≡ false
      → ctx.is_running ≡ false
      → ctx.runners ≡ 0
      → ((all_happen (message r ∷ es) ctx).is_running ≡ true)
        × ((all_happen (message r ∷ es) ctx).runners ≡ 0)
  unfolding all_happen happens handle_command start_simulation_async
  failed_start-stuck es ctx r s failed off nobody =
      still-stuck es ((handle_command logger r ctx).0) (ground arith) (ground arith)

  -- When a run is over, with the flags that it leaves set and an empty queue, the next run that is
  -- started finds the same flags: every printer that looks for a job before one has arrived ends.
  pub restart-ends :
      (ctx : Context Double) (r : Request Double) (now later : ℕ) (terminate : Bool)
      (printer : Printer)
      → (r.command == "start") ≡ true
      → ctx.sim.all_jobs_arrived ≡ true
      → ctx.sim.job_queue ≡ []
      → ((all_happen (ends now ∷ message r ∷ begins later ∷ []) ctx).is_running ≡ true)
        × (look terminate printer ((all_happen (ends now ∷ message r ∷ begins later ∷ []) ctx).sim)
            ≡ Look.ends)
  unfolding all_happen happens handle_command start_simulation_async runner_begins runner_ends look
      is_exit_condition_met
  restart-ends ctx r now later terminate printer s a q = (ground arith, ground arith)
