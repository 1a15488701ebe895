-- ===== src/Server.antt =====
-- src/server.c: the commands of the websocket, and the life of the one simulation context. Parsing
-- the message is mongoose's: a command arrives with the values that its config holds, each cut to an
-- `int` where the code does so. A number of jobs is taken to be whole.
pub mod Runs
pub mod Bridge
pub mod Http
pub mod Stream
pub mod Startup
mod Tests
use Prim.Native.String.{String}
use text.Mathlib.Text.{◌==◌}
use concurrent_request_orche.Base.{
  ℕ, zero, suc, ◌+◌, ◌-◌, Bool, true, false, Option, none, some, List, [], ◌∷◌, if◌then◌else◌,
}
use concurrent_request_orche.Base.Int.{ℤ, pos, ltb_ℤ}
use concurrent_request_orche.SimulationStats.{no_statistics}
use concurrent_request_orche.Journal.{Journal}
use concurrent_request_orche.LogRouter.{
  LogOps, emit_simulation_start, emit_simulation_end, emit_statistics,
}
use concurrent_request_orche.Simulation.{Simulation}
use concurrent_request_orche.SignalCatcher.{stop_simulation, empty_queue_if_terminating}
use concurrent_request_orche.Preprocessing.{SimulationParameters}

-- The `config` of a start message: what is there, and of the right kind.
pub record StartConfig (Double : Type 0) : Type 0 where
  pub job_count : Option ℤ
  pub print_rate : Option Double
  pub config_consumer_count : Option ℤ
  pub config_refill_rate : Option Double
  pub paper_capacity : Option ℤ
  pub job_arrival : Option ℤ
  pub max_queue : Option ℤ
  pub min_papers : Option ℤ
  pub max_papers : Option ℤ
  pub config_auto_scaling : Option ℤ

abbrev pub given {ℓ} : {A : Type ℓ} → Option A → A → A
given none a = a
given (some b) a = b

-- `simulation_context_t` and `g_terminate_now`; `runners` is the number of runner threads alive.
pub record Context (Double : Type 0) : Type 0 where
  pub sim : Simulation
  pub params : SimulationParameters Double
  pub is_running : Bool
  pub runners : ℕ

pub data Reply : Type 0 where
  no_reply : Reply
  running : Reply
  idle : Reply
  unknown_command : Reply

-- A message on the websocket; `created` is whether a thread can be created for a runner.
pub record Request (Double : Type 0) : Type 0 where
  pub command : String
  pub config : StartConfig Double
  pub created : Bool
  pub now : ℕ
  pub clock : ℕ → ℕ × ℕ × ℕ
  pub others : Simulation → Simulation

module _ {Double : Type 0} where
  unfoldable pub apply_config :
      StartConfig Double → SimulationParameters Double → SimulationParameters Double
  apply_config c p =
      let jobs = given c.job_count (pos 0) in
      let overridden : SimulationParameters Double = record p {
        num_jobs = jobs;
        printing_rate = given c.print_rate p.printing_rate;
        consumer_count = given c.config_consumer_count p.consumer_count;
        refill_rate = given c.config_refill_rate p.refill_rate;
        printer_paper_capacity = given c.paper_capacity p.printer_paper_capacity;
        job_arrival_time_us = given c.job_arrival p.job_arrival_time_us;
        queue_capacity = given c.max_queue p.queue_capacity;
        papers_required_lower_bound = given c.min_papers p.papers_required_lower_bound;
        papers_required_upper_bound = given c.max_papers p.papers_required_upper_bound;
        auto_scaling = given c.config_auto_scaling p.auto_scaling;
      } in
      if ltb_ℤ (pos 0) jobs then overridden else p

  -- The answer of `pthread_create` is not looked at.
  unfoldable pub start_simulation_async : (created : Bool) → Context Double → Context Double
  start_simulation_async created ctx = if ctx.is_running then ctx else record ctx {
    is_running = true;
    runners = if created then ctx.runners + 1 else ctx.runners;
  }

  -- `simulation_runner` up to the creation of its threads.
  unfoldable pub runner_begins : Option LogOps → (now : ℕ) → Context Double → Context Double
  runner_begins logger now ctx = record ctx {
    sim = record (ctx.sim) { journal = emit_simulation_start logger now ctx.sim.journal };
  }

  -- `simulation_runner` after its threads were joined.
  unfoldable pub runner_ends : Option LogOps → (now : ℕ) → Context Double → Context Double
  runner_ends logger now ctx =
      let j : Journal = emit_statistics logger (emit_simulation_end logger now ctx.sim.journal) in
      record ctx {
        sim = record (ctx.sim) { journal = record j { stats = no_statistics } };
        is_running = false;
        runners = ctx.runners - 1;
      }

  -- In between the two parts the other threads run.
  unfoldable pub request_stop_simulation :
      Option LogOps
      → (now : ℕ) → (clock : ℕ → ℕ × ℕ × ℕ) → (others : Simulation → Simulation) → Context Double
      → Context Double
  request_stop_simulation logger now clock others ctx = record ctx {
    sim = empty_queue_if_terminating logger clock (others (stop_simulation logger now ctx.sim));
  }

  unfoldable pub handle_command :
      Option LogOps → Request Double → Context Double → Context Double × Reply
  unfolding apply_config start_simulation_async request_stop_simulation
  handle_command logger r ctx =
      if r.command == "start"
      then (
        start_simulation_async r.created (record ctx { params = apply_config r.config ctx.params }),
        no_reply,
      )
      else if r.command == "stop"
      then (request_stop_simulation logger r.now r.clock r.others ctx, no_reply)
      else if r.command == "status"
      then (ctx, if ctx.is_running then running else idle)
      else (ctx, unknown_command)
