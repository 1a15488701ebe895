-- ===== src/Server/Startup.antt =====
-- `init_context` and `main` of src/server.c, up to the event loop.
mod Tests
use Prim.Native.String.{String}
use concurrent_request_orche.Base.{
  ℕ, ◌≡◌, refl, Bool, true, false, Option, none, some, List, [], ◌∷◌, if◌then◌else◌, inl, inr,
  Bool-cases,
}
use concurrent_request_orche.Base.Int.{ℤ, pos}
use concurrent_request_orche.Job.{Job}
use concurrent_request_orche.SimulationStats.{no_statistics}
use concurrent_request_orche.LogRouter.{
  LogOps, LogRouter, websocket_ops, log_router_register_websocket_handler, set_log_mode,
}
use concurrent_request_orche.Preprocessing.{
  SimulationParameters, Doubles, Outcome, shows_usage, reads_null, refused, accepted, process_args,
}
use concurrent_request_orche.Preprocessing.Valid.{IsValid, process_args_lem}
use concurrent_request_orche.Cli.{high_load}
use concurrent_request_orche.Server.{Context}

-- Queues are empty and flags are down. `made` is the time that `timed_queue_init` reads.
abbrev pub init_context :
    {Double : Type 0} → (printing_rate refill_rate : Double) → (made : ℕ) → Context Double
init_context five twenty_five made = record {
  sim = record {
    job_queue = [];
    refill_queue = [];
    journal = record {
      stats = no_statistics;
      queue_stamp = made;
      reference_time_us = 0;
      reference_end_time_us = 0;
      out = [];
    };
    all_jobs_arrived = false;
    all_jobs_served = false;
    terminate_now = false;
  };
  params = high_load five twenty_five;
  is_running = false;
  runners = 0;
}

-- No handler is registered yet, and none is in use.
abbrev pub no_router : LogRouter
no_router = record { s_console_handler = none; s_websocket_handler = none; logger = none }

-- How `main` goes on: it ends with a status, or reads past its arguments, or serves for ever.
pub data Startup (Double : Type 0) : Type 0 where
  exits : (status : ℕ) → Startup Double
  faults : Startup Double
  serves : LogRouter → Context Double → Startup Double

module _ (D : Doubles) (rates : D.Double × D.Double) where
  -- `wakeup_ready` and `listening` are what `mg_wakeup_init` and `mg_http_listen` of mongoose answer.
  unfoldable pub server_main :
      (wakeup_ready listening : Bool) → (made : ℕ) → List String → Startup D.Double
  server_main wakeup_ready listening made args =
      let ctx = init_context (rates.0) (rates.1) made in
      elim (process_args D args ctx.params) [
        | shows_usage ↦ exits 0
        | reads_null ↦ faults
        | refused ↦ exits 1
        | accepted p ↦
            if wakeup_ready
            then if listening
              then serves
                  (set_log_mode true
                    (log_router_register_websocket_handler websocket_ops no_router))
                  (record ctx { params = p })
              else exits 1
            else exits 1
      ]
