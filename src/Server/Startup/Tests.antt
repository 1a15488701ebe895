-- ===== src/Server/Startup/Tests.antt =====
-- `./bin/server -num 3`.
use Prim.Native.String.{String}
use concurrent_request_orche.Base.{ℕ, ◌≡◌, refl, true, false, some, List, [], ◌∷◌}
use concurrent_request_orche.Base.Int.{pos}
use concurrent_request_orche.Text.{atoi}
use concurrent_request_orche.LogRouter.{
  LogRouter, websocket_ops, log_router_register_websocket_handler, set_log_mode,
}
use concurrent_request_orche.Preprocessing.{process_args}
use concurrent_request_orche.Cli.{high_load}
use concurrent_request_orche.Cli.Defaults.{hundredths}
use concurrent_request_orche.Server.{Context}
use concurrent_request_orche.Server.Startup.{init_context, no_router, exits, serves, server_main}

abbrev args : List String
args = "-num" ∷ "3" ∷ []

abbrev started : Context ℕ
started = record (init_context 500 2_500 7) {
  params = record (high_load 500 2_500) { num_jobs = pos 3 };
}

abbrev over_websocket : LogRouter
over_websocket = record no_router {
  s_websocket_handler = some websocket_ops;
  logger = some websocket_ops;
}

starts : server_main hundredths (500, 2_500) true true 7 args ≡ serves over_websocket started
unfolding server_main process_args atoi log_router_register_websocket_handler set_log_mode
starts = refl

taken_port : server_main hundredths (500, 2_500) true false 7 args ≡ exits 1
unfolding server_main process_args atoi
taken_port = refl
