-- ===== src/Server/Tests.antt =====
-- Messages to an idle context, and the start after a run.
use concurrent_request_orche.Base.{
  ℕ, ◌+◌, ◌≤◌, ◌≡◌, refl, Bool, true, false, Option, none, some, List, [], ◌∷◌, arith,
}
use concurrent_request_orche.Base.Int.{pos, negsuc}
use concurrent_request_orche.Printer.{Printer}
use concurrent_request_orche.SimulationStats.{no_statistics}
use concurrent_request_orche.LogRouter.{LogOps, websocket_ops}
use concurrent_request_orche.Preprocessing.{SimulationParameters}
use concurrent_request_orche.Printer.Service.{Look, look}
use concurrent_request_orche.Server.{Context, Request, StartConfig}
use concurrent_request_orche.Server.Runs.{
  IsSingle, Event, message, begins, ends, all_happen, all_happen-IsSingle, failed_start-stuck,
  restart-ends,
}

abbrev defaults : SimulationParameters ℕ
defaults = record {
  job_arrival_time_us = pos 200_000;
  papers_required_lower_bound = pos 10;
  papers_required_upper_bound = pos 30;
  queue_capacity = negsuc 0;
  printing_rate = 500;
  printer_paper_capacity = pos 90;
  refill_rate = 2_500;
  num_jobs = pos 20;
  consumer_count = pos 2;
  auto_scaling = pos 1;
  fixed_arrival = pos 1;
  min_arrival_time = pos 300;
  max_arrival_time = pos 600;
  g_debug = false;
}

abbrev after_run : (is_running : Bool) (runners : ℕ) → Context ℕ
after_run is_running runners = record {
  sim = record {
    job_queue = [];
    refill_queue = [];
    journal = record {
      stats = no_statistics;
      queue_stamp = 0;
      reference_time_us = 0;
      reference_end_time_us = 0;
      out = [];
    };
    all_jobs_arrived = true;
    all_jobs_served = true;
    terminate_now = false;
  };
  params = defaults;
  is_running = is_running;
  runners = runners;
}

abbrev no_config : StartConfig ℕ
no_config = record {
  job_count = none;
  print_rate = none;
  config_consumer_count = none;
  config_refill_rate = none;
  paper_capacity = none;
  job_arrival = none;
  max_queue = none;
  min_papers = none;
  max_papers = none;
  config_auto_scaling = none;
}

abbrev start_message : (created : Bool) → Request ℕ
start_message created = record {
  created = created;
  command = "start";
  config = no_config;
  now = 5_000;
  clock = λ n. (5_000 + n, 5_001 + n, 5_002 + n);
  others = λ s. s;
}

abbrev server_logger : Option LogOps
server_logger = some websocket_ops

abbrev twice : List (Event ℕ)
twice = message (start_message true) ∷ message (start_message true) ∷ begins 6_000 ∷ ends 9_000 ∷ []

all_happen-IsSingle_example :
    IsSingle (all_happen server_logger twice (after_run false 0))
    × ((all_happen server_logger twice (after_run false 0)).runners ≤ 1)
all_happen-IsSingle_example =
    all_happen-IsSingle server_logger twice (after_run false 0) (omega arith)

failed_start-stuck_example :
    ((all_happen server_logger
        (message (start_message false) ∷ twice)
        (after_run false 0)).is_running
      ≡ true)
    × ((all_happen server_logger
          (message (start_message false) ∷ twice)
          (after_run false 0)).runners
        ≡ 0)
failed_start-stuck_example =
    failed_start-stuck server_logger twice (after_run false 0) (start_message false) refl refl refl
      refl

abbrev first_printer : Printer
first_printer = record {
  id = 1;
  current_paper_count = pos 90;
  total_papers_used = pos 0;
  capacity = pos 90;
  jobs_printed_count = 0;
  last_job_completion_time_us = 0;
  is_idle = true;
}

abbrev again : List (Event ℕ)
again = ends 9_000 ∷ message (start_message true) ∷ begins 9_500 ∷ []

restart-ends_example :
    ((all_happen server_logger again (after_run true 1)).is_running ≡ true)
    × (look false first_printer ((all_happen server_logger again (after_run true 1)).sim)
        ≡ Look.ends)
restart-ends_example =
    restart-ends server_logger (after_run true 1) (start_message true) 9_000 9_500 false
      first_printer refl refl refl
