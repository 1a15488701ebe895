-- ===== src/LogRouter/Tests.antt =====
-- The agreement of the backends on a short run.
use concurrent_request_orche.Base.{◌≡◌, refl, some, List, [], ◌∷◌}
use concurrent_request_orche.Base.Int.{pos}
use concurrent_request_orche.Job.{Job}
use concurrent_request_orche.SimulationStats.{no_statistics}
use concurrent_request_orche.Journal.{Journal}
use concurrent_request_orche.LogRouter.{console_ops, websocket_ops}
use concurrent_request_orche.LogRouter.Agreement.{Event, emit_all, books, emit_all-agree}

abbrev blank_journal : Journal
blank_journal = record {
  stats = no_statistics;
  queue_stamp = 0;
  reference_time_us = 0;
  reference_end_time_us = 0;
  out = [];
}

abbrev some_job : Job
some_job = record {
  id = 1;
  inter_arrival_time_us = pos 500_000;
  papers_required = pos 8;
  service_time_requested_ms = pos 1_600;
  system_arrival_time_us = 501_000;
  queue_arrival_time_us = 501_010;
  queue_departure_time_us = 501_500;
  service_arrival_time_us = 501_600;
  service_departure_time_us = 2_101_700;
}

abbrev events : List Event
events =
    Event.starts 1_000
    ∷ Event.arrives some_job 1_000
    ∷ Event.enters some_job 1 1_000
    ∷ Event.leaves some_job 0 501_010
    ∷ Event.ends 2_200_000
    ∷ []

emit_all-agree_example :
    books (emit_all (some console_ops) events blank_journal)
    ≡ books (emit_all (some websocket_ops) events blank_journal)
emit_all-agree_example = emit_all-agree events blank_journal blank_journal refl
