-- ===== src/Server/Stream/Tests.antt =====
-- A client that sees the end of a run in which nothing happened.
use concurrent_request_orche.Base.{List, [], ◌∷◌}
use concurrent_request_orche.Text.{Text, codes}
use concurrent_request_orche.SimulationStats.{no_statistics}
use concurrent_request_orche.SimulationStats.Averages.{Average}
use concurrent_request_orche.SimulationStats.Report.{Format}
use concurrent_request_orche.Journal.{Output, simulation_complete, simulation_started, statistics}
use concurrent_request_orche.Server.Bridge.{Bridge}

abbrev short_number : Average → Text
short_number a = codes "1.5"

abbrev plain : Format
plain = record { general3 = short_number; root3 = short_number }

abbrev outputs : List Output
outputs = simulation_started ∷ simulation_complete 2_500 ∷ statistics no_statistics ∷ []

abbrev bridge : Bridge
bridge = record { ws_conn_id = 0; woken = []; sent = [] }
