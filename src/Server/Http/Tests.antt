-- ===== src/Server/Http/Tests.antt =====
-- The reply to a request for the configuration.
use text.Mathlib.Text.{◌==◌}
use concurrent_request_orche.Base.{◌≡◌, refl}
use concurrent_request_orche.Text.{codes, show_ℕ, show_ℤ}
use concurrent_request_orche.Server.Http.{config_json, config_reply, handle_http}

served_config :
    config_json
    ≡ codes
        "{\"config\":{\"printRate\":5,\"consumerCount\":2,\"autoScaling\":true,\"refillRate\":25,\"paperCapacity\":150,\"jobArrivalTime\":500,\"jobCount\":20,\"fixedArrival\":true,\"minArrivalTime\":300,\"maxArrivalTime\":600,\"maxQueue\":-1,\"minPapers\":5,\"maxPapers\":15,\"showTime\":true,\"showSimulationStats\":true,\"showLogs\":true,\"showComponents\":true},\"ranges\":{\"printRate\":{\"min\":4,\"max\":10},\"consumerCount\":{\"min\":1,\"max\":5},\"refillRate\":{\"min\":15,\"max\":30},\"paperCapacity\":{\"min\":50,\"max\":200},\"jobArrivalTime\":{\"min\":200,\"max\":800},\"minArrivalTime\":{\"min\":200,\"max\":400},\"maxArrivalTime\":{\"min\":500,\"max\":800},\"minPapers\":{\"min\":5,\"max\":10},\"maxPapers\":{\"min\":15,\"max\":30}}}"
unfolding config_json show_ℕ show_ℤ
served_config = refl

-- It fits into its buffer.
served : handle_http (λ a b. a == b) "GET" "/api/config" ≡ config_reply config_json
unfolding handle_http config_json show_ℕ show_ℤ
served = refl
