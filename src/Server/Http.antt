-- ===== src/Server/Http.antt =====
-- The HTTP side of `fn` in src/server.c. Matching an address is mongoose's `mg_match`; what is served
-- from a directory is left to mongoose as well.
mod Tests
use Prim.Native.String.{String}
use text.Mathlib.Text.{◌==◌}
use concurrent_request_orche.Base.{
  ℕ, suc, ◌<◌, Bool, true, false, ◌&&◌, List, [], ◌∷◌, ◌++◌, length, ltb, if◌then◌else◌,
}
use concurrent_request_orche.Text.{Text, joined, codes, show_ℕ, show_ℤ}
use concurrent_request_orche.Config.{
  consumer_count_max, consumer_count_min, default_auto_scaling, default_consumer_count,
  default_fixed_arrival, default_job_arrival_time, default_job_count, default_max_arrival_time,
  default_max_papers, default_max_queue, default_min_arrival_time, default_min_papers,
  default_paper_capacity, default_print_rate, default_refill_rate, default_show_components,
  default_show_logs, default_show_stats, default_show_time, job_arrival_time_max,
  job_arrival_time_min, max_arrival_time_max, max_arrival_time_min, max_papers_max, max_papers_min,
  min_arrival_time_max, min_arrival_time_min, min_papers_max, min_papers_min, paper_capacity_max,
  paper_capacity_min, print_rate_max, print_rate_min, refill_rate_max, refill_rate_min,
}

bool_text : Bool → Text
bool_text b = if b then codes "true" else codes "false"

-- `"name":value,`, without the comma for the last.
member : (is_last : Bool) → (name value : Text) → Text
member is_last name value =
    joined (codes "\"" ∷ name ∷ codes "\":" ∷ value ∷ (if is_last then [] else codes ",") ∷ [])

-- The members of an object, between its braces.
members : List (Text × Text) → Text
unfolding member
members [] = []
members ((name, value) ∷ []) = member true name value
members ((name, value) ∷ more ∷ rest) = member false name value ++ members (more ∷ rest)

object : List (Text × Text) → Text
unfolding members
object ms = joined (codes "{" ∷ members ms ∷ codes "}" ∷ [])

range : (min max : ℕ) → Text
unfolding object
range min max = object ((codes "min", show_ℕ min) ∷ (codes "max", show_ℕ max) ∷ [])

-- The defaults of include/config.h.
unfoldable pub config_members : List (Text × Text)
unfolding bool_text
config_members =
    (codes "printRate", show_ℕ default_print_rate)
    ∷ (codes "consumerCount", show_ℕ default_consumer_count)
    ∷ (codes "autoScaling", bool_text default_auto_scaling)
    ∷ (codes "refillRate", show_ℕ default_refill_rate)
    ∷ (codes "paperCapacity", show_ℕ default_paper_capacity)
    ∷ (codes "jobArrivalTime", show_ℕ default_job_arrival_time)
    ∷ (codes "jobCount", show_ℕ default_job_count)
    ∷ (codes "fixedArrival", bool_text default_fixed_arrival)
    ∷ (codes "minArrivalTime", show_ℕ default_min_arrival_time)
    ∷ (codes "maxArrivalTime", show_ℕ default_max_arrival_time)
    ∷ (codes "maxQueue", show_ℤ default_max_queue)
    ∷ (codes "minPapers", show_ℕ default_min_papers)
    ∷ (codes "maxPapers", show_ℕ default_max_papers)
    ∷ (codes "showTime", bool_text default_show_time)
    ∷ (codes "showSimulationStats", bool_text default_show_stats)
    ∷ (codes "showLogs", bool_text default_show_logs)
    ∷ (codes "showComponents", bool_text default_show_components)
    ∷ []

unfoldable pub range_members : List (Text × Text)
unfolding range
range_members =
    (codes "printRate", range print_rate_min print_rate_max)
    ∷ (codes "consumerCount", range consumer_count_min consumer_count_max)
    ∷ (codes "refillRate", range refill_rate_min refill_rate_max)
    ∷ (codes "paperCapacity", range paper_capacity_min paper_capacity_max)
    ∷ (codes "jobArrivalTime", range job_arrival_time_min job_arrival_time_max)
    ∷ (codes "minArrivalTime", range min_arrival_time_min min_arrival_time_max)
    ∷ (codes "maxArrivalTime", range max_arrival_time_min max_arrival_time_max)
    ∷ (codes "minPapers", range min_papers_min min_papers_max)
    ∷ (codes "maxPapers", range max_papers_min max_papers_max)
    ∷ []

-- What `snprintf` makes of the one long format.
unfoldable pub config_json : Text
unfolding object config_members range_members
config_json =
    object ((codes "config", object config_members) ∷ (codes "ranges", object range_members) ∷ [])

pub data HttpReply : Type 0 where
  preflight : HttpReply
  upgrade : HttpReply
  config_reply : Text → HttpReply
  buffer_overflow : HttpReply
  serves_directory : HttpReply

-- The buffer has 2048 bytes.
unfoldable pub reply_config : (len : ℕ) → Text → HttpReply
reply_config len json = if ltb 0 len && ltb len 2_048 then config_reply json else buffer_overflow

unfoldable pub handle_http : (mg_match : String → String → Bool) → (method uri : String) → HttpReply
unfolding reply_config
handle_http mg_match method uri =
    if method == "OPTIONS"
    then preflight
    else if mg_match uri "/ws/simulation"
    then upgrade
    else if mg_match uri "/api/config"
    then reply_config (length config_json) config_json
    else serves_directory
