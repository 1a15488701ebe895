-- ===== src/Preprocessing/Tests.antt =====
-- The theorems on the options at small command lines, with hundredths in the place of `double`.
use Prim.Native.String.{String}
use concurrent_request_orche.Base.{ℕ, ◌≡◌, refl, true, false, none, List, [], ◌∷◌, ltb}
use concurrent_request_orche.Base.Int.{pos, negsuc}
use concurrent_request_orche.Preprocessing.{
  SimulationParameters, reads_null, refused, accepted, Doubles, keyword, set_option, process_args,
}
use concurrent_request_orche.Text.{atoi}
use concurrent_request_orche.Preprocessing.Errors.{is_valued, process_args-error}

abbrev hundredths : Doubles
hundredths = record {
  Double = ℕ;
  atof = λ a. 500;
  less = ltb;
  print_rate_min = 400;
  print_rate_max = 1_000;
  refill_rate_min = 1_500;
  refill_rate_max = 3_000;
}

-- `SIMULATION_DEFAULT_PARAMS_HIGH_LOAD`, with which the program starts.
abbrev high_load : SimulationParameters ℕ
high_load = record {
  job_arrival_time_us = pos 200_000;
  papers_required_lower_bound = pos 10;
  papers_required_upper_bound = pos 30;
  queue_capacity = negsuc 0;
  printing_rate = 500;
  printer_paper_capacity = pos 90;
  refill_rate = 2_500;
  num_jobs = pos 20;
  consumer_count = pos 2;
  auto_scaling = pos 1;
  fixed_arrival = pos 1;
  min_arrival_time = pos 300;
  max_arrival_time = pos 600;
  g_debug = false;
}

abbrev args : List String
args = "-num" ∷ "50" ∷ "-debug" ∷ "-q" ∷ "12" ∷ []

abbrev chosen : SimulationParameters ℕ
chosen = record high_load { num_jobs = pos 50; queue_capacity = pos 12; g_debug = true }

-- An option at the end of the line has no value to read.
no_value : process_args hundredths ("-num" ∷ []) high_load ≡ reads_null
unfolding process_args
no_value = refl

abbrev debugged : SimulationParameters ℕ
debugged = record high_load { g_debug = true }

debug_accepted : process_args hundredths ("-debug" ∷ []) high_load ≡ accepted debugged
unfolding process_args
debug_accepted = refl

no_jobs_refused : set_option hundredths (keyword "-num") "0" debugged ≡ none
unfolding set_option keyword atoi
no_jobs_refused = refl

num_valued : is_valued (keyword "-num") ≡ true
unfolding keyword
num_valued = refl

process_args-error_example :
    (process_args hundredths ("-debug" ∷ "-num" ∷ "0" ∷ "-x" ∷ []) high_load ≡ refused)
    × (process_args hundredths ("-debug" ∷ "-num" ∷ []) high_load ≡ reads_null)
process_args-error_example =
    process_args-error hundredths ("-debug" ∷ []) ("-x" ∷ []) "-num" "0" high_load debugged
      debug_accepted num_valued no_jobs_refused
