-- ===== src/Cli/Defaults.antt =====
-- The parameters that src/cli.c and src/server.c start with are valid, here with doubles counted in
-- hundredths.
use concurrent_request_orche.Base.{ℕ, refl, ltb, arith}
use concurrent_request_orche.Preprocessing.{Doubles, is_capacity, is_in_range_double, is_switch}
use concurrent_request_orche.Preprocessing.Valid.{IsValid}
use concurrent_request_orche.Cli.{high_load}

abbrev pub hundredths : Doubles
hundredths = record {
  Double = ℕ;
  atof = λ a. 500;
  less = ltb;
  print_rate_min = 400;
  print_rate_max = 1_000;
  refill_rate_min = 1_500;
  refill_rate_max = 3_000;
}

pub high_load-IsValid : IsValid hundredths (high_load 500 2_500)
unfolding is_capacity is_in_range_double is_switch
high_load-IsValid = record {
  jobs = omega arith;
  capacity = refl;
  lower_least = omega arith;
  lower_most = omega arith;
  upper_least = omega arith;
  upper_most = omega arith;
  paper_least = omega arith;
  paper_most = omega arith;
  printing = refl;
  refilling = refl;
  consumers_least = omega arith;
  consumers_most = omega arith;
  scaling = refl;
  fixed = refl;
  arrival_least = omega arith;
  arrival_most = omega arith;
  min_arrival_least = omega arith;
  min_arrival_most = omega arith;
  max_arrival_least = omega arith;
  max_arrival_most = omega arith;
}
