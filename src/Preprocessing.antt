-- ===== src/Preprocessing.antt =====
-- src/preprocessing.c: the options of the command line. A `double` is a parameter, with `atof` and
-- the comparison of its kind; an `int` is an integer, so a number that an `int` does not hold is
-- outside the model (the C standard leaves `atoi` undefined there).
pub mod Valid
pub mod Errors
mod Tests
use Prim.Native.String.{String}
use text.Mathlib.Text.{◌==◌}
use concurrent_request_orche.Base.{
  ℕ, zero, suc, ◌+◌, ◌-◌, ◌%◌, Bool, true, false, not, ◌||◌, Option, none, some, List, [], ◌∷◌,
  if◌then◌else◌,
}
use concurrent_request_orche.Base.Int.{ℤ, pos, negsuc, ◌+ℤ◌, ◌-ℤ◌, ◌*ℤ◌, ltb_ℤ}
use concurrent_request_orche.Config.{
  consumer_count_min, consumer_count_max, paper_capacity_min, paper_capacity_max,
  job_arrival_time_min, job_arrival_time_max, min_arrival_time_min, min_arrival_time_max,
  max_arrival_time_min, max_arrival_time_max, min_papers_min, min_papers_max, max_papers_min,
  max_papers_max,
}
use concurrent_request_orche.Text.{codes, atoi}

-- `rand() % d + lower` for what `rand()` gave; `none` is a division by zero. The remainder in C has
-- the sign of `rand()`, whatever the sign of `d`.
unfoldable pub draw : (rand : ℕ) → (lower d : ℤ) → Option ℤ
draw rand lower (pos zero) = none
draw rand lower (pos (suc n)) = some (pos (rand % suc n) +ℤ lower)
draw rand lower (negsuc n) = some (pos (rand % suc n) +ℤ lower)

unfoldable pub random_between : (rand : ℕ) → (lower upper : ℤ) → Option ℤ
unfolding draw
random_between rand lower upper = draw rand lower (upper -ℤ lower +ℤ pos 1)

unfoldable pub swap_bounds : (lower upper : ℤ) → ℤ × ℤ
swap_bounds lower upper =
    (if ltb_ℤ upper lower then upper else lower, if ltb_ℤ lower upper then upper else lower)

unfoldable pub is_positive_integer : ℤ → Bool
is_positive_integer value = ltb_ℤ (pos 0) value

unfoldable pub is_in_range_int : (value : ℤ) → (min max : ℕ) → Bool
is_in_range_int value min max = not (ltb_ℤ value (pos min) || ltb_ℤ (pos max) value)

-- The words of the command line.
pub data Keyword : Type 0 where
  help debug unknown : Keyword
  num q papers_lower papers_upper p_cap s ref consumers auto_scale fixed_arrival job_arr_time
        min_arr max_arr :
      Keyword

unfoldable pub keyword : String → Keyword
keyword a =
    if a == "-help"
    then Keyword.help
    else if a == "-num"
    then num
    else if a == "-q"
    then q
    else if a == "-papers_lower"
    then papers_lower
    else if a == "-papers_upper"
    then papers_upper
    else if a == "-p_cap"
    then p_cap
    else if a == "-s"
    then Keyword.s
    else if a == "-ref"
    then ref
    else if a == "-consumers"
    then consumers
    else if a == "-auto_scale"
    then auto_scale
    else if a == "-fixed_arrival"
    then fixed_arrival
    else if a == "-job_arr_time"
    then job_arr_time
    else if a == "-min_arr"
    then min_arr
    else if a == "-max_arr"
    then max_arr
    else if a == "-debug"
    then Keyword.debug
    else Keyword.unknown

-- `simulation_parameters_t`, and `g_debug`.
pub record SimulationParameters (Double : Type 0) : Type 0 where
  pub job_arrival_time_us : ℤ
  pub papers_required_lower_bound : ℤ
  pub papers_required_upper_bound : ℤ
  pub queue_capacity : ℤ
  pub printing_rate : Double
  pub printer_paper_capacity : ℤ
  pub refill_rate : Double
  pub num_jobs : ℤ
  pub consumer_count : ℤ
  pub auto_scaling : ℤ
  pub fixed_arrival : ℤ
  pub min_arrival_time : ℤ
  pub max_arrival_time : ℤ
  pub g_debug : Bool

-- What `process_args` does: it ends the program for `-help`, it reads past the arguments when the
-- last one lacks its value, it refuses, or it succeeds.
pub data Outcome (Double : Type 0) : Type 0 where
  shows_usage : Outcome Double
  reads_null : Outcome Double
  refused : Outcome Double
  accepted : SimulationParameters Double → Outcome Double

pub record Doubles : Type 1 where
  pub Double : Type 0
  pub atof : String → Double
  pub less : Double → Double → Bool
  pub print_rate_min : Double
  pub print_rate_max : Double
  pub refill_rate_min : Double
  pub refill_rate_max : Double

abbrev pub checked {ℓ} : {A : Type ℓ} → Bool → A → Option A
checked ok a = if ok then some a else none

module _ (D : Doubles) where
  unfoldable pub is_in_range_double : (value min max : D.Double) → Bool
  is_in_range_double value min max = not (D.less value min || D.less max value)

  unfoldable pub is_switch : ℤ → Bool
  is_switch (pos zero) = true
  is_switch (pos (suc zero)) = true
  is_switch (pos (suc (suc n))) = false
  is_switch (negsuc n) = false

  unfoldable pub is_capacity : ℤ → Bool
  unfolding is_positive_integer
  is_capacity (negsuc zero) = true
  is_capacity (negsuc (suc n)) = is_positive_integer (negsuc (suc n))
  is_capacity (pos n) = is_positive_integer (pos n)

  -- The options with a value; `none` for a value that is refused.
  unfoldable pub set_option :
      Keyword
      → (value : String) → SimulationParameters D.Double
      → Option (SimulationParameters D.Double)
  unfolding is_positive_integer is_in_range_int is_in_range_double is_switch is_capacity
  set_option num v p =
      checked (is_positive_integer (atoi (codes v))) (record p { num_jobs = atoi (codes v) })
  set_option q v p =
      checked (is_capacity (atoi (codes v))) (record p { queue_capacity = atoi (codes v) })
  set_option papers_lower v p =
      checked (is_in_range_int (atoi (codes v)) min_papers_min min_papers_max)
        (record p { papers_required_lower_bound = atoi (codes v) })
  set_option papers_upper v p =
      checked (is_in_range_int (atoi (codes v)) max_papers_min max_papers_max)
        (record p { papers_required_upper_bound = atoi (codes v) })
  set_option p_cap v p =
      checked (is_in_range_int (atoi (codes v)) paper_capacity_min paper_capacity_max)
        (record p { printer_paper_capacity = atoi (codes v) })
  set_option Keyword.s v p =
      checked (is_in_range_double (D.atof v) D.print_rate_min D.print_rate_max)
        (record p { printing_rate = D.atof v })
  set_option ref v p =
      checked (is_in_range_double (D.atof v) D.refill_rate_min D.refill_rate_max)
        (record p { refill_rate = D.atof v })
  set_option consumers v p =
      checked (is_in_range_int (atoi (codes v)) consumer_count_min consumer_count_max)
        (record p { consumer_count = atoi (codes v) })
  set_option auto_scale v p =
      checked (is_switch (atoi (codes v))) (record p { auto_scaling = atoi (codes v) })
  set_option Keyword.fixed_arrival v p =
      checked (is_switch (atoi (codes v))) (record p { fixed_arrival = atoi (codes v) })
  set_option job_arr_time v p =
      checked (is_in_range_int (atoi (codes v)) job_arrival_time_min job_arrival_time_max)
        (record p { job_arrival_time_us = atoi (codes v) *ℤ pos 1000 })
  set_option min_arr v p =
      checked (is_in_range_int (atoi (codes v)) min_arrival_time_min min_arrival_time_max)
        (record p { min_arrival_time = atoi (codes v) })
  set_option max_arr v p =
      checked (is_in_range_int (atoi (codes v)) max_arrival_time_min max_arrival_time_max)
        (record p { max_arrival_time = atoi (codes v) })
  set_option Keyword.help v p = none
  set_option Keyword.debug v p = none
  set_option Keyword.unknown v p = none

  -- The end of a turn of the loop.
  unfoldable pub with_bounds : SimulationParameters D.Double → SimulationParameters D.Double
  unfolding swap_bounds
  with_bounds p =
      let (lower, upper) =
        swap_bounds p.papers_required_lower_bound p.papers_required_upper_bound in
      record p { papers_required_lower_bound = lower; papers_required_upper_bound = upper }

  abbrev debugging : SimulationParameters D.Double → SimulationParameters D.Double
  debugging p = with_bounds (record p { g_debug = true })

  -- What a turn does, by its word: `switched` for `-debug`, `valued` for an option with a value.
  unfoldable pub turn : Keyword → (switched valued : Outcome D.Double) → Outcome D.Double
  turn k switched valued = elim k [
    | Keyword.help ↦ shows_usage
    | Keyword.debug ↦ switched
    | Keyword.unknown ↦ refused
    | _ ↦ valued
  ]

  -- The arguments after the name of the program.
  unfoldable pub process_args : List String → SimulationParameters D.Double → Outcome D.Double
  unfolding keyword set_option with_bounds turn
  process_args [] p = accepted p
  process_args (a ∷ []) p = turn (keyword a) (accepted (debugging p)) reads_null
  process_args (a ∷ v ∷ rest) p =
      let after_debug = process_args (v ∷ rest) (debugging p) in
      let after_option : Outcome D.Double = elim (set_option (keyword a) v p) [
        | none ↦ refused
        | some p' ↦ process_args rest (with_bounds p')
      ] in
      turn (keyword a) after_debug after_option
