-- ===== src/Preprocessing/Valid.antt =====
-- The ranges of the parameters that src/preprocessing.c checks.
use native.Mathlib.Nat.{mod-lt}
use Prim.Native.String.{String}
use concurrent_request_orche.Base.{
  ℕ, zero, suc, ◌%◌, ◌*◌, ◌<◌, ◌≡◌, refl, ap, ◌⊎◌, true, Option, none, some, List, [], ◌∷◌, Defined,
  arith,
}
use concurrent_request_orche.Base.Int.{
  ℤ, pos, negsuc, ◌+ℤ◌, ◌-ℤ◌, ◌*ℤ◌, ◌≤ℤ◌, int_laws, pos_part, neg_part,
}
use concurrent_request_orche.Config.{
  consumer_count_min, consumer_count_max, paper_capacity_min, paper_capacity_max, min_papers_min,
  min_papers_max, max_papers_min, max_papers_max, job_arrival_time_min, job_arrival_time_max,
  min_arrival_time_min, min_arrival_time_max, max_arrival_time_min, max_arrival_time_max,
}
use concurrent_request_orche.Text.{codes, atoi}
use concurrent_request_orche.Preprocessing.{
  random_between, draw, swap_bounds, is_in_range_int, Keyword, keyword, SimulationParameters,
  Outcome, shows_usage, reads_null, refused, accepted, Doubles, is_in_range_double, is_switch,
  is_capacity, set_option, with_bounds, turn, process_args,
}

-- The bounds come out in order, and are the two that went in.
pub swap_bounds_lem :
    (lower upper : ℤ)
    → ((swap_bounds lower upper).0 ≤ℤ (swap_bounds lower upper).1)
      × ((lower ≤ℤ upper) × (swap_bounds lower upper ≡ (lower, upper))
          ⊎ (upper ≤ℤ lower) × (swap_bounds lower upper ≡ (upper, lower)))
unfolding swap_bounds
swap_bounds_lem lower upper = (ground arith, ground arith)

between :
    (rand : ℕ) (lower upper d : ℤ)
    → upper -ℤ lower +ℤ pos 1 ≡ d
    → lower ≤ℤ upper
    → Defined (λ v. (lower ≤ℤ v) × (v ≤ℤ upper)) (draw rand lower d)
unfolding draw
between rand lower upper (pos zero) e h = absurd (omega (int_laws, ap pos_part e, ap neg_part e))
between rand lower upper (pos (suc n)) e h =
    let small : rand % suc n < suc n = mod-lt rand (omega arith) in
    (omega (int_laws, small), omega (int_laws, small, ap pos_part e, ap neg_part e))
between rand lower upper (negsuc n) e h = absurd (omega (int_laws, ap pos_part e, ap neg_part e))

-- With its bounds in order, a random number exists and lies between them.
pub random_between_lem :
    (rand : ℕ) (lower upper : ℤ)
    → lower ≤ℤ upper
    → Defined (λ v. (lower ≤ℤ v) × (v ≤ℤ upper)) (random_between rand lower upper)
unfolding random_between draw
random_between_lem rand lower upper h = between rand lower upper (upper -ℤ lower +ℤ pos 1) refl h

module _ (D : Doubles) where
  pub record IsValid (p : SimulationParameters D.Double) : Type 0 where
    pub jobs : pos 1 ≤ℤ p.num_jobs
    pub capacity : is_capacity D p.queue_capacity ≡ true
    pub lower_least : pos min_papers_min ≤ℤ p.papers_required_lower_bound
    pub lower_most : p.papers_required_lower_bound ≤ℤ pos min_papers_max
    pub upper_least : pos max_papers_min ≤ℤ p.papers_required_upper_bound
    pub upper_most : p.papers_required_upper_bound ≤ℤ pos max_papers_max
    pub paper_least : pos paper_capacity_min ≤ℤ p.printer_paper_capacity
    pub paper_most : p.printer_paper_capacity ≤ℤ pos paper_capacity_max
    pub printing : is_in_range_double D p.printing_rate D.print_rate_min D.print_rate_max ≡ true
    pub refilling : is_in_range_double D p.refill_rate D.refill_rate_min D.refill_rate_max ≡ true
    pub consumers_least : pos consumer_count_min ≤ℤ p.consumer_count
    pub consumers_most : p.consumer_count ≤ℤ pos consumer_count_max
    pub scaling : is_switch D p.auto_scaling ≡ true
    pub fixed : is_switch D p.fixed_arrival ≡ true
    pub arrival_least : pos (job_arrival_time_min * 1_000) ≤ℤ p.job_arrival_time_us
    pub arrival_most : p.job_arrival_time_us ≤ℤ pos (job_arrival_time_max * 1_000)
    pub min_arrival_least : pos min_arrival_time_min ≤ℤ p.min_arrival_time
    pub min_arrival_most : p.min_arrival_time ≤ℤ pos min_arrival_time_max
    pub max_arrival_least : pos max_arrival_time_min ≤ℤ p.max_arrival_time
    pub max_arrival_most : p.max_arrival_time ≤ℤ pos max_arrival_time_max

  in_range :
      (v : ℤ) (min max : ℕ) → is_in_range_int v min max ≡ true → (pos min ≤ℤ v) × (v ≤ℤ pos max)
  unfolding is_in_range_int
  in_range v min max h = ground arith

  -- The interval between arrivals is given in milliseconds.
  in_range-us :
      (v : ℤ) (min max : ℕ)
      → is_in_range_int v min max ≡ true
      → (pos (min * 1_000) ≤ℤ v *ℤ pos 1_000) × (v *ℤ pos 1_000 ≤ℤ pos (max * 1_000))
  unfolding is_in_range_int ◌*ℤ◌
  in_range-us (pos n) min max h = ground arith
  in_range-us (negsuc n) min max h = ground arith

  set_option-IsValid :
      (k : Keyword) (v : String) (p p' : SimulationParameters D.Double)
      → IsValid p
      → set_option D k v p ≡ some p'
      → IsValid p'
  unfolding set_option
  set_option-IsValid k v p p' h e =
      ground (arith, in_range-us (atoi (codes v)) job_arrival_time_min job_arrival_time_max)

  with_bounds-IsValid : (p : SimulationParameters D.Double) → IsValid p → IsValid (with_bounds D p)
  unfolding with_bounds
  with_bounds-IsValid p h = ground arith

  -- What is asked of an outcome.
  abbrev Sound : Outcome D.Double → Type 0
  Sound shows_usage = Unit
  Sound reads_null = Unit
  Sound refused = Unit
  Sound (accepted p) = IsValid p

  turn-Sound :
      (k : Keyword) (switched valued : Outcome D.Double)
      → Sound switched
      → Sound valued
      → Sound (turn D k switched valued)
  unfolding turn
  turn-Sound k switched valued h h' = elim k as (λ x. Sound (turn D x switched valued)) [
    | Keyword.help ↦ tt
    | Keyword.debug ↦ h
    | Keyword.unknown ↦ tt
    | _ ↦ h'
  ]

  debugging-IsValid :
      (p : SimulationParameters D.Double)
      → IsValid p
      → IsValid (with_bounds D (record p { g_debug = true }))
  debugging-IsValid p h = with_bounds-IsValid (record p { g_debug = true }) (ground arith)

  valued-Sound :
      (rest : List String) (o : Option (SimulationParameters D.Double))
      → ((p : SimulationParameters D.Double) → o ≡ some p → IsValid p)
      → ((p : SimulationParameters D.Double) → IsValid p → Sound (process_args D rest p))
      → Sound (elim o [ none ↦ refused | some p' ↦ process_args D rest (with_bounds D p') ])
  valued-Sound rest none h again = tt
  valued-Sound rest (some p) h again = again (with_bounds D p) (with_bounds-IsValid p (h p refl))

  process_args-Sound :
      (args : List String) (p : SimulationParameters D.Double)
      → IsValid p
      → Sound (process_args D args p)
  unfolding process_args
  process_args-Sound [] p h = h
  process_args-Sound (a ∷ []) p h =
      turn-Sound (keyword a) (accepted (with_bounds D (record p { g_debug = true }))) reads_null
        (debugging-IsValid p h) tt
  process_args-Sound (a ∷ v ∷ rest) p h =
      turn-Sound (keyword a) _ _
        (process_args-Sound (v ∷ rest) (with_bounds D (record p { g_debug = true }))
          (debugging-IsValid p h))
        (valued-Sound rest (set_option D (keyword a) v p)
          (λ p' e. set_option-IsValid (keyword a) v p p' h e)
          (λ p' h'. process_args-Sound rest p' h'))

  pub process_args_lem :
      (args : List String) (p p' : SimulationParameters D.Double)
      → IsValid p
      → process_args D args p ≡ accepted p'
      → IsValid p'
        × (p'.papers_required_lower_bound ≤ℤ p'.papers_required_upper_bound)
        × (p'.papers_required_upper_bound ≤ℤ p'.printer_paper_capacity)
  process_args_lem args p p' h e =
      let ok : Sound (accepted p') = rw e at (process_args-Sound args p h) in
      (
        ok,
        omega (arith, ok.lower_most, ok.upper_least),
        omega (arith, ok.upper_most, ok.paper_least),
      )
