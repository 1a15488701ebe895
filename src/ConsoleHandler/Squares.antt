-- ===== src/ConsoleHandler/Squares.antt =====
-- The sum of squared system times that `log_system_departure` of src/console_handler.c keeps: the
-- square is taken on `int`.
use native.Mathlib.Nat.{mod-eq_of_lt, mul-le-mul}
use concurrent_request_orche.Base.{
  ℕ, ◌-◌, ◌*◌, ◌%◌, ◌^◌, ◌≤◌, ◌<◌, ◌≡◌, refl, ◌∙◌, false, ltb, leb, if◌then◌else◌, if-both, dec_le,
  inl, inr, ◌⊎◌, lt→ltb, arith,
}
use concurrent_request_orche.Base.Int.{ℤ, pos, negsuc, ◌+ℤ◌, ◌*ℤ◌}
use concurrent_request_orche.Words.{word, to_int, to_word, mul_int, sub64}
use concurrent_request_orche.Config.{consumer_count_max}
use concurrent_request_orche.Job.{Job}
use concurrent_request_orche.Printer.{Printer}
use concurrent_request_orche.SimulationStats.{SimulationStatistics}
use concurrent_request_orche.ConsoleHandler.{departure_stats}

square : (t : ℕ) → pos t *ℤ pos t ≡ pos (t * t)
unfolding ◌*ℤ◌
square t = ground arith

-- The bits of the product, read as an `int`.
product :
    (t : ℕ)
    → t * t < 2 ^ 32
    → mul_int (pos t) (pos t)
      ≡ (if ltb (t * t) (2 ^ 31) then pos (t * t) else negsuc (2 ^ 32 - t * t - 1))
unfolding mul_int to_int to_word
product t h =
    let high : t * t % word ≡ t * t = mod-eq_of_lt (omega (arith, h)) in
    let low : t * t % 2 ^ 32 ≡ t * t = mod-eq_of_lt h in rw (square t, high, low) refl

not_less : (a b : ℕ) → b ≤ a → ltb a b ≡ false
not_less a b h = ground arith

small : (t : ℕ) → t ≤ 46_340 → t * t < 2 ^ 31
small t h = omega (arith, mul-le-mul h h)

large : (t : ℕ) → 46_341 ≤ t → 2 ^ 31 ≤ t * t
large t h = omega (arith, mul-le-mul h h)

bounded : (t : ℕ) → t < 2 ^ 16 → t * t < 2 ^ 32
bounded t h = let le : t ≤ 65_535 = omega (arith, h) in omega (arith, mul-le-mul le le)

-- The system time of a departure, as the code computes it.
abbrev pub system_time : Job → ℤ
system_time job = to_int (sub64 job.service_departure_time_us job.system_arrival_time_us)

adds-square :
    (job : Job) (printer : Printer) (s : SimulationStatistics)
    → (departure_stats job printer s).sum_of_system_time_squared_us2
      ≡ s.sum_of_system_time_squared_us2 +ℤ mul_int (system_time job) (system_time job)
unfolding departure_stats
adds-square job printer s =
    let Adds : SimulationStatistics → Type 0 = λ r.
      r.sum_of_system_time_squared_us2
      ≡ s.sum_of_system_time_squared_us2 +ℤ mul_int (system_time job) (system_time job) in
    if-both Adds (leb 1 printer.id) (if-both Adds (leb printer.id consumer_count_max) refl refl)
      refl

-- For a job that was in the system for fewer than 2 ^ 16 us, the departure adds the square of that
-- time up to 46340 us; from 46341 us on it adds the negative number that the overflow leaves.
pub departure_stats-square :
    (job : Job) (printer : Printer) (s : SimulationStatistics) (t : ℕ)
    → system_time job ≡ pos t
    → t < 2 ^ 16
    → (t ≤ 46_340)
        × ((departure_stats job printer s).sum_of_system_time_squared_us2
            ≡ s.sum_of_system_time_squared_us2 +ℤ pos (t * t))
      ⊎ (46_341 ≤ t)
        × ((departure_stats job printer s).sum_of_system_time_squared_us2
            ≡ s.sum_of_system_time_squared_us2 +ℤ negsuc (2 ^ 32 - t * t - 1))
departure_stats-square job printer s t e h =
    let adds = adds-square job printer s in
    let bits = product t (bounded t h) in
    elim (dec_le t 46_340) [
      | yes le ↦ inl (le, adds ∙ rw (e, bits, lt→ltb (t * t) (2 ^ 31) (small t le)) refl)
      | no gt ↦
          let more : 46_341 ≤ t = omega (arith, gt) in
          inr (more, adds ∙ rw (e, bits, not_less (t * t) (2 ^ 31) (large t more)) refl)
    ]
