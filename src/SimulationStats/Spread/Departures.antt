-- ===== src/SimulationStats/Spread/Departures.antt =====
-- The sums of system times that departures leave in the statistics of src/simulation_stats.c, and
-- what the standard deviation and the average are made of.
mod Tests
use native.Mathlib.Nat.{mul-add, add-mul, mul_comm}
use concurrent_request_orche.Base.{
  ℕ, zero, suc, ◌+◌, ◌-◌, ◌*◌, ◌≤◌, ◌<◌, ◌^◌, ◌≡◌, ◌==◌, refl, ◌∙◌, inl, inr, List, [], ◌∷◌, length,
  leb, if-both, if◌then◌else◌, arith, dec_le,
}
use concurrent_request_orche.Base.Int.{ℤ, pos, pos_part, ◌+ℤ◌, ◌-ℤ◌, ◌*ℤ◌, +ℤ_assoc}
use concurrent_request_orche.Words.{add64, add64-eq, to_word, word}
use concurrent_request_orche.Config.{consumer_count_max}
use concurrent_request_orche.Job.{Job}
use concurrent_request_orche.Printer.{Printer}
use concurrent_request_orche.SimulationStats.{SimulationStatistics, no_statistics}
use concurrent_request_orche.SimulationStats.Averages.{
  Average, zero_average, over, guarded, calculate_variance, calculate_average_system_time,
}
use concurrent_request_orche.ConsoleHandler.{departure_stats}
use concurrent_request_orche.ConsoleHandler.Squares.{system_time, departure_stats-square}
use concurrent_request_orche.SimulationStats.Spread.{sum_of, squares, spread, spread-eq}

-- One departure after the other.
abbrev pub departures : List (Job × Printer) → SimulationStatistics → SimulationStatistics
departures [] s = s
departures ((job, printer) ∷ ds) s = departures ds (departure_stats job printer s)

-- The jobs were in the system for these times, none of which is too long to be squared.
abbrev pub Timed : List (Job × Printer) → List ℕ → Type 0
Timed [] [] = Unit
Timed ((job, printer) ∷ ds) (t ∷ ts) = (system_time job ≡ pos t) × (t ≤ 46_340) × Timed ds ts
Timed _ _ = ⊥

-- The three sums, after times were added to those of `s`.
abbrev Summed : List ℕ → SimulationStatistics → SimulationStatistics → Type 0
Summed ts s s' =
    (s'.total_jobs_served ≡ s.total_jobs_served + length ts)
    × (s'.total_system_time_us ≡ s.total_system_time_us + sum_of ts)
    × (s'.sum_of_system_time_squared_us2 ≡ s.sum_of_system_time_squared_us2 +ℤ pos (squares ts))

departure_stats-served :
    (job : Job) (printer : Printer) (s : SimulationStatistics)
    → (departure_stats job printer s).total_jobs_served ≡ s.total_jobs_served + 1
unfolding departure_stats
departure_stats-served job printer s =
    let P : SimulationStatistics → Type 0 = λ r. r.total_jobs_served ≡ s.total_jobs_served + 1 in
    if-both P (leb 1 printer.id) (if-both P (leb printer.id consumer_count_max) refl refl) refl

word_of : (t : ℕ) → t ≤ 46_340 → to_word (pos t) ≡ t
unfolding to_word
word_of t h = omega (arith, h)

departure_stats-total :
    (job : Job) (printer : Printer) (s : SimulationStatistics) (t : ℕ)
    → system_time job ≡ pos t
    → t ≤ 46_340
    → s.total_system_time_us + t < word
    → (departure_stats job printer s).total_system_time_us ≡ s.total_system_time_us + t
unfolding departure_stats
departure_stats-total job printer s t e h k =
    let P : SimulationStatistics → Type 0 =
      λ r. r.total_system_time_us ≡ s.total_system_time_us + t in
    let sum : add64 s.total_system_time_us (to_word (system_time job))
        ≡ s.total_system_time_us + t =
      rw (e, word_of t h) (add64-eq s.total_system_time_us t k) in
    if-both P (leb 1 printer.id) (if-both P (leb printer.id consumer_count_max) sum sum) sum

departure_stats-squares :
    (job : Job) (printer : Printer) (s : SimulationStatistics) (t : ℕ)
    → system_time job ≡ pos t
    → t ≤ 46_340
    → (departure_stats job printer s).sum_of_system_time_squared_us2
      ≡ s.sum_of_system_time_squared_us2 +ℤ pos (t * t)
departure_stats-squares job printer s t e h =
    elim (departure_stats-square job printer s t e (omega (arith, h))) [
      | inl (_, q) ↦ q
      | inr (more, _) ↦ absurd (omega (arith, h, more))
    ]

zero_more : (a : ℤ) → a ≡ a +ℤ pos 0
unfolding ◌+ℤ◌
zero_more a = ground arith

zero_first : (m : ℕ) → pos 0 +ℤ pos m ≡ pos m
unfolding ◌+ℤ◌
zero_first m = ground arith

add-pos : (a : ℤ) (m n : ℕ) → a +ℤ pos m +ℤ pos n ≡ a +ℤ pos (m + n)
unfolding ◌+ℤ◌
add-pos a m n = ground arith

departures-Summed :
    (ds : List (Job × Printer)) (ts : List ℕ) (s : SimulationStatistics)
    → Timed ds ts
    → s.total_system_time_us + 46_340 * length ts < word
    → Summed ts s (departures ds s)
departures-Summed [] [] s timed k =
    (omega arith, omega arith, zero_more s.sum_of_system_time_squared_us2)
departures-Summed [] (t ∷ ts) s timed k = elim timed [ ]
departures-Summed (d ∷ ds) [] s timed k = elim timed [ ]
departures-Summed ((job, printer) ∷ ds) (t ∷ ts) s (e, h, timed) k =
    let s' = departure_stats job printer s in
    let served = departure_stats-served job printer s in
    let total = departure_stats-total job printer s t e h (omega arith) in
    let squared = departure_stats-squares job printer s t e h in
    let r = departures-Summed ds ts s' timed (omega (arith, total, h)) in
    (
      omega (arith, r.0, served),
      omega (arith, r.1, total),
      r.2 ∙ rw squared (add-pos s.sum_of_system_time_squared_us2 (t * t) (squares ts)),
    )

variance_of :
    (n total sq v : ℕ)
    → n * sq ≡ total * total + v
    → pos_part (pos sq *ℤ pos n -ℤ pos (total * total)) ≡ v
unfolding ◌*ℤ◌ ◌-ℤ◌
variance_of n total sq v h = ground (arith, mul_comm n sq)

-- After any departures of jobs that were in the system for at most 46340 us each, the report takes
-- the standard deviation from the sum of the squared differences of all pairs of their system times,
-- over the square of their number, and the average from the sum of these times over their number,
-- with zero for fewer than two, or for none.
pub departures-variance :
    (ds : List (Job × Printer)) (ts : List ℕ)
    → Timed ds ts
    → length ts < 2 ^ 32
    → let s = departures ds no_statistics in
      (calculate_variance s
        ≡ guarded (leb (length ts) 1) (over (spread ts) (length ts * length ts)))
      × (calculate_average_system_time s
          ≡ guarded (length ts == 0) (over (sum_of ts) (1_000_000 * length ts)))
unfolding calculate_variance calculate_average_system_time
departures-variance ds ts timed few =
    let r = departures-Summed ds ts no_statistics timed (omega arith) in
    let n : (departures ds no_statistics).total_jobs_served ≡ length ts = omega (arith, r.0) in
    let total : (departures ds no_statistics).total_system_time_us ≡ sum_of ts =
      omega (arith, r.1) in
    let sq : (departures ds no_statistics).sum_of_system_time_squared_us2 ≡ pos (squares ts) =
      r.2 ∙ zero_first (squares ts) in
    (
      rw (sq, n, total, variance_of (length ts) (sum_of ts) (squares ts) (spread ts) (spread-eq ts))
          refl,
      rw (n, total) refl,
    )
