-- ===== src/SimulationStats/Spread.antt =====
-- How far numbers are apart: the identity behind the variance of src/simulation_stats.c.
pub mod Departures
use native.Mathlib.Nat.{mul-add, add-mul, mul_comm}
use concurrent_request_orche.Base.{
  ℕ, zero, suc, ◌+◌, ◌-◌, ◌*◌, ◌≤◌, ◌<◌, ◌^◌, ◌≡◌, ◌==◌, refl, ◌∙◌, inl, inr, List, [], ◌∷◌, length,
  leb, if-both, if◌then◌else◌, arith, dec_le,
}
use concurrent_request_orche.Base.Int.{ℤ, pos, pos_part, ◌+ℤ◌, ◌-ℤ◌, ◌*ℤ◌, +ℤ_assoc}
use concurrent_request_orche.Words.{add64, add64-eq, to_word, word}
use concurrent_request_orche.Config.{consumer_count_max}
use concurrent_request_orche.Job.{Job}
use concurrent_request_orche.Printer.{Printer}
use concurrent_request_orche.SimulationStats.{SimulationStatistics, no_statistics}
use concurrent_request_orche.SimulationStats.Averages.{
  Average, zero_average, over, guarded, calculate_variance, calculate_average_system_time,
}
use concurrent_request_orche.ConsoleHandler.{departure_stats}
use concurrent_request_orche.ConsoleHandler.Squares.{system_time, departure_stats-square}

-- The square of the difference.
abbrev pub apart : (x y : ℕ) → ℕ
apart x y = (x - y) * (x - y) + (y - x) * (y - x)

abbrev pub sum_of : List ℕ → ℕ
sum_of [] = 0
sum_of (x ∷ xs) = x + sum_of xs

abbrev pub squares : List ℕ → ℕ
squares [] = 0
squares (x ∷ xs) = x * x + squares xs

abbrev pub apart_from : (x : ℕ) → List ℕ → ℕ
apart_from x [] = 0
apart_from x (y ∷ ys) = apart x y + apart_from x ys

-- The squares of the differences of all pairs.
abbrev pub spread : List ℕ → ℕ
spread [] = 0
spread (x ∷ xs) = apart_from x xs + spread xs

binomial : (x d y : ℕ) → y ≡ x + d → d * d + 2 * (x * y) ≡ x * x + y * y
binomial x d y e = rw e (grind (arith, mul-add, add-mul, mul_comm))

apart-eq : (x y : ℕ) → apart x y + 2 * (x * y) ≡ x * x + y * y
apart-eq x y = elim (dec_le x y) [
  | yes le ↦
      let e : y ≡ x + (y - x) = omega (arith, le) in
      let z : x - y ≡ 0 = omega (arith, le) in
      let b = binomial x (y - x) y e in rw z (omega (arith, b))
  | no gt ↦
      let e : x ≡ y + (x - y) = omega (arith, gt) in
      let z : y - x ≡ 0 = omega (arith, gt) in
      let b = binomial y (x - y) x e in rw z (omega (arith, b, mul_comm x y))
]

apart_from-eq :
    (x : ℕ) (ys : List ℕ) → apart_from x ys + 2 * (x * sum_of ys) ≡ length ys * (x * x) + squares ys
apart_from-eq x [] = grind arith
apart_from-eq x (y ∷ ys) =
    let h = apart_from-eq x ys in let k = apart-eq x y in grind (arith, mul-add, add-mul)

pub spread-eq : (xs : List ℕ) → length xs * squares xs ≡ sum_of xs * sum_of xs + spread xs
spread-eq [] = refl
spread-eq (x ∷ xs) =
    let h = spread-eq xs in let k = apart_from-eq x xs in grind (arith, mul-add, add-mul, mul_comm)
