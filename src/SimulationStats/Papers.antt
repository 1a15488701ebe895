-- ===== src/SimulationStats/Papers.antt =====
-- The total of papers used that src/simulation_stats.c reports, and the departures that make it up.
use concurrent_request_orche.Base.{
  ℕ, zero, suc, ◌-◌, ◌≤◌, ◌<◌, ◌≡◌, refl, ap, sym, ◌∙◌, true, List, [], ◌∷◌, length, ltb, leb,
  if◌then◌else◌, arith,
}
use concurrent_request_orche.Base.Int.{ℤ, pos, ◌+ℤ◌, int_laws, +ℤ_assoc}
use concurrent_request_orche.Config.{consumer_count_max}
use concurrent_request_orche.Job.{Job}
use concurrent_request_orche.Printer.{Printer}
use concurrent_request_orche.SimulationStats.{SimulationStatistics, modify}
use concurrent_request_orche.SimulationStats.Averages.{sum_first, calculate_total_papers_used}
use concurrent_request_orche.ConsoleHandler.{departure_stats}

le→leb : (a b : ℕ) → a ≤ b → leb a b ≡ true
le→leb a b h = ground arith

-- Nothing is counted from position `n` on.
abbrev pub BlankFrom : (n : ℕ) → List ℤ → Type 0
BlankFrom zero [] = Unit
BlankFrom (suc n) [] = Unit
BlankFrom zero (x ∷ xs) = (x ≡ pos 0) × BlankFrom zero xs
BlankFrom (suc n) (x ∷ xs) = BlankFrom n xs

sum-modify :
    (m i : ℕ) (xs : List ℤ) (p : ℤ)
    → i < m
    → i < length xs
    → sum_first m (modify xs i (λ n. n +ℤ p)) ≡ sum_first m xs +ℤ p
unfolding sum_first
sum-modify m i [] p h k = absurd (omega arith)
sum-modify zero i (x ∷ xs) p h k = absurd (omega arith)
sum-modify (suc m) zero (x ∷ xs) p h k = omega int_laws
sum-modify (suc m) (suc i) (x ∷ xs) p h k =
    ap (λ r. x +ℤ r) (sum-modify m i xs p (omega arith) (omega arith))
    ∙ sym (+ℤ_assoc x (sum_first m xs) p)

sum-blank : (n : ℕ) (xs : List ℤ) → BlankFrom zero xs → sum_first n xs ≡ pos 0
unfolding sum_first
sum-blank zero xs b = refl
sum-blank (suc n) [] b = refl
sum-blank (suc n) (x ∷ xs) (e, b) = rw (e, sum-blank n xs b) (omega int_laws)

sum-longer : (n m : ℕ) (xs : List ℤ) → n ≤ m → BlankFrom n xs → sum_first m xs ≡ sum_first n xs
unfolding sum_first
sum-longer zero m xs h b = sum-blank m xs b
sum-longer (suc n) zero xs h b = absurd (omega arith)
sum-longer (suc n) (suc m) [] h b = refl
sum-longer (suc n) (suc m) (x ∷ xs) h b = ap (λ r. x +ℤ r) (sum-longer n m xs (omega arith) b)

-- The departure of a job from a printer of the pool adds the papers of the job to the total that is
-- reported, provided that nothing is counted yet for the printers above the highest one used.
pub departure_stats-papers :
    (job : Job) (printer : Printer) (s : SimulationStatistics)
    → 1 ≤ printer.id
    → printer.id ≤ consumer_count_max
    → length s.printer_paper_used ≡ consumer_count_max
    → BlankFrom s.max_printers_used s.printer_paper_used
    → calculate_total_papers_used (departure_stats job printer s)
      ≡ calculate_total_papers_used s +ℤ job.papers_required
unfolding calculate_total_papers_used departure_stats
departure_stats-papers job printer s one most size blank =
    let n : ℕ = s.max_printers_used in
    let m : ℕ = if ltb n printer.id then printer.id else n in
    let i : ℕ = printer.id - 1 in
    let xs = s.printer_paper_used in
    let inside : i < m = ground arith in
    let wider : n ≤ m = ground arith in
    rw (le→leb 1 printer.id one, le→leb printer.id consumer_count_max most)
      (sum-modify m i xs job.papers_required inside (omega (arith, size, one, most))
        ∙ ap (λ r. r +ℤ job.papers_required) (sum-longer n m xs wider blank))
