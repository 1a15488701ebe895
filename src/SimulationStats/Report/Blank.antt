-- ===== src/SimulationStats/Report/Blank.antt =====
-- The statistics of a run in which nothing happened can be reported.
use concurrent_request_orche.Base.{ℕ, zero, suc, ◌<◌, ◌^◌, ◌≡◌, refl, some, get_elem?, arith}
use concurrent_request_orche.Base.Int.{ℤ, pos}
use concurrent_request_orche.Text.Width.{IsInt}
use concurrent_request_orche.SimulationStats.{no_statistics}
use concurrent_request_orche.SimulationStats.Report.Fits.{IsReportable}

none_served :
    (i : ℕ)
    → i < 5
    → (n : ℕ) × (get_elem? no_statistics.jobs_served_by_printer i ≡ some n) × (n < 2 ^ 53)
none_served zero h = (0, refl, omega arith)
none_served (suc zero) h = (0, refl, omega arith)
none_served (suc (suc zero)) h = (0, refl, omega arith)
none_served (suc (suc (suc zero))) h = (0, refl, omega arith)
none_served (suc (suc (suc (suc zero)))) h = (0, refl, omega arith)
none_served (suc (suc (suc (suc (suc i))))) h = absurd (omega arith)

none_used :
    (i : ℕ) → i < 5 → (p : ℤ) × (get_elem? no_statistics.printer_paper_used i ≡ some p) × IsInt p
none_used zero h = (pos 0, refl, (omega arith, omega arith))
none_used (suc zero) h = (pos 0, refl, (omega arith, omega arith))
none_used (suc (suc zero)) h = (pos 0, refl, (omega arith, omega arith))
none_used (suc (suc (suc zero))) h = (pos 0, refl, (omega arith, omega arith))
none_used (suc (suc (suc (suc zero)))) h = (pos 0, refl, (omega arith, omega arith))
none_used (suc (suc (suc (suc (suc i))))) h = absurd (omega arith)

pub no_statistics-IsReportable : IsReportable no_statistics
no_statistics-IsReportable = record {
  arrived_count = omega arith;
  served_count = omega arith;
  dropped_count = omega arith;
  removed_count = omega arith;
  longest_queue = omega arith;
  refills = omega arith;
  refilled = (omega arith, omega arith);
  printers = omega arith;
  served_by = none_served;
  used_by = none_used;
}
