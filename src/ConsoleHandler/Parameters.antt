-- ===== src/ConsoleHandler/Parameters.antt =====
-- `log_simulation_parameters` of src/console_handler.c: the table at the start of a run.
use concurrent_request_orche.Base.{[], ◌∷◌}
use concurrent_request_orche.Base.Int.{ℤ}
use concurrent_request_orche.Text.{Text, codes, joined, show_ℤ}
use concurrent_request_orche.Preprocessing.{SimulationParameters}

-- One line of the table.
row : (label number unit : Text) → Text
row label number unit = joined (codes "  " ∷ label ∷ codes ": " ∷ number ∷ unit ∷ codes "\n" ∷ [])

-- `general6` is `%.6g`, and `thousandth6` the same of a number divided by 1000.
unfoldable pub log_simulation_parameters :
    {Double : Type 0}
    → (general6 : Double → Text) → (thousandth6 : ℤ → Text) → SimulationParameters Double
    → Text
unfolding row
log_simulation_parameters general6 thousandth6 p = joined (
    codes "================= Simulation parameters =================\n"
    ∷ row (codes "Number of jobs") (show_ℤ p.num_jobs) []
    ∷ row (codes "Job arrival time") (thousandth6 p.job_arrival_time_us) (codes " ms")
    ∷ row (codes "Printing rate") (general6 p.printing_rate) (codes " pages/sec")
    ∷ row (codes "Printer paper capacity") (show_ℤ p.printer_paper_capacity) []
    ∷ row (codes "Queue capacity") (show_ℤ p.queue_capacity) []
    ∷ row (codes "Refill rate") (general6 p.refill_rate) (codes " papers/sec")
    ∷ row (codes "Papers required (lower bound)") (show_ℤ p.papers_required_lower_bound) []
    ∷ row (codes "Papers required (upper bound)") (show_ℤ p.papers_required_upper_bound) []
    ∷ [])
