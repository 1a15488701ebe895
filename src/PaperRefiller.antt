-- ===== src/PaperRefiller.antt =====
-- src/paper_refiller.c: the thread that fills the printers, cut at its locks and its sleep.
pub mod Refill
mod Tests
use concurrent_request_orche.Base.{
  ℕ, ◌+◌, Bool, true, false, Option, none, some, List, [], ◌∷◌, length, if◌then◌else◌,
}
use concurrent_request_orche.Base.Int.{ℤ, pos, ◌+ℤ◌, ◌-ℤ◌, ltb_ℤ}
use concurrent_request_orche.Words.{add64, sub64, to_int}
use concurrent_request_orche.Printer.{Printer}
use concurrent_request_orche.Journal.{Journal}
use concurrent_request_orche.LogRouter.{
  LogOps, emit_paper_refill_start, emit_paper_refill_end, emit_stats_update,
}
use concurrent_request_orche.Simulation.{Simulation}

-- What the refiller finds under the lock of its queue.
pub data Demand : Type 0 where
  ends : Demand
  sleeps : Demand
  serves : (index : ℕ) (rest : List ℕ) → Demand

unfoldable pub next_demand : Simulation → Demand
next_demand s =
    if s.terminate_now
    then ends
    else if s.all_jobs_served
    then ends
    else elim (s.refill_queue) [ [] ↦ sleeps | index ∷ rest ↦ serves index rest ]

unfoldable pub take_demand : (rest : List ℕ) → Simulation → Simulation
take_demand rest s = record s { refill_queue = rest }

unfoldable pub papers_needed : Printer → ℤ
papers_needed printer = printer.capacity -ℤ printer.current_paper_count

-- `papers_needed <= 0`: the printer is passed over.
unfoldable pub is_filled : Printer → Bool
unfolding papers_needed
is_filled printer = if ltb_ℤ (pos 0) (papers_needed printer) then false else true

-- The division by the refill rate is floating-point arithmetic: `refill_us papers` is what
-- `(unsigned long)((papers / refill_rate) * 1000000)` gives as an `int`.
unfoldable pub begin_refill :
    Option LogOps → (refill_us : ℤ → ℤ) → (now : ℕ) → Printer → Simulation → Simulation
unfolding papers_needed
begin_refill logger refill_us now printer s =
    let papers = papers_needed printer in
    record s {
      journal = emit_paper_refill_start logger printer papers (refill_us papers) now s.journal;
    }

-- After the sleep. `needed` was computed before it, and is added to what the printer holds now.
unfoldable pub finish_refill :
    Option LogOps
    → (refill_start now : ℕ) → (needed : ℤ) → Printer
    → Simulation
    → Printer × Simulation
finish_refill logger refill_start now needed printer s =
    let j = emit_paper_refill_end logger printer (to_int (sub64 now refill_start)) now s.journal in
    let counted : Journal = record j {
      stats = record (j.stats) {
        papers_refilled = j.stats.papers_refilled +ℤ needed;
        total_refill_service_time_us =
            add64 j.stats.total_refill_service_time_us (sub64 now refill_start);
        paper_refill_events = j.stats.paper_refill_events + 1;
      };
    } in
    (
      record printer { current_paper_count = printer.current_paper_count +ℤ needed },
      record s { journal = emit_stats_update logger (length s.job_queue) counted },
    )
