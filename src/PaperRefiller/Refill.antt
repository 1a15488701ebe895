-- ===== src/PaperRefiller/Refill.antt =====
-- What a refill of src/paper_refiller.c leaves in the printer.
use concurrent_request_orche.Base.{ℕ, ◌≡◌, true, false, Option, arith}
use concurrent_request_orche.Base.Int.{ℤ, pos, ◌+ℤ◌, ◌-ℤ◌, ◌≤ℤ◌, int_laws}
use concurrent_request_orche.Job.{Job}
use concurrent_request_orche.Printer.{Printer}
use concurrent_request_orche.LogRouter.{LogOps}
use concurrent_request_orche.Simulation.{Simulation}
use concurrent_request_orche.Printer.Service.{lacks}
use concurrent_request_orche.PaperRefiller.{papers_needed, is_filled, finish_refill}

full-enough :
    (count : ℤ) (job : Job) (p : Printer)
    → p.current_paper_count ≡ count
    → job.papers_required ≤ℤ count
    → lacks p job ≡ false
unfolding lacks
full-enough count job p e h = ground arith

-- A printer that is not passed over gets a positive amount of paper; if nothing was printed on it
-- meanwhile, it is full after the refill, and lacks paper for no job that its capacity can serve.
pub finish_refill_lem :
    (logger : Option LogOps) (start now : ℕ) (printer : Printer) (job : Job) (s : Simulation)
    → is_filled printer ≡ false
    → job.papers_required ≤ℤ printer.capacity
    → (pos 1 ≤ℤ papers_needed printer)
      × ((finish_refill logger start now (papers_needed printer) printer s).0.current_paper_count
          ≡ printer.capacity)
      × (lacks ((finish_refill logger start now (papers_needed printer) printer s).0) job ≡ false)
unfolding finish_refill papers_needed is_filled
finish_refill_lem logger start now printer job s e h =
    let full : printer.current_paper_count +ℤ (printer.capacity -ℤ printer.current_paper_count)
        ≡ printer.capacity =
      omega int_laws in
    (
      ground arith,
      full,
      full-enough printer.capacity job
          (record printer {
            current_paper_count =
                printer.current_paper_count +ℤ (printer.capacity -ℤ printer.current_paper_count);
          })
          full h,
    )

-- A printer is passed over exactly when it holds its capacity or more: with a job that needs more
-- than the capacity it then waits for paper that never comes.
pub passed_over-lacks :
    (printer : Printer) (job : Job)
    → is_filled printer ≡ true
    → printer.current_paper_count ≤ℤ printer.capacity
    → printer.capacity +ℤ pos 1 ≤ℤ job.papers_required
    → (printer.current_paper_count ≡ printer.capacity) × (lacks printer job ≡ true)
unfolding is_filled papers_needed lacks ◌+ℤ◌ ◌-ℤ◌
passed_over-lacks printer job e h k = (ground arith, ground arith)
