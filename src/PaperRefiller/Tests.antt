-- ===== src/PaperRefiller/Tests.antt =====
-- The theorems on the refiller at one printer.
use concurrent_request_orche.Base.{ℕ, ◌≡◌, refl, true, false, some, [], arith}
use concurrent_request_orche.Base.Int.{ℤ, pos, ◌+ℤ◌, ◌-ℤ◌, ◌≤ℤ◌}
use concurrent_request_orche.Job.{Job, init_job}
use concurrent_request_orche.Printer.{Printer}
use concurrent_request_orche.SimulationStats.{no_statistics}
use concurrent_request_orche.LogRouter.{console_ops}
use concurrent_request_orche.Simulation.{Simulation}
use concurrent_request_orche.Printer.Service.{lacks}
use concurrent_request_orche.PaperRefiller.{papers_needed, is_filled, finish_refill}
use concurrent_request_orche.PaperRefiller.Refill.{finish_refill_lem, passed_over-lacks}

abbrev of_50 : (count : ℕ) → Printer
of_50 count = record {
  id = 1;
  current_paper_count = pos count;
  total_papers_used = pos 0;
  capacity = pos 50;
  jobs_printed_count = 0;
  last_job_completion_time_us = 0;
  is_idle = true;
}

abbrev calm : Simulation
calm = record {
  job_queue = [];
  refill_queue = [];
  journal = record {
    stats = no_statistics;
    queue_stamp = 0;
    reference_time_us = 0;
    reference_end_time_us = 0;
    out = [];
  };
  all_jobs_arrived = false;
  all_jobs_served = false;
  terminate_now = false;
}

abbrev job_of : (papers : ℕ) → Job
job_of papers = init_job 1 (pos 500_000) (pos papers)

low : is_filled (of_50 3) ≡ false
unfolding is_filled papers_needed ◌-ℤ◌
low = refl

brim : is_filled (of_50 50) ≡ true
unfolding is_filled papers_needed ◌-ℤ◌
brim = refl

thirty : (job_of 30).papers_required ≤ℤ pos 50
unfolding init_job
thirty = omega arith

sixty : pos 50 +ℤ pos 1 ≤ℤ (job_of 60).papers_required
unfolding init_job ◌+ℤ◌
sixty = omega arith

finish_refill_example :
    (pos 1 ≤ℤ papers_needed (of_50 3))
    × ((finish_refill
          (some console_ops)
          1_000
          9_000
          (papers_needed (of_50 3))
          (of_50 3)
          calm).0.current_paper_count
        ≡ pos 50)
    × (lacks
          ((finish_refill
            (some console_ops)
            1_000
            9_000
            (papers_needed (of_50 3))
            (of_50 3)
            calm).0)
          (job_of 30)
        ≡ false)
finish_refill_example =
    finish_refill_lem (some console_ops) 1_000 9_000 (of_50 3) (job_of 30) calm low thirty

passed_over-lacks_example : (◌≡◌ {A = ℤ} (pos 50) (pos 50)) × (lacks (of_50 50) (job_of 60) ≡ true)
passed_over-lacks_example = passed_over-lacks (of_50 50) (job_of 60) brim (omega arith) sixty
