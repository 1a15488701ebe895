-- ===== src/Autoscaling/Tests.antt =====
-- The theorems on the printer pool and the autoscaler at small pools.
use concurrent_request_orche.Base.{
  ℕ, zero, suc, ◌≡◌, refl, Bool, true, false, none, some, [], ◌∷◌, replicate, ◌+◌, Defined, arith,
}
use concurrent_request_orche.Base.Int.{pos}
use concurrent_request_orche.Words.{sub64}
use concurrent_request_orche.Printer.{
  PrinterInstance, PrinterPool, printer_pool_init, printer_pool_start_printer, start_printers,
  printer_pool_join_all,
}
use concurrent_request_orche.Printer.PoolInvariant.{IsPool, Started, printer_pool_start_printer_lem}
use concurrent_request_orche.Autoscaling.{
  should_scale_up, should_scale_down, scaled_args, scale_down, removed,
}
use concurrent_request_orche.Autoscaling.Scaling.{IsRunning}
use concurrent_request_orche.Job.{init_job}
use concurrent_request_orche.SimulationStats.{no_statistics}
use concurrent_request_orche.Journal.{Message, line}
use concurrent_request_orche.LogRouter.{console_ops}
use concurrent_request_orche.Simulation.{Simulation}
use concurrent_request_orche.Autoscaling.Thread.{Reading, autoscaling_turn, autoscaling_thread}
use concurrent_request_orche.Autoscaling.Thread.Rounds.{
  Reached, autoscaling_thread_lem, turn-after-gap,
}
use concurrent_request_orche.Autoscaling.Gap.{IsPacked}

abbrev instance_of : (id : ℕ) (active idle : Bool) → PrinterInstance
instance_of id active idle = record {
  printer = record {
    id = id;
    current_paper_count = pos 90;
    total_papers_used = pos 0;
    capacity = pos 90;
    jobs_printed_count = 0;
    last_job_completion_time_us = 1_000_000;
    is_idle = idle;
  };
  args = none;
  active = active;
}

-- Four active printers, of which the third is idle and the fourth is busy.
abbrev four : PrinterPool
four = record {
  printers =
      instance_of 1 true true
      ∷ instance_of 2 true true
      ∷ instance_of 3 true true
      ∷ instance_of 4 true false
      ∷ instance_of 5 false true
      ∷ [];
  active_count = 4;
  min_count = 2;
  last_scale_time_us = 2_000_000;
  low_queue_start_time_us = 3_000_000;
}

four-IsPool : IsPool four
four-IsPool = record {
  sized = refl;
  numbered = (refl, (refl, (refl, (refl, (refl, tt)))));
  counted = refl;
}

four-IsRunning : IsRunning four
four-IsRunning = record { pool_ok = four-IsPool; enough = omega arith }

four-IsPacked : IsPacked four
four-IsPacked zero p h e = ground arith
four-IsPacked (suc zero) p h e = ground arith
four-IsPacked (suc (suc zero)) p h e = ground arith
four-IsPacked (suc (suc (suc zero))) p h e = ground arith
four-IsPacked (suc (suc (suc (suc j)))) p h e = absurd (omega arith)

-- With six printers asked for and one thread that cannot be created, the sixth start is outside the
-- array.
start_too_many :
    start_printers
      (true ∷ true ∷ true ∷ true ∷ false ∷ true ∷ [])
      1
      scaled_args
      (printer_pool_init 6 (pos 90))
    ≡ none
unfolding start_printers printer_pool_start_printer printer_pool_init
start_too_many = refl

-- With threads that can all be created the sixth start is refused.
start_six :
    (p : PrinterPool) × (start_printers
        (true ∷ true ∷ true ∷ true ∷ true ∷ true ∷ [])
        1
        scaled_args
        (printer_pool_init 6 (pos 90))
      ≡ some p)
    × (p.active_count ≡ 5)
unfolding start_printers printer_pool_start_printer printer_pool_init
start_six = (_, refl, refl)

joined : printer_pool_join_all four.printers 0 ≡ 0 ∷ 1 ∷ 2 ∷ 3 ∷ []
unfolding printer_pool_join_all
joined = refl

printer_pool_start_printer_example :
    Defined
      (Started true four (instance_of 5 false true))
      (printer_pool_start_printer true four 5 scaled_args)
printer_pool_start_printer_example =
    printer_pool_start_printer_lem true four 5 scaled_args (instance_of 5 false true) four-IsPool
      refl

four-scale_down : should_scale_down four 3 9_000_000 ≡ some (four, true)
unfolding should_scale_down sub64
four-scale_down = refl

-- The third printer is stopped, since the fourth is busy.
abbrev gapped : PrinterPool
gapped = removed four 9_000_001 2 (instance_of 3 true true)

four-gapped : scale_down four 9_000_001 ≡ some (gapped, some 2)
unfolding scale_down
four-gapped = refl

-- Fifteen jobs wait, and nothing was written yet.
abbrev crowded : Simulation
crowded = record {
  job_queue = replicate 15 (init_job 7 (pos 200_000) (pos 10));
  refill_queue = [];
  journal = record {
    stats = no_statistics;
    queue_stamp = 0;
    reference_time_us = 1_000_000;
    reference_end_time_us = 0;
    out = [];
  };
  all_jobs_arrived = false;
  all_jobs_served = false;
  terminate_now = false;
}

abbrev quiet : (now : ℕ) → Reading
quiet now = record {
  now = now;
  later = now + 1;
  created = true;
  meanwhile = λ s. s;
  asleep = λ s. s;
  works = λ p. record p { is_idle = true; last_job_completion_time_us = now };
}

autoscaling_thread_example :
    Defined
      (Reached four 2)
      (autoscaling_thread (some console_ops) (quiet 9_000_000 ∷ quiet 10_000_000 ∷ []) four crowded)
autoscaling_thread_example =
    autoscaling_thread_lem (some console_ops) (quiet 9_000_000 ∷ quiet 10_000_000 ∷ []) four crowded
      four-IsRunning (omega arith)

gapped-grows : should_scale_up gapped 15 20_000_000 ≡ true
unfolding should_scale_up sub64
gapped-grows = refl

turn-after-gap_example :
    autoscaling_turn (some console_ops) (quiet 20_000_000) gapped crowded
    ≡ some (
      gapped,
      record crowded {
        journal = record (crowded.journal) {
          out = line (sub64 20_000_001 1_000_000) (Message.scaled_up 4 15) ∷ [];
        };
      },
    )
turn-after-gap_example =
    turn-after-gap (quiet 20_000_000) four gapped crowded 9_000_001 2 four-IsPool four-IsPacked
      four-gapped (omega arith) gapped-grows
