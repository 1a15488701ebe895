-- ===== src/SignalCatcher/Tests.antt =====
-- The signal thread on a queue of two jobs.
use concurrent_request_orche.Base.{ℕ, ◌+◌, ◌*◌, ◌≡◌, refl, true, false, [], ◌∷◌, length}
use concurrent_request_orche.Base.Int.{pos}
use concurrent_request_orche.Job.{init_job}
use concurrent_request_orche.SimulationStats.{no_statistics}
use concurrent_request_orche.Simulation.{Simulation, backend}
use concurrent_request_orche.SignalCatcher.{stop_simulation, sig_int_catching_thread}
use concurrent_request_orche.SignalCatcher.Emptied.{Removed, sig_int_catching_thread_lem}

abbrev two_queued : Simulation
two_queued = record {
  job_queue = init_job 1 (pos 500_000) (pos 5) ∷ init_job 2 (pos 500_000) (pos 9) ∷ [];
  refill_queue = [];
  journal = record {
    stats = no_statistics;
    queue_stamp = 0;
    reference_time_us = 1_000;
    reference_end_time_us = 0;
    out = [];
  };
  all_jobs_arrived = false;
  all_jobs_served = false;
  terminate_now = false;
}

abbrev clock : ℕ → ℕ × ℕ × ℕ
clock n = (700_000 + 3 * n, 700_001 + 3 * n, 700_002 + 3 * n)

abbrev stopped : Simulation
stopped = stop_simulation (backend true) 600_000 two_queued

abbrev after : Simulation
after = sig_int_catching_thread (backend true) 600_000 clock (λ s. s) two_queued

sig_int_catching_thread_example :
    (after.job_queue ≡ [])
    × (after.terminate_now ≡ true)
    × (after.all_jobs_arrived ≡ true)
    × Removed (length stopped.job_queue) stopped.journal after.journal
sig_int_catching_thread_example =
    sig_int_catching_thread_lem true 600_000 clock (λ s. s) two_queued (λ t. refl) (λ t. refl)
