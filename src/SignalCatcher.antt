-- ===== src/SignalCatcher.antt =====
-- src/signalcatcher.c: what Ctrl-C does. `empty_queue_if_terminating` reads the clock three times for each
-- job: for the stamp of the queue, the departure time of the job, and the message.
pub mod Emptied
mod Tests
use concurrent_request_orche.Base.{ℕ, suc, ◌+◌, Bool, true, false, Option, List, [], ◌∷◌}
use concurrent_request_orche.Job.{Job}
use concurrent_request_orche.Journal.{Journal}
use concurrent_request_orche.LogRouter.{LogOps, emit_removed_job, emit_simulation_stopped}
use concurrent_request_orche.Simulation.{Simulation}

-- One turn of the loop: the job leaves the queue, and its removal is shown and counted.
unfoldable pub remove_job : Option LogOps → (stamp departure now : ℕ) → Job → Journal → Journal
remove_job logger stamp departure now job j =
    let job' : Job = record job { queue_departure_time_us = departure } in
    let stamped : Journal = record j { queue_stamp = stamp } in
    let shown = emit_removed_job logger now job' stamped in
    record shown {
      stats = record (shown.stats) { total_jobs_removed = shown.stats.total_jobs_removed + 1 };
    }

-- The loop over the jobs in the queue; `clock n` are the readings of the turn that `n` turns precede.
unfoldable pub remove_jobs :
    Option LogOps → (clock : ℕ → ℕ × ℕ × ℕ) → (n : ℕ) → List Job → Journal → Journal
unfolding remove_job
remove_jobs logger clock n [] j = j
remove_jobs logger clock n (job ∷ queue) j =
    let (stamp, departure, now) = clock n in
    remove_jobs logger clock (n + 1) queue (remove_job logger stamp departure now job j)

unfoldable pub empty_queue_if_terminating :
    Option LogOps → (clock : ℕ → ℕ × ℕ × ℕ) → Simulation → Simulation
unfolding remove_jobs
empty_queue_if_terminating logger clock s = record s {
  job_queue = [];
  journal = remove_jobs logger clock 0 s.job_queue s.journal;
}

-- Once the signal is there: the flags are set, and the stop is shown.
unfoldable pub stop_simulation : Option LogOps → (now : ℕ) → Simulation → Simulation
stop_simulation logger now s =
    let flagged : Simulation = record s { terminate_now = true; all_jobs_arrived = true } in
    record flagged { journal = emit_simulation_stopped logger now flagged.journal }

-- `sig_int_catching_thread_func` after the signal; between its two parts the other threads run.
unfoldable pub sig_int_catching_thread :
    Option LogOps
    → (now : ℕ) → (clock : ℕ → ℕ × ℕ × ℕ) → (others : Simulation → Simulation) → Simulation
    → Simulation
unfolding stop_simulation empty_queue_if_terminating
sig_int_catching_thread logger now clock others s =
    empty_queue_if_terminating logger clock (others (stop_simulation logger now s))
