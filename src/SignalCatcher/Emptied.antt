-- ===== src/SignalCatcher/Emptied.antt =====
-- What src/signalcatcher.c leaves of the queue, and what it counts.
use concurrent_request_orche.Base.{
  ℕ, ◌+◌, ◌≡◌, refl, ◌∙◌, length-append, Bool, true, false, List, [], ◌∷◌, length, arith,
}
use concurrent_request_orche.Job.{Job}
use concurrent_request_orche.Journal.{Journal}
use concurrent_request_orche.ConsoleHandler.{log_removed_job}
use concurrent_request_orche.WebsocketHandler.{publish_removed_job}
use concurrent_request_orche.LogRouter.{console_ops, websocket_ops, emit_removed_job}
use concurrent_request_orche.Simulation.{Simulation, backend}
use concurrent_request_orche.SignalCatcher.{
  remove_job, remove_jobs, empty_queue_if_terminating, stop_simulation, sig_int_catching_thread,
}

-- Every job of the queue is counted as removed, with one message each, and no other count changes.
pub record Removed (n : ℕ) (j j' : Journal) : Type 0 where
  pub counted : j'.stats.total_jobs_removed ≡ j.stats.total_jobs_removed + n
  pub shown : length j'.out ≡ length j.out + n
  pub arrived_same : j'.stats.total_jobs_arrived ≡ j.stats.total_jobs_arrived
  pub served_same : j'.stats.total_jobs_served ≡ j.stats.total_jobs_served
  pub dropped_same : j'.stats.total_jobs_dropped ≡ j.stats.total_jobs_dropped

remove_job-Removed :
    (is_server : Bool) (stamp departure now : ℕ) (job : Job) (j : Journal)
    → Removed 1 j (remove_job (backend is_server) stamp departure now job j)
unfolding remove_job emit_removed_job console_ops websocket_ops log_removed_job publish_removed_job
remove_job-Removed true stamp departure now job j = record {
  counted = refl;
  shown = grind (arith, length-append);
  arrived_same = refl;
  served_same = refl;
  dropped_same = refl;
}
remove_job-Removed false stamp departure now job j = record {
  counted = refl;
  shown = grind (arith, length-append);
  arrived_same = refl;
  served_same = refl;
  dropped_same = refl;
}

pub remove_jobs-Removed :
    (is_server : Bool) (clock : ℕ → ℕ × ℕ × ℕ) (n : ℕ) (queue : List Job) (j : Journal)
    → Removed (length queue) j (remove_jobs (backend is_server) clock n queue j)
unfolding remove_jobs
remove_jobs-Removed b clock n [] j = record {
  counted = omega arith;
  shown = omega arith;
  arrived_same = refl;
  served_same = refl;
  dropped_same = refl;
}
remove_jobs-Removed b clock n (job ∷ queue) j =
    let (stamp, departure, now) = clock n in
    let j1 : Journal = remove_job (backend b) stamp departure now job j in
    let one : Removed 1 j j1 = remove_job-Removed b stamp departure now job j in
    let rest = remove_jobs-Removed b clock (n + 1) queue j1 in
    record {
      counted = omega (arith, one.counted, rest.counted);
      shown = omega (arith, one.shown, rest.shown);
      arrived_same = rest.arrived_same ∙ one.arrived_same;
      served_same = rest.served_same ∙ one.served_same;
      dropped_same = rest.dropped_same ∙ one.dropped_same;
    }

-- Provided that the other threads clear neither flag in between: after the signal thread the queue is
-- empty, both flags are set, and every job that the other threads had left in the queue is counted as removed
-- and shown, with no other count changed.
pub sig_int_catching_thread_lem :
    (is_server : Bool) (now : ℕ) (clock : ℕ → ℕ × ℕ × ℕ) (others : Simulation → Simulation)
    (s : Simulation)
    → ((t : Simulation) → (others t).terminate_now ≡ t.terminate_now)
    → ((t : Simulation) → (others t).all_jobs_arrived ≡ t.all_jobs_arrived)
    → let stopped = stop_simulation (backend is_server) now s in
      let s' = sig_int_catching_thread (backend is_server) now clock others s in
      (s'.job_queue ≡ [])
      × (s'.terminate_now ≡ true)
      × (s'.all_jobs_arrived ≡ true)
      × Removed (length ((others stopped).job_queue)) ((others stopped).journal) s'.journal
unfolding sig_int_catching_thread stop_simulation empty_queue_if_terminating
sig_int_catching_thread_lem b now clock others s h k =
    let stopped = stop_simulation (backend b) now s in
    (
      refl,
      h stopped,
      k stopped,
      remove_jobs-Removed b clock 0 ((others stopped).job_queue) ((others stopped).journal),
    )
