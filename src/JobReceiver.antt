-- ===== src/JobReceiver.antt =====
-- src/job_receiver.c: the thread that makes the jobs, lets them arrive, and puts them in the queue or
-- drops them.
pub mod Arrivals
pub mod Bound
mod Tests
use concurrent_request_orche.Base.{
  ℕ, zero, suc, ◌+◌, Bool, true, false, Option, List, [], ◌∷◌, ◌++◌, length, ltb, if◌then◌else◌,
}
use concurrent_request_orche.Base.Int.{ℤ, pos, negsuc, ltb_ℤ}
use concurrent_request_orche.Job.{Job, init_job}
use concurrent_request_orche.SimulationStats.{SimulationStatistics}
use concurrent_request_orche.Journal.{Journal}
use concurrent_request_orche.LogRouter.{
  LogOps, emit_system_arrival, emit_dropped_job, emit_queue_arrival, emit_job_update,
  emit_stats_update,
}
use concurrent_request_orche.Simulation.{Simulation, Parameters}

-- `queue_capacity != -1 && queue_length >= queue_capacity`.
unfoldable pub is_full : (queue_capacity : ℤ) → (queue_length : ℕ) → Bool
is_full (pos capacity) queue_length = if ltb queue_length capacity then false else true
is_full (negsuc zero) queue_length = false
is_full (negsuc (suc n)) queue_length = true

-- The job gets its arrival time, and the arrival is counted.
unfoldable pub arrive :
    Option LogOps → (now previous_job_arrival_time_us : ℕ) → Job → Simulation → Job × Simulation
arrive logger now previous job s =
    let job' : Job = record job { system_arrival_time_us = now } in
    (
      job',
      record s {
        journal =
            emit_stats_update logger (length s.job_queue)
              (emit_system_arrival logger job' previous s.journal);
      },
    )

unfoldable pub drop_job_from_system :
    Option LogOps → (previous_job_arrival_time_us : ℕ) → Job → Simulation → Simulation
drop_job_from_system logger previous job s = record s {
  journal = emit_dropped_job logger job previous s.journal;
}

-- The queue's own stamp, set by the enqueue at `now'`, is overwritten by the handler of the event.
unfoldable pub enqueue_allocated : Option LogOps → (now now' : ℕ) → Job → Simulation → Simulation
enqueue_allocated logger now now' job s =
    let job' : Job = record job { queue_arrival_time_us = now } in
    let last_interaction = s.journal.queue_stamp in
    let queue_length = length s.job_queue in
    let queue = s.job_queue ++ job' ∷ [] in
    let highest = s.journal.stats.max_job_queue_length in
    let counted : SimulationStatistics = record (s.journal.stats) {
      max_job_queue_length = if ltb highest queue_length then queue_length else highest;
    } in
    let stamped : Journal = record (s.journal) { queue_stamp = now'; stats = counted } in
    record s {
      job_queue = queue;
      journal = emit_stats_update logger (length queue) (
          emit_job_update logger job'
            (emit_queue_arrival logger job' (length queue) last_interaction stamped));
    }

-- When the node of the list cannot be allocated nothing is queued or stamped; the result of
-- `timed_queue_enqueue` is ignored, the event is written all the same, and the job is lost.
unfoldable pub enqueue_failed : Option LogOps → (now : ℕ) → Job → Simulation → Simulation
enqueue_failed logger now job s =
    let job' : Job = record job { queue_arrival_time_us = now } in
    let last_interaction = s.journal.queue_stamp in
    let queue_length = length s.job_queue in
    let highest = s.journal.stats.max_job_queue_length in
    let counted : SimulationStatistics = record (s.journal.stats) {
      max_job_queue_length = if ltb highest queue_length then queue_length else highest;
    } in
    record s {
      journal = emit_stats_update logger queue_length (
          emit_job_update logger job' (
            emit_queue_arrival logger job' queue_length last_interaction
              (record (s.journal) { stats = counted })));
    }

abbrev pub enqueue :
    Option LogOps → (allocated : Bool) → (now now' : ℕ) → Job → Simulation → Simulation
enqueue logger true now now' job s = enqueue_allocated logger now now' job s
enqueue logger false now now' job s = enqueue_failed logger now job s

-- One turn of the loop: what `malloc` and `random_between` gave, the clock readings, and what the
-- other threads did to the shared state while the receiver slept, and before it had the queue.
pub record Turn : Type 0 where
  pub allocated : Bool
  pub node_allocated : Bool
  pub papers_required : ℤ
  pub arrival_time : ℕ
  pub enqueue_time : ℕ
  pub stamp_time : ℕ
  pub asleep : Simulation → Simulation
  pub before_lock : Simulation → Simulation

-- The part of a turn after the sleep.
unfoldable pub receive :
    Option LogOps → Parameters → (job_id previous : ℕ) → Turn → Simulation → Simulation
unfolding arrive drop_job_from_system enqueue_allocated enqueue_failed is_full init_job
receive logger params job_id previous t s =
    let made = init_job (job_id + 1) params.job_arrival_time_us t.papers_required in
    let (job, s1) = arrive logger t.arrival_time previous made s in
    let s2 = t.before_lock s1 in
    if is_full params.queue_capacity (length s2.job_queue)
    then drop_job_from_system logger previous job s2
    else enqueue logger t.node_allocated t.enqueue_time t.stamp_time job s2

abbrev pub all_arrived : Simulation → Simulation
all_arrived s = record s { all_jobs_arrived = true }

-- `job_receiver_thread_func` from the turn for `job_id` on: one turn for each job that is left. A job
-- that could not be allocated is passed over, without a sleep.
unfoldable pub job_receiver :
    Option LogOps → Parameters → List Turn → (job_id previous : ℕ) → Simulation → Simulation
unfolding receive
job_receiver logger params [] job_id previous s = all_arrived s
job_receiver logger params (t ∷ ts) job_id previous s =
    let skipped = job_receiver logger params ts (job_id + 1) previous s in
    let woken = t.asleep s in
    let received =
      job_receiver logger params ts (job_id + 1) t.arrival_time
        (receive logger params job_id previous t woken) in
    if t.allocated then if woken.terminate_now then all_arrived woken else received else skipped
