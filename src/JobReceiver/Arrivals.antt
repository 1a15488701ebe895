-- ===== src/JobReceiver/Arrivals.antt =====
-- What one turn of the receiver of src/job_receiver.c does to the queue and to the counts.
use concurrent_request_orche.Base.{
  ℕ, ◌+◌, ◌≡◌, refl, Bool, true, false, [], ◌∷◌, ◌++◌, length, inl, inr, ◌⊎◌, Bool-cases,
}
use concurrent_request_orche.Base.Int.{ℤ}
use concurrent_request_orche.Job.{Job, init_job}
use concurrent_request_orche.ConsoleHandler.{
  job_arrival_helper, log_system_arrival, log_dropped_job, log_queue_arrival,
}
use concurrent_request_orche.WebsocketHandler.{
  arrival_message, publish_system_arrival, publish_dropped_job, publish_queue_arrival,
  publish_job_update, publish_stats_update,
}
use concurrent_request_orche.LogRouter.{
  console_ops, websocket_ops, emit_system_arrival, emit_dropped_job, emit_queue_arrival,
  emit_job_update, emit_stats_update,
}
use concurrent_request_orche.Simulation.{Simulation, Parameters, backend}
use concurrent_request_orche.JobReceiver.{
  is_full, arrive, drop_job_from_system, enqueue_allocated, enqueue_failed, enqueue, Turn, receive,
}

-- The arrival is counted, and the queue is left alone.
pub record Arrived (s s' : Simulation) : Type 0 where
  pub queue_same : s'.job_queue ≡ s.job_queue
  pub one_more : s'.journal.stats.total_jobs_arrived ≡ s.journal.stats.total_jobs_arrived + 1
  pub none_dropped : s'.journal.stats.total_jobs_dropped ≡ s.journal.stats.total_jobs_dropped
  pub highest_same : s'.journal.stats.max_job_queue_length ≡ s.journal.stats.max_job_queue_length

pub arrive_lem :
    (is_server : Bool) (now previous : ℕ) (job : Job) (s : Simulation)
    → Arrived s ((arrive (backend is_server) now previous job s).1)
unfolding arrive emit_system_arrival emit_stats_update console_ops websocket_ops log_system_arrival
    job_arrival_helper publish_system_arrival arrival_message publish_stats_update
arrive_lem true now previous job s = record {
  queue_same = refl;
  one_more = refl;
  none_dropped = refl;
  highest_same = refl;
}
arrive_lem false now previous job s = record {
  queue_same = refl;
  one_more = refl;
  none_dropped = refl;
  highest_same = refl;
}

-- A job that finds the queue full is counted as dropped, and one that finds room is the last of the
-- queue, with its arrival time stamped, or is lost when there is no memory for a node.
pub record Settled (capacity : ℤ) (allocated : Bool) (enqueue_time : ℕ) (job : Job)
    (s s' : Simulation) : Type 0 where
  pub arrived_same : s'.journal.stats.total_jobs_arrived ≡ s.journal.stats.total_jobs_arrived
  pub one_of_three :
      (is_full capacity (length s.job_queue) ≡ true)
        × (s'.job_queue ≡ s.job_queue)
        × (s'.journal.stats.total_jobs_dropped ≡ s.journal.stats.total_jobs_dropped + 1)
      ⊎ (is_full capacity (length s.job_queue) ≡ false)
        × (allocated ≡ true)
        × (s'.job_queue ≡ s.job_queue ++ record job { queue_arrival_time_us = enqueue_time } ∷ [])
        × (s'.journal.stats.total_jobs_dropped ≡ s.journal.stats.total_jobs_dropped)
      ⊎ (is_full capacity (length s.job_queue) ≡ false)
        × (allocated ≡ false)
        × (s'.job_queue ≡ s.job_queue)
        × (s'.journal.stats.total_jobs_dropped ≡ s.journal.stats.total_jobs_dropped)

dropped_lem :
    (is_server : Bool) (capacity : ℤ) (allocated : Bool) (enqueue_time previous : ℕ) (job : Job)
    (s : Simulation)
    → is_full capacity (length s.job_queue) ≡ true
    → Settled capacity allocated enqueue_time job s
        (drop_job_from_system (backend is_server) previous job s)
unfolding drop_job_from_system emit_dropped_job console_ops websocket_ops log_dropped_job
    job_arrival_helper publish_dropped_job arrival_message
dropped_lem true capacity a t previous job s e = record {
  arrived_same = refl;
  one_of_three = inl (e, refl, refl);
}
dropped_lem false capacity a t previous job s e = record {
  arrived_same = refl;
  one_of_three = inl (e, refl, refl);
}

queued_lem :
    (is_server : Bool) (capacity : ℤ) (allocated : Bool) (now now' : ℕ) (job : Job) (s : Simulation)
    → is_full capacity (length s.job_queue) ≡ false
    → Settled capacity allocated now job s (enqueue (backend is_server) allocated now now' job s)
unfolding enqueue_allocated enqueue_failed emit_queue_arrival emit_job_update emit_stats_update
    console_ops websocket_ops log_queue_arrival publish_queue_arrival publish_job_update
    publish_stats_update
queued_lem true capacity true now now' job s e = record {
  arrived_same = refl;
  one_of_three = inr (inl (e, refl, refl, refl));
}
queued_lem false capacity true now now' job s e = record {
  arrived_same = refl;
  one_of_three = inr (inl (e, refl, refl, refl));
}
queued_lem true capacity false now now' job s e = record {
  arrived_same = refl;
  one_of_three = inr (inr (e, refl, refl, refl));
}
queued_lem false capacity false now now' job s e = record {
  arrived_same = refl;
  one_of_three = inr (inr (e, refl, refl, refl));
}

-- The state in which the receiver takes the lock of the queue, and the job it holds.
abbrev pub at_lock :
    (is_server : Bool) → Parameters → (job_id previous : ℕ) → Turn → Simulation → Job × Simulation
at_lock is_server params job_id previous t s =
    let (job, s1) =
      arrive (backend is_server) t.arrival_time previous
        (init_job (job_id + 1) params.job_arrival_time_us t.papers_required) s in
    (job, t.before_lock s1)

-- In a turn of the receiver, with either backend, the arrival is counted before the other threads
-- can run, and then the job is either counted as dropped, if the queue is full, or put at the end of
-- the queue with its time stamped; or, when no node can be allocated for it, it is neither, and lost.
pub receive_lem :
    (is_server : Bool) (params : Parameters) (job_id previous : ℕ) (t : Turn) (s : Simulation)
    → Arrived s (
        (arrive
          (backend is_server)
          t.arrival_time
          previous
          (init_job (job_id + 1) params.job_arrival_time_us t.papers_required)
          s).1)
      × Settled params.queue_capacity t.node_allocated t.enqueue_time
          ((at_lock is_server params job_id previous t s).0)
          ((at_lock is_server params job_id previous t s).1)
          (receive (backend is_server) params job_id previous t s)
unfolding receive
receive_lem b params job_id previous t s =
    let made = init_job (job_id + 1) params.job_arrival_time_us t.papers_required in
    let (job, s2) = at_lock b params job_id previous t s in
    (
      arrive_lem b t.arrival_time previous made s,
      elim (Bool-cases (is_full params.queue_capacity (length s2.job_queue))) [
        | inl e ↦
            rw e (
              dropped_lem b params.queue_capacity t.node_allocated t.enqueue_time previous job s2 e)
        | inr e ↦ rw e (
            queued_lem b params.queue_capacity t.node_allocated t.enqueue_time t.stamp_time job s2
              e)
      ],
    )
