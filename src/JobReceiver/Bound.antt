-- ===== src/JobReceiver/Bound.antt =====
-- The bound on the job queue that the receiver of src/job_receiver.c keeps.
use concurrent_request_orche.Base.{
  ℕ, ◌+◌, ◌≤◌, ◌<◌, ◌≡◌, refl, Bool, true, false, List, [], ◌∷◌, length, inl, inr, if-both, arith,
  length-append,
}
use concurrent_request_orche.Base.Int.{pos}
use concurrent_request_orche.Job.{Job, init_job}
use concurrent_request_orche.ConsoleHandler.{log_queue_arrival}
use concurrent_request_orche.WebsocketHandler.{
  publish_queue_arrival, publish_job_update, publish_stats_update,
}
use concurrent_request_orche.LogRouter.{
  console_ops, websocket_ops, emit_queue_arrival, emit_job_update, emit_stats_update,
}
use concurrent_request_orche.Simulation.{Simulation, Parameters, backend}
use concurrent_request_orche.JobReceiver.{
  is_full, arrive, enqueue_allocated, Turn, receive, job_receiver,
}
use concurrent_request_orche.JobReceiver.Arrivals.{receive_lem, at_lock}

-- The other threads put no jobs in the queue while the receiver sleeps or waits for the lock.
pub record OnlyTakes (t : Turn) : Type 0 where
  pub takes_asleep : (s : Simulation) → length ((t.asleep s).job_queue) ≤ length s.job_queue
  pub takes_before_lock :
      (s : Simulation) → length ((t.before_lock s).job_queue) ≤ length s.job_queue

pub data AllTake : List Turn → Type 0 where
  none_left : AllTake []
  and_then : {t : Turn} {ts : List Turn} → OnlyTakes t → AllTake ts → AllTake (t ∷ ts)

pub full-lt : (capacity n : ℕ) → is_full (pos capacity) n ≡ false → n < capacity
unfolding is_full
full-lt capacity n e = ground arith

receive-bound :
    (is_server : Bool) (params : Parameters) (capacity job_id previous : ℕ) (t : Turn)
    (s : Simulation)
    → params.queue_capacity ≡ pos capacity
    → OnlyTakes t
    → length s.job_queue ≤ capacity
    → length ((receive (backend is_server) params job_id previous t s).job_queue) ≤ capacity
receive-bound b params capacity job_id previous t s c takes h =
    let (a, d) = receive_lem b params job_id previous t s in
    let s1 =
      (arrive (backend b) t.arrival_time previous
        (init_job (job_id + 1) params.job_arrival_time_us t.papers_required) s).1 in
    let (job, s2) = at_lock b params job_id previous t s in
    let arrived : length s1.job_queue ≤ capacity = rw a.queue_same h in
    let shorter : length s2.job_queue ≤ capacity =
      omega (arith, takes.takes_before_lock s1, arrived) in
    elim d.one_of_three [
      | inl (_, q, _) ↦ rw q shorter
      | inr (inr (_, _, q, _)) ↦ rw q shorter
      | inr (inl (e, _, q, _)) ↦
          rw (q, length-append) (omega (arith, full-lt capacity (length s2.job_queue) (rw c at e)))
    ]

-- Whatever the other threads do to the shared state, as long as they put nothing in the queue, a
-- queue that starts within its capacity is within its capacity when the receiver ends, after any
-- number of turns, and the end sets the flag that all jobs have arrived.
pub job_receiver-bound :
    (is_server : Bool) (params : Parameters) (capacity : ℕ) (ts : List Turn) (job_id previous : ℕ)
    (s : Simulation)
    → params.queue_capacity ≡ pos capacity
    → AllTake ts
    → length s.job_queue ≤ capacity
    → (length ((job_receiver (backend is_server) params ts job_id previous s).job_queue) ≤ capacity)
      × ((job_receiver (backend is_server) params ts job_id previous s).all_jobs_arrived ≡ true)
unfolding job_receiver
job_receiver-bound b params capacity [] job_id previous s c takes h = (h, refl)
job_receiver-bound b params capacity (t ∷ ts) job_id previous s c (and_then take takes) h =
    let woken = t.asleep s in
    let shorter : length woken.job_queue ≤ capacity = omega (arith, take.takes_asleep s, h) in
    let after : Simulation = receive (backend b) params job_id previous t woken in
    let ok : length after.job_queue ≤ capacity =
      receive-bound b params capacity job_id previous t woken c take shorter in
    let Fits : Simulation → Type 0 =
      λ r. (length r.job_queue ≤ capacity) × (r.all_jobs_arrived ≡ true) in
    if-both Fits t.allocated
      (if-both Fits woken.terminate_now (shorter, refl)
        (job_receiver-bound b params capacity ts (job_id + 1) t.arrival_time after c takes ok))
      (job_receiver-bound b params capacity ts (job_id + 1) previous s c takes h)

-- An enqueue records for the longest queue the length before it: when the queue was never longer than
-- it is now, the record is one less than the new length.
pub enqueue-highest :
    (is_server : Bool) (now now' : ℕ) (job : Job) (s : Simulation)
    → s.journal.stats.max_job_queue_length ≤ length s.job_queue
    → (enqueue_allocated (backend is_server) now now' job s).journal.stats.max_job_queue_length + 1
      ≡ length ((enqueue_allocated (backend is_server) now now' job s).job_queue)
unfolding enqueue_allocated emit_queue_arrival emit_job_update emit_stats_update console_ops
    websocket_ops log_queue_arrival publish_queue_arrival publish_job_update publish_stats_update
enqueue-highest true now now' job s h = grind (arith, length-append)
enqueue-highest false now now' job s h = grind (arith, length-append)
