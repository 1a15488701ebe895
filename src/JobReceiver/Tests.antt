-- ===== src/JobReceiver/Tests.antt =====
-- The theorems on the job receiver at small runs.
use concurrent_request_orche.Base.{
  ℕ, ◌+◌, ◌≤◌, ◌≡◌, refl, Bool, true, false, List, [], ◌∷◌, length, arith,
}
use concurrent_request_orche.Base.Int.{pos}
use concurrent_request_orche.Job.{Job, init_job}
use concurrent_request_orche.SimulationStats.{no_statistics}
use concurrent_request_orche.Simulation.{Simulation, Parameters, backend}
use concurrent_request_orche.JobReceiver.{arrive, Turn, receive, job_receiver}
use concurrent_request_orche.JobReceiver.Arrivals.{Arrived, Settled, receive_lem, at_lock}
use concurrent_request_orche.JobReceiver.Bound.{OnlyTakes, none_left, and_then, job_receiver-bound}

abbrev empty : Simulation
empty = record {
  job_queue = [];
  refill_queue = [];
  journal = record {
    stats = no_statistics;
    queue_stamp = 1_000;
    reference_time_us = 1_000;
    reference_end_time_us = 0;
    out = [];
  };
  all_jobs_arrived = false;
  all_jobs_served = false;
  terminate_now = false;
}

abbrev params : Parameters
params = record { job_arrival_time_us = pos 300_000; queue_capacity = pos 1 }

abbrev one_turn : (allocated : Bool) (time : ℕ) → Turn
one_turn allocated time = record {
  allocated = allocated;
  node_allocated = true;
  papers_required = pos 7;
  arrival_time = time;
  enqueue_time = time + 10;
  stamp_time = time + 11;
  asleep = λ s. s;
  before_lock = λ s. s;
}

one_turn-OnlyTakes : (allocated : Bool) (time : ℕ) → OnlyTakes (one_turn allocated time)
one_turn-OnlyTakes allocated time = record {
  takes_asleep = λ s. omega arith;
  takes_before_lock = λ s. omega arith;
}

abbrev first_job : Job
first_job = init_job 1 (pos 300_000) (pos 7)

receive_example :
    Arrived empty ((arrive (backend false) 301_000 1_000 first_job empty).1)
    × Settled
        (pos 1)
        true
        301_010
        ((at_lock false params 0 1_000 (one_turn true 301_000) empty).0)
        ((at_lock false params 0 1_000 (one_turn true 301_000) empty).1)
        (receive (backend false) params 0 1_000 (one_turn true 301_000) empty)
receive_example = receive_lem false params 0 1_000 (one_turn true 301_000) empty

abbrev turns : List Turn
turns = one_turn true 301_000 ∷ one_turn false 0 ∷ one_turn true 602_000 ∷ []

job_receiver-bound_example :
    (length ((job_receiver (backend true) params turns 0 1_000 empty).job_queue) ≤ 1)
    × ((job_receiver (backend true) params turns 0 1_000 empty).all_jobs_arrived ≡ true)
job_receiver-bound_example =
    job_receiver-bound true params 1 turns 0 1_000 empty refl
      (and_then (one_turn-OnlyTakes true 301_000) (
        and_then (one_turn-OnlyTakes false 0)
          (and_then (one_turn-OnlyTakes true 602_000) none_left)))
      (omega arith)
