-- ===== src/QueueArea/Tests.antt =====
-- Two jobs enter the queue and leave it.
use concurrent_request_orche.Base.{ℕ, ◌≡◌, refl, false, [], arith}
use concurrent_request_orche.Base.Int.{pos}
use concurrent_request_orche.Words.{add64, sub64, mul64}
use concurrent_request_orche.Job.{Job, init_job}
use concurrent_request_orche.SimulationStats.{no_statistics}
use concurrent_request_orche.ConsoleHandler.{log_queue_arrival, log_queue_departure}
use concurrent_request_orche.LogRouter.{
  console_ops, emit_queue_arrival, emit_queue_departure, emit_job_update, emit_jobs_update,
  emit_stats_update,
}
use concurrent_request_orche.Simulation.{Simulation}
use concurrent_request_orche.JobReceiver.{enqueue_allocated}
use concurrent_request_orche.Printer.Service.{take_job}
use concurrent_request_orche.QueueArea.{
  QueueRun, begins, enters, leaves, QueueRun-IsBalanced, IsBalanced, littles_law,
}

abbrev idle : Simulation
idle = record {
  job_queue = [];
  refill_queue = [];
  journal = record {
    stats = no_statistics;
    queue_stamp = 100;
    reference_time_us = 100;
    reference_end_time_us = 0;
    out = [];
  };
  all_jobs_arrived = false;
  all_jobs_served = false;
  terminate_now = false;
}

abbrev job : ℕ → Job
job id = init_job id (pos 500) (pos 5)

unfoldable two_jobs : (s : Simulation) × QueueRun false 220 s
unfolding enqueue_allocated take_job init_job emit_queue_arrival emit_queue_departure
    emit_job_update emit_jobs_update emit_stats_update console_ops log_queue_arrival
    log_queue_departure add64 sub64 mul64
two_jobs = (
  _,
  leaves
      (leaves
        (enters
          (enters (begins idle refl refl) (job 1) 200 200
            (omega arith, omega arith, omega arith, omega arith))
          (job 2) 250 250 (omega arith, omega arith, omega arith, omega arith))
        _ _ 320 320 refl (omega arith, omega arith, omega arith, omega arith))
      _ _ 350 350 refl (omega arith, omega arith, omega arith, omega arith),
)

two_jobs-empty : (two_jobs.0).job_queue ≡ []
unfolding two_jobs take_job
two_jobs-empty = refl

QueueRun-IsBalanced_example : IsBalanced 220 (two_jobs.0)
QueueRun-IsBalanced_example = QueueRun-IsBalanced false 220 (two_jobs.0) (two_jobs.1)

littles_law_example : (two_jobs.0).journal.stats.area_num_in_job_queue_us ≡ 220
littles_law_example = littles_law false 220 (two_jobs.0) (two_jobs.1) two_jobs-empty
