-- ===== src/Job.antt =====
-- `job_t` of include/job_receiver.h, and `init_job` of src/job_receiver.c.
use concurrent_request_orche.Base.{ℕ}
use concurrent_request_orche.Base.Int.{ℤ, pos}

pub record Job : Type 0 where
  pub id : ℕ
  pub inter_arrival_time_us : ℤ
  pub papers_required : ℤ
  pub service_time_requested_ms : ℤ
  pub system_arrival_time_us : ℕ
  pub queue_arrival_time_us : ℕ
  pub queue_departure_time_us : ℕ
  pub service_arrival_time_us : ℕ
  pub service_departure_time_us : ℕ

-- For a job that was allocated; on `NULL` the function reports failure and writes nothing.
unfoldable pub init_job : (job_id : ℕ) → (inter_arrival_time_us papers_required : ℤ) → Job
init_job job_id gap papers = record {
  id = job_id;
  inter_arrival_time_us = gap;
  papers_required = papers;
  service_time_requested_ms = pos 0;
  system_arrival_time_us = 0;
  queue_arrival_time_us = 0;
  queue_departure_time_us = 0;
  service_arrival_time_us = 0;
  service_departure_time_us = 0;
}
