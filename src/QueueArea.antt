-- ===== src/QueueArea.antt =====
-- The area under the length of the job queue, `area_num_in_job_queue_us` of the statistics, which the
-- handlers of src/console_handler.c and src/websocket_handler.c keep, and the time that jobs wait.
mod Tests
use native.Mathlib.Nat.{add-mul, mod-eq_of_lt, mul-add}
use concurrent_request_orche.Base.{
  ℕ, zero, suc, ◌+◌, ◌-◌, ◌*◌, ◌%◌, ◌≤◌, ◌<◌, ◌≡◌, refl, sym, ap, ◌∙◌, Bool, true, false, Option,
  List, [], ◌∷◌, ◌++◌, length, length-append, arith,
}
use concurrent_request_orche.Words.{word, add64, sub64, mul64, sub64-eq, add64-eq}
use concurrent_request_orche.Job.{Job}
use concurrent_request_orche.ConsoleHandler.{log_queue_arrival, log_queue_departure}
use concurrent_request_orche.WebsocketHandler.{
  publish_queue_arrival, publish_queue_departure, publish_job_update, publish_jobs_update,
  publish_stats_update,
}
use concurrent_request_orche.LogRouter.{
  console_ops, websocket_ops, emit_queue_arrival, emit_queue_departure, emit_job_update,
  emit_jobs_update, emit_stats_update,
}
use concurrent_request_orche.Simulation.{Simulation, backend}
use concurrent_request_orche.JobReceiver.{enqueue_allocated}
use concurrent_request_orche.Printer.Service.{take_job}

pub arrivals : List Job → ℕ
arrivals [] = 0
arrivals (job ∷ queue) = job.queue_arrival_time_us + arrivals queue

arrivals-append :
    (queue : List Job) (job : Job)
    → arrivals (queue ++ job ∷ []) ≡ arrivals queue + job.queue_arrival_time_us
unfolding arrivals
arrivals-append [] job = omega arith
arrivals-append (x ∷ queue) job = omega (arith, arrivals-append queue job)

abbrev pub Past : (stamp : ℕ) → List Job → Type 0
Past stamp [] = Unit
Past stamp (job ∷ queue) = (job.queue_arrival_time_us ≤ stamp) × Past stamp queue

Past-later : (stamp now : ℕ) (queue : List Job) → stamp ≤ now → Past stamp queue → Past now queue
Past-later stamp now [] h p = tt
Past-later stamp now (job ∷ queue) h (a, p) = (omega arith, Past-later stamp now queue h p)

Past-append :
    (now : ℕ) (queue : List Job) (job : Job)
    → Past now queue
    → job.queue_arrival_time_us ≤ now
    → Past now (queue ++ job ∷ [])
Past-append now [] job p h = (h, tt)
Past-append now (x ∷ queue) job (a, p) h = (a, Past-append now queue job p h)

abbrev area : Simulation → ℕ
area s = s.journal.stats.area_num_in_job_queue_us

-- The area that the time up to `now` adds, and that it still fits.
abbrev pub Fits : Simulation → (now : ℕ) → Type 0
Fits s now =
    (s.journal.queue_stamp ≤ now)
    × (now < word)
    × (length s.job_queue + 1 < word)
    × (s.journal.stats.area_num_in_job_queue_us + (now - s.journal.queue_stamp) * length s.job_queue
        < word)

-- A run of the queue by itself, with the sum of the times that the jobs which left it had waited: it
-- begins empty, jobs enter and leave, the clock does not go back, and no sum overflows.
pub data QueueRun (is_server : Bool) : (waited : ℕ) → Simulation → Type 0 where
  begins :
      (s : Simulation)
      → s.job_queue ≡ []
      → s.journal.stats.area_num_in_job_queue_us ≡ 0
      → QueueRun is_server 0 s
  enters :
      {w : ℕ} {s : Simulation}
      → QueueRun is_server w s
      → (job : Job) (now stamp : ℕ) → Fits s now
      → QueueRun is_server w (enqueue_allocated (backend is_server) now stamp job s)
  leaves :
      {w : ℕ} {s : Simulation}
      → QueueRun is_server w s
      → (job : Job) (rest : List Job) (now stamp : ℕ) → s.job_queue ≡ job ∷ rest
      → Fits s now
      → QueueRun is_server
          (w + (now - job.queue_arrival_time_us))
          ((take_job (backend is_server) stamp now job rest s).1)

pub record IsBalanced (waited : ℕ) (s : Simulation) : Type 0 where
  pub balance :
      s.journal.stats.area_num_in_job_queue_us + arrivals s.job_queue
      ≡ waited + s.journal.queue_stamp * length s.job_queue
  pub all_past : Past s.journal.queue_stamp s.job_queue

-- The new area and the new stamp.
added :
    (old n stamp now : ℕ)
    → stamp ≤ now
    → now < word
    → old + (now - stamp) * n < word
    → add64 old (mul64 (sub64 now stamp) n) ≡ old + (now - stamp) * n
unfolding mul64
added old n stamp now h k l =
    let gap : sub64 now stamp ≡ now - stamp = sub64-eq now stamp h k in
    let whole : (now - stamp) * n % word ≡ (now - stamp) * n = mod-eq_of_lt (omega (arith, l)) in
    rw (gap, whole) (add64-eq old ((now - stamp) * n) l)

stretched : (n stamp now : ℕ) → stamp ≤ now → (now - stamp) * n + stamp * n ≡ now * n
stretched n stamp now h = sym (add-mul (now - stamp) stamp n) ∙ ap (λ t. t * n) (omega arith)

enqueue-area :
    (is_server : Bool) (now stamp : ℕ) (job : Job) (s : Simulation)
    → let t = enqueue_allocated (backend is_server) now stamp job s in
      (t.journal.stats.area_num_in_job_queue_us
        ≡ add64 (area s) (mul64 (sub64 now s.journal.queue_stamp) (sub64 (length t.job_queue) 1)))
      × (t.journal.queue_stamp ≡ now)
      × (t.job_queue ≡ s.job_queue ++ record job { queue_arrival_time_us = now } ∷ [])
unfolding enqueue_allocated emit_queue_arrival emit_job_update emit_stats_update console_ops
    websocket_ops log_queue_arrival publish_queue_arrival publish_job_update publish_stats_update
enqueue-area true now stamp job s = (refl, refl, refl)
enqueue-area false now stamp job s = (refl, refl, refl)

take_job-area :
    (is_server : Bool) (now stamp : ℕ) (job : Job) (rest : List Job) (s : Simulation)
    → let t = (take_job (backend is_server) stamp now job rest s).1 in
      (t.journal.stats.area_num_in_job_queue_us
        ≡ add64 (area s) (mul64 (sub64 now s.journal.queue_stamp) (length rest + 1)))
      × (t.journal.queue_stamp ≡ now)
      × (t.job_queue ≡ rest)
unfolding take_job emit_queue_departure emit_jobs_update emit_stats_update console_ops websocket_ops
    log_queue_departure publish_queue_departure publish_jobs_update publish_stats_update
take_job-area true now stamp job rest s = (refl, refl, refl)
take_job-area false now stamp job rest s = (refl, refl, refl)

step-in :
    (w old n a stamp now : ℕ)
    → stamp ≤ now
    → old + a ≡ w + stamp * n
    → old + (now - stamp) * n + (a + now) ≡ w + now * (n + 1)
step-in w old n a stamp now h e =
    let s = stretched n stamp now h in
    let more : now * (n + 1) ≡ now * n + now = omega (arith, mul-add now n 1) in
    omega (arith, s, e, more)

step-out :
    (w old n a x stamp now : ℕ)
    → stamp ≤ now
    → x ≤ stamp
    → old + (x + a) ≡ w + stamp * (n + 1)
    → old + (now - stamp) * (n + 1) + a ≡ w + (now - x) + now * n
step-out w old n a x stamp now h k e =
    let s = stretched (n + 1) stamp now h in
    let more : now * (n + 1) ≡ now * n + now = omega (arith, mul-add now n 1) in
    omega (arith, s, e, more)

rebalance :
    (w x now : ℕ) (queue : List Job) (t : Simulation)
    → t.journal.stats.area_num_in_job_queue_us ≡ x
    → t.journal.queue_stamp ≡ now
    → t.job_queue ≡ queue
    → x + arrivals queue ≡ w + now * length queue
    → Past now queue
    → IsBalanced w t
rebalance w x now queue t a b c d p = record { balance = rw (a, b, c) d; all_past = rw (b, c) p }

empty-IsBalanced :
    (s : Simulation)
    → s.job_queue ≡ []
    → s.journal.stats.area_num_in_job_queue_us ≡ 0
    → IsBalanced 0 s
unfolding arrivals
empty-IsBalanced s e f = rebalance 0 0 s.journal.queue_stamp [] s f refl e (omega arith) tt

enqueue-IsBalanced :
    (is_server : Bool) (w : ℕ) (s : Simulation) (job : Job) (now stamp : ℕ)
    → Fits s now
    → IsBalanced w s
    → IsBalanced w (enqueue_allocated (backend is_server) now stamp job s)
enqueue-IsBalanced b w s job now stamp (h, k, l, m) r =
    let n : ℕ = length s.job_queue in
    let old : ℕ = area s in
    let last : ℕ = s.journal.queue_stamp in
    let job' : Job = record job { queue_arrival_time_us = now } in
    let (ar, st, qu) = enqueue-area b now stamp job s in
    let longer : length (s.job_queue ++ job' ∷ []) ≡ n + 1 =
      length-append s.job_queue (job' ∷ []) in
    let before : sub64 (n + 1) 1 ≡ n = sub64-eq (n + 1) 1 (omega arith) l ∙ omega arith in
    let grown = added old n last now h k m in
    let sums = arrivals-append s.job_queue job' in
    rebalance w (old + (now - last) * n) now (s.job_queue ++ job' ∷ []) _
      (ar ∙ rw (qu, longer, before) grown) st qu
      (rw (longer, sums) (step-in w old n (arrivals s.job_queue) last now h r.balance))
      (Past-append now s.job_queue job' (Past-later last now s.job_queue h r.all_past)
        (omega arith))

take_job-IsBalanced :
    (is_server : Bool) (w : ℕ) (s : Simulation) (job : Job) (rest : List Job) (now stamp : ℕ)
    → s.job_queue ≡ job ∷ rest
    → Fits s now
    → IsBalanced w s
    → IsBalanced
        (w + (now - job.queue_arrival_time_us))
        ((take_job (backend is_server) stamp now job rest s).1)
unfolding arrivals
take_job-IsBalanced b w s job rest now stamp e (h, k, l, m) r =
    let n : ℕ = length rest in
    let old : ℕ = area s in
    let last : ℕ = s.journal.queue_stamp in
    let x : ℕ = job.queue_arrival_time_us in
    let (ar, st, qu) = take_job-area b now stamp job rest s in
    let same : length s.job_queue ≡ n + 1 = ap length e ∙ omega arith in
    let sums : arrivals s.job_queue ≡ x + arrivals rest = ap arrivals e in
    let m' : old + (now - last) * (n + 1) < word = rw same at m in
    let bal : old + (x + arrivals rest) ≡ w + last * (n + 1) = rw (sums, same) at r.balance in
    let old_past : Past last (job ∷ rest) = rw e at r.all_past in
    rebalance (w + (now - x)) (old + (now - last) * (n + 1)) now rest _
      (ar ∙ added old (n + 1) last now h k m') st qu
      (step-out w old n (arrivals rest) x last now h (old_past.0) bal)
      (Past-later last now rest h (old_past.1))

-- In a run of the queue in which no sum overflows, the area plus the sum of the arrival times of the
-- jobs in the queue is what the departed jobs waited plus the stamp times the length.
pub QueueRun-IsBalanced :
    (is_server : Bool) (w : ℕ) (s : Simulation) → QueueRun is_server w s → IsBalanced w s
QueueRun-IsBalanced b w s (begins u e f) = empty-IsBalanced s e f
QueueRun-IsBalanced b w s (enters {s = u} run job now stamp fits) =
    enqueue-IsBalanced b w u job now stamp fits (QueueRun-IsBalanced b w u run)
QueueRun-IsBalanced b w s (leaves {w = w'} {s = u} run job rest now stamp e fits) =
    take_job-IsBalanced b w' u job rest now stamp e fits (QueueRun-IsBalanced b w' u run)

-- Little's law: in a run of the queue in which no sum overflows, once the queue is empty, the area
-- is the sum of the times that the jobs waited.
pub littles_law :
    (is_server : Bool) (w : ℕ) (s : Simulation)
    → QueueRun is_server w s
    → s.job_queue ≡ []
    → s.journal.stats.area_num_in_job_queue_us ≡ w
unfolding arrivals
littles_law b w s run e =
    let r : s.journal.stats.area_num_in_job_queue_us + arrivals []
        ≡ w + s.journal.queue_stamp * length {A = Job} [] =
      rw e at (QueueRun-IsBalanced b w s run).balance in
    omega (arith, r)
