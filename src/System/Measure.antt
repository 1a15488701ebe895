-- ===== src/System/Measure.antt =====
-- How much work is left to the threads of src/: every step that a thread takes by itself uses some
-- of it up.
pub mod Short
pub mod Falls
use concurrent_request_orche.Base.{
  ℕ, zero, suc, ◌+◌, ◌-◌, ◌*◌, ◌≤◌, ◌≡◌, Bool, some, List, [], ◌∷◌, get_elem?, set, length, map,
  if◌then◌else◌, arith,
}
use concurrent_request_orche.Printer.{Printer}
use concurrent_request_orche.Printer.Service.{lacks}
use concurrent_request_orche.PaperRefiller.{is_filled}
use concurrent_request_orche.System.{
  Receiver, between, arrived, refusing, finished, Doing, looking, holding, printing, lacking,
  stopped, Refiller, waiting, filling, ended, Catcher, listening, flagged, caught, Worker, System,
  new_worker,
}

abbrev pub receiver_left : (num_jobs : ℕ) → Receiver → ℕ
receiver_left m (between n p) = 20 * (m - n) + 1
receiver_left m (arrived job n p) = 20 * (m - (n + 1)) + 16
receiver_left m (refusing job n p) = 20 * (m - (n + 1)) + 6
receiver_left m finished = 0

-- A printer that is not full may still have to ask for paper and be filled.
abbrev pub worker_left : Printer → Doing → ℕ
worker_left p looking = if is_filled p then 5 else 11
worker_left p (holding job) = 13
worker_left p (printing job) = 12
worker_left p (lacking job since) = if is_filled p then (if lacks p job then 1 else 6) else 7
worker_left p stopped = 0

abbrev pub refiller_left : Refiller → ℕ
refiller_left waiting = 1
refiller_left (filling i since needed) = 2
refiller_left ended = 0

abbrev pub catcher_left : Catcher → ℕ
catcher_left listening = 2
catcher_left flagged = 1
catcher_left caught = 0

pub workers_left : List Worker → ℕ
workers_left [] = 0
workers_left (w ∷ ws) = worker_left w.printer w.doing + workers_left ws

abbrev pub measure : (num_jobs : ℕ) → System → ℕ
measure m σ =
    receiver_left m σ.receiver
    + 10 * length σ.sim.job_queue
    + 3 * length σ.sim.refill_queue
    + refiller_left σ.refiller
    + catcher_left σ.catcher
    + workers_left σ.workers

pub workers_left-set :
    (ws : List Worker) (i : ℕ) (w v : Worker)
    → get_elem? ws i ≡ some w
    → workers_left (set ws i v) + worker_left w.printer w.doing
      ≡ workers_left ws + worker_left v.printer v.doing
unfolding workers_left
workers_left-set [] i w v h = absurd (ground arith)
workers_left-set (x ∷ ws) zero w v h = (let e : x ≡ w = ground arith in rw e (omega arith))
workers_left-set (x ∷ ws) (suc i) w v h = omega (arith, workers_left-set ws i w v h)

pub workers_left-map : (ps : List Printer) → workers_left (map new_worker ps) ≤ 11 * length ps
unfolding workers_left
workers_left-map [] = omega arith
workers_left-map (p ∷ ps) = ground (arith, workers_left-map ps)
