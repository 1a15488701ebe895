-- ===== src/System/Steps.antt =====
-- The steps of the system: one segment of one thread of src/job_receiver.c, src/printer.c,
-- src/paper_refiller.c or src/signalcatcher.c each.
use concurrent_request_orche.Base.{
  ◌==◌, ℕ, ◌+◌, ◌≤◌, ◌<◌, ◌≡◌, ◌≢◌, ◌⊎◌, Bool, true, false, some, List, get_elem?, set, length,
}
use concurrent_request_orche.Base.Int.{ℤ}
use concurrent_request_orche.Job.{Job, init_job}
use concurrent_request_orche.Simulation.{Parameters, backend}
use concurrent_request_orche.JobReceiver.{
  is_full, arrive, drop_job_from_system, enqueue, all_arrived,
}
use concurrent_request_orche.Printer.Service.{
  Look, look, lacks, take_job, begin_service, finish_service, request_refill, resume, exit_printer,
}
use concurrent_request_orche.PaperRefiller.{
  Demand, next_demand, take_demand, papers_needed, is_filled, begin_refill, finish_refill,
}
use concurrent_request_orche.SignalCatcher.{stop_simulation, empty_queue_if_terminating}
use concurrent_request_orche.System.{
  between, arrived, refusing, finished, looking, holding, printing, lacking, stopped, waiting,
  filling, ended, listening, flagged, caught, Worker, System, work,
}

abbrev one_if : Bool → ℕ
one_if true = 1
one_if false = 0

-- The segments of one configuration: the backend, the parameters, the number of jobs, and the times
-- that the floating-point divisions give.
module _ (is_server : Bool) (params : Parameters) (num_jobs : ℕ)
    (service_ms refill_us : ℤ → ℤ) where
  pub data Step : System → System → Type 0 where
    passes_over :
        {σ : System} (n p : ℕ)
        → σ.receiver ≡ between n p
        → n < num_jobs
        → Step σ (record σ { receiver = between (n + 1) p })
    arrives :
        {σ : System} (n p now : ℕ) (papers : ℤ)
        → σ.receiver ≡ between n p
        → n < num_jobs
        → σ.sim.terminate_now ≡ false
        → Step σ (record σ {
          receiver =
              arrived
                ((arrive
                  (backend is_server)
                  now
                  p
                  (init_job (n + 1) params.job_arrival_time_us papers)
                  σ.sim).0)
                n
                p;
          sim =
              (arrive
                (backend is_server)
                now
                p
                (init_job (n + 1) params.job_arrival_time_us papers)
                σ.sim).1;
        })
    arrivals_end :
        {σ : System} (n p : ℕ)
        → σ.receiver ≡ between n p
        → (num_jobs ≤ n) ⊎ (σ.sim.terminate_now ≡ true)
        → Step σ (record σ { receiver = finished; sim = all_arrived σ.sim })
    receiver_cancelled :
        {σ : System} (n p : ℕ)
        → σ.receiver ≡ between n p
        → σ.catcher ≢ listening
        → Step σ (record σ { receiver = finished })
    refuses :
        {σ : System} (job : Job) (n p : ℕ)
        → σ.receiver ≡ arrived job n p
        → is_full params.queue_capacity (length σ.sim.job_queue) ≡ true
        → Step σ (record σ { receiver = refusing job n p })
    drops :
        {σ : System} (job : Job) (n p : ℕ)
        → σ.receiver ≡ refusing job n p
        → Step σ (record σ {
          receiver = between (n + 1) job.system_arrival_time_us;
          sim = drop_job_from_system (backend is_server) p job σ.sim;
        })
    admits :
        {σ : System} (job : Job) (n p now now' : ℕ)
        → σ.receiver ≡ arrived job n p
        → is_full params.queue_capacity (length σ.sim.job_queue) ≡ false
        → Step σ (record σ {
          receiver = between (n + 1) job.system_arrival_time_us;
          sim = enqueue (backend is_server) true now now' job σ.sim;
        })
    loses_job :
        {σ : System} (job : Job) (n p now : ℕ)
        → σ.receiver ≡ arrived job n p
        → is_full params.queue_capacity (length σ.sim.job_queue) ≡ false
        → Step σ (record σ {
          receiver = between (n + 1) job.system_arrival_time_us;
          sim = enqueue (backend is_server) false now now job σ.sim;
        })
    takes_job :
        {σ : System} (i : ℕ) (w : Worker) (terminate : Bool) (job : Job) (rest : List Job)
        (stamp now : ℕ)
        → get_elem? σ.workers i ≡ some w
        → w.doing ≡ looking
        → (terminate ≡ false) ⊎ (σ.sim.terminate_now ≡ true)
        → look terminate w.printer σ.sim ≡ Look.takes job rest
        → Step σ (
            work σ i
              (record w {
                doing = holding ((take_job (backend is_server) stamp now job rest σ.sim).0);
              })
              ((take_job (backend is_server) stamp now job rest σ.sim).1))
    asks_for_paper :
        {σ : System} (i : ℕ) (w : Worker) (terminate : Bool) (job : Job) (now : ℕ)
        → get_elem? σ.workers i ≡ some w
        → w.doing ≡ looking
        → (terminate ≡ false) ⊎ (σ.sim.terminate_now ≡ true)
        → look terminate w.printer σ.sim ≡ Look.short_of_paper job
        → Step σ (
            work σ i
              (record w { doing = lacking job now })
              (request_refill (backend is_server) true now i w.printer job.id σ.sim))
    asks_in_vain :
        {σ : System} (i : ℕ) (w : Worker) (terminate : Bool) (job : Job) (now : ℕ)
        → get_elem? σ.workers i ≡ some w
        → w.doing ≡ looking
        → (terminate ≡ false) ⊎ (σ.sim.terminate_now ≡ true)
        → look terminate w.printer σ.sim ≡ Look.short_of_paper job
        → Step σ (
            work σ i
              (record w { doing = lacking job now })
              (request_refill (backend is_server) false now i w.printer job.id σ.sim))
    stops :
        {σ : System} (i : ℕ) (w : Worker) (terminate : Bool)
        → get_elem? σ.workers i ≡ some w
        → w.doing ≡ looking
        → (terminate ≡ false) ⊎ (σ.sim.terminate_now ≡ true)
        → look terminate w.printer σ.sim ≡ Look.ends
        → Step σ (work σ i (record w { doing = stopped }) (exit_printer σ.sim))
    begins :
        {σ : System} (i : ℕ) (w : Worker) (job : Job) (now : ℕ)
        → get_elem? σ.workers i ≡ some w
        → w.doing ≡ holding job
        → Step σ (
            work σ i
              (record {
                printer = (begin_service (backend is_server) service_ms now w.printer job σ.sim).0;
                doing =
                    printing
                      ((begin_service (backend is_server) service_ms now w.printer job σ.sim).1);
              })
              ((begin_service (backend is_server) service_ms now w.printer job σ.sim).2))
    finishes :
        {σ : System} (i : ℕ) (w : Worker) (job : Job) (now : ℕ)
        → get_elem? σ.workers i ≡ some w
        → w.doing ≡ printing job
        → Step σ (
            work σ i
              (record {
                printer = (finish_service (backend is_server) now w.printer job σ.sim).0;
                doing = looking;
              })
              ((finish_service (backend is_server) now w.printer job σ.sim).1))
    resumes :
        {σ : System} (i : ℕ) (w : Worker) (job : Job) (since now : ℕ)
        → get_elem? σ.workers i ≡ some w
        → w.doing ≡ lacking job since
        → lacks w.printer job ≡ false
        → Step σ (
            work σ i
              (record w { doing = looking })
              (resume (backend is_server) since now w.printer σ.sim))
    gives_up :
        {σ : System} (i : ℕ) (w : Worker) (job : Job) (since : ℕ)
        → get_elem? σ.workers i ≡ some w
        → w.doing ≡ lacking job since
        → σ.sim.terminate_now ≡ true
        → Step σ (work σ i (record w { doing = stopped }) (exit_printer σ.sim))
    fetches :
        {σ : System} (i : ℕ) (rest : List ℕ) (w : Worker) (now : ℕ)
        → σ.refiller ≡ waiting
        → next_demand σ.sim ≡ Demand.serves i rest
        → get_elem? σ.workers i ≡ some w
        → is_filled w.printer ≡ false
        → Step σ (record σ {
          refiller = filling i now (papers_needed w.printer);
          sim = begin_refill (backend is_server) refill_us now w.printer (take_demand rest σ.sim);
        })
    finds_full :
        {σ : System} (i : ℕ) (rest : List ℕ) (w : Worker)
        → σ.refiller ≡ waiting
        → next_demand σ.sim ≡ Demand.serves i rest
        → get_elem? σ.workers i ≡ some w
        → is_filled w.printer ≡ true
        → Step σ (record σ { sim = take_demand rest σ.sim })
    fills :
        {σ : System} (i since : ℕ) (needed : ℤ) (w : Worker) (now : ℕ)
        → σ.refiller ≡ filling i since needed
        → get_elem? σ.workers i ≡ some w
        → Step σ (record σ {
          refiller = waiting;
          sim = (finish_refill (backend is_server) since now needed w.printer σ.sim).1;
          workers = set σ.workers i (record w {
            printer = (finish_refill (backend is_server) since now needed w.printer σ.sim).0;
          });
        })
    refiller_ends :
        {σ : System}
        → σ.refiller ≡ waiting
        → next_demand σ.sim ≡ Demand.ends
        → Step σ (record σ { refiller = ended })
    refiller_cancelled :
        {σ : System}
        → (σ.sim.all_jobs_served ≡ true) ⊎ (σ.catcher ≢ listening)
        → Step σ (record σ { refiller = ended })
    signal :
        {σ : System} (now : ℕ)
        → σ.catcher ≡ listening
        → Step σ
            (record σ { catcher = flagged; sim = stop_simulation (backend is_server) now σ.sim })
    empties :
        {σ : System} (clock : ℕ → ℕ × ℕ × ℕ)
        → σ.catcher ≡ flagged
        → Step σ (record σ {
          catcher = caught;
          sim = empty_queue_if_terminating (backend is_server) clock σ.sim;
        })

  -- Any number of steps.
  pub data Steps : System → System → Type 0 where
    here : {σ : System} → Steps σ σ
    then : {σ τ υ : System} → Steps σ τ → Step τ υ → Steps σ υ

  -- Whether a thread takes the step by itself: no signal, no cancellation, and no failed allocation.
  abbrev pub own : {σ τ : System} → Step σ τ → ℕ
  own (Step.signal now e) = 0
  own (Step.receiver_cancelled n p e d) = 0
  own (Step.refiller_cancelled d) = 0
  own (Step.passes_over n p e lt) = 0
  own (Step.loses_job job n p now e f) = 0
  own (Step.asks_in_vain i w terminate job now at d t e) = 0
  own _ = 1

  abbrev pub own_steps : {σ τ : System} → Steps σ τ → ℕ
  own_steps here = 0
  own_steps (then rest step) = own_steps rest + own step

  -- Whether the node of a list could not be allocated: the job is lost, or the request for paper is.
  abbrev pub loses : {σ τ : System} → Step σ τ → ℕ
  loses (Step.loses_job job n p now e f) = 1
  loses _ = 0

  -- By the index of the printer.
  abbrev pub is_vain : {σ τ : System} → (index : ℕ) → Step σ τ → ℕ
  is_vain index (Step.asks_in_vain i w terminate job now at d t e) = one_if (i == index)
  is_vain index _ = 0

  abbrev pub lost_jobs : {σ τ : System} → Steps σ τ → ℕ
  lost_jobs here = 0
  lost_jobs (then rest step) = lost_jobs rest + loses step

  abbrev pub lost_requests : {σ τ : System} → (index : ℕ) → Steps σ τ → ℕ
  lost_requests index here = 0
  lost_requests index (then rest step) = lost_requests index rest + is_vain index step
