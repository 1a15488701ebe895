-- ===== src/Printer/Service/Paper.antt =====
-- The paper of a printer through the segments of src/printer.c.
use concurrent_request_orche.Base.{◌≡◌, ◌⊎◌, Bool, true, false, List, [], ◌∷◌, arith}
use concurrent_request_orche.Base.Int.{pos, ◌+ℤ◌, ◌≤ℤ◌}
use concurrent_request_orche.Job.{Job}
use concurrent_request_orche.Printer.{Printer}
use concurrent_request_orche.Simulation.{Simulation}
use concurrent_request_orche.Printer.Service.{
  Look, ends, sleeps, short_of_paper, takes, lacks, look, is_exit_condition_met,
}

-- What each answer of the look at the queue means.
abbrev pub Meaning : Printer → Simulation → (terminate : Bool) → Look → Type 0
Meaning printer s terminate ends =
    (terminate ≡ true) ⊎ (s.all_jobs_arrived ≡ true) × (s.job_queue ≡ [])
Meaning printer s terminate sleeps =
    (terminate ≡ false) × (s.all_jobs_arrived ≡ false) × (s.job_queue ≡ [])
Meaning printer s terminate (short_of_paper job) =
    (terminate ≡ false)
    × ((rest : List Job) × (s.job_queue ≡ job ∷ rest))
    × (printer.current_paper_count +ℤ pos 1 ≤ℤ job.papers_required)
Meaning printer s terminate (takes job rest) =
    (terminate ≡ false)
    × (s.job_queue ≡ job ∷ rest)
    × (job.papers_required ≤ℤ printer.current_paper_count)

-- A printer ends its loop exactly when it is told to, or when all jobs have arrived and none is
-- queued; it sleeps on an empty queue only while jobs may still arrive; and it takes the oldest job
-- only with paper enough for it.
pub look_lem :
    (terminate : Bool) (printer : Printer) (s : Simulation)
    → Meaning printer s terminate (look terminate printer s)
unfolding look is_exit_condition_met lacks ◌+ℤ◌
look_lem terminate printer s = ground arith
