-- ===== src/Cli/WholeRun.antt =====
-- What a whole run of src/cli.c gives.
use Prim.Native.String.{String}
use concurrent_request_orche.Base.{
  ℕ, suc, ◌+◌, ◌*◌, ◌≤◌, ◌≡◌, refl, ap, ◌⊎◌, inl, inr, false, none, some, List, [], ◌∷◌, ◌++◌,
  append_assoc, length, length-map, get_elem?, Option-cases, arith,
}
use concurrent_request_orche.Base.Int.{pos_part}
use concurrent_request_orche.Printer.{PrinterPool}
use concurrent_request_orche.Words.{sub64}
use concurrent_request_orche.Journal.{Journal, Message, Output, line}
use concurrent_request_orche.ConsoleHandler.{log_simulation_end}
use concurrent_request_orche.LogRouter.{console_ops, emit_simulation_end, emit_statistics}
use concurrent_request_orche.Preprocessing.{Doubles}
use concurrent_request_orche.Preprocessing.Valid.{IsValid, process_args_lem}
use concurrent_request_orche.Simulation.{backend}
use concurrent_request_orche.System.{Worker, listening, stopped, new_worker, start_system}
use concurrent_request_orche.System.Steps.{own_steps, lost_jobs}
use concurrent_request_orche.System.Workers.{Steps-length}
use concurrent_request_orche.System.Conservation.{departed, hands, held}
use concurrent_request_orche.System.Completion.{completion}
use concurrent_request_orche.System.Safety.{IsStocked, Steps-IsStocked}
use concurrent_request_orche.System.Progress.Bounded.{own_steps-bound}
use concurrent_request_orche.Cli.Stocked.{
  Stocked, start_printers-Stocked, init-Stocked, running-AllProvided,
}
use concurrent_request_orche.Cli.{
  high_load, shared_printer_args, prepare_pool, running_printers, Run, final_journal, thread_params,
}

-- The report changes none of the counts.
final-departed :
    (now : ℕ) (j : Journal)
    → ((final_journal now j).stats.total_jobs_arrived ≡ j.stats.total_jobs_arrived)
      × (departed (final_journal now j).stats ≡ departed j.stats)
unfolding final_journal emit_statistics emit_simulation_end console_ops log_simulation_end
final-departed now j = (refl, refl)

final-out :
    (now : ℕ) (j : Journal)
    → (final_journal now j).out
      ≡ j.out
        ++ line
            (sub64 now j.reference_time_us)
            (Message.simulation_ends (sub64 now j.reference_time_us))
          ∷ Output.statistics (final_journal now j).stats
          ∷ []
unfolding final_journal emit_statistics emit_simulation_end console_ops log_simulation_end
final-out now j = append_assoc j.out _ _

-- A list that has no first element is as long as none.
emptied {ℓ} : {A : Type ℓ} (xs : List A) → length xs ≡ 0 → xs ≡ []
emptied [] h = refl
emptied (x ∷ xs) h = absurd (omega arith)

no_first {ℓ} : {A : Type ℓ} (xs : List A) → get_elem? xs 0 ≡ none → length xs ≡ 0
no_first [] h = refl
no_first (x ∷ xs) h = absurd (cc)

nobody_holds :
    (ws : List Worker)
    → ((i : ℕ) (w : Worker) → get_elem? ws i ≡ some w → w.doing ≡ stopped)
    → hands ws ≡ 0
unfolding hands
nobody_holds [] h = refl
nobody_holds (w ∷ ws) h =
    omega (arith, nobody_holds ws (λ i v e. h (suc i) v e), ap held (h 0 w refl))

start-IsStocked :
    (made now : ℕ) (pool : PrinterPool)
    → Stocked pool
    → IsStocked (start_system (backend false) made now (running_printers pool.printers))
unfolding start_system
start-IsStocked made now pool h = record {
  provided = running-AllProvided pool.printers h;
  adding = omega arith;
}

all_accounted :
    (D : Doubles) (rates : D.Double × D.Double) (args : List String) (r : Run D rates args)
    → r.last.catcher ≡ listening
    → let j = final_journal r.end_us r.last.sim.journal in
      (running_printers r.pool.printers ≡ [])
      ⊎ (r.last.sim.job_queue ≡ [])
        × (j.stats.total_jobs_arrived
            ≡ j.stats.total_jobs_served
              + j.stats.total_jobs_dropped
              + j.stats.total_jobs_removed
              + lost_jobs false
                  (thread_params r.chosen)
                  (pos_part r.chosen.num_jobs)
                  r.service_ms
                  r.refill_us
                  r.steps)
all_accounted D rates args r calm = elim (Option-cases (get_elem? r.last.workers 0)) [
  | inl nobody ↦ inl (
      emptied (running_printers r.pool.printers) (
        unfold start_system in
        omega (
          arith,
          Steps-length false (thread_params r.chosen) (pos_part r.chosen.num_jobs) r.service_ms
              r.refill_us
              (start_system (backend false) r.made r.start_us (running_printers r.pool.printers))
              r.last r.steps,
          length-map (running_printers r.pool.printers) new_worker,
          no_first r.last.workers nobody,
        )))
  | inr (w, at) ↦ inr (
      let c =
        completion false (thread_params r.chosen) (pos_part r.chosen.num_jobs) r.service_ms
          r.refill_us r.made r.start_us (running_printers r.pool.printers) r.last 0 w r.steps calm
          at (r.printers_joined 0 w at) in
      (
        c.1,
        omega (
          arith,
          c.2,
          nobody_holds r.last.workers r.printers_joined,
          final-departed r.end_us r.last.sim.journal,
        ),
      ))
]

-- A run of the program without the autoscaler (`-auto_scale 0`) and without a signal, if the built-in
-- parameters are valid: its parameters are valid, those of the arrivals included; the threads take no more than 20 steps for each job and 11 for each printer,
-- and 4 more, where a job or a request that is lost for want of memory is not counted as a step; no
-- printer is left with a negative amount of paper; the last two outputs are the end of the simulation
-- and its statistics; and unless no printer could be started, the queue is empty and each job that
-- arrived was served, dropped or removed and is counted so, or was lost since no node could be
-- allocated for it.
pub whole_run :
    (D : Doubles) (rates : D.Double × D.Double) (args : List String) (r : Run D rates args)
    → IsValid D (high_load (rates.0) (rates.1))
    → r.last.catcher ≡ listening
    → let j = final_journal r.end_us r.last.sim.journal in
      let n = pos_part r.chosen.num_jobs in
      IsValid D r.chosen
      × (own_steps false (thread_params r.chosen) n r.service_ms r.refill_us r.steps
          ≤ 20 * n + 11 * length (running_printers r.pool.printers) + 4)
      × IsStocked r.last
      × ((out : List Output) × (t : ℕ) × (j.out
            ≡ out ++ line t (Message.simulation_ends t) ∷ Output.statistics j.stats ∷ []))
      × ((running_printers r.pool.printers ≡ [])
          ⊎ (r.last.sim.job_queue ≡ [])
            × (j.stats.total_jobs_arrived
                ≡ j.stats.total_jobs_served
                  + j.stats.total_jobs_dropped
                  + j.stats.total_jobs_removed
                  + lost_jobs false (thread_params r.chosen) n r.service_ms r.refill_us r.steps))
unfolding prepare_pool
whole_run D rates args r valid calm =
    let ok = (process_args_lem D args (high_load (rates.0) (rates.1)) r.chosen valid r.parsed).0 in
    let pool_stocked = start_printers-Stocked r.answers 1 shared_printer_args _ r.pool r.prepared (
      init-Stocked (pos_part r.chosen.consumer_count) r.chosen.printer_paper_capacity
        (omega (arith, ok.paper_least))) in
    (
      ok,
      own_steps-bound false (thread_params r.chosen) (pos_part r.chosen.num_jobs) r.service_ms
          r.refill_us r.made r.start_us (running_printers r.pool.printers) r.last r.steps,
      Steps-IsStocked false (thread_params r.chosen) (pos_part r.chosen.num_jobs) r.service_ms
          r.refill_us
          (start_system (backend false) r.made r.start_us (running_printers r.pool.printers)) r.last
          r.steps (start-IsStocked r.made r.start_us r.pool pool_stocked),
      (
        r.last.sim.journal.out,
        sub64 r.end_us r.last.sim.journal.reference_time_us,
        final-out r.end_us r.last.sim.journal,
      ),
      all_accounted D rates args r calm,
    )
