-- ===== src/System/Shares.antt =====
-- What the counts of a reachable state mean for the reports of src/simulation_stats.c.
use concurrent_request_orche.Base.{ℕ, Bool, List, arith}
use concurrent_request_orche.Base.Int.{ℤ}
use concurrent_request_orche.Printer.{Printer}
use concurrent_request_orche.Simulation.{Parameters, backend}
use concurrent_request_orche.SimulationStats.Averages.{calculate_job_drop_probability}
use concurrent_request_orche.SimulationStats.Defined.{IsShare, drop_probability-IsShare}
use concurrent_request_orche.System.{System, start_system}
use concurrent_request_orche.System.Steps.{Steps}
use concurrent_request_orche.System.Conservation.{conservation}

-- In every state that the threads can reach from the start, the reported probability of a drop is a
-- fraction between zero and one.
pub drop_probability_lem :
    (is_server : Bool) (params : Parameters) (num_jobs : ℕ) (service_ms refill_us : ℤ → ℤ)
    (made now : ℕ) (printers : List Printer) (σ : System)
    → Steps is_server params num_jobs service_ms refill_us
        (start_system (backend is_server) made now printers)
        σ
    → IsShare (calculate_job_drop_probability σ.sim.journal.stats)
drop_probability_lem b params n service_ms refill_us made now printers σ steps =
    drop_probability-IsShare σ.sim.journal.stats
      (omega (arith, conservation b params n service_ms refill_us made now printers σ steps))
