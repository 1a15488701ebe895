-- ===== src/Printer.antt =====
-- `printer_t`, the thread arguments and the printer pool of include/printer.h, and the pool functions
-- of src/printer.c. Mutexes and condition variables stand for themselves: an argument struct is
-- modelled by which one each of its fields points to. What `pthread_create` answers is an argument,
-- and an access outside the array of printers is `none`.
pub mod PoolInvariant
pub mod Service
use concurrent_request_orche.Base.{
  ℕ, zero, suc, ◌+◌, ◌-◌, ◌≡◌, Bool, true, false, Option, none, some, List, [], ◌∷◌, leb, ◌==◌,
  if◌then◌else◌, get_elem?, set, length,
}
use concurrent_request_orche.Base.Int.{ℤ, pos}
use concurrent_request_orche.Config.{consumer_count_max}

pub record Printer : Type 0 where
  pub id : ℕ
  pub current_paper_count : ℤ
  pub total_papers_used : ℤ
  pub capacity : ℤ
  pub jobs_printed_count : ℕ
  pub last_job_completion_time_us : ℕ
  pub is_idle : Bool

pub data Mutex : Type 0 where
  job_queue paper_refill_queue stats simulation_state : Mutex

pub data Cond : Type 0 where
  job_queue_not_empty refill_needed refill_supplier : Cond

-- `printer_thread_args_t`, less the pointers that are the same in every copy.
pub record PrinterThreadArgs : Type 0 where
  pub paper_refill_queue_mutex : Mutex
  pub job_queue_mutex : Mutex
  pub stats_mutex : Mutex
  pub simulation_state_mutex : Mutex
  pub job_queue_not_empty_cv : Cond
  pub refill_needed_cv : Cond
  pub refill_supplier_cv : Cond
  pub printer : Option ℕ

pub record PrinterInstance : Type 0 where
  pub printer : Printer
  pub args : Option PrinterThreadArgs
  pub active : Bool

pub record PrinterPool : Type 0 where
  pub printers : List PrinterInstance
  pub active_count : ℕ
  pub min_count : ℕ
  pub last_scale_time_us : ℕ
  pub low_queue_start_time_us : ℕ

new_printer : (i : ℕ) (paper_capacity : ℤ) → PrinterInstance
new_printer i paper_capacity = record {
  printer = record {
    id = i + 1;
    current_paper_count = paper_capacity;
    total_papers_used = pos 0;
    capacity = paper_capacity;
    jobs_printed_count = 0;
    last_job_completion_time_us = 0;
    is_idle = true;
  };
  args = none;
  active = false;
}

-- The loop of `printer_pool_init`, over the `n` slots from `i` on.
init_slots : (n i : ℕ) → ℤ → List PrinterInstance
init_slots zero i paper_capacity = []
init_slots (suc n) i paper_capacity =
    new_printer i paper_capacity ∷ init_slots n (i + 1) paper_capacity

unfoldable pub printer_pool_init : (min_printers : ℕ) (paper_capacity : ℤ) → PrinterPool
unfolding init_slots new_printer
printer_pool_init min_printers paper_capacity = record {
  printers = init_slots consumer_count_max 0 paper_capacity;
  active_count = 0;
  min_count = min_printers;
  last_scale_time_us = 0;
  low_queue_start_time_us = 0;
}

-- `pool->printers[printer_id - 1]`; the array has no element before its first.
abbrev pub slot : PrinterPool → (printer_id : ℕ) → Option PrinterInstance
slot pool printer_id = if printer_id == 0 then none else get_elem? pool.printers (printer_id - 1)

abbrev pub with_args : (index : ℕ) → PrinterThreadArgs → PrinterInstance → PrinterInstance
with_args index shared_args p = record p {
  args = some (record shared_args { printer = some index });
}

-- A thread that could not be created leaves the copied arguments behind.
unfoldable pub start_in :
    (created : Bool)
    → PrinterPool
    → (index : ℕ) → PrinterThreadArgs
    → PrinterInstance
    → PrinterPool × Bool
start_in created pool index shared_args p =
    if p.active
    then (pool, false)
    else if created
    then (
      record pool {
        printers =
            set pool.printers index (record (with_args index shared_args p) { active = true });
        active_count = pool.active_count + 1;
      },
      true,
    )
    else (record pool { printers = set pool.printers index (with_args index shared_args p) }, false)

unfoldable pub printer_pool_start_printer :
    (created : Bool)
    → PrinterPool
    → (printer_id : ℕ) → PrinterThreadArgs
    → Option (PrinterPool × Bool)
unfolding start_in
printer_pool_start_printer created pool printer_id shared_args =
    if leb consumer_count_max pool.active_count
    then some (pool, false)
    else elim (slot pool printer_id) [
      | none ↦ none
      | some p ↦ some (start_in created pool (printer_id - 1) shared_args p)
    ]

-- The loop of `main` that starts the printers `i`, `i + 1`, …, one for each answer of
-- `pthread_create`.
unfoldable pub start_printers :
    (answers : List Bool) (i : ℕ) → PrinterThreadArgs → PrinterPool → Option PrinterPool
start_printers [] i shared_args pool = some pool
start_printers (created ∷ answers) i shared_args pool =
    elim (printer_pool_start_printer created pool i shared_args) [
      | none ↦ none
      | some (pool', _) ↦ start_printers answers (i + 1) shared_args pool'
    ]

-- The indices whose threads `printer_pool_join_all` waits for, in order.
unfoldable pub printer_pool_join_all : List PrinterInstance → (i : ℕ) → List ℕ
printer_pool_join_all [] i = []
printer_pool_join_all (p ∷ ps) i =
    let rest = printer_pool_join_all ps (i + 1) in if p.active then i ∷ rest else rest
