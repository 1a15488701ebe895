-- ===== src/Autoscaling.antt =====
-- src/autoscaling.c. Each function runs under `pool_mutex`, so it is a function on the pool; `now` is
-- the clock reading. The lines that are written are in Thread. An access outside the array of printers
-- is `none`.
pub mod Decisions
pub mod Scan
pub mod Scaling
pub mod Round
pub mod Gap
pub mod Thread
mod Tests
use concurrent_request_orche.Base.{
  ℕ, zero, suc, ◌+◌, ◌-◌, ◌≡◌, Bool, true, false, not, ◌&&◌, Option, none, some, leb, ltb, ◌==◌,
  if◌then◌else◌, get_elem?, set, List,
}
use concurrent_request_orche.Words.{sub64}
use concurrent_request_orche.Config.{
  consumer_count_max, autoscale_cooldown_us, autoscale_scale_down_wait_us,
  autoscale_idle_timeout_us, autoscale_scale_down_threshold, autoscale_threshold_2_printers,
  autoscale_threshold_3_printers, autoscale_threshold_4_printers,
}
use concurrent_request_orche.Printer.{
  Mutex, Cond, Printer, PrinterThreadArgs, PrinterInstance, PrinterPool, printer_pool_start_printer,
}

unfoldable pub get_scale_up_threshold : (active_printers : ℕ) → ℕ
get_scale_up_threshold active_printers =
    if active_printers == 2
    then autoscale_threshold_2_printers
    else if active_printers == 3
    then autoscale_threshold_3_printers
    else if active_printers == 4
    then autoscale_threshold_4_printers
    else 999_999

-- `current_time_us - pool->last_scale_time_us < CONFIG_AUTOSCALE_COOLDOWN_US`.
abbrev pub cooling : PrinterPool → (now : ℕ) → Bool
cooling pool now = ltb (sub64 now pool.last_scale_time_us) autoscale_cooldown_us

unfoldable pub should_scale_up : PrinterPool → (queue_length now : ℕ) → Bool
unfolding get_scale_up_threshold
should_scale_up pool queue_length now =
    if leb consumer_count_max pool.active_count
    then false
    else if cooling pool now
    then false
    else leb (get_scale_up_threshold pool.active_count) queue_length

-- The scan of the slots `low + k - 1` down to `low` for the first that passes the test.
unfoldable pub scan_down :
    (PrinterInstance → Bool) → List PrinterInstance → (low k : ℕ) → Option (Option ℕ)
scan_down test printers low zero = some none
scan_down test printers low (suc k) = elim (get_elem? printers (low + k)) [
  | none ↦ none
  | some p ↦ elim (test p) [ true ↦ some (some (low + k)) | false ↦ scan_down test printers low k ]
]

abbrev pub idle_for_long : (now : ℕ) → PrinterInstance → Bool
idle_for_long now p =
    p.active
    && (p.printer.is_idle
        && leb autoscale_idle_timeout_us (sub64 now p.printer.last_job_completion_time_us))

abbrev pub is_idle_printer : PrinterInstance → Bool
is_idle_printer p = p.active && p.printer.is_idle

abbrev is_found : Option ℕ → Bool
is_found none = false
is_found (some _) = true

unfoldable pub should_scale_down :
    PrinterPool → (queue_length now : ℕ) → Option (PrinterPool × Bool)
unfolding scan_down
should_scale_down pool queue_length now =
    if leb pool.active_count pool.min_count
    then some (pool, false)
    else if cooling pool now
    then some (pool, false)
    else if leb autoscale_scale_down_threshold queue_length
    then some (record pool { low_queue_start_time_us = 0 }, false)
    else if pool.low_queue_start_time_us == 0
    then some (record pool { low_queue_start_time_us = now }, false)
    else if ltb (sub64 now pool.low_queue_start_time_us) autoscale_scale_down_wait_us
    then some (pool, false)
    else elim (scan_down (idle_for_long now) pool.printers pool.min_count
        (pool.active_count - pool.min_count)) [
          | none ↦ none
          | some found ↦ some (pool, is_found found)
        ]

-- What `autoscaling_thread_args_t` gives to a new printer. It has no field for the mutex of the
-- refill queue, and the code puts the one of the job queue in its place.
abbrev pub scaled_args : PrinterThreadArgs
scaled_args = record {
  paper_refill_queue_mutex = Mutex.job_queue;
  job_queue_mutex = Mutex.job_queue;
  stats_mutex = Mutex.stats;
  simulation_state_mutex = Mutex.simulation_state;
  job_queue_not_empty_cv = Cond.job_queue_not_empty;
  refill_needed_cv = Cond.refill_needed;
  refill_supplier_cv = Cond.refill_supplier;
  printer = none;
}

unfoldable pub scale_up : (created : Bool) → PrinterPool → (now : ℕ) → Option (PrinterPool × Bool)
scale_up created pool now =
    if leb consumer_count_max pool.active_count
    then some (pool, false)
    else elim (printer_pool_start_printer created pool (pool.active_count + 1) scaled_args) [
      | none ↦ none
      | some (pool', b) ↦ some (
          if b
          then (record pool' { last_scale_time_us = now; low_queue_start_time_us = 0 }, true)
          else (pool', false))
    ]

-- `printers[i].active = 0; active_count--;` and the time stamps, after the thread was joined.
abbrev pub removed : PrinterPool → (now i : ℕ) → PrinterInstance → PrinterPool
removed pool now i p = record {
  printers = set pool.printers i (record p { active = false });
  active_count = pool.active_count - 1;
  min_count = pool.min_count;
  last_scale_time_us = now;
  low_queue_start_time_us = 0;
}

-- The second half of `scale_down`, for what the scan found.
unfoldable pub stop_printer : PrinterPool → (now : ℕ) → Option ℕ → Option (PrinterPool × Option ℕ)
stop_printer pool now none = some (pool, none)
stop_printer pool now (some i) = elim (get_elem? pool.printers i) [
  | none ↦ none
  | some p ↦ some (removed pool now i p, some i)
]

-- With the index of the printer that was stopped.
unfoldable pub scale_down : PrinterPool → (now : ℕ) → Option (PrinterPool × Option ℕ)
unfolding scan_down stop_printer
scale_down pool now =
    if leb pool.active_count pool.min_count
    then some (pool, none)
    else elim (scan_down is_idle_printer pool.printers pool.min_count
        (pool.active_count - pool.min_count)) [
          | none ↦ none
          | some found ↦ stop_printer pool now found
        ]

-- One round of `autoscaling_thread_func` that finds no reason to end. `scale_down` reads the clock
-- again, as `scale_up` does, at `later`.
unfoldable pub autoscaling_round :
    (created : Bool) → PrinterPool → (queue_length now later : ℕ) → Option PrinterPool
autoscaling_round created pool queue_length now later =
    if should_scale_up pool queue_length now
    then elim (scale_up created pool later) [ none ↦ none | some (pool', _) ↦ some pool' ]
    else elim (should_scale_down pool queue_length now) [
      | none ↦ none
      | some (pool', true) ↦ elim (scale_down pool' later) [
        | none ↦ none
        | some (pool'', _) ↦ some pool''
      ]
      | some (pool', false) ↦ some pool'
    ]
