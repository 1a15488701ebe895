-- ===== src/Autoscaling/Scaling.antt =====
-- `scale_up` and `scale_down` of src/autoscaling.c, and the invariant of a running pool.
use concurrent_request_orche.Base.{
  ℕ, ◌+◌, ◌-◌, ◌≤◌, ◌<◌, ◌≡◌, refl, ap, inl, inr, Bool, true, false, Option, none, some, leb,
  if◌then◌else◌, get_elem?, Bool-cases, Defined, arith,
}
use concurrent_request_orche.Config.{consumer_count_max}
use concurrent_request_orche.Printer.{PrinterInstance, PrinterPool}
use concurrent_request_orche.Printer.PoolInvariant.{
  IsPool, Started, set-IsPool, printer_pool_start_printer_lem, get_elem?-lt, active_count-le,
  slot-suc,
}
use concurrent_request_orche.Autoscaling.{
  is_idle_printer, scaled_args, scale_up, removed, stop_printer, scale_down,
}
use concurrent_request_orche.Autoscaling.Scan.{Found, scan_down_lem}

-- Well formed, with at least the minimum of active printers.
pub record IsRunning (pool : PrinterPool) : Type 0 where
  pub pool_ok : IsPool pool
  pub enough : pool.min_count ≤ pool.active_count

pub restamp :
    {pool : PrinterPool} (last low : ℕ)
    → IsPool pool
    → IsPool (record pool { last_scale_time_us = last; low_queue_start_time_us = low })
restamp last low ok = record { sized = ok.sized; numbered = ok.numbered; counted = ok.counted }

-- After an attempt to scale up: one more active printer and fresh time stamps if it reports success,
-- and the same number and time stamp of the last scaling if not.
abbrev pub ScaledUp : PrinterPool → (now : ℕ) → PrinterPool × Bool → Type 0
ScaledUp pool now (pool', b) =
    IsPool pool'
    × (pool'.active_count ≡ pool.active_count + (if b then 1 else 0))
    × (pool'.min_count ≡ pool.min_count)
    × (pool'.last_scale_time_us ≡ (if b then now else pool.last_scale_time_us))

scale_up-Started :
    (now : ℕ) (created : Bool) (pool : PrinterPool) (p : PrinterInstance)
    (r : Option (PrinterPool × Bool))
    → Defined (Started created pool p) r
    → Defined (ScaledUp pool now) (elim r [
      | none ↦ none
      | some (pool', b) ↦ some (
          if b
          then (record pool' { last_scale_time_us = now; low_queue_start_time_us = 0 }, true)
          else (pool', false))
    ])
scale_up-Started now created pool p none h = h
scale_up-Started now created pool p (some (pool', true)) h = (restamp now 0 h.0, h.1, h.2, refl)
scale_up-Started now created pool p (some (pool', false)) h = (h.0, h.1, h.2, h.3)

-- `scale_up` stays inside the array, keeps the pool well formed, and counts what it starts.
pub scale_up_lem :
    (created : Bool) (pool : PrinterPool) (now : ℕ)
    → IsPool pool
    → Defined (ScaledUp pool now) (scale_up created pool now)
unfolding scale_up
scale_up_lem created pool now ok = elim (Bool-cases (leb consumer_count_max pool.active_count)) [
  | inl full ↦ rw full (ok, omega arith, refl, refl)
  | inr room ↦
      let (p, at) = get_elem?-lt pool.printers pool.active_count (ground (arith, ok.sized)) in
      rw room (
        scale_up-Started now created pool p _ (
          printer_pool_start_printer_lem created pool (pool.active_count + 1) scaled_args p ok
            (rw slot-suc at)))
]

-- After an attempt to scale down: either nothing changed, or one printer above the minimum that was
-- active and idle is inactive, the others are as they were and the time stamps are fresh.
abbrev pub ScaledDown : PrinterPool → (now : ℕ) → PrinterPool × Option ℕ → Type 0
ScaledDown pool now (pool', none) = pool' ≡ pool
ScaledDown pool now (pool', some i) =
    IsPool pool'
    × (pool.min_count ≤ i)
    × (i < pool.active_count)
    × ((p : PrinterInstance) × (get_elem? pool.printers i ≡ some p)
        × (is_idle_printer p ≡ true)
        × (pool' ≡ removed pool now i p))

count-pos :
    (pool : PrinterPool) (i : ℕ) (p : PrinterInstance)
    → IsPool pool
    → get_elem? pool.printers i ≡ some p
    → is_idle_printer p ≡ true
    → i < pool.active_count
    → pool.active_count - 1 + (if p.active then 1 else 0) ≡ pool.active_count + 0
count-pos pool i p ok at idle h = ground arith

stop-run :
    (pool : PrinterPool) (now i : ℕ) (p : PrinterInstance)
    → get_elem? pool.printers i ≡ some p
    → stop_printer pool now (some i) ≡ some (removed pool now i p, some i)
unfolding stop_printer
stop-run pool now i p at = ground arith

stop_printer_lem :
    (pool : PrinterPool) (now k : ℕ) (o : Option ℕ)
    → IsPool pool
    → pool.min_count + k ≡ pool.active_count
    → Found is_idle_printer pool.printers pool.min_count k o
    → Defined (ScaledDown pool now) (stop_printer pool now o)
stop_printer_lem pool now k none ok e f = unfold stop_printer in refl
stop_printer_lem pool now k (some i) ok e f =
    let (p, at, idle) = f.2 in
    rw (stop-run pool now i p at) (
      set-IsPool i _ p _ ok at refl (count-pos pool i p ok at idle (omega (arith, f.1))) now 0,
      f.0,
      omega (arith, f.1),
      (p, at, idle, refl),
    )

-- `scale_down` stays inside the array and keeps the pool well formed.
pub scale_down_lem :
    (pool : PrinterPool) (now : ℕ)
    → IsPool pool
    → Defined (ScaledDown pool now) (scale_down pool now)
unfolding scale_down
scale_down_lem pool now ok = elim (Bool-cases (leb pool.active_count pool.min_count)) [
  | inl few ↦ rw few refl
  | inr spare ↦
      let k : ℕ = pool.active_count - pool.min_count in
      rw spare (
        after (ground arith) _ (
          scan_down_lem is_idle_printer pool.printers pool.min_count k
            (ground (arith, ok.sized, active_count-le ok))))
]
  where
    after :
        pool.min_count + (pool.active_count - pool.min_count) ≡ pool.active_count
        → (r : Option (Option ℕ))
        → Defined
            (Found is_idle_printer pool.printers pool.min_count
              (pool.active_count - pool.min_count))
            r
        → Defined
            (ScaledDown pool now)
            (elim r [ none ↦ none | some found ↦ stop_printer pool now found ])
    after e none h = h
    after e (some found) h =
        stop_printer_lem pool now (pool.active_count - pool.min_count) found ok e h

-- The pool after a scale-down keeps its minimum.
pub ScaledDown-IsRunning :
    (pool : PrinterPool) (now : ℕ) (r : PrinterPool × Option ℕ)
    → IsRunning pool
    → ScaledDown pool now r
    → IsRunning r.0
ScaledDown-IsRunning pool now (pool', none) run d = rw d run
ScaledDown-IsRunning pool now (pool', some i) run d = record {
  pool_ok = d.0;
  enough = omega (
    arith,
    d.1,
    d.2,
    ap (λ (q : PrinterPool). q.min_count) d.3.3,
    ap (λ (q : PrinterPool). q.active_count) d.3.3,
  );
}

pub ScaledUp-IsRunning :
    (pool : PrinterPool) (now : ℕ) (r : PrinterPool × Bool)
    → IsRunning pool
    → ScaledUp pool now r
    → IsRunning r.0
ScaledUp-IsRunning pool now (pool', b) run d = record {
  pool_ok = d.0;
  enough = omega (arith, d.1, d.2, run.enough);
}
