-- ===== src/Autoscaling/Round.antt =====
-- A whole round of `autoscaling_thread_func` in src/autoscaling.c.
use concurrent_request_orche.Base.{
  ℕ, ◌+◌, ◌-◌, ◌≤◌, ◌≡◌, refl, ap, inl, inr, Bool, true, false, Option, none, some, leb, ltb, ◌==◌,
  Bool-cases, Defined, arith,
}
use concurrent_request_orche.Words.{sub64}
use concurrent_request_orche.Config.{
  consumer_count_max, autoscale_scale_down_threshold, autoscale_scale_down_wait_us,
}
use concurrent_request_orche.Printer.{PrinterPool}
use concurrent_request_orche.Printer.PoolInvariant.{IsPool, active_count-le}
use concurrent_request_orche.Autoscaling.{
  cooling, idle_for_long, should_scale_up, is_found, should_scale_down, scale_down,
  autoscaling_round,
}
use concurrent_request_orche.Autoscaling.Scan.{scan_down_lem}
use concurrent_request_orche.Autoscaling.Scaling.{
  IsRunning, restamp, ScaledUp, ScaledUp-IsRunning, scale_up_lem, ScaledDown, ScaledDown-IsRunning,
  scale_down_lem,
}

-- The same pool, but for the timer of the short queue.
abbrev SameButTimer : PrinterPool → PrinterPool → Type 0
SameButTimer pool pool' = (low : ℕ) × (pool' ≡ record pool { low_queue_start_time_us = low })

should_scale_down-SameButTimer :
    (pool : PrinterPool) (queue_length now : ℕ)
    → IsPool pool
    → Defined (λ r. SameButTimer pool r.0) (should_scale_down pool queue_length now)
unfolding should_scale_down
should_scale_down-SameButTimer pool queue_length now ok =
    elim (Bool-cases (leb pool.active_count pool.min_count)) [
      | inl t ↦ rw t (_, refl)
      | inr few ↦ rw few (elim (Bool-cases (cooling pool now)) [
        | inl t ↦ rw t (_, refl)
        | inr cool ↦ rw cool (elim (Bool-cases (leb autoscale_scale_down_threshold queue_length)) [
          | inl t ↦ rw t (_, refl)
          | inr short ↦ rw short (elim (Bool-cases (pool.low_queue_start_time_us == 0)) [
            | inl t ↦ rw t (_, refl)
            | inr timed ↦
                rw timed
                  (elim (Bool-cases
                    (ltb (sub64 now pool.low_queue_start_time_us) autoscale_scale_down_wait_us)) [
                      | inl t ↦ rw t (_, refl)
                      | inr waited ↦ rw waited (
                          after _ _ (
                            scan_down_lem (idle_for_long now) pool.printers pool.min_count
                              (pool.active_count - pool.min_count)
                              (ground (arith, ok.sized, active_count-le ok))))
                    ])
          ])
        ])
      ])
    ]
  where
    after :
        (P : Option ℕ → Type 0) (r : Option (Option ℕ))
        → Defined P r
        → Defined
            (λ (r : PrinterPool × Bool). SameButTimer pool r.0)
            (elim r [ none ↦ none | some found ↦ some (pool, is_found found) ])
    after P none h = h
    after P (some o) h = (_, refl)

-- A round keeps the pool running and changes the number of active printers by one at most.
abbrev pub Round : PrinterPool → PrinterPool → Type 0
Round pool pool' =
    IsRunning pool'
    × (pool'.active_count ≤ consumer_count_max)
    × (pool'.min_count ≡ pool.min_count)
    × (pool'.active_count ≤ pool.active_count + 1)
    × (pool.active_count ≤ pool'.active_count + 1)

up-Round :
    (pool : PrinterPool) (later : ℕ) (r : Option (PrinterPool × Bool))
    → IsRunning pool
    → Defined (ScaledUp pool later) r
    → Defined (Round pool) (elim r [ none ↦ none | some (pool', _) ↦ some pool' ])
up-Round pool later none run h = h
up-Round pool later (some (pool', b)) run h = (
  ScaledUp-IsRunning pool later (pool', b) run h,
  active_count-le h.0,
  h.2,
  ground (arith, h.1),
  ground (arith, h.1),
)

ScaledDown-Round :
    (pool : PrinterPool) (later : ℕ) (r : PrinterPool × Option ℕ)
    → IsRunning pool
    → ScaledDown pool later r
    → Round pool r.0
ScaledDown-Round pool later (pool', none) run d =
    rw d (run, active_count-le run.pool_ok, refl, omega arith, omega arith)
ScaledDown-Round pool later (pool', some i) run d =
    let same_min = ap (λ (q : PrinterPool). q.min_count) d.3.3 in
    let fewer = ap (λ (q : PrinterPool). q.active_count) d.3.3 in
    (
      ScaledDown-IsRunning pool later (pool', some i) run d,
      active_count-le d.0,
      same_min,
      omega (arith, fewer),
      omega (arith, fewer),
    )

down-Round :
    (pool : PrinterPool) (later : ℕ)
    → IsRunning pool
    → Defined
        (Round pool)
        (elim (scale_down pool later) [ none ↦ none | some (pool', _) ↦ some pool' ])
down-Round pool later run = after (scale_down pool later) (scale_down_lem pool later run.pool_ok)
  where
    after :
        (r : Option (PrinterPool × Option ℕ))
        → Defined (ScaledDown pool later) r
        → Defined (Round pool) (elim r [ none ↦ none | some (pool', _) ↦ some pool' ])
    after none h = h
    after (some r) h = ScaledDown-Round pool later r run h

-- A change of the timer alone makes no difference to what a round promises.
retimed :
    (pool : PrinterPool) (low : ℕ)
    → IsRunning pool
    → IsRunning (record pool { low_queue_start_time_us = low })
retimed pool low run = record {
  pool_ok = restamp pool.last_scale_time_us low run.pool_ok;
  enough = run.enough;
}

-- From a well formed pool with at least its minimum of printers active, a round of the autoscaler
-- stays inside the array of printers, keeps between the minimum and five
-- printers active, and starts or stops at most one.
pub autoscaling_round_lem :
    (created : Bool) (pool : PrinterPool) (queue_length now later : ℕ)
    → IsRunning pool
    → Defined (Round pool) (autoscaling_round created pool queue_length now later)
unfolding autoscaling_round
autoscaling_round_lem created pool queue_length now later run =
    elim (Bool-cases (should_scale_up pool queue_length now)) [
      | inl grow ↦ rw grow (up-Round pool later _ run (scale_up_lem created pool later run.pool_ok))
      | inr stay ↦
          rw stay (after _ (should_scale_down-SameButTimer pool queue_length now run.pool_ok))
    ]
  where
    after :
        (r : Option (PrinterPool × Bool))
        → Defined (λ r. SameButTimer pool r.0) r
        → Defined (Round pool) (elim r [
          | none ↦ none
          | some (pool', true) ↦ elim (scale_down pool' later) [
            | none ↦ none
            | some (pool'', _) ↦ some pool''
          ]
          | some (pool', false) ↦ some pool'
        ])
    after none h = h
    after (some (pool', true)) (low, e) =
        rw e
          (down-Round (record pool { low_queue_start_time_us = low }) later (retimed pool low run))
    after (some (pool', false)) (low, e) =
        rw e (retimed pool low run, active_count-le run.pool_ok, refl, omega arith, omega arith)
