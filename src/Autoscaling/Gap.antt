-- ===== src/Autoscaling/Gap.antt =====
-- `scale_up` of src/autoscaling.c after a scale-down of a printer that is not the last: it takes the
-- count of active printers for the next free slot. And the arguments that it gives a printer.
use concurrent_request_orche.Base.{
  ℕ, ◌+◌, ◌-◌, ◌<◌, ◌≡◌, refl, ◌∙◌, Bool, true, false, some, get_elem?, set, get_elem?-set_ne,
  get_elem?-set_self, length, arith,
}
use concurrent_request_orche.Config.{consumer_count_max}
use concurrent_request_orche.Printer.{
  PrinterInstance, PrinterPool, with_args, start_in, printer_pool_start_printer,
}
use concurrent_request_orche.Printer.PoolInvariant.{IsPool, get_elem?-lt, active_count-le, slot-suc}
use concurrent_request_orche.Autoscaling.{scale_up, scale_down, removed, scaled_args}
use concurrent_request_orche.Autoscaling.Scaling.{ScaledDown, scale_down_lem}

-- The active printers stand in the first slots, as they do when the pool has been started.
abbrev pub IsPacked : PrinterPool → Type 0
IsPacked pool =
    (j : ℕ) (p : PrinterInstance)
    → j < pool.active_count
    → get_elem? pool.printers j ≡ some p
    → p.active ≡ true

-- `scale_up` fails, and changes nothing, as long as the slot that it aims at is taken.
scale_up-taken :
    (created : Bool) (pool : PrinterPool) (now : ℕ) (p : PrinterInstance)
    → get_elem? pool.printers pool.active_count ≡ some p
    → p.active ≡ true
    → scale_up created pool now ≡ some (pool, false)
unfolding scale_up printer_pool_start_printer start_in
scale_up-taken created pool now p at busy = ground (arith, slot-suc pool pool.active_count)

removed-taken :
    (pool : PrinterPool) (now i : ℕ) (p : PrinterInstance)
    → IsPool pool
    → IsPacked pool
    → i + 1 < pool.active_count
    → (q : PrinterInstance) × (get_elem?
          (removed pool now i p).printers
          (removed pool now i p).active_count
        ≡ some q)
      × (q.active ≡ true)
removed-taken pool now i p ok packed h =
    let last : ℕ = pool.active_count - 1 in
    let (q, at) = get_elem?-lt pool.printers last (omega (arith, ok.sized, active_count-le ok)) in
    (
      q,
      get_elem?-set_ne pool.printers (record p { active = false }) (omega arith) ∙ at,
      packed last q (omega arith) at,
    )

-- After a scale-down of any printer but the last of a well formed pool whose active printers stand
-- in its first slots, `scale_up` always fails and
-- changes nothing, whether or not threads can be created, although a slot is free.
pub scale_up-after-gap :
    (created : Bool) (pool pool' : PrinterPool) (now later i : ℕ)
    → IsPool pool
    → IsPacked pool
    → scale_down pool now ≡ some (pool', some i)
    → i + 1 < pool.active_count
    → (pool'.active_count < consumer_count_max)
      × (scale_up created pool' later ≡ some (pool', false))
scale_up-after-gap created pool pool' now later i ok packed e h =
    let d : ScaledDown pool now (pool', some i) = rw e at (scale_down_lem pool now ok) in
    let (q, at, busy) = removed-taken pool now i d.3.0 ok packed h in
    rw d.3.3 (
      omega (arith, active_count-le ok),
      scale_up-taken created (removed pool now i d.3.0) later q at busy,
    )

module _ (created : Bool) (pool pool' : PrinterPool) (now : ℕ)
    (e : scale_up created pool now ≡ some (pool', true)) where
  room : pool.active_count < consumer_count_max
  unfolding scale_up
  room = ground arith

  new_args : (q : PrinterInstance) → PrinterInstance
  new_args q = record (with_args pool.active_count scaled_args q) { active = true }

  printers-after :
      (q : PrinterInstance)
      → get_elem? pool.printers pool.active_count ≡ some q
      → pool'.printers ≡ set pool.printers pool.active_count (new_args q)
  unfolding scale_up printer_pool_start_printer start_in new_args
  printers-after q at =
      let same : pool.active_count + 1 - 1 ≡ pool.active_count = omega arith in
      ground (arith, slot-suc pool pool.active_count)

-- A printer that `scale_up` starts runs with the mutex of the job queue in the place of that of the
-- refill queue.
pub scale_up-refill_mutex :
    (created : Bool) (pool pool' : PrinterPool) (now : ℕ)
    → IsPool pool
    → scale_up created pool now ≡ some (pool', true)
    → (p : PrinterInstance) × (get_elem? pool'.printers pool.active_count ≡ some p)
      × (p.active ≡ true)
      × (p.args ≡ some (record scaled_args { printer = some pool.active_count }))
unfolding new_args
scale_up-refill_mutex created pool pool' now ok e =
    let fits : pool.active_count < length pool.printers =
      omega (arith, ok.sized, room created pool pool' now e) in
    let (q, at) = get_elem?-lt pool.printers pool.active_count fits in
    (
      new_args created pool pool' now e q,
      rw (printers-after created pool pool' now e q at) (
          get_elem?-set_self pool.printers pool.active_count (new_args created pool pool' now e q)
            fits),
      refl,
      refl,
    )
