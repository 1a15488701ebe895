-- ===== src/Printer/PoolInvariant.antt =====
-- The invariant of the printer pool: its five slots and its count of active printers.
use concurrent_request_orche.Base.{
  ℕ, zero, suc, ◌+◌, ◌-◌, ◌≤◌, ◌<◌, ◌≡◌, refl, ◌∙◌, not, ◌&&◌, ltb, Defined, Bool-cases, inl, inr,
  Bool, false, some, List, [], ◌∷◌, arith, leb, if◌then◌else◌, get_elem?, set, length, length-set,
  ◌==◌,
}
use concurrent_request_orche.Base.Int.{ℤ}
use concurrent_request_orche.Config.{consumer_count_max}
use concurrent_request_orche.Printer.{
  PrinterThreadArgs, PrinterInstance, PrinterPool, printer_pool_init, slot, start_in,
  printer_pool_start_printer,
}

abbrev pub count_active : List PrinterInstance → ℕ
count_active [] = 0
count_active (p ∷ ps) = (if p.active then 1 else 0) + count_active ps

-- The printer in slot `i` has the id `i + 1`.
abbrev pub HasIds : ℕ → List PrinterInstance → Type 0
HasIds i [] = Unit
HasIds i (p ∷ ps) = (p.printer.id ≡ i + 1) × HasIds (i + 1) ps

pub record IsPool (pool : PrinterPool) : Type 0 where
  pub sized : length pool.printers ≡ consumer_count_max
  pub numbered : HasIds 0 pool.printers
  pub counted : pool.active_count ≡ count_active pool.printers

-- `p'` differs from `p` at most in its arguments and in whether it is active.
abbrev pub SamePrinter : PrinterInstance → PrinterInstance → Type 0
SamePrinter p p' = p'.printer ≡ p.printer

pub count_active-set :
    (ps : List PrinterInstance) (i : ℕ) (p p' : PrinterInstance)
    → get_elem? ps i ≡ some p
    → count_active (set ps i p') + (if p.active then 1 else 0)
      ≡ count_active ps + (if p'.active then 1 else 0)
count_active-set [] i p p' h = cc
count_active-set (x ∷ xs) zero p p' h = ground arith
count_active-set (x ∷ xs) (suc i) p p' h = ground (arith, count_active-set xs i p p' h)

pub HasIds-set :
    (ps : List PrinterInstance) (i k : ℕ) (p p' : PrinterInstance)
    → get_elem? ps i ≡ some p
    → SamePrinter p p'
    → HasIds k ps
    → HasIds k (set ps i p')
HasIds-set [] i k p p' h e ids = tt
HasIds-set (x ∷ xs) zero k p p' h e ids = ground arith
HasIds-set (x ∷ xs) (suc i) k p p' h e ids = (ids.0, HasIds-set xs i (k + 1) p p' h e ids.1)

pub count_active-le : (ps : List PrinterInstance) → count_active ps ≤ length ps
count_active-le [] = omega arith
count_active-le (p ∷ ps) = ground (arith, count_active-le ps)

-- Never more than five printers are active.
pub active_count-le : {pool : PrinterPool} → IsPool pool → pool.active_count ≤ consumer_count_max
active_count-le {pool} ok = omega (arith, ok.counted, ok.sized, count_active-le pool.printers)

pub printer_pool_init-IsPool :
    (min_printers : ℕ) (paper_capacity : ℤ) → IsPool (printer_pool_init min_printers paper_capacity)
unfolding printer_pool_init
printer_pool_init-IsPool min_printers paper_capacity = record {
  sized = refl;
  numbered = (refl, (refl, (refl, (refl, (refl, tt)))));
  counted = refl;
}

pub get_elem?-lt :
    (ps : List PrinterInstance) (i : ℕ)
    → i < length ps
    → (p : PrinterInstance) × (get_elem? ps i ≡ some p)
get_elem?-lt [] i h = elim h [ ]
get_elem?-lt (x ∷ xs) zero h = (x, refl)
get_elem?-lt (x ∷ xs) (suc i) h = get_elem?-lt xs i (omega arith)

pub set-IsPool :
    {pool : PrinterPool} (i n : ℕ) (p p' : PrinterInstance)
    → IsPool pool
    → get_elem? pool.printers i ≡ some p
    → SamePrinter p p'
    → n + (if p.active then 1 else 0) ≡ pool.active_count + (if p'.active then 1 else 0)
    → (last low : ℕ)
    → IsPool (record {
      printers = set pool.printers i p';
      active_count = n;
      min_count = pool.min_count;
      last_scale_time_us = last;
      low_queue_start_time_us = low;
    })
set-IsPool {pool} i n p p' ok at same count last low = record {
  sized = length-set pool.printers i p' ∙ ok.sized;
  numbered = HasIds-set pool.printers i 0 p p' at same ok.numbered;
  counted = omega (arith, count, ok.counted, count_active-set pool.printers i p p' at);
}

pub slot-suc : (pool : PrinterPool) (i : ℕ) → slot pool (i + 1) ≡ get_elem? pool.printers i
slot-suc pool i =
    let same : i + 1 - 1 ≡ i = omega arith in
    let nonzero : (i + 1 == 0) ≡ false = ground arith in rw (nonzero, same)

-- What a start leaves: the invariant, one more active printer exactly if the slot was free and the
-- thread was created, and the settings of the pool as they were.
abbrev pub Started : (created : Bool) → PrinterPool → PrinterInstance → PrinterPool × Bool → Type 0
Started created pool p (pool', b) =
    IsPool pool'
    × (pool'.active_count ≡ pool.active_count + (if b then 1 else 0))
    × (pool'.min_count ≡ pool.min_count)
    × (pool'.last_scale_time_us ≡ pool.last_scale_time_us)
    × (b ≡ (not p.active && (created && ltb pool.active_count consumer_count_max)))

start_in_lem :
    (created : Bool) (pool : PrinterPool) (index : ℕ) (shared_args : PrinterThreadArgs)
    (p : PrinterInstance)
    → IsPool pool
    → pool.active_count < consumer_count_max
    → get_elem? pool.printers index ≡ some p
    → Started created pool p (start_in created pool index shared_args p)
unfolding start_in
start_in_lem created pool index shared_args p ok room at = elim (Bool-cases p.active) [
  | inl busy ↦ rw busy (ok, omega arith, refl, refl, refl)
  | inr idle ↦ rw idle (elim (Bool-cases created) [
    | inl made ↦
        rw made
          (set-IsPool index _ p _ ok at refl (ground arith) _ _, refl, refl, refl, ground arith)
    | inr failed ↦
        rw failed
          (set-IsPool index _ p _ ok at refl (ground arith) _ _, omega arith, refl, refl, refl)
  ])
]

-- `printer_pool_start_printer` with an id from 1 to 5 stays inside the array, keeps the invariant,
-- and starts a printer exactly if its slot is free, the pool has room and the thread is created.
pub printer_pool_start_printer_lem :
    (created : Bool) (pool : PrinterPool) (printer_id : ℕ) (shared_args : PrinterThreadArgs)
    (p : PrinterInstance)
    → IsPool pool
    → slot pool printer_id ≡ some p
    → Defined
        (Started created pool p)
        (printer_pool_start_printer created pool printer_id shared_args)
unfolding printer_pool_start_printer
printer_pool_start_printer_lem created pool printer_id shared_args p ok at =
    elim (Bool-cases (leb consumer_count_max pool.active_count)) [
      | inl full ↦ rw full (ok, omega arith, refl, refl, ground arith)
      | inr room ↦
          rw (room, at)
            (start_in_lem created pool (printer_id - 1) shared_args p ok (ground arith)
              (ground arith))
    ]
