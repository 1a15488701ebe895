-- ===== src/Cli/Stocked.antt =====
-- The printers that src/cli.c starts have paper.
use concurrent_request_orche.Base.{
  ℕ, zero, suc, ◌+◌, ◌-◌, ◌≡◌, refl, Bool, true, Option, none, some, List, [], ◌∷◌, map, get_elem?,
  set-each, if-both, leb, arith,
}
use concurrent_request_orche.Base.Int.{ℤ, pos, ◌≤ℤ◌}
use concurrent_request_orche.Config.{consumer_count_max}
use concurrent_request_orche.Printer.{
  Printer, PrinterThreadArgs, PrinterInstance, PrinterPool, printer_pool_init, start_printers,
  printer_pool_start_printer, start_in, slot, with_args,
}
use concurrent_request_orche.System.{new_worker}
use concurrent_request_orche.System.Safety.{AllProvided}
use concurrent_request_orche.Cli.{running_printers}

-- Every slot of the pool holds a printer with paper.
abbrev pub Stocked : PrinterPool → Type 0
Stocked pool =
    (i : ℕ) (p : PrinterInstance)
    → get_elem? pool.printers i ≡ some p
    → pos 0 ≤ℤ p.printer.current_paper_count

abbrev HasPaper : PrinterInstance → Type 0
HasPaper p = pos 0 ≤ℤ p.printer.current_paper_count

start_in-Stocked :
    (created : Bool) (pool : PrinterPool) (index : ℕ) (args : PrinterThreadArgs)
    (p : PrinterInstance)
    → HasPaper p
    → Stocked pool
    → Stocked ((start_in created pool index args p).0)
unfolding start_in
start_in-Stocked created pool index args p k h =
    if-both (λ (o : PrinterPool × Bool). Stocked (o.0)) p.active h
      (if-both (λ (o : PrinterPool × Bool). Stocked (o.0)) created
        (set-each HasPaper pool.printers index (record (with_args index args p) { active = true }) h
          k)
        (set-each HasPaper pool.printers index (with_args index args p) h k))

abbrev StockedIf : Option (PrinterPool × Bool) → Type 0
StockedIf none = Unit
StockedIf (some o) = Stocked (o.0)

in_slot :
    (created : Bool) (pool : PrinterPool) (id : ℕ) (args : PrinterThreadArgs)
    (o : Option PrinterInstance)
    → ((p : PrinterInstance) → o ≡ some p → HasPaper p)
    → Stocked pool
    → StockedIf (elim o as (λ x. Option (PrinterPool × Bool)) [
      | none ↦ none
      | some p ↦ some (start_in created pool (id - 1) args p)
    ])
in_slot created pool id args none k h = tt
in_slot created pool id args (some p) k h =
    start_in-Stocked created pool (id - 1) args p (k p refl) h

slot-HasPaper :
    (pool : PrinterPool) (id : ℕ) (p : PrinterInstance)
    → Stocked pool
    → slot pool id ≡ some p
    → HasPaper p
slot-HasPaper pool id p h e = h (id - 1) p (ground arith)

start_printer-Stocked :
    (created : Bool) (pool : PrinterPool) (id : ℕ) (args : PrinterThreadArgs)
    → Stocked pool
    → StockedIf (printer_pool_start_printer created pool id args)
unfolding printer_pool_start_printer
start_printer-Stocked created pool id args h =
    if-both StockedIf (leb consumer_count_max pool.active_count) h
      (in_slot created pool id args (slot pool id) (λ p e. slot-HasPaper pool id p h e) h)

carry_on :
    (answers : List Bool) (i : ℕ) (args : PrinterThreadArgs) (pool' : PrinterPool)
    (o : Option (PrinterPool × Bool))
    → StockedIf o
    → ((pool : PrinterPool)
        → start_printers answers (i + 1) args pool ≡ some pool'
        → Stocked pool
        → Stocked pool')
    → (elim o as (λ x. Option PrinterPool) [
      | none ↦ none
      | some (pool, b) ↦ start_printers answers (i + 1) args pool
    ])
      ≡ some pool'
    → Stocked pool'
carry_on answers i args pool' none h again e = absurd (cc)
carry_on answers i args pool' (some o) h again e = again (o.0) e h

pub start_printers-Stocked :
    (answers : List Bool) (i : ℕ) (args : PrinterThreadArgs) (pool pool' : PrinterPool)
    → start_printers answers i args pool ≡ some pool'
    → Stocked pool
    → Stocked pool'
unfolding start_printers
start_printers-Stocked [] i args pool pool' e h = (let same : pool ≡ pool' = cc in rw same at h)
start_printers-Stocked (created ∷ answers) i args pool pool' e h =
    carry_on answers i args pool' (printer_pool_start_printer created pool i args)
      (start_printer-Stocked created pool i args h)
      (λ p e' h'. start_printers-Stocked answers (i + 1) args p pool' e' h') e

pub init-Stocked :
    (n : ℕ) (paper_capacity : ℤ)
    → pos 0 ≤ℤ paper_capacity
    → Stocked (printer_pool_init n paper_capacity)
unfolding printer_pool_init
init-Stocked n paper_capacity h zero p e = ground arith
init-Stocked n paper_capacity h (suc zero) p e = ground arith
init-Stocked n paper_capacity h (suc (suc zero)) p e = ground arith
init-Stocked n paper_capacity h (suc (suc (suc zero))) p e = ground arith
init-Stocked n paper_capacity h (suc (suc (suc (suc zero)))) p e = ground arith
init-Stocked n paper_capacity h (suc (suc (suc (suc (suc i))))) p e = absurd (ground arith)

-- The workers that start with the printers of a stocked pool.
pub running-AllProvided :
    (ps : List PrinterInstance)
    → ((i : ℕ) (p : PrinterInstance) → get_elem? ps i ≡ some p → HasPaper p)
    → AllProvided (map new_worker (running_printers ps))
unfolding running_printers
running-AllProvided [] h = λ i w e. absurd (ground arith)
running-AllProvided (p ∷ ps) h =
    let rest = running-AllProvided ps (λ i q e. h (suc i) q e) in
    if-both (λ l. AllProvided (map new_worker l)) p.active
      (first p.printer (running_printers ps) (h 0 p refl) rest) rest
  where
    first :
        (q : Printer) (l : List Printer)
        → pos 0 ≤ℤ q.current_paper_count
        → AllProvided (map new_worker l)
        → AllProvided (map new_worker (q ∷ l))
    first q l k r zero w e = (let same : new_worker q ≡ w = ground arith in rw (← same) k)
    first q l k r (suc i) w e = r i w e
