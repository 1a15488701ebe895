-- ===== src/System/Requests.antt =====
-- The requests for paper: what the queue and the refiller of src/paper_refiller.c know of each
-- printer of src/printer.c that waits for paper.
pub mod Kept
use concurrent_request_orche.Base.{
  ℕ, zero, suc, ◌+◌, ◌≡◌, ◌≢◌, refl, ◌⊎◌, inl, inr, Bool, true, false, Option, none, some, List, [],
  ◌∷◌, ◌++◌, get_elem?, set, ◌==◌, ==_iff, if◌then◌else◌, Bool-cases, arith,
}
use concurrent_request_orche.Base.Int.{ℤ, ◌+ℤ◌, ◌≤ℤ◌}
use concurrent_request_orche.Printer.{Printer}
use concurrent_request_orche.Printer.Service.{lacks}
use concurrent_request_orche.PaperRefiller.{is_filled}
use concurrent_request_orche.System.{
  Doing, looking, holding, printing, lacking, stopped, Refiller, waiting, filling, ended, Worker,
  System,
}

-- How often a printer stands in the queue of the refiller.
abbrev pub asked : (index : ℕ) → List ℕ → ℕ
asked i [] = 0
asked i (j ∷ queue) = (if j == i then 1 else 0) + asked i queue

-- The paper that the refiller is bringing to a printer.
abbrev pub brought : (index : ℕ) → Refiller → Option ℤ
brought i waiting = none
brought i (filling j since needed) = if j == i then some needed else none
brought i ended = none

-- Enough to fill the printer.
abbrev pub Fills : Printer → Option ℤ → Type 0
Fills p none = ⊥
Fills p (some needed) = p.capacity ≤ℤ p.current_paper_count +ℤ needed

abbrev pub Full : Printer → Type 0
Full p = p.capacity ≤ℤ p.current_paper_count

-- A printer at work has no request open. One that lacks paper has asked once and is still to be
-- served, or is being served, or was filled; or its request was lost, where `L` says so.
abbrev pub Awaits : (L : Type 0) → (requests : ℕ) → Option ℤ → Printer → Doing → Type 0
Awaits L n o p looking = (n ≡ 0) × (o ≡ none)
Awaits L n o p (holding job) = (n ≡ 0) × (o ≡ none)
Awaits L n o p (printing job) = (n ≡ 0) × (o ≡ none)
Awaits L n o p (lacking job since) =
    ((n ≡ 1) × (o ≡ none) × (lacks p job ≡ true))
    ⊎ ((n ≡ 0) × Fills p o × (lacks p job ≡ true) × (is_filled p ≡ false))
    ⊎ ((n ≡ 0) × (o ≡ none) × Full p)
    ⊎ (L × (n ≡ 0) × (o ≡ none) × (lacks p job ≡ true))
Awaits L n o p stopped = Unit {0}

-- No request comes from a printer that does not exist.
abbrev pub AwaitsAt : (L : Type 0) → (requests : ℕ) → Option ℤ → Option Worker → Type 0
AwaitsAt L n o none = (n ≡ 0) × (o ≡ none)
AwaitsAt L n o (some w) = Awaits L n o w.printer w.doing

abbrev pub AllAwait : (L : ℕ → Type 0) → List ℕ → Refiller → List Worker → Type 0
AllAwait L queue r ws = (i : ℕ) → AwaitsAt (L i) (asked i queue) (brought i r) (get_elem? ws i)

-- As long as the refiller lives.
abbrev pub Tracked : (L : ℕ → Type 0) → System → Type 0
Tracked L σ = (σ.refiller ≡ ended) ⊎ AllAwait L σ.sim.refill_queue σ.refiller σ.workers

pub asked-append :
    (i j : ℕ) (queue : List ℕ)
    → asked i (queue ++ j ∷ []) ≡ asked i queue + (if j == i then 1 else 0)
asked-append i j [] = ground arith
asked-append i j (k ∷ queue) = ground (arith, asked-append i j queue)

pub get_elem?-set {ℓ} :
    {A : Type ℓ} (xs : List A) (i j : ℕ) (x v : A)
    → get_elem? xs i ≡ some x
    → get_elem? (set xs i v) j ≡ (if i == j then some v else get_elem? xs j)
get_elem?-set [] i j x v e = absurd (ground arith)
get_elem?-set (y ∷ xs) zero zero x v e = refl
get_elem?-set (y ∷ xs) zero (suc j) x v e = ground arith
get_elem?-set (y ∷ xs) (suc i) zero x v e = ground arith
get_elem?-set (y ∷ xs) (suc i) (suc j) x v e = ground (arith, get_elem?-set xs i j x v e)

-- What concerns one printer changes, and the requests of the others stay as they were.
pub others-AllAwait :
    (L : ℕ → Type 0) (queue queue' : List ℕ) (r r' : Refiller) (ws ws' : List Worker) (i : ℕ)
    (v : Worker)
    → AllAwait L queue r ws
    → Awaits (L i) (asked i queue') (brought i r') v.printer v.doing
    → ((j : ℕ) → (i == j) ≡ false → (asked j queue' ≡ asked j queue) × (brought j r' ≡ brought j r))
    → ((j : ℕ) → get_elem? ws' j ≡ (if i == j then some v else get_elem? ws j))
    → AllAwait L queue' r' ws'
others-AllAwait L queue queue' r r' ws ws' i v h own others reads j =
    rw (reads j) (elim (Bool-cases (i == j)) [
      | inl same ↦ (let e : i ≡ j = (==_iff i j).0 same in rw same (rw e at own))
      | inr other ↦ (let k = others j other in rw other (rw (k.0) (rw (k.1) (h j))))
    ])

pub read_self {ℓ} :
    {A : Type ℓ} (xs : List A) (i j : ℕ) (x : A)
    → get_elem? xs i ≡ some x
    → get_elem? xs j ≡ (if i == j then some x else get_elem? xs j)
read_self xs i j x e = elim (Bool-cases (i == j)) [
  | inl same ↦ (let p : i ≡ j = (==_iff i j).0 same in rw same (rw p at e))
  | inr other ↦ rw other
]
