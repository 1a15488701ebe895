-- ===== src/Autoscaling/Scan.antt =====
-- The scans of src/autoscaling.c over the printers above the minimum.
use concurrent_request_orche.Base.{
  ℕ, zero, suc, ◌+◌, ◌≤◌, ◌<◌, ◌≡◌, inl, inr, Bool, true, false, Option, none, some, get_elem?,
  length, List, Bool-cases, Defined, Defined-mono, dec_lt, arith,
}
use concurrent_request_orche.Printer.{PrinterInstance}
use concurrent_request_orche.Printer.PoolInvariant.{get_elem?-lt}
use concurrent_request_orche.Autoscaling.{scan_down}

-- What a scan finds is a slot of its range that passes the test, and none above it in the range does.
abbrev pub Found : (PrinterInstance → Bool) → List PrinterInstance → (low k : ℕ) → Option ℕ → Type 0
Found test printers low k none =
    (j : ℕ) (p : PrinterInstance)
    → low ≤ j
    → j < low + k
    → get_elem? printers j ≡ some p
    → test p ≡ false
Found test printers low k (some i) =
    (low ≤ i)
    × (i < low + k)
    × ((p : PrinterInstance) × (get_elem? printers i ≡ some p) × (test p ≡ true))
    × ((j : ℕ) (p : PrinterInstance)
        → i < j
        → j < low + k
        → get_elem? printers j ≡ some p
        → test p ≡ false)

module _ (test : PrinterInstance → Bool) (printers : List PrinterInstance) (low : ℕ) where
  at-top :
      (k : ℕ) (q : PrinterInstance)
      → get_elem? printers (low + k) ≡ some q
      → test q ≡ false
      → (j : ℕ) (p : PrinterInstance) → j < low + suc k
      → (j < low + k → test p ≡ false)
      → get_elem? printers j ≡ some p
      → test p ≡ false
  at-top k q at no_ j p b below e = elim (dec_lt j (low + k)) [
    | yes h ↦ below h
    | no h ↦ let top : j ≡ low + k = omega arith in cc
  ]

  Found-suc :
      (k : ℕ) (q : PrinterInstance) (o : Option ℕ)
      → get_elem? printers (low + k) ≡ some q
      → test q ≡ false
      → Found test printers low k o
      → Found test printers low (suc k) o
  Found-suc k q none at no_ f = λ j p a b e. at-top k q at no_ j p b (λ h. f j p a h e) e
  Found-suc k q (some i) at no_ f =
      (f.0, omega (arith, f.1), f.2, λ j p c d e. at-top k q at no_ j p d (λ h. f.3 j p c h e) e)

  scan-hit :
      (k : ℕ) (q : PrinterInstance)
      → get_elem? printers (low + k) ≡ some q
      → test q ≡ true
      → scan_down test printers low (suc k) ≡ some (some (low + k))
  unfolding scan_down
  scan-hit k q at hit = ground arith

  scan-miss :
      (k : ℕ) (q : PrinterInstance)
      → get_elem? printers (low + k) ≡ some q
      → test q ≡ false
      → scan_down test printers low (suc k) ≡ scan_down test printers low k
  unfolding scan_down
  scan-miss k q at miss = ground arith

  -- The scan stays inside the array and finds the highest slot of its range that passes the test.
  pub scan_down_lem :
      (k : ℕ)
      → low + k ≤ length printers
      → Defined (Found test printers low k) (scan_down test printers low k)
  scan_down_lem zero h = unfold scan_down in λ j p a b e. absurd (omega arith)
  scan_down_lem (suc k) h =
      let (q, at) = get_elem?-lt printers (low + k) (omega arith) in
      elim (Bool-cases (test q)) [
        | inl hit ↦
            rw (scan-hit k q at hit)
              (omega arith, omega arith, (q, at, hit), λ j p a b e. absurd (omega arith))
        | inr miss ↦
            rw (scan-miss k q at miss)
              (Defined-mono _ _ _ (scan_down_lem k (omega arith)) (λ o. Found-suc k q o at miss))
      ]
