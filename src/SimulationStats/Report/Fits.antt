-- ===== src/SimulationStats/Report/Fits.antt =====
-- The buffer of 4096 bytes that src/websocket_handler.c gives to `write_statistics_to_buffer`.
use concurrent_request_orche.Base.{
  ℕ, zero, suc, ◌+◌, ◌-◌, ◌*◌, ◌^◌, ◌≤◌, ◌<◌, ◌≡◌, refl, ap, ◌∙◌, Bool, true, false, some, [], ◌∷◌,
  length, take, get_elem?, leb, if◌then◌else◌, arith,
}
use concurrent_request_orche.Base.Int.{ℤ}
use concurrent_request_orche.Text.{Text, codes, show_ℕ}
use concurrent_request_orche.Text.Width.{
  IsInt, length-show_ℕ, length-show_ℤ, length-append_text, lengths,
}
use concurrent_request_orche.SimulationStats.{SimulationStatistics}
use concurrent_request_orche.SimulationStats.Averages.{
  Average, calculate_average_inter_arrival_time, calculate_average_system_time,
  calculate_average_queue_wait_time, calculate_average_queue_length, calculate_variance,
  calculate_job_arrival_rate, calculate_job_drop_probability, calculate_average_service_time,
  calculate_system_utilization,
}
use concurrent_request_orche.SimulationStats.Report.{
  Buffer, put, Format, seconds, printers_to_report, head_text, printer_entry, printer_text,
  put_printers, tail_text, empty_buffer, write_statistics_to_buffer,
}

-- The whole text is in the buffer, `bound` bytes at most, and nothing was put behind the end.
abbrev pub IsWhole : (bound : ℕ) → Buffer → Type 0
IsWhole n b =
    (b.size ≡ 4_096) × (b.is_overrun ≡ false) × (b.offset ≡ length b.content) × (b.offset ≤ n)

take_all : (n : ℕ) (t : Text) → length t ≤ n → take n t ≡ t
take_all zero [] h = refl
take_all zero (c ∷ t) h = absurd (omega arith)
take_all (suc n) [] h = refl
take_all (suc n) (c ∷ t) h = ap (◌∷◌ c) (take_all n t (omega arith))

put-IsWhole :
    (n k : ℕ) (t : Text) (b : Buffer)
    → IsWhole n b
    → length t ≤ k
    → n + k < 4_096
    → IsWhole (n + k) (put t b)
unfolding put
put-IsWhole n k t b h l m =
    rw (take_all (b.size - b.offset - 1) t (omega arith))
      (ground (arith, length-append_text b.content t))

-- `%.3g` of a `double` is at most ten characters long.
pub record IsShort (f : Format) : Type 0 where
  pub general : (a : Average) → length (f.general3 a) ≤ 10
  pub root : (a : Average) → length (f.root3 a) ≤ 10

-- The counts are below 2 ^ 53, so that a `double` holds them, and there are five printers.
pub record IsReportable (s : SimulationStatistics) : Type 0 where
  pub arrived_count : s.total_jobs_arrived < 2 ^ 53
  pub served_count : s.total_jobs_served < 2 ^ 53
  pub dropped_count : s.total_jobs_dropped < 2 ^ 53
  pub removed_count : s.total_jobs_removed < 2 ^ 53
  pub longest_queue : s.max_job_queue_length < 2 ^ 32
  pub refills : s.paper_refill_events < 2 ^ 53
  pub refilled : IsInt s.papers_refilled
  pub printers : s.max_printers_used ≤ 5
  pub served_by :
      (i : ℕ) → i < 5 → (n : ℕ) × (get_elem? s.jobs_served_by_printer i ≡ some n) × (n < 2 ^ 53)
  pub used_by : (i : ℕ) → i < 5 → (p : ℤ) × (get_elem? s.printer_paper_used i ≡ some p) × IsInt p

length-double : (n : ℕ) → n < 2 ^ 53 → length (show_ℕ n) ≤ 16
length-double n h = length-show_ℕ 15 n (omega arith)

module _ (f : Format) (short : IsShort f) where
  length-head_text : (s : SimulationStatistics) → IsReportable s → length (head_text f s) ≤ 600
  unfolding head_text
  length-head_text s h = omega (
    lengths,
    short.general (seconds s.simulation_duration_us),
    short.general (calculate_job_arrival_rate s),
    short.general (calculate_job_drop_probability s),
    short.general (calculate_average_inter_arrival_time s),
    short.general (calculate_average_system_time s),
    short.root (calculate_variance s),
    short.general (calculate_average_queue_wait_time s),
    short.general (calculate_average_queue_length s),
    length-double s.total_jobs_arrived h.arrived_count,
    length-double s.total_jobs_served h.served_count,
    length-double s.total_jobs_dropped h.dropped_count,
    length-double s.total_jobs_removed h.removed_count,
    length-show_ℕ 9 s.max_job_queue_length (omega (arith, h.longest_queue)),
  )

  length-tail_text : (s : SimulationStatistics) → IsReportable s → length (tail_text f s) ≤ 200
  unfolding tail_text
  length-tail_text s h = omega (
    lengths,
    short.general (seconds s.total_refill_service_time_us),
    length-double s.paper_refill_events h.refills,
    length-show_ℤ s.papers_refilled h.refilled,
  )

  length-comma : (b : Bool) → length (if b then [] else codes ",") ≤ 1
  length-comma true = omega arith
  length-comma false = omega arith

  printer_text-short :
      (is_last : Bool) (i : ℕ) (s : SimulationStatistics)
      → IsReportable s
      → i < 5
      → (t : Text) × (printer_text f is_last i s ≡ some t) × (length t ≤ 200)
  printer_text-short is_last i s h k =
      let (n, e, l) = h.served_by i k in
      let (p, e', l') = h.used_by i k in
      (
        printer_entry f is_last i n p s,
        unfold printer_text in rw (e, printer_text) (rw (e', printer_text) refl),
        unfold printer_entry in
            omega (
              lengths,
              length-show_ℕ 9 (i + 1) (omega arith),
              length-double n l,
              length-show_ℤ p l',
              short.general (calculate_average_service_time s i),
              short.general (calculate_system_utilization s i),
              length-comma is_last,
            ),
      )

  put_printers-step :
      (r i : ℕ) (s : SimulationStatistics) (b : Buffer) (t : Text)
      → printer_text f (leb r 0) i s ≡ some t
      → put_printers f (suc r) i s b ≡ put_printers f r (i + 1) s (put t b)
  unfolding put_printers
  put_printers-step r i s b t e = rw (e, put_printers) refl

  put_printers-IsWhole :
      (remaining i n : ℕ) (s : SimulationStatistics) (b : Buffer)
      → IsReportable s
      → i + remaining ≤ 5
      → n + 200 * remaining < 4_096
      → IsWhole n b
      → (b' : Buffer) × (put_printers f remaining i s b ≡ some b')
        × IsWhole (n + 200 * remaining) b'
  put_printers-IsWhole zero i n s b h k m w =
      (b, unfold put_printers in refl, (w.0, w.1, w.2, omega (arith, w.3)))
  put_printers-IsWhole (suc r) i n s b h k m w =
      let (t, e, l) = printer_text-short (leb r 0) i s h (omega arith) in
      let (b', e', w') =
        put_printers-IsWhole r (i + 1) (n + 200) s (put t b) h (omega arith) (omega arith)
          (put-IsWhole n 200 t b w l (omega arith)) in
      (b', put_printers-step r i s b t e ∙ e', (w'.0, w'.1, w'.2, omega (arith, w'.3)))

  ends_last : (s : SimulationStatistics) (b : Buffer) → 1 ≤ (put (tail_text f s) b).offset
  unfolding put tail_text
  ends_last s b = omega lengths

  -- With a format of doubles of at most ten characters, statistics are written whole if their counts
  -- are below 2 ^ 53 (the longest queue below 2 ^ 32), their amounts of paper fit an `int`, no more
  -- than five printers were used, and the arrays have their five slots: no piece is cut off, none is
  -- put behind the end of the buffer of 4096 bytes, and the returned length is that of the text, which
  -- is positive and below the size of the buffer.
  pub write_statistics-IsWhole :
      (s : SimulationStatistics)
      → IsReportable s
      → (b : Buffer) × (write_statistics_to_buffer f s 4_096 ≡ some b)
        × IsWhole 4_095 b
        × (1 ≤ b.offset)
  unfolding write_statistics_to_buffer printers_to_report
  write_statistics-IsWhole s h =
      let start : IsWhole 0 (empty_buffer f 4_096) = (refl, refl, refl, omega arith) in
      let b0 = put (head_text f s) (empty_buffer f 4_096) in
      let b1 = put (codes "\"printers\":[") b0 in
      let w0 : IsWhole 600 b0 =
        put-IsWhole 0 600 (head_text f s) (empty_buffer f 4_096) start (length-head_text s h)
          (omega arith) in
      let w1 : IsWhole 620 b1 =
        put-IsWhole 600 20 (codes "\"printers\":[") b0 w0 (omega arith) (omega arith) in
      let n = printers_to_report s in
      let few : n ≤ 5 = ground (arith, h.printers) in
      let (b, e, w) =
        put_printers-IsWhole n 0 620 s b1 h (omega (arith, few)) (omega (arith, few)) w1 in
      let w2 =
        put-IsWhole (620 + 200 * n) 200 (tail_text f s) b w (length-tail_text s h)
          (omega (arith, few)) in
      (
        put (tail_text f s) b,
        rw (e, write_statistics_to_buffer) refl,
        (w2.0, w2.1, w2.2, omega (arith, w2.3, few)),
        ends_last s b,
      )
