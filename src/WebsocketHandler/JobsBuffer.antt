-- ===== src/WebsocketHandler/JobsBuffer.antt =====
-- The loop of `publish_jobs_update` in src/websocket_handler.c, which prints the queue into a buffer
-- of 8192 bytes and stops early when it is nearly full.
use concurrent_request_orche.Base.{
  ℕ, ◌+◌, ◌*◌, ◌≤◌, ◌<◌, ◌^◌, ◌≡◌, refl, Bool, true, false, List, [], ◌∷◌, length, map, ltb,
  if◌then◌else◌, inl, inr, ◌⊎◌, dec_le, lt→ltb, arith,
}
use concurrent_request_orche.Base.Int.{ℤ}
use concurrent_request_orche.Text.{codes}
use concurrent_request_orche.Text.Width.{IsInt, length-show_ℕ, length-show_ℤ, lengths}
use concurrent_request_orche.Job.{Job}
use concurrent_request_orche.WebsocketHandler.Frames.{entry, entries, jobs_frame}

-- What `sprintf` returns for `{"id":%d,"papersRequired":%d}`, with a comma before it but for the
-- first.
unfoldable pub entry_width : (first : Bool) → Job → ℕ
entry_width first job = length (entry first job.id job.papers_required)

-- The jobs that are printed, and the offset after them.
unfoldable pub shown_jobs : (first : Bool) → (offset : ℕ) → List Job → List Job × ℕ
unfolding entry_width
shown_jobs first offset [] = ([], offset)
shown_jobs first offset (job ∷ queue) =
    let offset' : ℕ = offset + entry_width first job in
    let rest : List Job × ℕ = shown_jobs false offset' queue in
    if ltb 7_900 offset' then (job ∷ [], offset') else (job ∷ rest.0, rest.1)

-- The offset after `{"type":"jobs_update", "data":[`.
abbrev pub header_width : ℕ
header_width = 31

-- What is printed of a job.
abbrev pub numbers : Job → ℕ × ℤ
numbers job = (job.id, job.papers_required)

-- The numbers of the jobs are of the type `int`, and an id is not negative.
abbrev pub AllInt : List Job → Type 0
AllInt [] = Unit
AllInt (job ∷ queue) = (job.id < 2 ^ 31) × IsInt job.papers_required × AllInt queue

length-comma : (first : Bool) → length (if first then [] else codes ",") ≤ 1
length-comma true = omega arith
length-comma false = omega arith

entry_width-le :
    (first : Bool) (job : Job)
    → job.id < 2 ^ 31
    → IsInt job.papers_required
    → entry_width first job ≤ 48
unfolding entry_width entry
entry_width-le first job h k = omega (
  lengths,
  length-comma first,
  length-show_ℕ 9 job.id (omega arith),
  length-show_ℤ job.papers_required k,
)

not_less : (n : ℕ) → n ≤ 7_900 → ltb 7_900 n ≡ false
not_less n h = ground arith

offset-le :
    (first : Bool) (offset : ℕ) (queue : List Job)
    → AllInt queue
    → offset ≤ 7_900
    → (shown_jobs first offset queue).1 ≤ 7_948
unfolding shown_jobs
offset-le first offset [] ok h = omega arith
offset-le first offset (job ∷ queue) (a, b, ok) h =
    let offset' : ℕ = offset + entry_width first job in
    elim (dec_le offset' 7_900) [
      | yes le ↦ rw (not_less offset' le) (offset-le false offset' queue ok le)
      | no gt ↦
          rw (lt→ltb 7_900 offset' (omega (arith, gt)))
            (omega (arith, h, entry_width-le first job a b))
    ]

all_shown :
    (first : Bool) (offset : ℕ) (queue : List Job)
    → AllInt queue
    → offset + 48 * length queue ≤ 7_900
    → (shown_jobs first offset queue).0 ≡ queue
unfolding shown_jobs
all_shown first offset [] ok h = refl
all_shown first offset (job ∷ queue) (a, b, ok) h =
    let offset' : ℕ = offset + entry_width first job in
    let le : offset' ≤ 7_900 = omega (arith, h, entry_width-le first job a b) in
    rw
      (
        not_less offset' le,
        all_shown false offset' queue ok (omega (arith, h, entry_width-le first job a b)),
      )
      refl

-- The offset is where the text of the entries ends.
offset-text :
    (first : Bool) (offset : ℕ) (queue : List Job)
    → let shown = shown_jobs first offset queue in
      offset + length (entries first (map numbers (shown.0))) ≡ shown.1
unfolding shown_jobs entries
offset-text first offset [] = omega arith
offset-text first offset (job ∷ queue) =
    let offset' : ℕ = offset + entry_width first job in
    let rest = offset-text false offset' queue in
    elim (dec_le offset' 7_900) [
      | yes le ↦ rw (not_less offset' le) (unfold entry_width in omega (lengths, rest))
      | no gt ↦ rw (lt→ltb 7_900 offset' (omega (arith, gt))) (unfold entry_width in omega lengths)
    ]

-- The message that lists the queue is as long as the code reckons, and ends with its zero byte within
-- the buffer, however long the queue is; and it lists every job unless there are more than 163.
pub shown_jobs_lem :
    (queue : List Job)
    → AllInt queue
    → let shown = shown_jobs true header_width queue in
      (length (jobs_frame (map numbers (shown.0))) ≡ shown.1 + 2)
      × (shown.1 + 2 + 1 ≤ 8_192)
      × ((shown.0 ≡ queue) ⊎ (163 < length queue))
unfolding jobs_frame
shown_jobs_lem queue ok = (
  omega (lengths, offset-text true header_width queue),
  omega (arith, offset-le true header_width queue ok (omega arith)),
  elim (dec_le (length queue) 163) [
    | yes few ↦ inl (all_shown true header_width queue ok (omega (arith, few)))
    | no many ↦ inr (omega (arith, many))
  ],
)
