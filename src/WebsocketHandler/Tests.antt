-- ===== src/WebsocketHandler/Tests.antt =====
-- The message that lists the queue, for two jobs.
use concurrent_request_orche.Base.{
  ◌+◌, ◌≤◌, ◌<◌, ◌≡◌, refl, ◌⊎◌, true, List, [], ◌∷◌, length, map, arith,
}
use concurrent_request_orche.Base.Int.{pos}
use concurrent_request_orche.Job.{Job, init_job}
use concurrent_request_orche.WebsocketHandler.JobsBuffer.{
  shown_jobs, entry_width, header_width, numbers, AllInt, shown_jobs_lem,
}
use concurrent_request_orche.WebsocketHandler.Frames.{entry, jobs_frame}
use concurrent_request_orche.Text.{show_ℕ, show_ℤ}

abbrev queue_of_two : List Job
queue_of_two = init_job 9 (pos 500_000) (pos 8) ∷ init_job 10 (pos 500_000) (pos 12) ∷ []

-- `{"type":"jobs_update", "data":[{"id":9,"papersRequired":8},{"id":10,"papersRequired":12}`
offset_of_two : (shown_jobs true header_width queue_of_two).1 ≡ 88
unfolding shown_jobs init_job entry_width entry show_ℕ show_ℤ
offset_of_two = refl

two-AllInt : AllInt queue_of_two
unfolding init_job
two-AllInt =
    (omega arith, (omega arith, omega arith), (omega arith, (omega arith, omega arith), tt))

shown_jobs_example :
    (length (jobs_frame (map numbers (shown_jobs true header_width queue_of_two).0))
      ≡ (shown_jobs true header_width queue_of_two).1 + 2)
    × ((shown_jobs true header_width queue_of_two).1 + 2 + 1 ≤ 8_192)
    × (((shown_jobs true header_width queue_of_two).0 ≡ queue_of_two) ⊎ (163 < length queue_of_two))
shown_jobs_example = shown_jobs_lem queue_of_two two-AllInt
