-- ===== src/Server/Stream.antt =====
-- The messages of a run as src/websocket_handler.c hands them to src/server.c, and the client that
-- gets them.
mod Tests
use concurrent_request_orche.Base.{
  ℕ, zero, suc, ◌==◌, ◌≡◌, ap, sym, ◌∙◌, Bool, true, false, Option, none, some, List, [], ◌∷◌,
  append-nil, ==_iff,
}
use concurrent_request_orche.Text.{Text, codes}
use concurrent_request_orche.SimulationStats.Averages.{Average}
use concurrent_request_orche.SimulationStats.Report.{Buffer, Format, write_statistics_to_buffer}
use concurrent_request_orche.SimulationStats.Report.Fits.{IsReportable}
use concurrent_request_orche.Journal.{
  Output, line, simulation_started, simulation_complete, job_update, jobs_update, consumer_update,
  stats_update, statistics,
}
use concurrent_request_orche.WebsocketHandler.Frames.{
  log_frame, job_frame, jobs_frame, consumer_frame, complete_frame, stats_frame,
}
use concurrent_request_orche.Server.Bridge.{Bridge, Event, sends}

-- `fixed2` is `%.2f`.
module _ (f : Format) (fixed2 : Average → Text) where
  -- What is in the buffer when a handler sends it.
  unfoldable pub frame : Output → Text
  frame (line t m) = log_frame t m
  frame simulation_started = codes "{\"type\":\"simulation_started\", \"data\":{\"timestamp\":0}}"
  frame (simulation_complete t) = complete_frame t
  frame (job_update id papers) = job_frame id papers
  frame (jobs_update jobs) = jobs_frame jobs
  frame (consumer_update id papers status job) = consumer_frame id papers status job
  frame (stats_update s queue_length) = stats_frame fixed2 s queue_length
  frame (statistics s) = elim (write_statistics_to_buffer f s 4_096) [
    | none ↦ []
    | some b ↦ b.content
  ]

  abbrev pub sent_as : List Output → List Event
  sent_as [] = []
  sent_as (o ∷ os) = sends (frame o) ∷ sent_as os

  -- The statistics among the outputs can be reported.
  abbrev pub AllReportable : List Output → Type 0
  AllReportable [] = Unit
  AllReportable (statistics s ∷ os) = IsReportable s × AllReportable os
  AllReportable (_ ∷ os) = AllReportable os

  abbrev IsText : Text → Type 0
  IsText t = (x : ℕ) × (rest : Text) × (t ≡ x ∷ rest)
