-- ===== src/Autoscaling/Decisions.antt =====
-- When src/autoscaling.c decides to scale.
use concurrent_request_orche.Base.{ℕ, ◌+◌, ◌≤◌, ◌<◌, ◌≡◌, Bool, true, some, arith}
use concurrent_request_orche.Words.{word, sub64-eq}
use concurrent_request_orche.Printer.{PrinterPool}
use concurrent_request_orche.Autoscaling.{
  cooling, should_scale_up, should_scale_down, autoscaling_round,
}

-- The pool was scaled before, by a clock that has not gone back.
abbrev pub Settled : PrinterPool → (now : ℕ) → Type 0
Settled pool now = (pool.last_scale_time_us ≤ now) × (now < word)

cooling_lem :
    (pool : PrinterPool) (now : ℕ)
    → Settled pool now
    → now < pool.last_scale_time_us + 3_000_000
    → cooling pool now ≡ true
cooling_lem pool now h k = ground (arith, sub64-eq now pool.last_scale_time_us)

-- For three seconds after a change of the pool, by a clock that has not gone back, a round of the
-- autoscaler changes nothing.
pub autoscaling_round-cooling :
    (created : Bool) (pool : PrinterPool) (queue_length now later : ℕ)
    → pool.last_scale_time_us ≤ now
    → now < word
    → now < pool.last_scale_time_us + 3_000_000
    → autoscaling_round created pool queue_length now later ≡ some pool
unfolding autoscaling_round should_scale_up should_scale_down
autoscaling_round-cooling created pool queue_length now later h w k =
    ground (arith, cooling_lem pool now (h, w) k)
