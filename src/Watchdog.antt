-- ===== src/Watchdog.antt =====
-- The stall detector: internal/outboxer/watchdog.go.
pub mod Stalls
use outboxer.Prelude.{
  ℕ, ◌+◌, ◌%◌, ◌^◌, Option, none, some, List, [], ◌∷◌, if◌then◌else◌, ◌==◌, nat_eq,
}

-- The counter is an atomic.Int64, read here as the number that its bits spell.
abbrev pub counter_modulus : ℕ
counter_modulus = 2 ^ 64

-- The progress counter.
pub record Watchdog : Type 0 where
  pub progress : ℕ

-- app.markProgress
unfoldable pub mark_progress : Option Watchdog → Option Watchdog
mark_progress none = none
mark_progress (some w) = some (record { progress = (w.progress + 1) % counter_modulus })

-- The goroutine: the counter at the last tick while it watches, and whether it stalled or stopped.
pub data Watch : Type 0 where
  watching : ℕ → Watch
  stalled stopped : Watch

-- What the goroutine's select receives: a tick, with the counter that it loads, or done.
pub data Signal : Type 0 where
  tick : ℕ → Signal
  done : Signal

unfoldable pub receive : Watch → Signal → Watch
receive (watching previous) (tick current) =
    if current == previous then stalled else watching current
receive (watching previous) done = stopped
receive stalled _ = stalled
receive stopped _ = stopped

unfoldable pub watch : Watch → List Signal → Watch
unfolding receive
watch w [] = w
watch w (s ∷ ss) = watch (receive w s) ss
