-- ===== src/App.antt =====
-- The relay's shared state: internal/outboxer/app.go, with the two methods that any goroutine
-- calls, app.markProgress and app.logFailure.
pub mod Frame
use outboxer.Prelude.{String, Bool, Option, List}
use outboxer.Value.{Time}
use outboxer.Config.{AppConfig}
use outboxer.FailureLogger.{FailureLogger, log_failure}
use outboxer.Watchdog.{Watchdog, mark_progress}
use outboxer.Stats.{AppStats}

-- `senders` holds the targets that have a sender; `listening` is whether the listener is set.
pub record App : Type 0 where
  pub cfg : AppConfig
  pub senders : List String
  pub failure_logger : Option FailureLogger
  pub stats : Option AppStats
  pub watchdog : Option Watchdog
  pub listening : Bool
  pub last_backlog_probe : Time

-- What a goroutine reads where it stands: the clock, and whether the context is cancelled.
pub record Moment : Type 0 where
  pub now : Time
  pub cancelled : Bool

unfoldable pub progress : App → App
unfolding mark_progress
progress a = record a { watchdog = mark_progress a.watchdog }

unfoldable pub report_failure : Moment → String → App → App
unfolding log_failure
report_failure m signature a = record a {
  failure_logger = log_failure a.failure_logger m.cancelled m.now signature;
}
