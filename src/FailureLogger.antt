-- ===== src/FailureLogger.antt =====
-- The rate-limited failure log: internal/outboxer/failure_logger.go.
pub mod Window
use outboxer.Prelude.{
  ℕ, ◌+◌, String, Bool, true, false, Option, none, some, List, [], ◌∷◌, ltb, if◌then◌else◌, lookup,
  insert, string_eq,
}
use outboxer.Prelude.Int.{ℤ, pos_part, nonpositive}
use outboxer.Value.{Time}

pub record FailureLogEntry : Type 0 where
  pub next_log_at : Time
  pub suppressed : ℕ

pub record FailureLogger : Type 0 where
  pub window : ℕ
  pub entries : List (String × FailureLogEntry)

abbrev pub failure_log_window : ℕ
failure_log_window = 60000000000

unfoldable pub new_failure_logger : ℤ → FailureLogger
new_failure_logger window = record {
  window = if nonpositive window then failure_log_window else pos_part window;
  entries = [];
}

abbrev put_entry : FailureLogger → String → FailureLogEntry → FailureLogger
put_entry l signature entry = record l { entries = insert signature entry l.entries }

-- shouldLog with the entry that it found: the new logger, whether to log, and the suppressed count.
unfoldable pub judge :
    FailureLogger → Time → String → Option FailureLogEntry → FailureLogger × Bool × ℕ
unfolding insert
judge l now signature none =
    (put_entry l signature (record { next_log_at = now + l.window; suppressed = 0 }), true, 0)
judge l now signature (some entry) =
    if ltb now entry.next_log_at
    then (put_entry l signature (record entry { suppressed = entry.suppressed + 1 }), false, 0)
    else (
      put_entry l signature (record { next_log_at = now + l.window; suppressed = 0 }),
      true,
      entry.suppressed,
    )

-- `now` is what l.now() reads.
unfoldable pub should_log : FailureLogger → Time → String → FailureLogger × Bool × ℕ
unfolding judge lookup
should_log l now signature = judge l now signature (lookup signature l.entries)

-- app.logFailure: nothing happens once the context is cancelled. The line itself goes to slog.
unfoldable pub log_failure : Option FailureLogger → Bool → Time → String → Option FailureLogger
unfolding should_log
log_failure l true now signature = l
log_failure none false now signature = none
log_failure (some l) false now signature = some (should_log l now signature).0
