-- ===== src/Stats.antt =====
-- Processing counters and gauges: internal/outboxer/stats.go, and the health check of
-- internal/outboxer/http.go. Counters are unbounded here; int64 holds 2^63 - 1 events.
pub mod Intervals
pub mod Health
use outboxer.Prelude.{
  ℕ, ◌+◌, ◌*◌, ◌/◌, Bool, true, false, Option, none, some, List, [], ◌∷◌, ltb, if◌then◌else◌, ◌==◌,
  nat_eq, ◌||◌, ◌-◌,
}
use outboxer.Prelude.Int.{ℤ, pos, sub_ℕ, pos_part, nonpositive}
use outboxer.Value.{Time, elapsed}
use outboxer.Config.{AppConfig}

pub record BatchStats : Type 0 where
  pub selected : ℕ
  pub sent : ℕ
  pub poison : ℕ
  pub dlq : ℕ
  pub kept_for_retry : ℕ
  pub sender_errors : ℕ
  pub fatal_after_commit_errors : ℕ
  pub oldest_event_age : ℕ
  pub publish_duration : ℕ
  pub db_duration : ℕ

abbrev pub no_batch_stats : BatchStats
no_batch_stats = record {
  selected = 0;
  sent = 0;
  poison = 0;
  dlq = 0;
  kept_for_retry = 0;
  sender_errors = 0;
  fatal_after_commit_errors = 0;
  oldest_event_age = 0;
  publish_duration = 0;
  db_duration = 0;
}

-- statsSnapshot; the cumulative counters of appStats are one too.
pub record StatsSnapshot : Type 0 where
  pub selected : ℕ
  pub sent : ℕ
  pub poison : ℕ
  pub dlq : ℕ
  pub kept_for_retry : ℕ
  pub batches_processed : ℕ
  pub batch_errors : ℕ
  pub sender_errors : ℕ
  pub fatal_after_commit_errors : ℕ

abbrev pub no_counts : StatsSnapshot
no_counts = record {
  selected = 0;
  sent = 0;
  poison = 0;
  dlq = 0;
  kept_for_retry = 0;
  batches_processed = 0;
  batch_errors = 0;
  sender_errors = 0;
  fatal_after_commit_errors = 0;
}

-- appStats
pub record AppStats : Type 0 where
  pub counters : StatsSnapshot
  pub last_batch_selected : ℕ
  pub last_batch_kept_for_retry : ℕ
  pub oldest_event_age_millis : ℕ
  pub last_success_unix_milli : ℕ
  pub last_batch_publish_millis : ℕ
  pub last_batch_db_millis : ℕ
  pub backlog_events : ℕ
  pub backlog_floor : ℕ
  pub last_logged : StatsSnapshot

-- Milliseconds of a duration
abbrev pub millis : ℕ → ℕ
millis d = d / 1000000

-- 1970 in Go's time, in milliseconds; earlier clocks are not modelled.
abbrev pub unix_epoch_millis : ℕ
unix_epoch_millis = 62135596800000

-- Time.UnixMilli
abbrev pub unix_milli : Time → ℕ
unix_milli t = millis t - unix_epoch_millis

unfoldable pub new_app_stats : Time → AppStats
new_app_stats now = record {
  counters = no_counts;
  last_batch_selected = 0;
  last_batch_kept_for_retry = 0;
  oldest_event_age_millis = 0;
  last_success_unix_milli = unix_milli now;
  last_batch_publish_millis = 0;
  last_batch_db_millis = 0;
  backlog_events = 0;
  backlog_floor = 1;
  last_logged = no_counts;
}

-- The methods do nothing on a nil receiver.
unfoldable pub set_backlog : ℕ → Bool → Option AppStats → Option AppStats
set_backlog events floor none = none
set_backlog events floor (some s) =
    some (record s { backlog_events = events; backlog_floor = if floor then 1 else 0 })

unfoldable pub add_committed_batch : BatchStats → Time → Option AppStats → Option AppStats
add_committed_batch batch now none = none
add_committed_batch batch now (some s) = some (record s {
  counters = record {
    selected = s.counters.selected + batch.selected;
    sent = s.counters.sent + batch.sent;
    poison = s.counters.poison + batch.poison;
    dlq = s.counters.dlq + batch.dlq;
    kept_for_retry = s.counters.kept_for_retry + batch.kept_for_retry;
    batches_processed = s.counters.batches_processed + 1;
    batch_errors = s.counters.batch_errors;
    sender_errors = s.counters.sender_errors + batch.sender_errors;
    fatal_after_commit_errors =
        s.counters.fatal_after_commit_errors + batch.fatal_after_commit_errors;
  };
  last_batch_selected = batch.selected;
  last_batch_kept_for_retry = batch.kept_for_retry;
  oldest_event_age_millis = millis batch.oldest_event_age;
  last_success_unix_milli = unix_milli now;
  last_batch_publish_millis = millis batch.publish_duration;
  last_batch_db_millis = millis batch.db_duration;
})

abbrev bump_errors : StatsSnapshot → StatsSnapshot
bump_errors c = record c { batch_errors = c.batch_errors + 1 }

unfoldable pub add_batch_error : Option AppStats → Option AppStats
add_batch_error none = none
add_batch_error (some s) = some (record s { counters = bump_errors s.counters })

unfoldable pub snapshot : Option AppStats → StatsSnapshot
snapshot none = no_counts
snapshot (some s) = s.counters

-- statsSnapshot.sub: int64 differences
pub record StatsDelta : Type 0 where
  pub selected : ℤ
  pub sent : ℤ
  pub poison : ℤ
  pub dlq : ℤ
  pub kept_for_retry : ℤ
  pub batches_processed : ℤ
  pub batch_errors : ℤ
  pub sender_errors : ℤ
  pub fatal_after_commit_errors : ℤ

unfoldable pub sub : StatsSnapshot → StatsSnapshot → StatsDelta
sub s other = record {
  selected = sub_ℕ s.selected other.selected;
  sent = sub_ℕ s.sent other.sent;
  poison = sub_ℕ s.poison other.poison;
  dlq = sub_ℕ s.dlq other.dlq;
  kept_for_retry = sub_ℕ s.kept_for_retry other.kept_for_retry;
  batches_processed = sub_ℕ s.batches_processed other.batches_processed;
  batch_errors = sub_ℕ s.batch_errors other.batch_errors;
  sender_errors = sub_ℕ s.sender_errors other.sender_errors;
  fatal_after_commit_errors = sub_ℕ s.fatal_after_commit_errors other.fatal_after_commit_errors;
}

-- intervalSnapshot after `current := s.snapshot()`, which it takes before it locks: the change since
-- the last call that locked, whatever the counters are by now.
unfoldable pub interval_snapshot : StatsSnapshot → Option AppStats → Option AppStats × StatsDelta
unfolding sub
interval_snapshot current none = (none, sub no_counts no_counts)
interval_snapshot current (some s) =
    (some (record s { last_logged = current }), sub current s.last_logged)

-- lastSuccess: the zero time if the stats were never seeded
unfoldable pub last_success : Option AppStats → Time
last_success none = 0
last_success (some s) =
    if s.last_success_unix_milli == 0
    then 0
    else (s.last_success_unix_milli + unix_epoch_millis) * 1000000

-- handleHealthz: whether the answer is 200 (true) or 503
unfoldable pub handle_healthz : AppConfig → Option AppStats → Time → Bool
unfolding last_success elapsed
handle_healthz cfg stats now =
    if nonpositive cfg.health_stale_after
    then true
    else if last_success stats == 0
        || ltb (pos_part cfg.health_stale_after) (elapsed now (last_success stats))
    then false
    else true
