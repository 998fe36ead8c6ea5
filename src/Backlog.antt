-- ===== src/Backlog.antt =====
-- The backlog gauge: internal/outboxer/backlog.go.
pub mod Share
use outboxer.Prelude.{
  ℕ, ◌+◌, ◌-◌, ◌/◌, max, Bool, true, false, Option, none, some, List, [], ◌∷◌, length, ltb, leb,
  if◌then◌else◌, lookup, insert,
}
use outboxer.Prelude.Int.{ℤ, pos, pos_part, ◌+ℤ◌, nonpositive}
use outboxer.Value.{elapsed}
use outboxer.Config.{AppConfig}
use outboxer.Event.{Event, Route, route_eq}
use outboxer.Stats.{set_backlog}
use outboxer.App.{App, Moment, report_failure}

abbrev or_none : Option ℕ → ℕ
or_none none = 0
or_none (some n) = n

-- `perRoute[r]`, 0 for a route that is not there
unfoldable pub count_of : Route → List (Route × ℕ) → ℕ
unfolding lookup
count_of r m = or_none (lookup r m)

-- The loop `perRoute[evt.route]++`.
unfoldable pub per_route_from : List (Route × ℕ) → List Event → List (Route × ℕ)
unfolding insert count_of
per_route_from m [] = m
per_route_from m (evt ∷ events) =
    per_route_from (insert evt.route (count_of evt.route m + 1) m) events

-- `(target + routes - 1) / routes`, at least 1. Go's division truncates towards 0, so a negative
-- sum gives a quotient below 1.
unfoldable pub route_share : ℤ → ℕ → ℕ
unfolding ◌+ℤ◌
route_share target routes = max 1 (pos_part (target +ℤ pos (routes - 1)) / routes)

unfoldable pub all_below_share : ℕ → List (Route × ℕ) → Bool
all_below_share share [] = true
all_below_share share ((r, count) ∷ m) =
    let rest = all_below_share share m in if leb share count then false else rest

unfoldable pub batch_drained : List Event → ℤ → Bool
unfolding per_route_from route_share all_below_share
batch_drained [] target = true
batch_drained (evt ∷ events) target =
    let per_route = per_route_from [] (evt ∷ events) in
    all_below_share (route_share target (length per_route)) per_route

abbrev pub backlog_probe_fallback_interval : ℕ
backlog_probe_fallback_interval = 10000000000

unfoldable pub backlog_probe_interval : AppConfig → ℕ
backlog_probe_interval cfg =
    if nonpositive cfg.stats_interval
    then backlog_probe_fallback_interval
    else pos_part cfg.stats_interval

-- The rows that backlogCountSQL counted as routable and as scanned, or none on a query error.
abbrev pub Probe : Type 0
Probe = Option (ℕ × ℕ)

-- The part of updateBacklog behind the throttle. countBacklog's count is a floor when the scan
-- reached the limit.
unfoldable pub record_probe : Moment → Probe → App → App
unfolding set_backlog report_failure
record_probe m none a = report_failure m "backlog-probe" a
record_probe m (some (routable, scanned)) a = record a {
  stats = set_backlog routable (leb (pos_part a.cfg.backlog_count_limit) scanned) a.stats;
}

-- `m` is what time.Since and time.Now read, and what the context is after the query.
unfoldable pub update_backlog : Moment → Bool → ℕ → Probe → App → App
unfolding record_probe backlog_probe_interval elapsed set_backlog
update_backlog m drained kept_for_retry probe a =
    if drained
    then record a { stats = set_backlog kept_for_retry false a.stats }
    else if nonpositive a.cfg.backlog_count_limit
    then record a { stats = set_backlog kept_for_retry true a.stats }
    else if ltb (elapsed m.now a.last_backlog_probe) (backlog_probe_interval a.cfg)
    then a
    else record_probe m probe (record a { last_backlog_probe = m.now })
