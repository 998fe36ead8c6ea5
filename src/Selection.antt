-- ===== src/Selection.antt =====
-- The collection query of selectEventsQuerySQL (internal/outboxer/db.go) on the rows of a table,
-- which stand in id order.
pub mod Fair
pub mod Members
pub mod Counts
pub mod Drained
use outboxer.Prelude.{
  ℕ, String, Bool, true, false, Option, none, some, List, [], ◌∷◌, ◌++◌, map, if◌then◌else◌, ◌==◌,
  string_eq, Eq, contains, keep, length,
}
use outboxer.Prelude.Int.{ℤ}
use outboxer.Value.{Value, Fields, get}
use outboxer.Provider.{EventId}
use outboxer.Config.{AppConfig, take}
use outboxer.Event.{Route, route_eq, Event, no_options}
use outboxer.Backlog.{route_share}
use outboxer.Routing.{
  Row, Pred, both, test, resolved_target_sql, resolved_destination_sql, routable_sql,
  route_match_sql,
}
use outboxer.Routing.Spec.{selected_route}

abbrev pub outer_column : Option Route → String → Option String
outer_column none name = none
outer_column (some r) name =
    if name == "resolved_target"
    then some r.target
    else if name == "resolved_destination"
    then some r.destination
    else none

-- `as_text` is how PostgreSQL reads a stored value as a text, NULL as `none`.
abbrev pub table_row : (Value → Option String) → Fields → Option Route → Row
table_row as_text row o = record {
  read = λ table_alias name. as_text (get row name);
  read_outer = outer_column o;
}

abbrev pub resolved : List (Option Route) → List Route
resolved [] = []
resolved (none ∷ rs) = resolved rs
resolved (some r ∷ rs) = r ∷ resolved rs

-- DISTINCT
unfoldable pub distinct : List Route → List Route
unfolding contains
distinct [] = []
distinct (r ∷ rs) = let rest = distinct rs in if contains r rest then rest else r ∷ rest

abbrev pub is_true : Option Bool → Bool
is_true (some b) = b
is_true none = false

module _ (as_text : Value → Option String) (cfg : AppConfig) where
  -- The routes of the table's routable rows
  unfoldable pub routes_cte : List Fields → List Route
  unfolding distinct selected_route
  routes_cte rows =
      distinct (
        resolved (map (λ row. selected_route cfg (table_row as_text row none) "route_source") rows))

  -- The WHERE of the lateral subquery, for one row of `routes`.
  unfoldable pub is_candidate : Route → Fields → Bool
  unfolding test resolved_target_sql resolved_destination_sql routable_sql route_match_sql
  is_candidate r row =
      let (target_expr, predicate) = resolved_target_sql cfg "candidate" in
      let destination_expr = resolved_destination_sql cfg "candidate" target_expr in
      is_true (
        test (table_row as_text row (some r)) (
          both (routable_sql cfg target_expr destination_expr (some predicate))
            (route_match_sql cfg "candidate" target_expr destination_expr)))

  -- ORDER BY id LIMIT GREATEST(1, (target + route_count - 1) / route_count)
  unfoldable pub picked : ℤ → ℕ → List Fields → Route → List Fields
  unfolding is_candidate take route_share
  picked target route_count rows r =
      take (route_share target route_count) (keep (is_candidate r) rows)

  unfoldable pub selected_from : ℤ → ℕ → List Fields → List Route → List (EventId × Route)
  unfolding picked get
  selected_from target route_count rows [] = []
  selected_from target route_count rows (r ∷ rs) =
      map (λ row. (get row cfg.event_id, r)) (picked target route_count rows r)
      ++ selected_from target route_count rows rs

  module _ ⦃e : Eq EventId⦄ where
    -- The rows joined with the selected ids, in the order of the rows.
    unfoldable pub join_rows : List Fields → List (EventId × Route) → List Event
    unfolding get
    join_rows [] selected = []
    join_rows (row ∷ rows) selected =
        map (λ (s : EventId × Route). record { columns = row; route = s.1; options = no_options })
          (keep (λ (s : EventId × Route). get row cfg.event_id == s.0) selected)
        ++ join_rows rows selected

    unfoldable pub select_events : ℤ → List Fields → List Event
    unfolding routes_cte selected_from join_rows
    select_events target rows =
        join_rows rows (selected_from target (length (routes_cte rows)) rows (routes_cte rows))
