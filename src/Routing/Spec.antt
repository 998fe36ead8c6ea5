-- ===== src/Routing/Spec.antt =====
-- The route that the configuration gives a row, and the route under which the query selects it.
use outboxer.Prelude.{
  String, Bool, true, ◌||◌, Option, none, some, List, [], ◌∷◌, if◌then◌else◌, ◌==◌, string_eq,
  nat_eq, is_empty, contains, length,
}
use outboxer.Config.{AppConfig, ProviderRoute, configured_provider_routes}
use outboxer.Event.{Route}
use outboxer.Routing.{
  Row, eval, test, nullified, coalesced, resolved_target_sql, resolved_destination_sql,
  routable_sql,
}

-- A column's text, if the column is configured and its text is not empty.
unfoldable pub given : Row → String → String → Option String
given row table_alias name =
    if is_empty name then none else nullified (row.read table_alias name) ""

unfoldable pub find_route : String → List ProviderRoute → Option ProviderRoute
find_route target [] = none
find_route target (route ∷ routes) =
    if route.target == target then some route else find_route target routes

-- Where there is one provider, a row without a target goes to it.
abbrev pub sole : List ProviderRoute → Option String
sole (route ∷ []) = some route.target
sole _ = none

abbrev pub owns : ProviderRoute → String → Bool
owns route destination =
    length route.owned_destinations == 0 || contains destination route.owned_destinations

abbrev pub settle_destination : ProviderRoute → String → Option Route
settle_destination route destination =
    if is_empty destination
    then none
    else if owns route destination
    then some (record { target = route.target; destination = destination })
    else none

abbrev pub or_default : Option String → String → String
or_default none d = d
or_default (some s) d = s

abbrev pub with_provider : Option ProviderRoute → Option String → Option Route
with_provider none destination = none
with_provider (some route) destination =
    settle_destination route (or_default destination route.default_destination)

abbrev pub with_target : Option String → List ProviderRoute → Option String → Option Route
with_target none routes destination = none
with_target (some target) routes destination = with_provider (find_route target routes) destination

-- The route that the configuration gives a row, if it gives one: the provider that the row names
-- or the only one there is, and the destination that the row names or the provider's default one,
-- which the relay must own if it is said to own some.
unfoldable pub route_of : AppConfig → Row → String → Option Route
unfolding given configured_provider_routes find_route contains
route_of cfg row table_alias =
    with_target
      (coalesced (given row table_alias cfg.event_target) (sole (configured_provider_routes cfg)))
      (configured_provider_routes cfg) (given row table_alias cfg.event_destination)

abbrev pub pair_route : Option String → Option String → Option Route
pair_route (some t) (some d) = some (record { target = t; destination = d })
pair_route _ _ = none

abbrev pub when : Option Bool → Option Route → Option Route
when (some true) r = r
when _ r = none

-- The route under which the query selects a row, if it does.
unfoldable pub selected_route : AppConfig → Row → String → Option Route
unfolding eval test resolved_target_sql resolved_destination_sql routable_sql
selected_route cfg row table_alias =
    let (target_expr, predicate) = resolved_target_sql cfg table_alias in
    let destination_expr = resolved_destination_sql cfg table_alias target_expr in
    when (test row (routable_sql cfg target_expr destination_expr (some predicate)))
      (pair_route (eval row target_expr) (eval row destination_expr))
