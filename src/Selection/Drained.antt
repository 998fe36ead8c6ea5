-- ===== src/Selection/Drained.antt =====
-- A drained batch has selected every pending row: batchDrained of internal/outboxer/backlog.go on
-- what the collection query selects.
use outboxer.Prelude.{
  String, ℕ, ◌≤◌, ◌≡◌, refl, sym, subst, true, Option, none, some, List, [], ◌∷◌, map, arith, inl,
  inr, Eq, ◌==◌, contains, keep, length, In, In-append_left, In-append_right, In-keep, In-map, keys,
  contains-keys, In-All, length-le_of_Unique,
}
use outboxer.Prelude.Int.{ℤ}
use outboxer.Value.{Value, Fields, get}
use outboxer.Provider.{EventId}
use outboxer.Config.{AppConfig}
use outboxer.Event.{Route, route_eq, Event, no_options}
use outboxer.Backlog.{per_route_from, route_share, batch_drained}
use outboxer.Backlog.Share.{route_share_mono}
use outboxer.Routing.Spec.{selected_route}
use outboxer.Selection.{
  table_row, resolved, routes_cte, is_candidate, picked, selected_from, join_rows, select_events,
}
use outboxer.Selection.Fair.{
  route_in, candidate_iff, In-routes_cte, routes_cte_inv, In-join_rows, select_events-fair,
}
use outboxer.Selection.Counts.{
  done, both, skip, of_route, all_below_inv, take-short, Within, Within-keep, Within-take,
  Unique-distinct, times-In, of_route-append, batch_drained_inv, lookup-per_route_from, length-keys,
  length-In, of_route-In,
}

module _ (as_text : Value → Option String) (cfg : AppConfig) ⦃e : Eq EventId⦄ where
  abbrev event_at : Fields → Route → Event
  event_at row r = record { columns = row; route = r; options = no_options }

  abbrev tagged : Fields → Route → EventId × Route
  tagged row r = (get row cfg.event_id, r)

  -- The block of a row whose id is selected for the route has an event of the route.
  of_route-block :
      (row : Fields) (r : Route) (selected : List (EventId × Route))
      → In (tagged row r) selected
      → 1
        ≤ of_route r (
            map
              (λ (s : EventId × Route). event_at row s.1)
              (keep (λ (s : EventId × Route). get row cfg.event_id == s.0) selected))
  of_route-block row r selected i = times-In r _ (
      In-map (λ (evt : Event). evt.route) (event_at row r) _
        (In-map (λ (s : EventId × Route). event_at row s.1) (tagged row r) _
          (In-keep (λ (s : EventId × Route). get row cfg.event_id == s.0) (tagged row r) selected i
            ((e.beq_iff (get row cfg.event_id) (get row cfg.event_id)).1 refl))))

  -- So the join has as many events of the route as there are such rows, each counted once.
  of_route-join_rows :
      (r : Route) (selected : List (EventId × Route)) (xs rows : List Fields)
      → Within xs rows
      → ((row : Fields) → In row xs → In (tagged row r) selected)
      → length xs ≤ of_route r (join_rows as_text cfg rows selected)
  unfolding join_rows
  of_route-join_rows r selected xs rows done h = omega arith
  of_route-join_rows r selected (x ∷ xs) (x' ∷ rows) (both w) h = omega (
    arith,
    of_route-append r
        (map (λ (s : EventId × Route). event_at x' s.1)
          (keep (λ (s : EventId × Route). get x' cfg.event_id == s.0) selected))
        (join_rows as_text cfg rows selected),
    of_route-block x' r selected (h x' (inl refl)),
    of_route-join_rows r selected xs rows w (λ row i. h row (inr i)),
  )
  of_route-join_rows r selected xs (y ∷ rows) (skip w) h = omega (
    arith,
    of_route-append r
        (map (λ (s : EventId × Route). event_at y s.1)
          (keep (λ (s : EventId × Route). get y cfg.event_id == s.0) selected))
        (join_rows as_text cfg rows selected),
    of_route-join_rows r selected xs rows w h,
  )

  -- The rows picked for a route of the list are selected.
  In-picked :
      (target : ℤ) (n : ℕ) (rows : List Fields) (rs : List Route) (r : Route)
      → In r rs
      → (row : Fields) → In row (picked as_text cfg target n rows r)
      → In (tagged row r) (selected_from as_text cfg target n rows rs)
  unfolding selected_from
  In-picked target n rows [] r j row i = absurd j
  In-picked target n rows (x ∷ rs) r (inr j) row i =
      In-append_right (tagged row r) _ _ (In-picked target n rows rs r j row i)
  In-picked target n rows (x ∷ rs) r (inl same) row i =
      In-append_left (tagged row r) (map (λ y. tagged y x) (picked as_text cfg target n rows x)) _ (
        subst (λ z. In (tagged row r) (map (λ y. tagged y z) (picked as_text cfg target n rows z)))
          (sym same) (In-map (λ y. tagged y r) row _ i))

  -- The query saw no more routes than the batch has.
  routes_cte-le :
      (target : ℤ) (rows : List Fields)
      → length (routes_cte as_text cfg rows)
        ≤ length (per_route_from [] (select_events as_text cfg target rows))
  unfolding routes_cte
  routes_cte-le target rows =
      let events = select_events as_text cfg target rows in
      let per_route = per_route_from [] events in
      omega (
        arith,
        length-keys per_route,
        length-le_of_Unique (routes_cte as_text cfg rows) (keys per_route)
            (Unique-distinct (
              resolved
                (map (λ x. selected_route cfg (table_row as_text x none) "route_source") rows)))
            (In-All (λ r. contains r (keys per_route) ≡ true) (routes_cte as_text cfg rows)
              (λ r i.
                let (row, j, h) = routes_cte_inv as_text cfg rows r i in
                let (evt, k, own) = select_events-fair as_text cfg target rows row r j h in
                contains-keys r (of_route r events) per_route
                  (lookup-per_route_from r events (of_route-In r events evt k own)))),
      )

  -- If the batch is drained, every row of the table that resolves to a route was selected under
  -- that route: nothing that is pending was left out.
  pub batch_drained_complete :
      (target : ℤ) (rows : List Fields) (row : Fields) (r : Route)
      → batch_drained (select_events as_text cfg target rows) target ≡ true
      → In row rows
      → route_in as_text cfg row ≡ some r
      → In (event_at row r) (select_events as_text cfg target rows)
  unfolding select_events picked
  batch_drained_complete target rows row r drained i h =
      let routes = routes_cte as_text cfg rows in
      let n = length routes in
      let events = select_events as_text cfg target rows in
      let selected = selected_from as_text cfg target n rows routes in
      let candidates = keep (is_candidate as_text cfg r) rows in
      let (evt, k, own) = select_events-fair as_text cfg target rows row r i h in
      let listed = In-routes_cte as_text cfg rows row r i h in
      let below =
        all_below_inv (route_share target (length (per_route_from [] events)))
          (per_route_from [] events) r (of_route r events)
          (batch_drained_inv target events evt k drained)
          (lookup-per_route_from r events (of_route-In r events evt k own)) in
      let shares =
        route_share_mono target n (length (per_route_from [] events)) (length-In r routes listed)
          (routes_cte-le target rows) in
      let counted =
        of_route-join_rows r selected (picked as_text cfg target n rows r) rows
          (Within-take (route_share target n) (Within-keep (is_candidate as_text cfg r) rows))
          (In-picked target n rows routes r listed) in
      let whole =
        take-short (route_share target n) candidates (omega (arith, below, shares, counted)) in
      In-join_rows as_text cfg rows selected row (tagged row r) i
        (In-picked target n rows routes r listed row (
          subst (In row) (sym whole) (
            In-keep (is_candidate as_text cfg r) row rows i
              ((candidate_iff as_text cfg r row).1 h))))
        refl
