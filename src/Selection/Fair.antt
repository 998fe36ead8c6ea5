-- ===== src/Selection/Fair.antt =====
-- No route starves, and every row is selected under its own route.
use outboxer.Prelude.{
  ℕ, ◌≡◌, ◌↔◌, refl, sym, ◌∙◌, ap, subst, String, true, Option, none, some, List, [], ◌∷◌, map,
  ◌==◌, string_eq, arith, inl, inr, Eq, keep, length, In, In-append_left, In-append_right,
  In-append_cases, In-map, In-map_inv, In-keep,
}
use outboxer.Prelude.Int.{ℤ}
use outboxer.Value.{Value, Fields, get}
use outboxer.Provider.{EventId}
use outboxer.Config.{AppConfig}
use outboxer.Event.{Route, route_eq, Event, no_options}
use outboxer.Backlog.{route_share}
use outboxer.Routing.Spec.{selected_route, route_of, given}
use outboxer.Routing.Meaning.{selected_route-route_of}
use outboxer.Routing.Match.{and_3_iff, route_match-selected, routable-selected}
use outboxer.Selection.{
  table_row, routes_cte, is_candidate, picked, selected_from, join_rows, select_events,
}
use outboxer.Selection.Members.{
  is_true_iff, In-resolved, In-distinct, In-resolved_inv, In-distinct_inv, In-keep_inv, In-take,
  take-some, when_inv,
}

module _ (as_text : Value → Option String) (cfg : AppConfig) where
  -- The route of a stored row.
  abbrev pub route_in : Fields → Option Route
  route_in row = route_of cfg (table_row as_text row none) "route_source"

  abbrev tagged : Fields → Route → EventId × Route
  tagged row r = (get row cfg.event_id, r)

  -- A row's route depends neither on the alias nor on the row of `routes`.
  pub selected_route-route_in :
      (row : Fields) (o : Option Route) (table_alias : String)
      → selected_route cfg (table_row as_text row o) table_alias ≡ route_in row
  unfolding route_of given
  selected_route-route_in row o table_alias =
      selected_route-route_of cfg (table_row as_text row o) table_alias

  pub candidate_iff :
      (r : Route) (row : Fields) → (is_candidate as_text cfg r row ≡ true) ↔ (route_in row ≡ some r)
  unfolding is_candidate selected_route
  candidate_iff r row =
      let seen = table_row as_text row (some r) in
      (
        λ h.
            let parts = (and_3_iff _ _).0 ((is_true_iff _).0 h) in
            let (own, e) = routable-selected cfg seen "candidate" parts.0 in
            sym (selected_route-route_in row (some r) "candidate")
            ∙ e
            ∙ ap some ((route_match-selected cfg seen "candidate" r own refl refl e).0 parts.1),
        λ h.
            let e = selected_route-route_in row (some r) "candidate" ∙ h in
            (is_true_iff _).1 (
              (and_3_iff _ _).1 (
                when_inv _ _ r e,
                (route_match-selected cfg seen "candidate" r r refl refl e).1 refl,
              )),
      )

  pub In-routes_cte :
      (rows : List Fields) (row : Fields) (r : Route)
      → In row rows
      → route_in row ≡ some r
      → In r (routes_cte as_text cfg rows)
  unfolding routes_cte
  In-routes_cte rows row r i h = In-distinct r _ (
      In-resolved r _ (
        subst
          (λ o. In o (map (λ x. selected_route cfg (table_row as_text x none) "route_source") rows))
          (selected_route-route_in row none "route_source" ∙ h)
          (In-map (λ x. selected_route cfg (table_row as_text x none) "route_source") row rows i)))

  -- Each route of the list is the route of a row.
  pub routes_cte_inv :
      (rows : List Fields) (r : Route)
      → In r (routes_cte as_text cfg rows)
      → (row : Fields) × In row rows × (route_in row ≡ some r)
  unfolding routes_cte
  routes_cte_inv rows r i =
      let (row, j, h) =
        In-map_inv (λ x. selected_route cfg (table_row as_text x none) "route_source") (some r) rows
          (In-resolved_inv r _ (In-distinct_inv r _ i)) in
      (row, j, sym (selected_route-route_in row none "route_source") ∙ h)

  -- What the query selects for a route: rows of the table that resolve to it.
  In-selected_from :
      (target : ℤ) (n : ℕ) (rows : List Fields) (rs : List Route) (s : EventId × Route)
      → In s (selected_from as_text cfg target n rows rs)
      → (row : Fields) × In row rows × (get row cfg.event_id ≡ s.0) × (route_in row ≡ some s.1)
  unfolding selected_from picked
  In-selected_from target n rows [] s i = absurd i
  In-selected_from target n rows (r ∷ rs) s i =
      elim (In-append_cases s
        (map (λ row. (get row cfg.event_id, r)) (picked as_text cfg target n rows r)) _ i) [
          | inr later ↦ In-selected_from target n rows rs s later
          | inl here ↦
              (let (row, j, e) = In-map_inv (λ row. (get row cfg.event_id, r)) s _ here in
                let (k, h) =
                  In-keep_inv (is_candidate as_text cfg r) row rows
                    (In-take (route_share target n) row _ j) in
                (
                  row,
                  k,
                  ap (λ (x : EventId × Route). x.0) e,
                  (candidate_iff r row).0 h ∙ ap (λ (x : EventId × Route). some x.1) e,
                ))
        ]

  -- Each route of the list has some row selected, if it has a row at all.
  selected_from-some :
      (target : ℤ) (n : ℕ) (rows : List Fields) (rs : List Route) (row : Fields) (r : Route)
      → In r rs
      → In row rows
      → route_in row ≡ some r
      → (first : Fields) × In first rows
        × In (get first cfg.event_id, r) (selected_from as_text cfg target n rows rs)
  unfolding selected_from picked route_share
  selected_from-some target n rows [] row r j i h = absurd j
  selected_from-some target n rows (x ∷ rs) row r (inr j) i h =
      let (first, k, l) = selected_from-some target n rows rs row r j i h in
      (first, k, In-append_right (get first cfg.event_id, r) _ _ l)
  selected_from-some target n rows (x ∷ rs) row r (inl e) i h =
      let (first, k) =
        take-some (route_share target n) row (keep (is_candidate as_text cfg x) rows) (omega arith)
          (In-keep (is_candidate as_text cfg x) row rows i
            ((candidate_iff x row).1 (h ∙ ap some (sym e)))) in
      let mine : EventId × Route = (get first cfg.event_id, r) in
      (
        first,
        (In-keep_inv (is_candidate as_text cfg x) first rows (In-take _ first _ k)).0,
        In-append_left mine
            (map (λ y. (get y cfg.event_id, x)) (picked as_text cfg target n rows x)) _
            (subst
              (λ z.
                In (tagged first z)
                  (map (λ y. (get y cfg.event_id, x)) (picked as_text cfg target n rows x)))
              e (In-map (λ y. (get y cfg.event_id, x)) first _ k)),
      )

  module _ ⦃e : Eq EventId⦄ where
    abbrev pub selected_event : Fields → EventId × Route → Event
    selected_event row s = record { columns = row; route = s.1; options = no_options }

    pub In-join_rows :
        (rows : List Fields) (selected : List (EventId × Route)) (row : Fields)
        (s : EventId × Route)
        → In row rows
        → In s selected
        → get row cfg.event_id ≡ s.0
        → In (selected_event row s) (join_rows as_text cfg rows selected)
    unfolding join_rows
    In-join_rows [] selected row s i j h = absurd i
    In-join_rows (x ∷ rows) selected row s (inr i) j h =
        In-append_right (selected_event row s) _ _ (In-join_rows rows selected row s i j h)
    In-join_rows (x ∷ rows) selected row s (inl same) j h =
        In-append_left (selected_event row s)
          (map (selected_event x)
            (keep (λ (y : EventId × Route). get x cfg.event_id == y.0) selected))
          _
          (subst
            (λ z. In (selected_event row s) (
              map (selected_event z)
                (keep (λ (y : EventId × Route). get z cfg.event_id == y.0) selected)))
            (sym same)
            (In-map (selected_event row) s _ (
              In-keep (λ (y : EventId × Route). get row cfg.event_id == y.0) s selected j
                ((e.beq_iff (get row cfg.event_id) s.0).1 h))))

    In-join_rows_inv :
        (rows : List Fields) (selected : List (EventId × Route)) (evt : Event)
        → In evt (join_rows as_text cfg rows selected)
        → In evt.columns rows
          × ((s : EventId × Route) × In s selected
              × (get evt.columns cfg.event_id ≡ s.0)
              × (evt.route ≡ s.1))
    unfolding join_rows
    In-join_rows_inv [] selected evt i = absurd i
    In-join_rows_inv (x ∷ rows) selected evt i =
        elim (In-append_cases evt
          (map (selected_event x)
            (keep (λ (y : EventId × Route). get x cfg.event_id == y.0) selected))
          _ i) [
            | inr later ↦ let (j, k) = In-join_rows_inv rows selected evt later in (inr j, k)
            | inl here ↦
                (let (s, j, same) = In-map_inv (selected_event x) evt _ here in
                  let (k, h) =
                    In-keep_inv (λ (y : EventId × Route). get x cfg.event_id == y.0) s selected j in
                  (
                    inl (ap (λ (z : Event). z.columns) same),
                    (
                      s,
                      k,
                      ap (λ (z : Event). get z.columns cfg.event_id) (sym same)
                          ∙ (e.beq_iff (get x cfg.event_id) s.0).0 h,
                      ap (λ (z : Event). z.route) (sym same),
                    ),
                  ))
          ]

    -- Every event selected is a row of the table, under a route that a row of its id resolves to.
    pub select_events_sound :
        (target : ℤ) (rows : List Fields) (evt : Event)
        → In evt (select_events as_text cfg target rows)
        → In evt.columns rows
          × ((row : Fields) × In row rows
              × (get row cfg.event_id ≡ get evt.columns cfg.event_id)
              × (route_in row ≡ some evt.route))
    unfolding select_events
    select_events_sound target rows evt i =
        let (j, (s, k, id, own)) = In-join_rows_inv rows _ evt i in
        let (row, l, same, h) = In-selected_from target _ rows _ s k in
        (j, (row, l, same ∙ sym id, h ∙ ap some (sym own)))

    -- No route starves: where a row of the table resolves to a route, an event of that route is
    -- selected, whatever the batch target and the other routes are.
    pub select_events-fair :
        (target : ℤ) (rows : List Fields) (row : Fields) (r : Route)
        → In row rows
        → route_in row ≡ some r
        → (evt : Event) × In evt (select_events as_text cfg target rows) × (evt.route ≡ r)
    unfolding select_events
    select_events-fair target rows row r i h =
        let (first, j, k) =
          selected_from-some target (length (routes_cte as_text cfg rows)) rows
            (routes_cte as_text cfg rows) row r (In-routes_cte rows row r i h) i h in
        let mine : EventId × Route = (get first cfg.event_id, r) in
        (selected_event first mine, In-join_rows rows _ first mine j k refl, refl)
