-- ===== src/Database/Scan.antt =====
-- What scanEvents (internal/outboxer/db.go) makes of the rows of the selection query.
use outboxer.Prelude.{
  String, false, Option, none, some, List, [], ◌∷◌, ◌≡◌, refl, sym, ◌∙◌, ◌↔◌, All, if◌then◌else◌,
  is_empty, ◌==◌, string_eq, Bool-cases, inl, inr, arith,
}
use outboxer.Value.{
  Value, null, Fields, no_fields, field, put, get, field?, Runtime, Result, ok, err,
}
use outboxer.Event.{Event, event_value, value_string}
use outboxer.Database.{columns_of, scan_event, scan_row, scan_rows, scan_events, and_then}

field?-put :
    (m : Fields) (set read : String) (v : Value)
    → field? (put m set v) read ≡ (if set == read then some v else field? m read)
unfolding field? put
field?-put no_fields set read v = refl
field?-put (field k w m) set read v = elim (Bool-cases (k == set)) [
  | inl same ↦ (let e = (string_eq.beq_iff k set).0 same in rw (same, e) (ground arith))
  | inr other ↦
      rw (other, field?-put m set read v)
        (elim (Bool-cases (k == read)) [
          | inl found ↦
              (let e = (string_eq.beq_iff k read).0 found in
                let away : (set == read) ≡ false = elim (Bool-cases (set == read)) [
                  | inl here ↦
                      (let e' = (string_eq.beq_iff set read).0 here in
                        let t = (string_eq.beq_iff k set).1 (e ∙ sym e') in cc (t, other))
                  | inr away ↦ away
                ] in
                rw (found, away) refl)
          | inr later ↦ rw later refl
        ])
]

get-put :
    (m : Fields) (set read : String) (v : Value)
    → get (put m set v) read ≡ (if set == read then v else get m read)
unfolding get
get-put m set read v = rw (field?-put m set read v) (ground arith)

-- The last value of a row in a column of this name.
abbrev pub last_value : String → Value → List String → List Value → Value
last_value name otherwise [] values = otherwise
last_value name otherwise (n ∷ names) [] = otherwise
last_value name otherwise (n ∷ names) (v ∷ values) =
    last_value name (if n == name then v else otherwise) names values

get-columns_of :
    (name : String) (m : Fields) (names : List String) (values : List Value)
    → get (columns_of m names values) name ≡ last_value name (get m name) names values
unfolding columns_of
get-columns_of name m [] values = refl
get-columns_of name m (n ∷ names) [] = refl
get-columns_of name m (n ∷ names) (v ∷ values) =
    rw (get-columns_of name (put m n v) names values, get-put m n name v) refl

module _ (rt : Runtime) where
  -- A row that was scanned and names a target and a destination.
  abbrev pub IsRouted : Result (List Value) → Type 0
  IsRouted row =
      (target : Value) × (destination : Value) × (values : List Value) × (row
        ≡ ok (target ∷ destination ∷ values))
      × (is_empty (value_string rt target) ≡ false)
      × (is_empty (value_string rt destination) ≡ false)

  -- The event of a row: its route, and the values by the names of their columns.
  abbrev pub IsEventOf : List String → Result (List Value) → Event → Type 0
  IsEventOf names row evt =
      (target : Value) × (destination : Value) × (values : List Value) × (row
        ≡ ok (target ∷ destination ∷ values))
      × (evt.route.target ≡ value_string rt target)
      × (evt.route.destination ≡ value_string rt destination)
      × ((name : String) → event_value evt name ≡ last_value name null names values)

  abbrev pub AreEventsOf : List String → List (Result (List Value)) → List Event → Type 0
  AreEventsOf names [] [] = Unit
  AreEventsOf names [] (evt ∷ events) = ⊥
  AreEventsOf names (row ∷ rows) [] = ⊥
  AreEventsOf names (row ∷ rows) (evt ∷ events) =
      IsEventOf names row evt × AreEventsOf names rows events

  scan_row-IsEventOf :
      (names : List String) (row : Result (List Value))
      → IsRouted row
      → (evt : Event) × (scan_row rt names row ≡ ok evt) × IsEventOf names row evt
  unfolding scan_event event_value get
  scan_row-IsEventOf names row (target, destination, values, e, t, d) = (
    record {
      columns = columns_of no_fields names values;
      route = record { target = value_string rt target; destination = value_string rt destination };
      options = record { values = no_fields };
    },
    rw (e, t, d) refl,
    (
      target,
      destination,
      values,
      e,
      refl,
      refl,
      λ name. get-columns_of name no_fields names values,
    ),
  )

  scan_row-IsRouted :
      (names : List String) (row : Result (List Value)) (evt : Event)
      → scan_row rt names row ≡ ok evt
      → IsRouted row
  unfolding scan_event
  scan_row-IsRouted names (err problem) evt h = cc h
  scan_row-IsRouted names (ok []) evt h = cc h
  scan_row-IsRouted names (ok (target ∷ [])) evt h = cc h
  scan_row-IsRouted names (ok (target ∷ destination ∷ values)) evt h =
      elim (Bool-cases (is_empty (value_string rt target))) [
        | inl none_there ↦ cc (rw none_there at h)
        | inr t ↦ elim (Bool-cases (is_empty (value_string rt destination))) [
          | inl none_there ↦ cc (rw (t, none_there) at h)
          | inr d ↦ (target, destination, values, refl, t, d)
        ]
      ]

  scan_rows_complete :
      (names : List String) (rows : List (Result (List Value)))
      → All IsRouted rows
      → (events : List Event) × (scan_rows rt names rows none ≡ ok events)
        × AreEventsOf names rows events
  unfolding scan_rows
  scan_rows_complete names [] h = ([], refl, tt)
  scan_rows_complete names (row ∷ rows) (routed, h) =
      let (evt, e, is) = scan_row-IsEventOf names row routed in
      let (events, es, are) = scan_rows_complete names rows h in
      (evt ∷ events, rw (e, es) refl, (is, are))

  and_then_inv :
      (first : Result Event) (rest : Result (List Event)) (events : List Event)
      → and_then rt first rest ≡ ok events
      → (evt : Event) × (later : List Event) × (first ≡ ok evt) × (rest ≡ ok later)
  and_then_inv (err problem) rest events h = cc h
  and_then_inv (ok evt) (err problem) events h = cc h
  and_then_inv (ok evt) (ok later) events h = (evt, later, refl, refl)

  scan_rows-IsRouted :
      (names : List String) (rows : List (Result (List Value))) (rows_err : Option String)
      (events : List Event)
      → scan_rows rt names rows rows_err ≡ ok events
      → (rows_err ≡ none) × All IsRouted rows
  unfolding scan_rows
  scan_rows-IsRouted names [] none events h = (refl, tt)
  scan_rows-IsRouted names [] (some problem) events h = cc h
  scan_rows-IsRouted names (row ∷ rows) rows_err events h =
      let (evt, later, e, es) =
        and_then_inv (scan_row rt names row) (scan_rows rt names rows rows_err) events h in
      let (quiet, routed) = scan_rows-IsRouted names rows rows_err later es in
      (quiet, (scan_row-IsRouted names row evt e, routed))

  pub scan_events_iff :
      (names : List String) (rows : List (Result (List Value))) (rows_err : Option String)
      → ((events : List Event) × (scan_events rt
              (ok ("resolved_target" ∷ "resolved_destination" ∷ names))
              rows
              rows_err
            ≡ ok events)
          × AreEventsOf names rows events)
        ↔ ((rows_err ≡ none) × All IsRouted rows)
  unfolding scan_events
  scan_events_iff names rows rows_err = (
    λ (events, e, are). scan_rows-IsRouted names rows rows_err events e,
    λ (quiet, routed). rw quiet (scan_rows_complete names rows routed),
  )
