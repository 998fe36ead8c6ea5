-- ===== src/Database.antt =====
-- What internal/outboxer/db.go reads from the database and writes into SQL text: the scan of the
-- selected rows, the columns that the event table must have, and literals.
pub mod Literals
pub mod Scan
use Prim.Native.Char.{code}
use Prim.Native.String
use outboxer.Prelude.{
  ℕ, zero, suc, String, Bool, true, false, ◌&&◌, ◌||◌, not, Option, none, some, List, [], ◌∷◌, ◌++◌,
  map, if◌then◌else◌, is_empty, format, nat_beq, ltb, length, contains, ◌==◌, string_eq,
}
use outboxer.Prelude.Int.{ℤ, pos, negsuc, nonpositive}
use outboxer.Value.{Value, Fields, no_fields, put, Runtime, Result, ok, err}
use outboxer.Event.{Event, Route, no_options, value_string}
use outboxer.Config.{AppConfig, ProviderRoute, configured_provider_routes}

-- strings.ReplaceAll(value, "'", "''")
unfoldable pub double_quotes : String → String
double_quotes String.[] = ""
double_quotes (String.◌∷◌ c s) =
    let rest = double_quotes s in
    if nat_beq (code c) b'\'' then String.◌∷◌ c (String.◌∷◌ c rest) else String.◌∷◌ c rest

unfoldable pub sql_string_literal : String → String
unfolding double_quotes
sql_string_literal value = format ("'" ∷ double_quotes value ∷ "'" ∷ [])

abbrev separated : String → String → List String → String
separated separator part [] = part
separated separator part (next ∷ parts) =
    format (part ∷ separator ∷ separated separator next parts ∷ [])

-- strings.Join
abbrev pub join_with : String → List String → String
join_with separator [] = ""
join_with separator (part ∷ parts) = separated separator part parts

unfoldable pub sql_string_list : List String → String
unfolding sql_string_literal
sql_string_list values = join_with ", " (map sql_string_literal values)

abbrev pub lacks_default : List ProviderRoute → Bool
lacks_default [] = false
lacks_default (route ∷ routes) =
    let rest = lacks_default routes in is_empty route.default_destination || rest

-- The columns that validateEventColumns requires; an empty name is passed over later.
abbrev pub required_columns : AppConfig → List String
required_columns cfg =
    cfg.event_id ∷ cfg.event_payload ∷ []
    ++ (if nonpositive cfg.max_event_age then [] else cfg.event_timestamp ∷ [])
    ++ (if ltb 1 (length (configured_provider_routes cfg)) then cfg.event_target ∷ [] else [])
    ++ (if lacks_default (configured_provider_routes cfg) then cfg.event_destination ∷ [] else [])

abbrev pub missing_columns : List String → List String → List String
missing_columns columns [] = []
missing_columns columns (name ∷ names) =
    let rest = missing_columns columns names in
    if not (is_empty name) && not (contains name columns) then name ∷ rest else rest

abbrev pub missing_error : AppConfig → List String → Option String
missing_error cfg [] = none
missing_error cfg (name ∷ names) = some (
    format (
      "event table "
      ∷ cfg.event_table
      ∷ " is missing required columns: "
      ∷ join_with ", " (name ∷ names)
      ∷ []))

unfoldable pub validate_event_columns : AppConfig → List String → Option String
unfolding configured_provider_routes contains
validate_event_columns cfg columns =
    missing_error cfg (missing_columns columns (required_columns cfg))

-- checkDBWorks: the table's columns, or the query's error.
unfoldable pub check_db_works : AppConfig → Result (List String) → Option String
unfolding validate_event_columns
check_db_works cfg (err problem) = some problem
check_db_works cfg (ok columns) = validate_event_columns cfg columns

-- evt.columns: the values by the names of their columns, a later one of a name in place of an
-- earlier one.
unfoldable pub columns_of : Fields → List String → List Value → Fields
unfolding put
columns_of fields [] values = fields
columns_of fields (name ∷ names) [] = fields
columns_of fields (name ∷ names) (v ∷ values) = columns_of (put fields name v) names values

module _ (rt : Runtime) where
  abbrev scanned_route : String → String → List String → List Value → Result Event
  scanned_route target destination names values =
      if is_empty target
      then err "selected event has empty resolved target"
      else if is_empty destination
      then err "selected event has empty resolved destination"
      else ok (record {
        columns = columns_of no_fields names values;
        route = record { target = target; destination = destination };
        options = no_options;
      })

  -- One row, its values as many as the columns.
  unfoldable pub scan_event : List String → List Value → Result Event
  unfolding columns_of value_string
  scan_event names (target ∷ destination ∷ values) =
      scanned_route (value_string rt target) (value_string rt destination) names values
  scan_event names _ = err "sql: a row has as many values as columns"

  abbrev ended : Option String → Result (List Event)
  ended none = ok []
  ended (some problem) = err problem

  abbrev and_then : Result Event → Result (List Event) → Result (List Event)
  and_then (err problem) rest = err problem
  and_then (ok evt) (err problem) = err problem
  and_then (ok evt) (ok events) = ok (evt ∷ events)

  abbrev pub scan_row : List String → Result (List Value) → Result Event
  scan_row names (err problem) = err problem
  scan_row names (ok values) = scan_event names values

  -- The loop over the rows, each scanned or not, with the error of the rows at the end.
  unfoldable pub scan_rows :
      List String → List (Result (List Value)) → Option String → Result (List Event)
  unfolding scan_event
  scan_rows names [] rows_err = ended rows_err
  scan_rows names (row ∷ rows) rows_err =
      and_then (scan_row names row) (scan_rows names rows rows_err)

  abbrev no_route : Result (List Event)
  no_route = err "selected event query did not return resolved route columns"

  unfoldable pub scan_events :
      Result (List String) → List (Result (List Value)) → Option String → Result (List Event)
  unfolding scan_rows
  scan_events (err problem) rows rows_err = err problem
  scan_events (ok (first ∷ second ∷ names)) rows rows_err =
      if first == "resolved_target" && second == "resolved_destination"
      then scan_rows names rows rows_err
      else no_route
  scan_events (ok _) rows rows_err = no_route
