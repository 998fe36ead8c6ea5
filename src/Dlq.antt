-- ===== src/Dlq.antt =====
-- The dead letter queue: internal/outboxer/dlq.go.
pub mod Load
pub mod Table
pub mod Columns
use outboxer.Prelude.{
  String, Bool, true, false, not, ◌&&◌, ◌||◌, Option, none, some, List, [], ◌∷◌, ◌++◌, map,
  if◌then◌else◌, ◌==◌, string_eq, nat_eq, is_empty, lookup, insert, length,
}
use outboxer.Errors.{Error}
use outboxer.Value.{Value, Fields, no_fields, field, bytes, str, Time, Runtime, Result, ok, err}
use outboxer.Config.{AppConfig}
use outboxer.Event.{Event}
use outboxer.Collector.{PoisonEvent}

-- The payload that json.Marshal is given, with a field for each key; `error` is left out if empty.
pub record DeadLetter : Type 0 where
  pub source_schema : String
  pub source_table : String
  pub dead_lettered_at : String
  pub target : String
  pub destination : String
  pub original_event : Fields
  pub error : Option String

abbrev decoded_or_text : Runtime → Value → Result Value → Value
decoded_or_text rt v (ok decoded) = decoded
decoded_or_text rt v (err e) = v

module _ (rt : Runtime) where
  -- Bytes are decoded as JSON where they are JSON, and else kept as text.
  unfoldable pub event_json_value : Value → Value
  event_json_value (bytes b) = decoded_or_text rt (str (rt.from_bytes b)) (rt.unmarshal b)
  event_json_value v = v

  unfoldable pub original_event_json : Fields → Fields
  unfolding event_json_value
  original_event_json no_fields = no_fields
  original_event_json (field key value columns) =
      field key (event_json_value value) (original_event_json columns)

  unfoldable pub dead_letter_payload : AppConfig → Time → PoisonEvent → DeadLetter
  unfolding original_event_json
  dead_letter_payload cfg now poisoned = record {
    source_schema = cfg.pg_schema;
    source_table = cfg.event_table;
    dead_lettered_at = rt.format_time now;
    target = poisoned.evt.route.target;
    destination = poisoned.evt.route.destination;
    original_event = original_event_json poisoned.evt.columns;
    error = if is_empty poisoned.error then none else some poisoned.error;
  }

-- The loop over json.Marshal: its first error ends it.
unfoldable pub marshal_all : (DeadLetter → Option Error) → List DeadLetter → Option Error
marshal_all marshal [] = none
marshal_all marshal (letter ∷ letters) =
    let rest = marshal_all marshal letters in
    elim (marshal letter) [ some e ↦ some e | none ↦ rest ]

pub record DlqColumnMetadata : Type 0 where
  pub name : String
  pub type_name : String
  pub not_null : Bool
  pub default_expr : Option String
  pub identity : String
  pub generated : String
  pub can_insert_column : Bool

pub record DlqTableMetadata : Type 0 where
  pub relkind : String
  pub can_insert_table : Bool
  pub columns : List DlqColumnMetadata

-- The errors of validateDLQTableMetadata, one constructor for each.
pub data DlqTableError : Type 0 where
  no_columns not_a_table no_table_privilege no_id_column id_not_omittable : DlqTableError
  no_event_column event_generated event_not_json no_event_privilege : DlqTableError
  blocking_columns : List String → DlqTableError

abbrev is_valid : Option String → Bool
is_valid none = false
is_valid (some expr) = true

unfoldable pub can_omit_column_from_insert : DlqColumnMetadata → Bool
can_omit_column_from_insert column =
    not column.not_null
    || (is_valid column.default_expr
        || (not (is_empty column.identity) || not (is_empty column.generated)))

-- The map of the columns by name: a later column of a name replaces an earlier one.
unfoldable pub columns_by_name :
    List (String × DlqColumnMetadata) → List DlqColumnMetadata → List (String × DlqColumnMetadata)
unfolding insert
columns_by_name m [] = m
columns_by_name m (column ∷ columns) = columns_by_name (insert column.name column m) columns

-- The names of the columns that an INSERT into `event` alone cannot leave out.
unfoldable pub blocking : List DlqColumnMetadata → List String
unfolding can_omit_column_from_insert
blocking [] = []
blocking (column ∷ columns) =
    let rest = blocking columns in
    if column.name == "id" || column.name == "event"
    then rest
    else if can_omit_column_from_insert column
    then rest
    else column.name ∷ rest

abbrev blocked : List String → Option DlqTableError
blocked [] = none
blocked (name ∷ names) = some (blocking_columns (name ∷ names))

abbrev check_event : DlqTableMetadata → Option DlqColumnMetadata → Option DlqTableError
check_event metadata none = some no_event_column
check_event metadata (some event) =
    if not (is_empty event.generated)
    then some event_generated
    else if not (event.type_name == "json") && not (event.type_name == "jsonb")
    then some event_not_json
    else if not event.can_insert_column
    then some no_event_privilege
    else blocked (blocking metadata.columns)

abbrev check_id :
    DlqTableMetadata → Option DlqColumnMetadata → Option DlqColumnMetadata → Option DlqTableError
check_id metadata none event = some no_id_column
check_id metadata (some id) event =
    if not (can_omit_column_from_insert id)
    then some id_not_omittable
    else check_event metadata event

unfoldable pub validate_dlq_table_metadata : DlqTableMetadata → Option DlqTableError
unfolding columns_by_name lookup blocking can_omit_column_from_insert
validate_dlq_table_metadata metadata =
    let columns = columns_by_name [] metadata.columns in
    if length metadata.columns == 0
    then some no_columns
    else if not (metadata.relkind == "r") && not (metadata.relkind == "p")
    then some not_a_table
    else if not metadata.can_insert_table
    then some no_table_privilege
    else check_id metadata (lookup "id" columns) (lookup "event" columns)
