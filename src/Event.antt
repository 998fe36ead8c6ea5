-- ===== src/Event.antt =====
-- Outbox rows as events: internal/outboxer/events.go, and the age test of
-- internal/outboxer/processor.go.
use outboxer.Prelude.{
  ℕ, String, Bool, true, false, Option, none, some, List, [], ◌∷◌, map, ltb, if◌then◌else◌,
  is_empty, format, ◌==◌, string_eq, ◌&&◌, Eq, ◌≡◌, ◌↔◌, arith,
}
use outboxer.Prelude.Int.{pos_part, nonpositive}
use outboxer.Value.{
  Value, Fields, Time, elapsed, Runtime, Result, ok, err, ◌>>=◌, null, str, bytes, time, object,
  no_fields, get, field?, to_bytes, rfc3339_nano, datetime_nano, datetime,
}
use outboxer.Provider
use outboxer.Provider.{Options, malformed}
use outboxer.Config.{AppConfig}

-- eventRoute
pub record Route : Type 0 where
  pub target : String
  pub destination : String

pub record Event : Type 0 where
  pub columns : Fields
  pub route : Route
  pub options : Options

abbrev pub no_options : Options
no_options = record { values = no_fields }

-- eventValue
unfoldable pub event_value : Event → String → Value
unfolding get
event_value evt column = get evt.columns column

abbrev decoded_root : Value → Result Fields
decoded_root null = ok no_fields
decoded_root (object m) = ok m
decoded_root _ = err (malformed "options column must be an object")

abbrev decoded : Result Value → Result Fields
decoded (ok v) = decoded_root v
decoded (err problem) = err (malformed problem)

abbrev section_of : String → Option Value → Result Options
section_of target none = ok no_options
section_of target (some null) = ok no_options
section_of target (some (object values)) = ok (record { values = values })
section_of target (some _) = err (malformed (format (target ∷ " section must be an object" ∷ [])))

module _ (rt : Runtime) where
  unfoldable pub parse_options_json : List ℕ → Result Fields
  parse_options_json [] = ok no_fields
  parse_options_json (c ∷ content) = decoded (rt.unmarshal (c ∷ content))

  unfoldable pub options_root : Value → Result Fields
  unfolding parse_options_json
  options_root null = ok no_fields
  options_root (object m) = ok m
  options_root (bytes content) = parse_options_json content
  options_root (str content) = parse_options_json (to_bytes content)
  options_root _ = err (malformed "options column must be an object")

  unfoldable pub event_options : Value → String → Result Options
  unfolding options_root field?
  event_options raw target = do root ← options_root raw; section_of target (field? root target)

  -- event.withParsedOptions
  unfoldable pub with_parsed_options : AppConfig → Event → Result Event
  unfolding event_options get
  with_parsed_options cfg e = do
    options ← event_options (get e.columns cfg.event_options) e.route.target
    ok (record e { options = options })

  unfoldable pub value_string : Value → String
  value_string null = ""
  value_string (str s) = s
  value_string (bytes b) = rt.from_bytes b
  value_string (time t) = rt.format_time t
  value_string v = rt.sprint v

  unfoldable pub value_bytes : Value → List ℕ
  value_bytes null = []
  value_bytes (bytes b) = b
  value_bytes (str s) = to_bytes s
  value_bytes v = to_bytes (rt.sprint v)

  abbrev first_of : Option Time → Option Time → Option Time
  first_of (some t) _ = some t
  first_of none o = o

  unfoldable pub parse_timestamp_string : String → Option Time
  parse_timestamp_string value =
      if is_empty value
      then none
      else first_of (rt.parse_time rfc3339_nano value)
          (first_of (rt.parse_time datetime_nano value) (rt.parse_time datetime value))

  unfoldable pub event_timestamp : Value → Option Time
  unfolding parse_timestamp_string
  event_timestamp (time t) = some t
  event_timestamp (str s) = parse_timestamp_string s
  event_timestamp (bytes b) = parse_timestamp_string (rt.from_bytes b)
  event_timestamp _ = none

  abbrev or_zero : Option Time → Time
  or_zero none = 0
  or_zero (some t) = t

  -- providerEvent
  unfoldable pub provider_event : AppConfig → Event → Provider.Event
  unfolding event_timestamp value_bytes get
  provider_event cfg evt = record {
    id = get evt.columns cfg.event_id;
    payload = value_bytes (get evt.columns cfg.event_payload);
    timestamp = or_zero (event_timestamp (get evt.columns cfg.event_timestamp));
    destination = evt.route.destination;
    options = evt.options;
  }

  unfoldable pub provider_events : AppConfig → List Event → List Provider.Event
  provider_events cfg = map (provider_event cfg)

  abbrev older : AppConfig → Time → Option Time → Bool
  older cfg now none = false
  older cfg now (some t) = ltb (pos_part cfg.max_event_age) (elapsed now t)

  -- isExpiredEvent
  unfoldable pub is_expired_event : AppConfig → Event → Time → Bool
  unfolding event_timestamp event_value elapsed
  is_expired_event cfg evt now =
      if nonpositive cfg.max_event_age
      then false
      else older cfg now (event_timestamp (event_value evt cfg.event_timestamp))

  abbrev age : Time → Option Time → ℕ
  age now none = 0
  age now (some t) = elapsed now t

  -- oldestEventAge; `now` is the clock that time.Since reads
  unfoldable pub oldest_event_age : AppConfig → Time → List Event → ℕ
  unfolding event_timestamp event_value elapsed
  oldest_event_age cfg now [] = 0
  oldest_event_age cfg now (evt ∷ events) =
      if is_empty cfg.event_timestamp
      then 0
      else age now (event_timestamp (event_value evt cfg.event_timestamp))

  -- eventIDKey
  unfoldable pub event_id_key : Value → String
  event_id_key id = format (rt.type_name id ∷ ":" ∷ rt.sprint id ∷ [])

-- Routes are compared by both fields.
abbrev pub route_beq : Route → Route → Bool
route_beq a b = a.target == b.target && a.destination == b.destination

pub route_beq_iff : (a b : Route) → (route_beq a b ≡ true) ↔ (a ≡ b)
route_beq_iff a b =
    ground
      (arith, string_eq.beq_iff a.target b.target, string_eq.beq_iff a.destination b.destination)

instance abbrev pub route_eq : Eq Route
route_eq = record { beq = route_beq; beq_iff = route_beq_iff }
