-- ===== src/Provider.antt =====
-- The contract that the relay core shares with its providers: internal/outboxer/provider/event.go
-- and internal/outboxer/provider/sender.go.
pub mod Settles
use outboxer.Prelude.{ℕ, String, Option, none, some, List, [], ◌∷◌, format}
use outboxer.Value.{Value, Fields, null, str, object, Time, Result, ok, err, field?}

abbrev pub EventId : Type 0
EventId = Value

-- Options.Values; a nil map reads as an empty one.
pub record Options : Type 0 where
  pub values : Fields

-- ErrMalformedOptions, wrapped by the text of the problem
unfoldable pub malformed : String → String
malformed problem = format ("malformed event options: " ∷ problem ∷ [])

abbrev string_of : String → Option Value → Result String
string_of key none = ok ""
string_of key (some null) = ok ""
string_of key (some (str s)) = ok s
string_of key (some _) = err (malformed (format (key ∷ " must be a string" ∷ [])))

-- Options.String
unfoldable pub option_string : Options → String → Result String
unfolding field?
option_string o key = string_of key (field? o.values key)

abbrev object_of : String → Option Value → Result (Option Fields)
object_of key none = ok none
object_of key (some null) = ok none
object_of key (some (object m)) = ok (some m)
object_of key (some _) = err (malformed (format (key ∷ " must be an object" ∷ [])))

-- Options.Object; a nil map is `none`
unfoldable pub option_object : Options → String → Result (Option Fields)
unfolding field?
option_object o key = object_of key (field? o.values key)

-- provider.Event
pub record Event : Type 0 where
  pub id : EventId
  pub payload : List ℕ
  pub timestamp : Time
  pub destination : String
  pub options : Options

-- One use of the callbacks that a provider is given.
pub data Callback : Type 0 where
  add_confirmed_id : EventId → Callback
  add_poison_id : EventId → String → Callback
  mark_progress : Callback
  log_failure : String → String → Callback

-- Callbacks.RejectMalformedOptions
unfoldable pub reject_malformed_options : String → Event → String → String → List Callback
reject_malformed_options target evt field problem =
    add_poison_id evt.id problem
    ∷ log_failure "Failed to send event"
        (format (target ∷ "|" ∷ evt.destination ∷ "|" ∷ field ∷ "|malformed-options" ∷ []))
    ∷ []

-- The callbacks about an event, and a value unless the event was rejected.
pub record Checked {ℓ} (A : Type ℓ) : Type ℓ where
  pub callbacks : List Callback
  pub value : Option A

abbrev pub rejected {ℓ} : {A : Type ℓ} → List Callback → Checked A
rejected cs = record { callbacks = cs; value = none }

abbrev pub accepted {ℓ} : {A : Type ℓ} → A → Checked A
accepted a = record { callbacks = []; value = some a }
