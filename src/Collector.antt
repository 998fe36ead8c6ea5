-- ===== src/Collector.antt =====
-- How one sender's reports are collected: senderCollector and collectSenderOutput of
-- internal/outboxer/processor.go. The mutex makes the reports a sequence.
pub mod Once
pub mod Reports
use outboxer.Prelude.{
  String, Bool, true, false, Option, none, some, List, [], ◌∷◌, ◌++◌, if◌then◌else◌, string_eq,
  lookup, insert, contains, format,
}
use outboxer.Value.{Runtime}
use outboxer.Provider.{
  EventId, Callback, add_confirmed_id, add_poison_id, mark_progress, log_failure,
}
use outboxer.Config.{AppConfig}
use outboxer.Event.{Event, event_value, event_id_key}
use outboxer.App.{App, Moment, progress, report_failure}

pub record PoisonEvent : Type 0 where
  pub evt : Event
  pub error : String

pub record SenderOutput : Type 0 where
  pub confirmed : List Event
  pub poison : List PoisonEvent

pub record SenderCollector : Type 0 where
  pub events_by_id : List (String × Event)
  pub seen : List String
  pub output : SenderOutput

abbrev pub no_output : SenderOutput
no_output = record { confirmed = []; poison = [] }

abbrev add_output : Bool → String → Event → SenderOutput → SenderOutput
add_output true reason evt o = record o {
  poison = o.poison ++ record { evt = evt; error = reason } ∷ [];
}
add_output false reason evt o = record o { confirmed = o.confirmed ++ evt ∷ [] }

-- What `record` does with the event that the key stands for.
unfoldable pub settle : String → String → Bool → Option Event → SenderCollector → SenderCollector
unfolding contains
settle key reason poisoned none c = c
settle key reason poisoned (some evt) c =
    if contains key c.seen
    then c
    else record c { seen = key ∷ c.seen; output = add_output poisoned reason evt c.output }

-- Only a report from outside the batch is logged.
abbrev pub log_outside : Moment → String → Option Event → App → App
log_outside m key none a = report_failure m (format ("sender-outside-selection|" ∷ key ∷ [])) a
log_outside m key (some evt) a = a

module _ (rt : Runtime) where
  -- The map that newSenderCollector builds: a later event overwrites an earlier one of its key.
  unfoldable pub events_by_id_from :
      AppConfig → List (String × Event) → List Event → List (String × Event)
  unfolding insert
  events_by_id_from cfg m [] = m
  events_by_id_from cfg m (evt ∷ events) =
      events_by_id_from cfg (insert (event_id_key rt (event_value evt cfg.event_id)) evt m) events

  unfoldable pub new_sender_collector : AppConfig → List Event → SenderCollector
  unfolding events_by_id_from
  new_sender_collector cfg events = record {
    events_by_id = events_by_id_from cfg [] events;
    seen = [];
    output = no_output;
  }

  -- The collector's side of senderCollector.record, and the app's.
  unfoldable pub record_outcome : EventId → String → Bool → SenderCollector → SenderCollector
  unfolding settle lookup
  record_outcome id reason poisoned c =
      settle (event_id_key rt id) reason poisoned (lookup (event_id_key rt id) c.events_by_id) c

  unfoldable pub record_effects : Moment → EventId → SenderCollector → App → App
  unfolding progress report_failure lookup
  record_effects m id c a =
      log_outside m (event_id_key rt id) (lookup (event_id_key rt id) c.events_by_id) (progress a)

  unfoldable pub confirm : EventId → SenderCollector → SenderCollector
  unfolding record_outcome
  confirm id = record_outcome id "" false

  unfoldable pub poison : EventId → String → SenderCollector → SenderCollector
  unfolding record_outcome
  poison id reason = record_outcome id reason true

  -- The four callbacks that collectSenderOutput hands to the sender.
  unfoldable pub callback : Callback → SenderCollector → SenderCollector
  unfolding confirm poison
  callback (add_confirmed_id id) c = confirm id c
  callback (add_poison_id id reason) c = poison id reason c
  callback mark_progress c = c
  callback (log_failure message signature) c = c

  unfoldable pub callback_effects : Moment → Callback → SenderCollector → App → App
  unfolding record_effects progress report_failure
  callback_effects m (add_confirmed_id id) c a = record_effects m id c a
  callback_effects m (add_poison_id id reason) c a = record_effects m id c a
  callback_effects m mark_progress c a = progress a
  callback_effects m (log_failure message signature) c a = report_failure m signature a
