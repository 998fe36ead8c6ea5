-- ===== src/Tests/Routes.antt =====
-- Routing and selection on a table of two rows.
use outboxer.Prelude.{
  String, ◌≡◌, ◌↔◌, ◌≤◌, refl, inl, inr, true, false, Option, none, some, List, [], ◌∷◌, In, length,
}
use outboxer.Prelude.Int.{pos}
use outboxer.Value.{Value, Fields, get, str, field, no_fields, to_bytes}
use outboxer.Config.{AppConfig, default_config, take, derive_notify_channel}
use outboxer.Config.Channel.{derive_notify_channel_iff}
use outboxer.Event.{Event, Route}
use outboxer.Routing.{test, resolved_target_sql, resolved_destination_sql, route_match_sql}
use outboxer.Routing.Spec.{selected_route, route_of}
use outboxer.Routing.Meaning.{selected_route-route_of}
use outboxer.Routing.Match.{route_match-selected}
use outboxer.Backlog.{batch_drained}
use outboxer.Selection.Drained.{batch_drained_complete}
use outboxer.Selection.{table_row, select_events}
use outboxer.Selection.Fair.{route_in, select_events_sound, select_events-fair}
use outboxer.Tests.{id_eq}

abbrev as_text : Value → Option String
as_text (str s) = some s
as_text _ = none

abbrev two_providers : AppConfig
two_providers = record default_config {
  pubsub_enabled = true;
  sqs_enabled = true;
  sqs_destinations = "queue" ∷ [];
}

abbrev row : String → String → String → Fields
row id target destination =
    field "id" (str id)
      (field "target" (str target) (field "destination" (str destination) no_fields))

abbrev to_sqs : Route
to_sqs = record { target = "sqs"; destination = "queue" }

abbrev table : List Fields
table = row "1" "pubsub" "" ∷ row "2" "sqs" "queue" ∷ row "3" "sqs" "other" ∷ []

derive_notify_channel_iff_example :
    ((derive_notify_channel "orders" ≡ derive_notify_channel "events")
      ↔ (take 54 (to_bytes "orders") ≡ take 54 (to_bytes "events")))
    × (length (derive_notify_channel "orders") ≤ 63)
derive_notify_channel_iff_example = derive_notify_channel_iff "orders" "events"

selected_route-route_of_example :
    selected_route two_providers (table_row as_text (row "1" "pubsub" "") none) "candidate"
    ≡ route_of two_providers (table_row as_text (row "1" "pubsub" "") none) "candidate"
selected_route-route_of_example =
    selected_route-route_of two_providers (table_row as_text (row "1" "pubsub" "") none) "candidate"

to_sqs_route :
    selected_route two_providers
      (table_row as_text (row "2" "sqs" "queue") (some to_sqs))
      "candidate"
    ≡ some to_sqs
unfolding selected_route default_config get
to_sqs_route = refl

to_sqs_in : route_in as_text two_providers (row "2" "sqs" "queue") ≡ some to_sqs
unfolding route_of default_config get
to_sqs_in = refl

route_match-selected_example :
    (test (table_row as_text (row "2" "sqs" "queue") (some to_sqs)) (
        route_match_sql two_providers "candidate"
          (resolved_target_sql two_providers "candidate").0
          (resolved_destination_sql two_providers "candidate"
            (resolved_target_sql two_providers "candidate").0))
      ≡ some true)
    ↔ (to_sqs ≡ to_sqs)
route_match-selected_example =
    route_match-selected two_providers (table_row as_text (row "2" "sqs" "queue") (some to_sqs))
      "candidate" to_sqs to_sqs refl refl to_sqs_route

-- The third row's destination is not owned, so two events are selected.
two_selected : length (select_events as_text two_providers (pos 10) table) ≡ 2
unfolding select_events default_config outboxer.Tests.Value-discrete outboxer.Tests.String-discrete
two_selected = refl

select_events-fair_example :
    (evt : Event) × In evt (select_events as_text two_providers (pos 1) table)
    × (evt.route ≡ to_sqs)
select_events-fair_example =
    select_events-fair as_text two_providers (pos 1) table (row "2" "sqs" "queue") to_sqs
      (inr (inl refl)) to_sqs_in

abbrev sqs_event : Event
sqs_event = record {
  columns = row "2" "sqs" "queue";
  route = to_sqs;
  options = record { values = no_fields };
}

is_selected : In sqs_event (select_events as_text two_providers (pos 10) table)
unfolding select_events default_config outboxer.Tests.Value-discrete outboxer.Tests.String-discrete
is_selected = inr (inl refl)

select_events-sound_example :
    In (row "2" "sqs" "queue") table
    × ((other : Fields) × In other table
        × (get other "id" ≡ get (row "2" "sqs" "queue") "id")
        × (route_in as_text two_providers other ≡ some to_sqs))
unfolding default_config
select_events-sound_example =
    select_events_sound as_text two_providers (pos 10) table sqs_event is_selected

ten_drain : batch_drained (select_events as_text two_providers (pos 10) table) (pos 10) ≡ true
unfolding batch_drained select_events default_config outboxer.Tests.Value-discrete
    outboxer.Tests.String-discrete
ten_drain = refl

-- A target of one gives each route one event, so the batch is not known to be drained.
one_does_not : batch_drained (select_events as_text two_providers (pos 1) table) (pos 1) ≡ false
unfolding batch_drained select_events default_config outboxer.Tests.Value-discrete
    outboxer.Tests.String-discrete
one_does_not = refl

batch_drained-complete_example : In sqs_event (select_events as_text two_providers (pos 10) table)
batch_drained-complete_example =
    batch_drained_complete as_text two_providers (pos 10) table (row "2" "sqs" "queue") to_sqs
      ten_drain (inr (inl refl)) to_sqs_in
