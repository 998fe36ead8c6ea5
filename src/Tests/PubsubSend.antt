-- ===== src/Tests/PubsubSend.antt =====
-- Runs of the Pub/Sub provider: ordered and unordered events, and what becomes of them.
use outboxer.Prelude.{
  ℕ, ◌+◌, String, Bool, true, false, Option, none, some, List, [], ◌∷◌, ◌≡◌, refl, All, In, inl,
  inr, ◌==◌, string_eq, if◌then◌else◌, length,
}
use outboxer.Errors.{returned, failed, leaf, message, deadline_exceeded}
use outboxer.Value.{str, no_fields, field, to_bytes}
use outboxer.Provider.{Event}
use outboxer.Provider.Settles.{Settled}
use outboxer.Pubsub.{PubsubCandidateEvent}
use outboxer.Pubsub.Send.{
  Google, Answers, send_pubsub_ordered_group, send_pubsub_events, send_pubsub_err,
}
use outboxer.Pubsub.Send.Steps.{messages_of}
use outboxer.Pubsub.Send.Order.{IsGroup, send_pubsub_ordered_group-IsGroup}
use outboxer.Pubsub.Send.Total.{all_callbacks, send_pubsub_events-settles}

abbrev google : Google
google = record {
  api_code = λ e. elim e [ leaf c ↦ elim c [ message s ↦ some 400 | _ ↦ none ] | _ ↦ none ];
  status_code = λ e. 2;
  error_text = λ e. "error";
}

abbrev event_of : String → String → Event
event_of id key = record {
  id = str id;
  payload = to_bytes "hello";
  timestamp = 0;
  destination = "orders";
  options = record { values = field "orderingKey" (str key) no_fields };
}

abbrev candidate : String → PubsubCandidateEvent
candidate id = record { evt = event_of id "customer-7"; ordering_key = "customer-7" }

-- The first publish of "2" is refused, and accepted when the event is sent alone.
abbrev answers : Answers
answers = record {
  first_answer = λ p. elim p.log_id [
    | str id ↦ if id == "2" then failed (leaf (message "bad request")) else returned "m"
    | _ ↦ returned "m"
  ];
  alone_answer = λ p. returned "m";
}

-- The second event times out.
abbrev late_answers : Answers
late_answers = record {
  first_answer = λ p. elim p.log_id [
    | str id ↦ if id == "2" then failed (leaf deadline_exceeded) else returned "m"
    | _ ↦ returned "m"
  ];
  alone_answer = λ p. returned "m";
}

abbrev three : List PubsubCandidateEvent
three = candidate "1" ∷ candidate "2" ∷ candidate "3" ∷ []

four_publishes : length (messages_of (send_pubsub_ordered_group google answers three).actions) ≡ 4
unfolding send_pubsub_ordered_group to_bytes
four_publishes = refl

two_publishes :
    length (messages_of (send_pubsub_ordered_group google late_answers three).actions) ≡ 2
unfolding send_pubsub_ordered_group to_bytes
two_publishes = refl

send_pubsub_ordered_group-IsGroup_example :
    IsGroup "orders" "customer-7" three (send_pubsub_ordered_group google late_answers three)
send_pubsub_ordered_group-IsGroup_example =
    send_pubsub_ordered_group-IsGroup google late_answers "orders" "customer-7" three
      ((refl, refl), ((refl, refl), ((refl, refl), tt)))

abbrev mixed : List Event
mixed = event_of "1" "" ∷ event_of "2" "customer-7" ∷ event_of "3" "customer-7" ∷ []

no_error :
    (let (cs, unordered, groups) = send_pubsub_events google answers mixed in
      send_pubsub_err unordered groups)
    ≡ none
unfolding send_pubsub_events send_pubsub_err outboxer.Prelude.format outboxer.Prelude.append_at
    to_bytes
no_error = refl

send_pubsub_events-settles_example :
    All
      (λ (evt : Event). Settled evt.id (all_callbacks (send_pubsub_events google answers mixed)))
      mixed
send_pubsub_events-settles_example = send_pubsub_events-settles google answers mixed no_error
