-- ===== src/Tests/SqsSend.antt =====
-- Runs of the SQS provider: events to a standard and to a FIFO queue, and their answers.
use outboxer.Prelude.{
  ℕ, ◌+◌, String, Bool, true, false, Option, none, some, List, [], ◌∷◌, ◌≡◌, ◌↔◌, refl, map, length,
  All, In, inl, inr, codes, arith, ◌==◌, string_eq, if◌then◌else◌, Bool-cases,
}
use outboxer.Prelude.Int.{pos}
use outboxer.Errors.{Outcome, returned, failed, leaf, message}
use outboxer.Value.{Value, Fields, str, int, float, no_fields, field, ok, err, field?, to_bytes}
use outboxer.Provider.{Event, Options, Callback, add_confirmed_id}
use outboxer.Sqs.{PreparedEvent, BatchResponse, MessageAttribute}
use outboxer.Sqs.Poison.{
  is_sqs_poison, sqs_allowed_unicode_bytes, sqs_message_size, valid_attribute, valid_sqs_attributes,
  valid_sqs_attribute_data_type,
}
use outboxer.Sqs.Prepare.Limits.{Fits}
use outboxer.Sqs.Prepare.Complete.{is_sqs_poison_iff}
use outboxer.Sqs.Options.{sqs_delay_seconds}
use outboxer.Sqs.Options.Delay.{IsInt32, Denotes, sqs_delay_seconds_iff}
use outboxer.Sqs.Prepare.{Library, Candidate, prepare_sqs_event}
use outboxer.Sqs.Prepare.Ids.{IsDigest}
use outboxer.Sqs.Prepare.Entries.{IsEntry, IsDecided, prepare_sqs_event-IsDecided}
use outboxer.Sqs.Send.{Service, Run, QueueRun, send_fifo_group, send_sqs_events}
use outboxer.Sqs.Send.Order.{IsPrefix, IsFaithful, send_fifo_group-IsPrefix}
use outboxer.Sqs.Send.Limits.{IsServed, send_sqs_events-IsServed}

abbrev test_digest : String → String
test_digest s = "0123456789abcdef0123456789abcdef0123456789abcdef0123456789abcdef"

test_digest-IsDigest : IsDigest test_digest
test_digest-IsDigest s = (refl, refl)

abbrev test_library : Library
test_library = record {
  sprint = λ v. elim v [ str s ↦ s | _ ↦ "?" ];
  stable_digest = test_digest;
  decode_base64 = λ s. ok (to_bytes s);
  parse_url = λ s. some (record { scheme = ""; host = ""; path = s });
  out_of_range = λ n k. pos 0;
  error_text = λ e. "error";
}

abbrev event_of : String → String → Fields → Event
event_of id queue values = record {
  id = str id;
  payload = to_bytes "hello";
  timestamp = 0;
  destination = queue;
  options = record { values = values };
}

abbrev delayed : Fields
delayed = field "delaySeconds" (float (pos 60) 1) no_fields

-- A delay of 60 / 2 seconds.
delay_read : sqs_delay_seconds (λ n k. pos 0) (record { values = delayed }) ≡ ok (some (pos 30))
unfolding sqs_delay_seconds
delay_read = refl

-- 2^32 + 5 is not taken for 5.
delay_refused :
    sqs_delay_seconds
      (λ n k. pos 0)
      (record { values = field "delaySeconds" (int (pos 4294967301)) no_fields })
    ≡ err "malformed event options: delaySeconds must be a valid int32"
unfolding sqs_delay_seconds outboxer.Provider.malformed outboxer.Prelude.format
delay_refused = refl

sqs_delay_seconds_iff_example :
    (sqs_delay_seconds (λ n k. pos 0) (record { values = delayed }) ≡ ok (some (pos 30))) ↔ (
      (v : Value) × (field? delayed "delaySeconds" ≡ some v)
      × Denotes v (pos 30)
      × IsInt32 (pos 30))
sqs_delay_seconds_iff_example =
    sqs_delay_seconds_iff (λ n k. pos 0) (λ n k. (omega arith, omega arith))
      (record { values = delayed }) (pos 30)

abbrev candidate : String → Candidate
candidate id = record { evt = event_of id "orders.fifo" no_fields; ordering_key = "customer-7" }

prepare_sqs_event-IsDecided_example :
    IsDecided
      (candidate "1").evt
      (IsEntry (candidate "1") true)
      (prepare_sqs_event test_library (candidate "1") "orders.fifo" true)
prepare_sqs_event-IsDecided_example =
    prepare_sqs_event-IsDecided test_library test_digest-IsDigest (candidate "1") "orders.fifo" true

abbrev text_attribute : String → String → String × MessageAttribute
text_attribute name text = (
  name,
  record {
    data_type = "String.label";
    string_value = text;
    binary_value = [];
    string_list_values = [];
    binary_list_values = [];
    has_string_value = true;
    has_binary_value = false;
    has_string_list = false;
    has_binary_list = false;
  },
)

labelled_fits :
    is_sqs_poison (to_bytes "hello") (text_attribute "kind" "order" ∷ []) "customer-7" "" none
    ≡ false
unfolding is_sqs_poison sqs_allowed_unicode_bytes sqs_message_size valid_sqs_attributes
    valid_attribute valid_sqs_attribute_data_type to_bytes
labelled_fits = refl

-- A name that is reserved, in whatever case.
reserved_is_poison :
    is_sqs_poison (to_bytes "hello") (text_attribute "Aws.kind" "order" ∷ []) "customer-7" "" none
    ≡ true
unfolding is_sqs_poison sqs_allowed_unicode_bytes sqs_message_size valid_sqs_attributes
    valid_attribute valid_sqs_attribute_data_type to_bytes
reserved_is_poison = refl

is_sqs_poison_iff_example :
    (is_sqs_poison (to_bytes "hello") (text_attribute "kind" "order" ∷ []) "customer-7" "" none
      ≡ false)
    ↔ Fits (to_bytes "hello") (text_attribute "kind" "order" ∷ []) "customer-7" "" none
is_sqs_poison_iff_example =
    is_sqs_poison_iff (to_bytes "hello") (text_attribute "kind" "order" ∷ []) "customer-7" "" none

-- Whatever is sent is accepted, but a request with the event "2", which fails.
abbrev answer : List PreparedEvent → Outcome BatchResponse
answer [] = returned (record { successful = []; failures = [] })
answer (p ∷ ps) =
    if p.entry.id == "2"
    then failed (leaf (message "throttled"))
    else returned (record { successful = p.entry.id ∷ []; failures = [] })

abbrev service : Service
service = record { answer = answer; gate = λ request. none }

service-IsFaithful : IsFaithful service
service-IsFaithful [] = (tt, tt)
service-IsFaithful (p ∷ ps) = elim (Bool-cases (p.entry.id == "2")) [
  | inl second ↦ rw second tt
  | inr other ↦ rw other ((inl refl, tt), tt)
]

-- The third event waits for the second.
abbrev group_run : Run
group_run =
    send_fifo_group test_library service "orders.fifo"
      (candidate "1" ∷ candidate "2" ∷ candidate "3" ∷ [])

two_requests : length group_run.requests ≡ 2
unfolding send_fifo_group outboxer.Prelude.format to_bytes
two_requests = refl

send_fifo_group-IsPrefix_example :
    IsPrefix (candidate "1" ∷ candidate "2" ∷ candidate "3" ∷ []) group_run
send_fifo_group-IsPrefix_example =
    send_fifo_group-IsPrefix test_library service "orders.fifo" service-IsFaithful
      (candidate "1" ∷ candidate "2" ∷ candidate "3" ∷ [])

abbrev mixed_events : List Event
mixed_events =
    event_of "1" "orders" no_fields
    ∷ event_of "2" "orders.fifo" no_fields
    ∷ event_of "3" "orders" no_fields
    ∷ []

abbrev request_sizes : List Run → List ℕ
request_sizes [] = []
request_sizes (r ∷ rs) = length r.requests ∷ request_sizes rs

one_chunk_each :
    map
      (λ (q : QueueRun). request_sizes q.runs)
      (send_sqs_events test_library (λ queue. service) mixed_events)
    ≡ (1 ∷ []) ∷ (1 ∷ []) ∷ []
unfolding send_sqs_events outboxer.Prelude.format outboxer.Prelude.append_at to_bytes
one_chunk_each = refl

send_sqs_events-IsServed_example :
    All
      (IsServed test_library mixed_events)
      (send_sqs_events test_library (λ queue. service) mixed_events)
send_sqs_events-IsServed_example =
    send_sqs_events-IsServed test_library (λ queue. service) test_digest-IsDigest mixed_events
