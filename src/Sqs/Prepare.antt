-- ===== src/Sqs/Prepare.antt =====
-- From an event to the entry of a batch request: parseSQSCandidate and prepareSQSEvent of
-- internal/outboxer/sqs/sender.go.
pub mod AttributeTests
pub mod Attributes
pub mod Complete
pub mod Entries
pub mod Ids
pub mod Limits
pub mod Texts
use outboxer.Prelude.{
  ℕ, String, Bool, true, false, Option, none, some, List, [], ◌∷◌, if◌then◌else◌, is_empty, format,
}
use outboxer.Prelude.Int.{ℤ}
use outboxer.Errors.{Error}
use outboxer.Value.{Value, Result, ok, err}
use outboxer.Provider.{
  EventId, Event, Callback, add_poison_id, log_failure, option_string, reject_malformed_options,
}
pub use outboxer.Provider.{Checked, rejected, accepted}
use outboxer.Sqs.{MessageAttribute, BatchEntry, PreparedEvent}
use outboxer.Sqs.Options.{sqs_attributes, sqs_delay_seconds, sqs_aws_trace_header}
use outboxer.Sqs.Poison.{
  Url, is_entry_id, is_fifo_id, is_sqs_poison, sqs_message_size, synthetic_fifo_group_id,
  provider_safe_id,
}

-- What the provider calls of Go's library: fmt's %v, the hexadecimal SHA-256 of a text, the
-- standard base64 decoder, net/url's Parse, the conversion of a float64 that no int32 can hold, and
-- Error().
pub record Library : Type 0 where
  pub sprint : Value → String
  pub stable_digest : String → String
  pub decode_base64 : String → Result (List ℕ)
  pub parse_url : String → Option Url
  pub out_of_range : ℤ → ℕ → ℤ
  pub error_text : Error → String

-- sqsCandidateEvent
pub record Candidate : Type 0 where
  pub evt : Event
  pub ordering_key : String

abbrev pub candidate_of : Event → Result String → Checked Candidate
candidate_of evt (err problem) =
    rejected (reject_malformed_options "sqs" evt "messageGroupId" problem)
candidate_of evt (ok key) = accepted (record { evt = evt; ordering_key = key })

-- parseSQSCandidate
unfoldable pub parse_sqs_candidate : Event → Checked Candidate
unfolding option_string reject_malformed_options
parse_sqs_candidate evt = candidate_of evt (option_string evt.options "messageGroupId")

-- An option that could not be read rejects the event; else the next one is read.
abbrev pub reading {ℓ} :
    {A : Type ℓ} → Event → String → Result A → (A → Checked PreparedEvent) → Checked PreparedEvent
reading evt name (err problem) next = rejected (reject_malformed_options "sqs" evt name problem)
reading evt name (ok a) next = next a

module _ (lib : Library) where
  -- fifoGroupID
  unfoldable pub fifo_group_id : Candidate → String
  unfolding synthetic_fifo_group_id
  fifo_group_id c =
      if is_empty c.ordering_key
      then synthetic_fifo_group_id lib.stable_digest (lib.sprint c.evt.id)
      else c.ordering_key

  abbrev local_poison : Candidate → String → List Callback
  local_poison c queue_url =
      add_poison_id c.evt.id "Event is invalid for SQS"
      ∷ log_failure "Failed to send event"
          (format ("sqs|" ∷ queue_url ∷ "|" ∷ c.ordering_key ∷ "|local-poison" ∷ []))
      ∷ []

  -- The entry of a request, once the event has passed the checks.
  unfoldable pub batch_entry :
      Candidate → Bool → List (String × MessageAttribute) → String → Option ℤ → String → BatchEntry
  unfolding fifo_group_id provider_safe_id
  batch_entry c is_fifo attributes deduplication_id delay_seconds trace_header =
      let event_id = lib.sprint c.evt.id in
      let entry : BatchEntry = record {
        id = provider_safe_id lib.stable_digest event_id is_entry_id;
        message_body = c.evt.payload;
        attributes = attributes;
        message_group_id = "";
        deduplication_id = "";
        delay_seconds = none;
        aws_xray_trace_header = trace_header;
      } in
      if is_fifo
      then record entry {
        message_group_id = fifo_group_id c;
        deduplication_id =
            if is_empty deduplication_id
            then provider_safe_id lib.stable_digest event_id is_fifo_id
            else deduplication_id;
      }
      else record entry { delay_seconds = delay_seconds; message_group_id = c.ordering_key }

  -- The last part of prepareSQSEvent, with the options read.
  unfoldable pub check_and_pack :
      Candidate
      → String
      → Bool
      → List (String × MessageAttribute)
      → String
      → Option ℤ
      → String
      → Checked PreparedEvent
  unfolding is_sqs_poison batch_entry sqs_message_size
  check_and_pack c queue_url is_fifo attributes deduplication_id delay_seconds trace_header =
      if is_sqs_poison c.evt.payload attributes c.ordering_key deduplication_id delay_seconds
      then rejected (local_poison c queue_url)
      else accepted (record {
        log_id = c.evt.id;
        message_size = sqs_message_size c.evt.payload attributes;
        entry = batch_entry c is_fifo attributes deduplication_id delay_seconds trace_header;
      })

  -- prepareSQSEvent
  unfoldable pub prepare_sqs_event : Candidate → String → Bool → Checked PreparedEvent
  unfolding sqs_attributes option_string sqs_delay_seconds sqs_aws_trace_header check_and_pack
      reject_malformed_options
  prepare_sqs_event c queue_url is_fifo =
      reading c.evt "attributes" (sqs_attributes lib.decode_base64 c.evt.options) λ attributes.
        reading c.evt "messageDeduplicationId"
          (option_string c.evt.options "messageDeduplicationId")
          λ deduplication_id.
            reading c.evt "delaySeconds" (sqs_delay_seconds lib.out_of_range c.evt.options)
              λ delay_seconds.
                reading c.evt "messageSystemAttributes" (sqs_aws_trace_header c.evt.options)
                  λ trace_header.
                    check_and_pack c queue_url is_fifo attributes deduplication_id delay_seconds
                      trace_header
