-- ===== src/Sqs/Prepare/Entries.antt =====
-- prepareSQSEvent makes only entries within the limits that Limits lists, and rejects an event at most once.
use outboxer.Prelude.{
  length, sym, String, Bool, true, false, Option, none, some, List, [], ◌∷◌, ◌≡◌, refl, Bool-cases,
  inl, inr, is_empty, if◌then◌else◌,
}
use outboxer.Prelude.Int.{ℤ}
use outboxer.Value.{Result, ok, err}
use outboxer.Provider.{
  Event, Callback, add_poison_id, log_failure, option_string, reject_malformed_options,
}
use outboxer.Sqs.{MessageAttribute, PreparedEvent}
use outboxer.Sqs.Options.{sqs_attributes, sqs_delay_seconds, sqs_aws_trace_header}
use outboxer.Sqs.Poison.{is_fifo_id, is_sqs_poison, provider_safe_id, sqs_message_size}
use outboxer.Sqs.Prepare.{
  Library, Candidate, Checked, reading, batch_entry, check_and_pack, fifo_group_id,
  prepare_sqs_event,
}
use outboxer.Sqs.Prepare.Ids.{IsDigest, is_entry_id-safe, is_fifo_id-safe, is_fifo_id-synthetic}
use outboxer.Sqs.Prepare.Attributes.{message_bytes, length-message_bytes}
use outboxer.Sqs.Prepare.Limits.{
  Fits, IsOptionalId, IsFifoId, IsEntryId, is_fifo_id-IsFifoId, is_entry_id-IsEntryId,
  not-poison-Fits,
}

-- What is prepared for a queue: the event's own id and payload, within the limits, and for a FIFO
-- queue with a group and a deduplication id.
pub record IsEntry (c : Candidate) (is_fifo : Bool) (p : PreparedEvent) : Type 0 where
  pub own : p.log_id ≡ c.evt.id
  pub body : p.entry.message_body ≡ c.evt.payload
  pub measured : p.message_size ≡ length (message_bytes p.entry.message_body p.entry.attributes)
  pub fits :
      Fits p.entry.message_body p.entry.attributes p.entry.message_group_id p.entry.deduplication_id
        p.entry.delay_seconds
  pub id_ok : IsEntryId p.entry.id
  pub fifo_ok :
      is_fifo ≡ true
      → IsFifoId p.entry.message_group_id
        × IsFifoId p.entry.deduplication_id
        × (p.entry.delay_seconds ≡ none)

-- The event is poison, and a failure is reported; nothing else is.
abbrev pub IsRejected : Event → List Callback → Type 0
IsRejected evt cs =
    (reason : String) × (report : String) × (cs
      ≡ add_poison_id evt.id reason ∷ log_failure "Failed to send event" report ∷ [])

-- A value with no callback, or a rejection.
abbrev pub Decided {ℓ} : {A : Type ℓ} → Event → (A → Type 0) → List Callback → Option A → Type 0
Decided evt P cs none = IsRejected evt cs
Decided evt P cs (some a) = (cs ≡ []) × P a

abbrev pub IsDecided {ℓ} : {A : Type ℓ} → Event → (A → Type 0) → Checked A → Type 0
IsDecided evt P r = Decided evt P r.callbacks r.value

pub reading-IsDecided {ℓ} :
    {A : Type ℓ} (evt : Event) (P : PreparedEvent → Type 0) (name : String) (r : Result A)
    (next : A → Checked PreparedEvent)
    → ((a : A) → IsDecided evt P (next a))
    → IsDecided evt P (reading evt name r next)
unfolding reject_malformed_options
reading-IsDecided evt P name (err problem) next each = (problem, _, refl)
reading-IsDecided evt P name (ok a) next each = each a

module _ (lib : Library) (hex : IsDigest lib.stable_digest) (c : Candidate) where
  group_id-ok : IsOptionalId c.ordering_key → IsFifoId (fifo_group_id lib c)
  unfolding fifo_group_id
  group_id-ok (inl none') =
      rw none'
        (is_fifo_id-IsFifoId _ (is_fifo_id-synthetic lib.stable_digest hex (lib.sprint c.evt.id)))
  group_id-ok (inr fits) = elim (Bool-cases (is_empty c.ordering_key)) [
    | inl e ↦
        rw e
          (is_fifo_id-IsFifoId _ (is_fifo_id-synthetic lib.stable_digest hex (lib.sprint c.evt.id)))
    | inr e ↦ rw e fits
  ]

  deduplication_id-ok :
      (d : String)
      → IsOptionalId d
      → IsFifoId (
          if is_empty d
          then provider_safe_id lib.stable_digest (lib.sprint c.evt.id) is_fifo_id
          else d)
  deduplication_id-ok d (inl none') =
      rw none' (is_fifo_id-IsFifoId _ (is_fifo_id-safe lib.stable_digest hex (lib.sprint c.evt.id)))
  deduplication_id-ok d (inr fits) = elim (Bool-cases (is_empty d)) [
    | inl e ↦
        rw e (is_fifo_id-IsFifoId _ (is_fifo_id-safe lib.stable_digest hex (lib.sprint c.evt.id)))
    | inr e ↦ rw e fits
  ]

  pub check_and_pack-IsDecided :
      (queue_url : String) (is_fifo : Bool) (attributes : List (String × MessageAttribute))
      (deduplication_id : String) (delay : Option ℤ) (trace : String)
      → IsDecided c.evt
          (IsEntry c is_fifo)
          (check_and_pack lib c queue_url is_fifo attributes deduplication_id delay trace)
  unfolding check_and_pack batch_entry
  check_and_pack-IsDecided queue_url is_fifo attributes deduplication_id delay trace =
      elim (Bool-cases
        (is_sqs_poison c.evt.payload attributes c.ordering_key deduplication_id delay)) [
          | inl bad ↦ rw bad ("Event is invalid for SQS", _, refl)
          | inr good ↦ rw good (refl, packed is_fifo (not-poison-Fits _ _ _ _ _ good))
        ]
    where
      packed :
          (fifo : Bool)
          → Fits c.evt.payload attributes c.ordering_key deduplication_id delay
          → IsEntry c fifo (record {
            log_id = c.evt.id;
            message_size = sqs_message_size c.evt.payload attributes;
            entry = batch_entry lib c fifo attributes deduplication_id delay trace;
          })
      packed true f = record {
        own = refl;
        body = refl;
        measured = sym (length-message_bytes c.evt.payload attributes);
        fits = record {
          some_body = f.some_body;
          text = f.text;
          small = f.small;
          few = f.few;
          well_formed = f.well_formed;
          key_ok = inr (group_id-ok f.key_ok);
          deduplication_ok = inr (deduplication_id-ok deduplication_id f.deduplication_ok);
          delay_ok = tt;
        };
        id_ok =
            is_entry_id-IsEntryId _ (is_entry_id-safe lib.stable_digest hex (lib.sprint c.evt.id));
        fifo_ok = λ e.
            (group_id-ok f.key_ok, deduplication_id-ok deduplication_id f.deduplication_ok, refl);
      }
      packed false f = record {
        own = refl;
        body = refl;
        measured = sym (length-message_bytes c.evt.payload attributes);
        fits = record {
          some_body = f.some_body;
          text = f.text;
          small = f.small;
          few = f.few;
          well_formed = f.well_formed;
          key_ok = f.key_ok;
          deduplication_ok = inl refl;
          delay_ok = f.delay_ok;
        };
        id_ok =
            is_entry_id-IsEntryId _ (is_entry_id-safe lib.stable_digest hex (lib.sprint c.evt.id));
        fifo_ok = λ e. absurd (cc e);
      }

-- prepareSQSEvent either makes no callback and gives an entry of the event's own id and payload,
-- whose body, attributes, ids, delay and size are as Fits lists, its size measured, and on a FIFO
-- queue with a group, a deduplication id and no delay; or it rejects that event once, with a reason
-- and one report. The digest is taken to be 64 hexadecimal digits.
pub prepare_sqs_event-IsDecided :
    (lib : Library)
    → IsDigest lib.stable_digest
    → (c : Candidate) (queue_url : String) (is_fifo : Bool)
    → IsDecided c.evt (IsEntry c is_fifo) (prepare_sqs_event lib c queue_url is_fifo)
unfolding prepare_sqs_event
prepare_sqs_event-IsDecided lib hex c queue_url is_fifo =
    reading-IsDecided c.evt (IsEntry c is_fifo) _ (sqs_attributes lib.decode_base64 c.evt.options) _
      λ as'.
        reading-IsDecided c.evt (IsEntry c is_fifo) _
          (option_string c.evt.options "messageDeduplicationId") _
          λ d.
            reading-IsDecided c.evt (IsEntry c is_fifo) _
              (sqs_delay_seconds lib.out_of_range c.evt.options) _
              λ delay.
                reading-IsDecided c.evt (IsEntry c is_fifo) _ (sqs_aws_trace_header c.evt.options) _
                  λ trace. check_and_pack-IsDecided lib hex c queue_url is_fifo as' d delay trace
