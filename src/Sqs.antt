-- ===== src/Sqs.antt =====
-- The SQS provider's batches: internal/outboxer/sqs/sender.go.
pub mod Chunks
pub mod Isolation
pub mod Options
pub mod Poison
pub mod Prepare
pub mod Send
use outboxer.Prelude.{
  ℕ, zero, suc, ◌+◌, ◌*◌, String, Bool, true, false, ◌||◌, ◌&&◌, Option, none, some, List, [], ◌∷◌,
  ◌++◌, map, if◌then◌else◌, ◌==◌, string_eq, nat_eq, length, ltb, leb, lookup, insert, contains,
  format,
}
use outboxer.Prelude.Int.{ℤ}
use outboxer.Errors.{Error, leaf, message, join, error_code, Outcome, returned, failed}
use outboxer.Value.{null}
use outboxer.Provider.{
  EventId, Callback, add_confirmed_id, add_poison_id, mark_progress, log_failure,
}

abbrev pub sqs_event_batch_size : ℕ
sqs_event_batch_size = 10

abbrev pub sqs_event_max_size_byte : ℕ
sqs_event_max_size_byte = 1024 * 1024

pub record MessageAttribute : Type 0 where
  pub data_type : String
  pub string_value : String
  pub binary_value : List ℕ
  pub string_list_values : List String
  pub binary_list_values : List (List ℕ)
  pub has_string_value : Bool
  pub has_binary_value : Bool
  pub has_string_list : Bool
  pub has_binary_list : Bool

pub record BatchEntry : Type 0 where
  pub id : String
  pub message_body : List ℕ
  pub attributes : List (String × MessageAttribute)
  pub message_group_id : String
  pub deduplication_id : String
  pub delay_seconds : Option ℤ
  pub aws_xray_trace_header : String

-- sqsPreparedEvent; of its publish log only the id is read back.
pub record PreparedEvent : Type 0 where
  pub log_id : EventId
  pub message_size : ℕ
  pub entry : BatchEntry

-- The loop of chunkSQSStandardEvents: the chunks still to come, given the current one.
unfoldable pub chunks_from : List PreparedEvent → ℕ → List PreparedEvent → List (List PreparedEvent)
chunks_from [] current_size [] = []
chunks_from (c ∷ current) current_size [] = (c ∷ current) ∷ []
chunks_from current current_size (evt ∷ events) =
    let closed = chunks_from (evt ∷ []) evt.message_size events in
    let open_chunk = chunks_from (current ++ evt ∷ []) (current_size + evt.message_size) events in
    if ltb 0 (length current)
      && (leb sqs_event_batch_size (length current)
          || ltb sqs_event_max_size_byte (current_size + evt.message_size))
    then current ∷ closed
    else open_chunk

-- chunkSQSStandardEvents
unfoldable pub chunk_sqs_standard_events : List PreparedEvent → List (List PreparedEvent)
unfolding chunks_from
chunk_sqs_standard_events = chunks_from [] 0

pub record BatchFailure : Type 0 where
  pub id : String
  pub code : String
  pub text : String
  pub sender_fault : Bool

pub record BatchResponse : Type 0 where
  pub successful : List String
  pub failures : List BatchFailure

-- isSQSPermanentRequestError
unfoldable pub is_sqs_permanent_request_error : Error → Bool
unfolding error_code contains
is_sqs_permanent_request_error e = elim (error_code e) [
  | none ↦ false
  | some code ↦ contains code (
      "InvalidMessageContents" ∷ "BatchRequestTooLong" ∷ "InvalidBatchEntryId"
      ∷ "BatchEntryIdsNotDistinct" ∷ "TooManyEntriesInBatchRequest" ∷ [])
]

-- What a call leaves: the callbacks in order, whether any event is done, and the error.
pub record Sent : Type 0 where
  pub callbacks : List Callback
  pub any_done : Bool
  pub err : Option Error

abbrev or_null_id : Option EventId → EventId
or_null_id none = null
or_null_id (some id) = id

-- The map of the logs by entry id; a later entry of an id replaces an earlier one.
unfoldable pub logs_by_entry_id :
    List (String × EventId) → List PreparedEvent → List (String × EventId)
unfolding insert
logs_by_entry_id m [] = m
logs_by_entry_id m (evt ∷ events) = logs_by_entry_id (insert evt.entry.id evt.log_id m) events

-- `error_text` is Error(), and `sprint` prints an id.
module _ (error_text : Error → String) (sprint : EventId → String) (queue : String) where
  unfoldable pub confirm_successful : List (String × EventId) → List String → Sent
  unfolding lookup
  confirm_successful logs [] = record { callbacks = []; any_done = false; err = none }
  confirm_successful logs (id ∷ ids) =
      let rest = confirm_successful logs ids in
      record {
        callbacks = add_confirmed_id (or_null_id (lookup id logs)) ∷ rest.callbacks;
        any_done = true;
        err = rest.err;
      }

  abbrev pub reason : BatchFailure → String
  reason f = format (f.code ∷ ": " ∷ f.text ∷ [])

  abbrev entry_failure : BatchFailure → Callback
  entry_failure f =
      log_failure "Failed to send event"
        (format ("sqs|" ∷ queue ∷ "|" ∷ f.code ∷ "|" ∷ f.text ∷ []))

  -- The failed entries, with what the loop has so far.
  unfoldable pub settle_failures : List (String × EventId) → List BatchFailure → Sent → Sent
  unfolding lookup join
  settle_failures logs [] so_far = so_far
  settle_failures logs (f ∷ fs) so_far =
      let id = or_null_id (lookup f.id logs) in
      if f.sender_fault
      then settle_failures logs fs (record so_far {
        callbacks = so_far.callbacks ++ add_poison_id id (reason f) ∷ entry_failure f ∷ [];
        any_done = true;
      })
      else settle_failures logs fs (record so_far {
        callbacks = so_far.callbacks ++ entry_failure f ∷ [];
        err =
            join so_far.err (
              some
                (leaf (message (format ("entry " ∷ sprint id ∷ " rejected: " ∷ reason f ∷ [])))));
      })

  -- The callbacks of a call that failed as a whole.
  abbrev call_failure : String → Error → Callback
  call_failure what e = log_failure what (format ("sqs|" ∷ queue ∷ "|" ∷ error_text e ∷ []))

  -- What sendSQSBatch makes of the answer to a call with one entry; `Progress` comes last.
  unfoldable pub settle_one : PreparedEvent → Outcome BatchResponse → Sent
  unfolding is_sqs_permanent_request_error confirm_successful settle_failures logs_by_entry_id
  settle_one evt (failed e) =
      if is_sqs_permanent_request_error e
      then record {
        callbacks =
            add_poison_id evt.log_id (error_text e)
            ∷ call_failure "Failed to send event" e
            ∷ mark_progress
            ∷ [];
        any_done = true;
        err = none;
      }
      else record {
        callbacks = call_failure "Failed to send event batch" e ∷ mark_progress ∷ [];
        any_done = false;
        err = some e;
      }
  settle_one evt (returned response) =
      let logs = logs_by_entry_id [] (evt ∷ []) in
      let sent =
        settle_failures logs response.failures (confirm_successful logs response.successful) in
      record sent { callbacks = sent.callbacks ++ mark_progress ∷ [] }

  -- `answer evt` is what the publisher answers to the call with this entry alone.
  unfoldable pub send_sqs_batch_isolated :
      (PreparedEvent → Outcome BatchResponse) → List PreparedEvent → Sent → Sent
  unfolding settle_one join
  send_sqs_batch_isolated answer [] so_far = so_far
  send_sqs_batch_isolated answer (evt ∷ events) so_far =
      let sent = settle_one evt (answer evt) in
      send_sqs_batch_isolated answer events (record {
        callbacks = so_far.callbacks ++ sent.callbacks;
        any_done = sent.any_done || so_far.any_done;
        err = elim sent.err [ none ↦ so_far.err | some e ↦ join so_far.err (some e) ];
      })

  abbrev pub nothing_sent : Sent
  nothing_sent = record { callbacks = []; any_done = false; err = none }

  abbrev settle_many :
      (PreparedEvent → Outcome BatchResponse) → List PreparedEvent → Outcome BatchResponse → Sent
  settle_many answer events (failed e) =
      if is_sqs_permanent_request_error e
      then (let sent = send_sqs_batch_isolated answer events nothing_sent in
          record sent { callbacks = sent.callbacks ++ mark_progress ∷ [] })
      else record {
        callbacks = call_failure "Failed to send event batch" e ∷ mark_progress ∷ [];
        any_done = false;
        err = some e;
      }
  settle_many answer events (returned response) =
      let logs = logs_by_entry_id [] events in
      let sent =
        settle_failures logs response.failures (confirm_successful logs response.successful) in
      record sent { callbacks = sent.callbacks ++ mark_progress ∷ [] }

  -- sendSQSBatch: `whole` is the answer to the call with every entry.
  unfoldable pub send_sqs_batch :
      (PreparedEvent → Outcome BatchResponse) → List PreparedEvent → Outcome BatchResponse → Sent
  unfolding is_sqs_permanent_request_error settle_one send_sqs_batch_isolated confirm_successful
      settle_failures logs_by_entry_id
  send_sqs_batch answer [] whole = nothing_sent
  send_sqs_batch answer (evt ∷ []) whole = settle_one evt whole
  send_sqs_batch answer (a ∷ b ∷ events) whole = settle_many answer (a ∷ b ∷ events) whole
