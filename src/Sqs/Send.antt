-- ===== src/Sqs/Send.antt =====
-- Send of the SQS provider: the events are parted by queue, a FIFO queue's by group and a standard
-- queue's into chunks, and each part is sent by a goroutine of its own (internal/outboxer/sqs/
-- sender.go).
pub mod Single
pub mod Order
pub mod Requests
pub mod Limits
use outboxer.Prelude.{
  ℕ, zero, suc, String, Bool, true, false, Option, none, some, List, [], ◌∷◌, ◌++◌, map,
  if◌then◌else◌, codes, has_suffix, format, group_by, string_eq,
}
use outboxer.Errors.{Error, Outcome, returned, failed, join_all}
use outboxer.Provider.{Event, EventId, Callback, add_poison_id, log_failure}
use outboxer.Sqs.{
  PreparedEvent, BatchResponse, Sent, nothing_sent, send_sqs_batch, chunk_sqs_standard_events,
  is_sqs_permanent_request_error,
}
use outboxer.Sqs.Poison.{valid_sqs_queue_url}
use outboxer.Sqs.Prepare.{
  Library, Candidate, Checked, parse_sqs_candidate, prepare_sqs_event, fifo_group_id,
}

-- What one goroutine did: the batch requests that it made, its callbacks and its error.
pub record Run : Type 0 where
  pub requests : List (List PreparedEvent)
  pub callbacks : List Callback
  pub err : Option Error

abbrev pub idle : Run
idle = record { requests = []; callbacks = []; err = none }

-- Callbacks that a goroutine makes before the rest of its work.
abbrev pub after : List Callback → Run → Run
after cs r = record r { callbacks = cs ++ r.callbacks }

-- `append` where there is something to append.
abbrev pub cons? {ℓ} : {A : Type ℓ} → Option A → List A → List A
cons? none xs = xs
cons? (some x) xs = x ∷ xs

-- What became of one queue: the callbacks before the goroutines start, and the goroutines.
pub record QueueRun : Type 0 where
  pub queue : String
  pub first : List Callback
  pub runs : List Run

abbrev pub run_err : Run → Option Error
run_err r = r.err

abbrev singletons : List PreparedEvent → List (List PreparedEvent)
singletons = map (λ (evt : PreparedEvent). evt ∷ [])

abbrev isolated_requests : Outcome BatchResponse → List PreparedEvent → List (List PreparedEvent)
isolated_requests (failed e) (a ∷ b ∷ events) =
    if is_sqs_permanent_request_error e then singletons (a ∷ b ∷ events) else []
isolated_requests _ _ = []

-- The calls that sendSQSBatch makes of the publisher.
unfoldable pub batch_requests :
    Outcome BatchResponse → List PreparedEvent → List (List PreparedEvent)
unfolding is_sqs_permanent_request_error
batch_requests whole [] = []
batch_requests whole (a ∷ events) = (a ∷ events) ∷ isolated_requests whole (a ∷ events)

-- `answer` is what the publisher answers to a request, and `gate` the error of the context where a
-- goroutine that waits for the semaphore with a request is cancelled.
pub record Service : Type 0 where
  pub answer : List PreparedEvent → Outcome BatchResponse
  pub gate : List PreparedEvent → Option Error

module _ (lib : Library) (svc : Service) (queue : String) where
  abbrev gated : Option Error → List PreparedEvent → Sent
  gated (some e) events = record { callbacks = []; any_done = false; err = some e }
  gated none events =
      send_sqs_batch lib.error_text lib.sprint queue (λ p. svc.answer (p ∷ [])) events
        (svc.answer events)

  -- sendSQSBatchWithSemaphore
  unfoldable pub send_with_semaphore : List PreparedEvent → Sent
  unfolding send_sqs_batch
  send_with_semaphore events = gated (svc.gate events) events

  abbrev gated_requests : Option Error → List PreparedEvent → List (List PreparedEvent)
  gated_requests (some e) events = []
  gated_requests none events = batch_requests (svc.answer events) events

  -- The requests of sendSQSBatchWithSemaphore.
  unfoldable pub requests_with_semaphore : List PreparedEvent → List (List PreparedEvent)
  unfolding batch_requests
  requests_with_semaphore events = gated_requests (svc.gate events) events

  -- A FIFO group after one of its events was sent: it goes on only if the event is done.
  abbrev after_sent : Sent → List (List PreparedEvent) → Run → Run
  after_sent sent requests rest = elim sent.err [
    | some e ↦ record { requests = requests; callbacks = sent.callbacks; err = some e }
    | none ↦
        if sent.any_done
        then record rest {
          requests = requests ++ rest.requests;
          callbacks = sent.callbacks ++ rest.callbacks;
        }
        else record { requests = requests; callbacks = sent.callbacks; err = none }
  ]

  abbrev fifo_next : Checked PreparedEvent → Run → Run
  fifo_next checked rest = elim checked.value [
    | none ↦ after checked.callbacks rest
    | some p ↦
        after checked.callbacks
          (after_sent (send_with_semaphore (p ∷ [])) (requests_with_semaphore (p ∷ [])) rest)
  ]

  -- The loop over a FIFO group in sendSQSFIFOEvents.
  unfoldable pub send_fifo_group : List Candidate → Run
  unfolding send_with_semaphore requests_with_semaphore prepare_sqs_event
  send_fifo_group [] = idle
  send_fifo_group (c ∷ cs) =
      let rest = send_fifo_group cs in fifo_next (prepare_sqs_event lib c queue true) rest

  abbrev group_runs : List (String × List Candidate) → List Run
  group_runs [] = []
  group_runs ((id, cs) ∷ groups) = send_fifo_group cs ∷ group_runs groups

  -- sendSQSFIFOEvents
  unfoldable pub send_sqs_fifo_events : List Candidate → List Run
  unfolding send_fifo_group group_by fifo_group_id
  send_sqs_fifo_events cs = group_runs (group_by (fifo_group_id lib) cs)

  abbrev chunk_run : List PreparedEvent → Run
  chunk_run chunk =
      let sent = send_with_semaphore chunk in
      record {
        requests = requests_with_semaphore chunk;
        callbacks = sent.callbacks;
        err = sent.err;
      }

  -- sendSQSStandardEvents
  unfoldable pub send_sqs_standard_events : List PreparedEvent → List Run
  unfolding send_with_semaphore requests_with_semaphore chunk_sqs_standard_events
  send_sqs_standard_events events = map chunk_run (chunk_sqs_standard_events events)

  -- The events that pass, in order, with the callbacks about those that do not.
  unfoldable pub candidates : List Event → List Callback × List Candidate
  unfolding parse_sqs_candidate
  candidates [] = ([], [])
  candidates (evt ∷ events) =
      let (cs, passed) = candidates events in
      let checked = parse_sqs_candidate evt in (checked.callbacks ++ cs, cons? checked.value passed)

  unfoldable pub prepare_all : List Candidate → List Callback × List PreparedEvent
  unfolding prepare_sqs_event
  prepare_all [] = ([], [])
  prepare_all (c ∷ cs) =
      let (callbacks, passed) = prepare_all cs in
      let checked = prepare_sqs_event lib c queue false in
      (checked.callbacks ++ callbacks, cons? checked.value passed)

  abbrev poison_all : List Event → List Callback
  poison_all [] = []
  poison_all (evt ∷ events) =
      add_poison_id evt.id "SQS queue URL is syntactically invalid" ∷ poison_all events

  abbrev queue_refused : List Event → QueueRun
  queue_refused events = record {
    queue = queue;
    first =
        poison_all events
        ++ log_failure "Failed to send event batch"
            (format ("sqs|" ∷ queue ∷ "|invalid-queue-url" ∷ []))
          ∷ [];
    runs = [];
  }

  abbrev queue_standard : List Callback → List Candidate → QueueRun
  queue_standard callbacks cs =
      let (more, prepared) = prepare_all cs in
      record { queue = queue; first = callbacks ++ more; runs = send_sqs_standard_events prepared }

  abbrev queue_accepted : List Callback × List Candidate → QueueRun
  queue_accepted (callbacks, cs) =
      if has_suffix (codes ".fifo") (codes queue)
      then record { queue = queue; first = callbacks; runs = send_sqs_fifo_events cs }
      else queue_standard callbacks cs

  -- sendSQSQueueEvents
  unfoldable pub send_sqs_queue_events : List Event → QueueRun
  unfolding valid_sqs_queue_url candidates prepare_all send_sqs_fifo_events send_sqs_standard_events
  send_sqs_queue_events events =
      if valid_sqs_queue_url lib.parse_url queue
      then queue_accepted (candidates events)
      else queue_refused events

-- The error of a queue: RunConcurrent joins those of its goroutines.
abbrev pub queue_err : QueueRun → Option Error
queue_err q = join_all none (map run_err q.runs)

module _ (lib : Library) (svc : String → Service) where
  abbrev queue_runs : List (String × List Event) → List QueueRun
  queue_runs [] = []
  queue_runs ((queue, events) ∷ groups) =
      send_sqs_queue_events lib (svc queue) queue events ∷ queue_runs groups

  -- sendSQSEventsWithCallbacks
  unfoldable pub send_sqs_events : List Event → List QueueRun
  unfolding send_sqs_queue_events group_by
  send_sqs_events events = queue_runs (group_by (λ (evt : Event). evt.destination) events)

  -- The error that Send returns.
  unfoldable pub send_err : List QueueRun → Option Error
  unfolding join_all
  send_err qs = join_all none (map queue_err qs)
