-- ===== src/Pubsub/Send.antt =====
-- Publishing to Pub/Sub: the loops of internal/outboxer/pubsub/sender.go, as the sequence of what
-- each does with the publisher and the callbacks.
pub mod Steps
pub mod Actions
pub mod Order
pub mod Unordered
pub mod Total
use outboxer.Prelude.{
  ℕ, String, Bool, true, false, ◌&&◌, ◌||◌, not, Option, none, some, List, [], ◌∷◌, ◌++◌, map,
  nat_beq, if◌then◌else◌, is_empty, format, contains, group_by, keep, string_eq, ◌==◌,
}
use outboxer.Errors.{
  Error, Outcome, returned, failed, is, leaf, join, join_all, deadline_exceeded, fatal_after_commit,
}
use outboxer.Provider.{
  Event, Callback, Checked, add_confirmed_id, add_poison_id, mark_progress, log_failure,
}
use outboxer.Pubsub.{
  Message, PubsubCandidateEvent, PubsubPreparedEvent, parse_pubsub_candidate, prepare_pubsub_event,
}

-- One use of the publisher or of the callbacks. `wait` is PublishResult.Get, with its answer.
pub data Action : Type 0 where
  publish : Message → Action
  flush : String → Action
  wait : Message → Outcome String → Action
  resume_publish : String → String → Action
  report : Callback → Action

-- What one goroutine did, and its error.
pub record Trace : Type 0 where
  pub actions : List Action
  pub err : Option Error

abbrev pub quiet : Trace
quiet = record { actions = []; err = none }

-- An event published alone: what was done, whether the event is done, and the error.
pub record Isolated : Type 0 where
  pub actions : List Action
  pub done : Bool
  pub err : Option Error

abbrev pub reports : List Callback → List Action
reports = map report

abbrev pub cons? {ℓ} : {A : Type ℓ} → Option A → List A → List A
cons? none xs = xs
cons? (some x) xs = x ∷ xs

-- The Google clients: the code of a googleapi.Error in an error, the status code of an error, and
-- Error().
pub record Google : Type 0 where
  pub api_code : Error → Option ℕ
  pub status_code : Error → ℕ
  pub error_text : Error → String

-- The answers to the first publish of an event and to the one alone.
pub record Answers : Type 0 where
  pub first_answer : PubsubPreparedEvent → Outcome String
  pub alone_answer : PubsubPreparedEvent → Outcome String

abbrev pub code_invalid_argument : ℕ
code_invalid_argument = 3

abbrev pub code_out_of_range : ℕ
code_out_of_range = 11

abbrev is_bad_request : Option ℕ → Bool
is_bad_request none = false
is_bad_request (some code) = nat_beq code 400

module _ (google : Google) where
  -- isPubSubPermanentBackendError
  unfoldable pub is_pubsub_permanent_backend_error : Error → Bool
  is_pubsub_permanent_backend_error e =
      is_bad_request (google.api_code e)
      || (nat_beq (google.status_code e) code_invalid_argument
          || nat_beq (google.status_code e) code_out_of_range)

  abbrev pub is_deadline : Error → Bool
  is_deadline e = is e deadline_exceeded

  -- markPubsubDone
  abbrev pub mark_pubsub_done : PubsubPreparedEvent → Action
  mark_pubsub_done p = report (add_confirmed_id p.log_id)

  -- logPubsubFailure
  abbrev pub log_pubsub_failure : PubsubPreparedEvent → Error → Action
  log_pubsub_failure p e = report (
      log_failure "Failed to send event" (
        format (
          "pubsub|"
          ∷ p.message.topic
          ∷ "|"
          ∷ p.message.ordering_key
          ∷ "|"
          ∷ google.error_text e
          ∷ [])))

  abbrev pub resume_key : PubsubPreparedEvent → Action
  resume_key p = resume_publish p.message.topic p.message.ordering_key

  -- awaitPubsubResult: progress is marked when the wait is over.
  abbrev pub await_pubsub_result : PubsubPreparedEvent → Outcome String → List Action
  await_pubsub_result p o = wait p.message o ∷ report mark_progress ∷ []

  abbrev pub publish_and_wait : PubsubPreparedEvent → Outcome String → List Action
  publish_and_wait p o = publish p.message ∷ flush p.message.topic ∷ await_pubsub_result p o

  -- The cases of sendPubsubIsolated after a failed wait.
  abbrev isolated_failure : PubsubPreparedEvent → Bool → Error → Isolated
  isolated_failure p ordered e =
      if is_deadline e && ordered
      then record {
        actions = log_pubsub_failure p e ∷ [];
        done = false;
        err = join (some (leaf fatal_after_commit)) (some e);
      }
      else if is_pubsub_permanent_backend_error e
      then record {
        actions =
            report (add_poison_id p.log_id (google.error_text e)) ∷ log_pubsub_failure p e ∷ [];
        done = true;
        err = none;
      }
      else record { actions = log_pubsub_failure p e ∷ []; done = false; err = some e }

  abbrev isolated_resume : PubsubPreparedEvent → Bool → Error → List Action
  isolated_resume p ordered e = if ordered && not (is_deadline e) then resume_key p ∷ [] else []

  abbrev isolated : PubsubPreparedEvent → Bool → Outcome String → Isolated
  isolated p ordered (returned id) = record {
    actions = publish_and_wait p (returned id) ++ mark_pubsub_done p ∷ [];
    done = true;
    err = none;
  }
  isolated p ordered (failed e) =
      let rest = isolated_failure p ordered e in
      record rest {
        actions = publish_and_wait p (failed e) ++ (isolated_resume p ordered e ++ rest.actions);
      }

  module _ (answers : Answers) where
    -- sendPubsubIsolated
    unfoldable pub send_pubsub_isolated : PubsubPreparedEvent → Bool → Isolated
    unfolding is_pubsub_permanent_backend_error join is
    send_pubsub_isolated p ordered = isolated p ordered (answers.alone_answer p)

    abbrev before_trace : List Action → Trace → Trace
    before_trace as' t = record t { actions = as' ++ t.actions }

    -- An event of an ordered group that was published alone again, after the error `e`.
    abbrev after_isolated : Isolated → Error → Trace → Trace
    after_isolated i e rest = elim i.err [
      | some e' ↦ record { actions = i.actions; err = some e' }
      | none ↦
          if i.done
          then before_trace i.actions rest
          else record { actions = i.actions; err = some e }
    ]

    -- The cases of sendPubsubOrderedGroup after the first wait; `rest` is what the later events do.
    abbrev ordered_answer : PubsubPreparedEvent → Outcome String → Trace → Trace
    ordered_answer p (returned id) rest = before_trace (mark_pubsub_done p ∷ []) rest
    ordered_answer p (failed e) rest =
        if is_deadline e
        then record {
          actions = log_pubsub_failure p e ∷ [];
          err = join (some (leaf fatal_after_commit)) (some e);
        }
        else if is_pubsub_permanent_backend_error e
        then before_trace (resume_key p ∷ []) (after_isolated (send_pubsub_isolated p true) e rest)
        else record { actions = resume_key p ∷ log_pubsub_failure p e ∷ []; err = some e }

    abbrev ordered_next : Checked PubsubPreparedEvent → Trace → Trace
    ordered_next checked rest = elim checked.value [
      | none ↦ before_trace (reports checked.callbacks) rest
      | some p ↦ before_trace (reports checked.callbacks) (
          before_trace (publish_and_wait p (answers.first_answer p))
            (ordered_answer p (answers.first_answer p) rest))
    ]

    -- sendPubsubOrderedGroup
    unfoldable pub send_pubsub_ordered_group : List PubsubCandidateEvent → Trace
    unfolding prepare_pubsub_event send_pubsub_isolated is_pubsub_permanent_backend_error join is
    send_pubsub_ordered_group [] = quiet
    send_pubsub_ordered_group (c ∷ cs) =
        let rest = send_pubsub_ordered_group cs in ordered_next (prepare_pubsub_event c) rest

    abbrev publish_prepared : Option PubsubPreparedEvent → List Action
    publish_prepared none = []
    publish_prepared (some p) = publish p.message ∷ []

    -- The first loop of sendPubsubUnorderedEvents: each event is published as soon as it is ready.
    unfoldable pub publish_unordered :
        List PubsubCandidateEvent → List Action × List PubsubPreparedEvent
    unfolding prepare_pubsub_event
    publish_unordered [] = ([], [])
    publish_unordered (c ∷ cs) =
        let (as', pending) = publish_unordered cs in
        let checked = prepare_pubsub_event c in
        (
          reports checked.callbacks ++ (publish_prepared checked.value ++ as'),
          cons? checked.value pending,
        )

    -- The topics of what was published, each once.
    abbrev topics : List PubsubPreparedEvent → List String
    topics [] = []
    topics (p ∷ ps) =
        let rest = topics ps in
        if contains p.message.topic rest then rest else p.message.topic ∷ rest

    -- The cases after the wait for an unordered event, given the error so far.
    abbrev unordered_isolated : Isolated → Error → Option Error → Trace
    unordered_isolated i e so_far = record {
      actions = i.actions;
      err = join (if i.done then so_far else join so_far (some e)) i.err;
    }

    abbrev unordered_answer : PubsubPreparedEvent → Outcome String → Option Error → Trace
    unordered_answer p (returned id) so_far = record {
      actions = mark_pubsub_done p ∷ [];
      err = so_far;
    }
    unordered_answer p (failed e) so_far =
        if is_deadline e
        then record { actions = log_pubsub_failure p e ∷ []; err = join so_far (some e) }
        else if is_pubsub_permanent_backend_error e
        then unordered_isolated (send_pubsub_isolated p false) e so_far
        else record { actions = log_pubsub_failure p e ∷ []; err = join so_far (some e) }

    -- The last loop of sendPubsubUnorderedEvents.
    unfoldable pub collect_unordered : Option Error → List PubsubPreparedEvent → Trace
    unfolding send_pubsub_isolated is_pubsub_permanent_backend_error join is
    collect_unordered so_far [] = record { actions = []; err = so_far }
    collect_unordered so_far (p ∷ ps) =
        let t = unordered_answer p (answers.first_answer p) so_far in
        before_trace (await_pubsub_result p (answers.first_answer p) ++ t.actions)
          (collect_unordered t.err ps)

    -- sendPubsubUnorderedEvents
    unfoldable pub send_pubsub_unordered_events : List PubsubCandidateEvent → Trace
    unfolding publish_unordered collect_unordered contains
    send_pubsub_unordered_events cs =
        let (as', pending) = publish_unordered cs in
        before_trace (as' ++ map flush (topics pending)) (collect_unordered none pending)

    abbrev group_id : PubsubCandidateEvent → String
    group_id c = format (c.evt.destination ∷ "\0" ∷ c.ordering_key ∷ [])

    abbrev group_traces : List (String × List PubsubCandidateEvent) → List Trace
    group_traces [] = []
    group_traces ((id, cs) ∷ groups) = send_pubsub_ordered_group cs ∷ group_traces groups

    -- The events that can be read, in order, with the callbacks about those that cannot.
    unfoldable pub pubsub_candidates : List Event → List Callback × List PubsubCandidateEvent
    unfolding parse_pubsub_candidate
    pubsub_candidates [] = ([], [])
    pubsub_candidates (evt ∷ events) =
        let (cs, passed) = pubsub_candidates events in
        let checked = parse_pubsub_candidate evt in
        (checked.callbacks ++ cs, cons? checked.value passed)

    abbrev unkeyed : PubsubCandidateEvent → Bool
    unkeyed c = is_empty c.ordering_key

    abbrev keyed : PubsubCandidateEvent → Bool
    keyed c = not (is_empty c.ordering_key)

    -- What Send does: the rejected events, the unordered events, and then the ordered groups, which
    -- run at the same time.
    unfoldable pub send_pubsub_events : List Event → List Callback × Trace × List Trace
    unfolding pubsub_candidates send_pubsub_unordered_events send_pubsub_ordered_group group_by
    send_pubsub_events events =
        let (cs, candidates) = pubsub_candidates events in
        (
          cs,
          send_pubsub_unordered_events (keep unkeyed candidates),
          group_traces (group_by group_id (keep keyed candidates)),
        )

abbrev trace_err : Trace → Option Error
trace_err t = t.err

-- The error that sendPubsubEventsWithCallbacks returns.
unfoldable pub send_pubsub_err : Trace → List Trace → Option Error
unfolding join join_all
send_pubsub_err unordered groups = join unordered.err (join_all none (map trace_err groups))
