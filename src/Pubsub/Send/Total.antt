-- ===== src/Pubsub/Send/Total.antt =====
-- Send of the Pub/Sub provider as a whole: no event is passed over in silence.
use outboxer.Prelude.{
  String, not, Option, none, some, List, [], ◌∷◌, ◌++◌, map, keep, ◌≡◌, refl, ◌∙◌, ap, sym, subst,
  ◌⊎◌, inl, inr, All, All-map, All-In, In, In-keep, In-append_cases, Bool-cases, group_by,
  In-group_by, members, is_empty, string_eq,
}
use outboxer.Errors.{Error, join, join_all}
use outboxer.Value.{Result, ok, err}
use outboxer.Provider.{Event, EventId, Callback, option_string, reject_malformed_options}
use outboxer.Provider.Settles.{Settled, Settled-append_left, Settled-append_right}
use outboxer.Pubsub.{
  PubsubCandidateEvent, PubsubPreparedEvent, pubsub_candidate_of, parse_pubsub_candidate,
  prepare_pubsub_event,
}
use outboxer.Pubsub.Send.{
  Action, reports, Trace, Google, Answers, before_trace, publish_and_wait, ordered_answer,
  ordered_next, cons?, send_pubsub_ordered_group, group_traces, group_id, pubsub_candidates,
  unkeyed, keyed, send_pubsub_events, send_pubsub_err, trace_err, send_pubsub_unordered_events,
}
use outboxer.Pubsub.Send.Steps.{callbacks_of, ordered_cases}
use outboxer.Pubsub.Send.Actions.{
  callbacks-append, callbacks-reports, IsPrepared, prepare_pubsub_event-IsPrepared,
}
use outboxer.Pubsub.Send.Unordered.{join-none, send_pubsub_unordered_events-settles}

-- A settled event stays settled when more is done.
before_settled :
    (i : EventId) (xs ys : List Action)
    → Settled i (callbacks_of xs)
    → Settled i (callbacks_of (xs ++ ys))
before_settled i xs ys s =
    rw (callbacks-append xs ys) (Settled-append_left i (callbacks_of xs) (callbacks_of ys) s)

after_settled :
    (i : EventId) (xs ys : List Action)
    → Settled i (callbacks_of ys)
    → Settled i (callbacks_of (xs ++ ys))
after_settled i xs ys s =
    rw (callbacks-append xs ys) (Settled-append_right i (callbacks_of xs) (callbacks_of ys) s)

abbrev AllSettled : List PubsubCandidateEvent → Trace → Type 0
AllSettled cs t = All (λ (c : PubsubCandidateEvent). Settled c.evt.id (callbacks_of t.actions)) cs

module _ (google : Google) (answers : Answers) where
  add_first :
      (c : PubsubCandidateEvent) (cs : List PubsubCandidateEvent) (as' : List Action) (t : Trace)
      → Settled c.evt.id (callbacks_of as')
      → AllSettled cs t
      → AllSettled (c ∷ cs) (record t { actions = as' ++ t.actions })
  add_first c cs as' t s h = (
    before_settled c.evt.id as' t.actions s,
    All-map _ _ cs (λ x k. after_settled x.evt.id as' t.actions k) h,
  )

  next_settles :
      (c : PubsubCandidateEvent) (cs : List PubsubCandidateEvent) (callbacks : List Callback)
      (value : Option PubsubPreparedEvent) (t : Trace)
      → IsPrepared c callbacks value
      → (t.err ≡ none → AllSettled cs t)
      → (ordered_next google answers (record { callbacks = callbacks; value = value }) t).err ≡ none
      → AllSettled
          (c ∷ cs)
          (ordered_next google answers (record { callbacks = callbacks; value = value }) t)
  next_settles c cs callbacks none t (own, done) ih h =
      add_first c cs (reports callbacks) t
        (subst (Settled c.evt.id) (sym (callbacks-reports callbacks)) done) (ih h)
  next_settles c cs callbacks (some p) t (quiet, own, m) ih h =
      let o = answers.first_answer p in
      let u =
        before_trace google answers (publish_and_wait google p o)
          (ordered_answer google answers p o t) in
      subst
        (λ l.
          AllSettled (c ∷ cs)
            (ordered_next google answers (record { callbacks = l; value = some p }) t))
        (sym quiet)
        (elim (ordered_cases google answers p t o) [
          | inl (as', e, try, done, open_key) ↦ subst (AllSettled (c ∷ cs)) (sym e) (
              add_first c cs as' t (subst (λ i. Settled i (callbacks_of as')) own done)
                (ih (sym (ap trace_err e) ∙ h)))
          | inr (e, stopped, try, released) ↦ absurd (cc (stopped, h))
        ])

  ordered_settles :
      (cs : List PubsubCandidateEvent)
      → (send_pubsub_ordered_group google answers cs).err ≡ none
      → AllSettled cs (send_pubsub_ordered_group google answers cs)
  unfolding send_pubsub_ordered_group
  ordered_settles [] h = tt
  ordered_settles (c ∷ cs) h =
      let checked = prepare_pubsub_event c in
      next_settles c cs checked.callbacks checked.value
        (send_pubsub_ordered_group google answers cs) (prepare_pubsub_event-IsPrepared c)
        (ordered_settles cs) h

-- The callbacks of all goroutines; they interleave, which does not matter here.
abbrev pub trace_callbacks : List Trace → List Callback
trace_callbacks [] = []
trace_callbacks (t ∷ ts) = callbacks_of t.actions ++ trace_callbacks ts

abbrev pub all_callbacks : List Callback × Trace × List Trace → List Callback
all_callbacks (cs, unordered, groups) =
    cs ++ (callbacks_of unordered.actions ++ trace_callbacks groups)

pub join_all-none :
    (acc : Option Error) (errs : List (Option Error))
    → join_all acc errs ≡ none
    → (acc ≡ none) × All (λ e. e ≡ none) errs
unfolding join_all
join_all-none acc [] h = (h, tt)
join_all-none acc (none ∷ errs) h = let (a, k) = join_all-none acc errs h in (a, (refl, k))
join_all-none acc (some e ∷ errs) h =
    let (a, k) = join_all-none (join acc (some e)) errs h in
    absurd (cc ((join-none acc (some e) a).1))

module _ (google : Google) (answers : Answers) where
  groups_settle :
      (groups : List (String × List PubsubCandidateEvent)) (c : PubsubCandidateEvent)
      → All (λ e. e ≡ none) (map trace_err (group_traces google answers groups))
      → In c (members groups)
      → Settled c.evt.id (trace_callbacks (group_traces google answers groups))
  groups_settle [] c h i = absurd i
  groups_settle ((id, cs) ∷ groups) c h i =
      let t = send_pubsub_ordered_group google answers cs in
      elim (In-append_cases c cs (members groups) i) [
        | inl here ↦ Settled-append_left c.evt.id (callbacks_of t.actions) _ (
            All-In (λ (x : PubsubCandidateEvent). Settled x.evt.id (callbacks_of t.actions)) c cs
              (ordered_settles google answers cs h.0) here)
        | inr there ↦
            Settled-append_right c.evt.id (callbacks_of t.actions) _
              (groups_settle groups c h.1 there)
      ]

  -- An event is rejected when it is read, or becomes a candidate.
  abbrev IsRead : List Callback → List PubsubCandidateEvent → Event → Type 0
  IsRead callbacks candidates evt =
      Settled evt.id callbacks ⊎ ((c : PubsubCandidateEvent) × In c candidates × (c.evt ≡ evt))

  candidates-IsRead :
      (events : List Event)
      → All
          (IsRead
            (pubsub_candidates google answers events).0
            (pubsub_candidates google answers events).1)
          events
  unfolding pubsub_candidates parse_pubsub_candidate reject_malformed_options
  candidates-IsRead [] = tt
  candidates-IsRead (evt ∷ events) =
      let (cs, passed) = pubsub_candidates google answers events in
      read (option_string evt.options "orderingKey") cs passed (candidates-IsRead events)
    where
      read :
          (r : Result String) (cs : List Callback) (passed : List PubsubCandidateEvent)
          → All (IsRead cs passed) events
          → All
              (IsRead
                ((pubsub_candidate_of evt r).callbacks ++ cs)
                (cons? (pubsub_candidate_of evt r).value passed))
              (evt ∷ events)
      read (err problem) cs passed h = (
        inl (inr (problem, inl refl)),
        All-map _ _ events
            (λ x w. elim w [
              | inl s ↦ inl (
                  Settled-append_right x.id
                    (reject_malformed_options "pubsub" evt "orderingKey" problem) cs s)
              | inr found ↦ inr found
            ])
            h,
      )
      read (ok key) cs passed h = (
        inr (record { evt = evt; ordering_key = key }, inl refl, refl),
        All-map _ _ events (λ x w. elim w [ inl s ↦ inl s | inr (c, i, e) ↦ inr (c, inr i, e) ]) h,
      )

  -- If Send reports no error, each of its events is confirmed or rejected: an event that is not
  -- settled never goes without an error.
  pub send_pubsub_events-settles :
      (events : List Event)
      → (let (cs, unordered, groups) = send_pubsub_events google answers events in
          send_pubsub_err unordered groups ≡ none)
      → All
          (λ (evt : Event).
            Settled evt.id (all_callbacks (send_pubsub_events google answers events)))
          events
  unfolding send_pubsub_events send_pubsub_err
  send_pubsub_events-settles events h =
      let (cs, candidates) = pubsub_candidates google answers events in
      let u =
        send_pubsub_unordered_events google answers (keep (unkeyed google answers) candidates) in
      let grouped = group_by (group_id google answers) (keep (keyed google answers) candidates) in
      let groups = group_traces google answers grouped in
      let (clear, joined) = join-none u.err (join_all none (map trace_err groups)) h in
      let quiet = (join_all-none none (map trace_err groups) joined).1 in
      let alone =
        send_pubsub_unordered_events-settles google answers
          (keep (unkeyed google answers) candidates) clear in
      All-map _ _ events
        (λ evt w. elim w [
          | inl s ↦ Settled-append_left evt.id cs _ s
          | inr (c, i, e) ↦
              subst
                (λ (x : Event).
                  Settled x.id (cs ++ (callbacks_of u.actions ++ trace_callbacks groups)))
                e
                (Settled-append_right c.evt.id cs _ (elim (Bool-cases (is_empty c.ordering_key)) [
                  | inl free ↦ Settled-append_left c.evt.id (callbacks_of u.actions) _ (
                      All-In
                        (λ (x : PubsubCandidateEvent). Settled x.evt.id (callbacks_of u.actions)) c
                        (keep (unkeyed google answers) candidates) alone
                        (In-keep (unkeyed google answers) c candidates i free))
                  | inr bound ↦ Settled-append_right c.evt.id (callbacks_of u.actions) _ (
                      groups_settle grouped c quiet (
                        (In-group_by (group_id google answers) c
                            (keep (keyed google answers) candidates)).1
                          (In-keep (keyed google answers) c candidates i (ap not bound))))
                ]))
        ])
        (candidates-IsRead events)
