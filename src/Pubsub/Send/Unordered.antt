-- ===== src/Pubsub/Send/Unordered.antt =====
-- Unordered events: no event is passed over in silence.
use outboxer.Prelude.{
  String, false, Option, none, some, List, [], ◌∷◌, ◌++◌, map, ◌≡◌, refl, ◌∙◌, ap, sym, subst, ◌⊎◌,
  inl, inr, All, All-map, All-In, In, Bool-cases,
}
use outboxer.Errors.{Error, Outcome, returned, failed, join}
use outboxer.Provider.{EventId, Callback}
use outboxer.Provider.Settles.{Settled, Settled-append_left, Settled-append_right, Own}
use outboxer.Pubsub.{PubsubCandidateEvent, PubsubPreparedEvent, prepare_pubsub_event}
use outboxer.Pubsub.Send.{
  Action, publish, flush, reports, Trace, Google, Answers, await_pubsub_result, cons?,
  publish_prepared, topics, is_deadline, is_pubsub_permanent_backend_error, isolated,
  send_pubsub_isolated, unordered_isolated, unordered_answer, publish_unordered, collect_unordered,
  send_pubsub_unordered_events,
}
use outboxer.Pubsub.Send.Steps.{callbacks_of}
use outboxer.Pubsub.Send.Actions.{
  callbacks-append, callbacks-reports, IsPrepared, prepare_pubsub_event-IsPrepared,
}

pub join-none : (a b : Option Error) → join a b ≡ none → (a ≡ none) × (b ≡ none)
unfolding join
join-none none none h = (refl, refl)
join-none none (some e) h = cc h
join-none (some e) none h = cc h
join-none (some e) (some e') h = cc h

-- The event is settled if no error is reported, and no other event is.
record IsReported (p : PubsubPreparedEvent) (so_far : Option Error) (t : Trace) : Type 0 where
  own : Own p.log_id (callbacks_of t.actions)
  settled : t.err ≡ none → (so_far ≡ none) × Settled p.log_id (callbacks_of t.actions)

module _ (google : Google) (answers : Answers) (p : PubsubPreparedEvent) (e : Error)
    (so_far : Option Error) where
  isolated-IsReported :
      (o : Outcome String)
      → IsReported p so_far (unordered_isolated google answers (isolated google p false o) e so_far)
  isolated-IsReported (returned id) = record {
    own = (tt, (refl, tt));
    settled = λ h. ((join-none so_far none h).0, inl (inr (inl refl)));
  }
  isolated-IsReported (failed e') = elim (Bool-cases (is_deadline google e')) [
    | inl late ↦ (elim (Bool-cases (is_pubsub_permanent_backend_error google e')) [
      | inl bad ↦
          rw (late, bad)
            (record {
              own = (tt, (refl, (tt, tt)));
              settled =
                  λ h. ((join-none so_far none h).0, inr (google.error_text e', inr (inl refl)));
            })
      | inr other ↦
          rw (late, other)
            (record {
              own = (tt, (tt, tt));
              settled = λ h. absurd (cc ((join-none (join so_far (some e)) (some e') h).1));
            })
    ])
    | inr soon ↦ (elim (Bool-cases (is_pubsub_permanent_backend_error google e')) [
      | inl bad ↦
          rw (soon, bad)
            (record {
              own = (tt, (refl, (tt, tt)));
              settled =
                  λ h. ((join-none so_far none h).0, inr (google.error_text e', inr (inl refl)));
            })
      | inr other ↦
          rw (soon, other)
            (record {
              own = (tt, (tt, tt));
              settled = λ h. absurd (cc ((join-none (join so_far (some e)) (some e') h).1));
            })
    ])
  ]

module _ (google : Google) (answers : Answers) where
  answer-IsReported :
      (p : PubsubPreparedEvent) (o : Outcome String) (so_far : Option Error)
      → IsReported p so_far (unordered_answer google answers p o so_far)
  unfolding send_pubsub_isolated
  answer-IsReported p (returned id) so_far = record {
    own = (refl, tt);
    settled = λ h. (h, inl (inl refl));
  }
  answer-IsReported p (failed e) so_far = elim (Bool-cases (is_deadline google e)) [
    | inl late ↦
        rw late
          (record { own = (tt, tt); settled = λ h. absurd (cc ((join-none so_far (some e) h).1)) })
    | inr soon ↦ (elim (Bool-cases (is_pubsub_permanent_backend_error google e)) [
      | inl bad ↦
          rw (soon, bad) (isolated-IsReported google answers p e so_far (answers.alone_answer p))
      | inr other ↦
          rw (soon, other)
            (record {
              own = (tt, tt);
              settled = λ h. absurd (cc ((join-none so_far (some e) h).1));
            })
    ])
  ]

  -- Every event that was published is settled if the loop reports no error.
  collect-settled :
      (so_far : Option Error) (ps : List PubsubPreparedEvent)
      → (collect_unordered google answers so_far ps).err ≡ none
      → (so_far ≡ none)
        × All
            (λ (p : PubsubPreparedEvent).
              Settled p.log_id (callbacks_of (collect_unordered google answers so_far ps).actions))
            ps
  unfolding collect_unordered
  collect-settled so_far [] h = (h, tt)
  collect-settled so_far (p ∷ ps) h =
      let o = answers.first_answer p in
      let t = unordered_answer google answers p o so_far in
      let before = await_pubsub_result google p o ++ t.actions in
      let rest = collect_unordered google answers t.err ps in
      let (clear, later) = collect-settled t.err ps h in
      let (none', now) = (answer-IsReported p o so_far).settled clear in
      (
        none',
        (
          in_all p.log_id before rest.actions
              (inl' p.log_id before rest.actions (in_answer p.log_id p o t.actions now)),
          All-map _ _ ps
              (λ q s.
                in_all q.log_id before rest.actions (
                  Settled-append_right q.log_id (callbacks_of before) (callbacks_of rest.actions)
                    s))
              later,
        ),
      )
    where
      in_all :
          (i : EventId) (xs ys : List Action)
          → Settled i (callbacks_of xs ++ callbacks_of ys)
          → Settled i (callbacks_of (xs ++ ys))
      in_all i xs ys s = rw (callbacks-append xs ys) s

      inl' :
          (i : EventId) (xs ys : List Action)
          → Settled i (callbacks_of xs)
          → Settled i (callbacks_of xs ++ callbacks_of ys)
      inl' i xs ys s = Settled-append_left i (callbacks_of xs) (callbacks_of ys) s

      in_answer :
          (i : EventId) (q : PubsubPreparedEvent) (o : Outcome String) (xs : List Action)
          → Settled i (callbacks_of xs)
          → Settled i (callbacks_of (await_pubsub_result google q o ++ xs))
      in_answer i q o xs (inl k) = inl (inr k)
      in_answer i q o xs (inr (reason, k)) = inr (reason, inr k)

reported :
    (cs : List Callback) (as' : List Action)
    → callbacks_of (reports cs ++ as') ≡ cs ++ callbacks_of as'
reported cs as' =
    callbacks-append (reports cs) as' ∙ ap (λ l. l ++ callbacks_of as') (callbacks-reports cs)

-- Rejected by the first loop, or waiting for its result.
abbrev IsPending : List Callback → List PubsubPreparedEvent → PubsubCandidateEvent → Type 0
IsPending callbacks pending c =
    Settled c.evt.id callbacks ⊎ ((p : PubsubPreparedEvent) × In p pending × (p.log_id ≡ c.evt.id))

module _ (google : Google) (answers : Answers) where
  publish-IsPending :
      (cs : List PubsubCandidateEvent)
      → All
          (IsPending
            (callbacks_of (publish_unordered google answers cs).0)
            (publish_unordered google answers cs).1)
          cs
  unfolding publish_unordered
  publish-IsPending [] = tt
  publish-IsPending (c ∷ cs) =
      let checked = prepare_pubsub_event c in
      let (as', pending) = publish_unordered google answers cs in
      first_of checked.callbacks checked.value as' pending (prepare_pubsub_event-IsPrepared c)
        (publish-IsPending cs)
    where
      first_of :
          (callbacks : List Callback) (value : Option PubsubPreparedEvent) (as' : List Action)
          (pending : List PubsubPreparedEvent)
          → IsPrepared c callbacks value
          → All (IsPending (callbacks_of as') pending) cs
          → All
              (IsPending
                (callbacks_of (reports callbacks ++ (publish_prepared google answers value ++ as')))
                (cons? value pending))
              (c ∷ cs)
      first_of callbacks none as' pending (own, done) h =
          subst (λ l. All (IsPending l pending) (c ∷ cs)) (sym (reported callbacks as'))
            (
              inl (Settled-append_left c.evt.id callbacks (callbacks_of as') done),
              All-map _ _ cs
                  (λ x w. elim w [
                    | inl s ↦ inl (Settled-append_right x.evt.id callbacks (callbacks_of as') s)
                    | inr waiting ↦ inr waiting
                  ])
                  h,
            )
      first_of callbacks (some p) as' pending (quiet, own, m) h =
          subst
            (λ l.
              All (IsPending (callbacks_of (reports l ++ (publish p.message ∷ as'))) (p ∷ pending))
                (c ∷ cs))
            (sym quiet)
            (
              inr (p, inl refl, own),
              All-map _ _ cs (λ x w. elim w [ inl s ↦ inl s | inr (q, i, e) ↦ inr (q, inr i, e) ])
                  h,
            )

  -- If sendPubsubUnorderedEvents reports no error, it has confirmed or rejected every event.
  pub send_pubsub_unordered_events-settles :
      (cs : List PubsubCandidateEvent)
      → (send_pubsub_unordered_events google answers cs).err ≡ none
      → All
          (λ (c : PubsubCandidateEvent).
            Settled c.evt.id
              (callbacks_of (send_pubsub_unordered_events google answers cs).actions))
          cs
  unfolding send_pubsub_unordered_events
  send_pubsub_unordered_events-settles cs h =
      let (as', pending) = publish_unordered google answers cs in
      let before = as' ++ map flush (topics google answers pending) in
      let t = collect_unordered google answers none pending in
      let later = (collect-settled google answers none pending h).1 in
      All-map _ _ cs
        (λ c w.
          rw
            (
              callbacks-append before t.actions,
              callbacks-append as' (map flush (topics google answers pending)),
            )
            (elim w [
              | inl s ↦
                  Settled-append_left c.evt.id _ (callbacks_of t.actions)
                    (Settled-append_left c.evt.id (callbacks_of as') _ s)
              | inr (p, i, e) ↦ Settled-append_right c.evt.id _ (callbacks_of t.actions) (
                  subst (λ k. Settled k (callbacks_of t.actions)) e
                    (All-In (λ (q : PubsubPreparedEvent). Settled q.log_id (callbacks_of t.actions))
                      p pending later i))
            ]))
        (publish-IsPending cs)
