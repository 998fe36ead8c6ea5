-- ===== src/Pubsub/Send/Steps.antt =====
-- What an ordered group does with one of its events: every case of sendPubsubOrderedGroup.
use outboxer.Prelude.{
  String, Bool, true, false, ◌&&◌, ◌||◌, not, Option, none, some, List, [], ◌∷◌, ◌++◌, ◌≡◌, refl,
  ◌⊎◌, inl, inr, Bool-cases, if◌then◌else◌, ◌==◌, string_eq, arith,
}
use outboxer.Errors.{Error, Outcome, returned, failed, is, join, fatal_after_commit}
use outboxer.Provider.{Callback, add_confirmed_id, add_poison_id}
use outboxer.Provider.Settles.{Own, Settled}
use outboxer.Pubsub.{Message, PubsubPreparedEvent}
use outboxer.Pubsub.Send.{
  Action, publish, flush, wait, resume_publish, report, Trace, Google, Answers,
  is_pubsub_permanent_backend_error, is_deadline, publish_and_wait, isolated, send_pubsub_isolated,
  log_pubsub_failure, before_trace, after_isolated, ordered_answer,
}

abbrev pub callbacks_of : List Action → List Callback
callbacks_of [] = []
callbacks_of (report c ∷ as') = c ∷ callbacks_of as'
callbacks_of (publish m ∷ as') = callbacks_of as'
callbacks_of (flush t ∷ as') = callbacks_of as'
callbacks_of (wait m o ∷ as') = callbacks_of as'
callbacks_of (resume_publish t k ∷ as') = callbacks_of as'

abbrev pub messages_of : List Action → List Message
messages_of [] = []
messages_of (publish m ∷ as') = m ∷ messages_of as'
messages_of (report c ∷ as') = messages_of as'
messages_of (flush t ∷ as') = messages_of as'
messages_of (wait m o ∷ as') = messages_of as'
messages_of (resume_publish t k ∷ as') = messages_of as'

-- What the Pub/Sub client documents of an ordering key: a message that fails pauses its key, a
-- paused key must not be published to, and ResumePublish opens it again.
module _ (topic : String) (key : String) where
  abbrev pub same_key : String → String → Bool
  same_key t k = t == topic && k == key

  abbrev pub key_step : Bool → Action → Option Bool
  key_step paused (publish m) =
      if same_key m.topic m.ordering_key && paused then none else some paused
  key_step paused (wait m (failed e)) = some (same_key m.topic m.ordering_key || paused)
  key_step paused (wait m (returned id)) = some paused
  key_step paused (resume_publish t k) = some (not (same_key t k) && paused)
  key_step paused (flush t) = some paused
  key_step paused (report c) = some paused

  -- Whether the key is paused at the end, and nothing if it was published to while paused.
  abbrev pub key_run : Bool → List Action → Option Bool
  key_run paused [] = some paused
  key_run paused (a ∷ as') = elim (key_step paused a) [ none ↦ none | some now ↦ key_run now as' ]

-- The actions on one event: callbacks about it only, and its message published once or twice.
pub record IsTry (p : PubsubPreparedEvent) (as' : List Action) : Type 0 where
  pub own : Own p.log_id (callbacks_of as')
  pub tries : (messages_of as' ≡ p.message ∷ []) ⊎ (messages_of as' ≡ p.message ∷ p.message ∷ [])

abbrev pub key_after : PubsubPreparedEvent → List Action → Option Bool
key_after p = key_run p.message.topic p.message.ordering_key false

-- The group goes on: the event is settled and its key is open.
abbrev pub GoesOn : Answers → PubsubPreparedEvent → Trace → Trace → Type 0
GoesOn answers p rest t =
    (as' : List Action) × (t ≡ record rest { actions = as' ++ rest.actions })
    × IsTry p as'
    × Settled p.log_id (callbacks_of as')
    × (key_after p as' ≡ some false)

-- The group stops with an error: the key is open, or the error ends the relay.
abbrev pub Stops : PubsubPreparedEvent → Trace → Type 0
Stops p t =
    (e : Error) × (t.err ≡ some e)
    × IsTry p t.actions
    × ((key_after p t.actions ≡ some false)
        ⊎ ((key_after p t.actions ≡ some true) × (is e fatal_after_commit ≡ true)))

module _ (google : Google) (answers : Answers) (p : PubsubPreparedEvent) (rest : Trace) where
  own_key :
      (p.message.topic == p.message.topic && p.message.ordering_key == p.message.ordering_key)
      ≡ true
  own_key =
      rw
        (
          (string_eq.beq_iff p.message.topic p.message.topic).1 refl,
          (string_eq.beq_iff p.message.ordering_key p.message.ordering_key).1 refl,
        )
        refl

  -- The event was sent alone again, after the error `e`.
  isolated_cases :
      (e : Error) (o : Outcome String)
      → let t = before_trace google answers (publish_and_wait google p (failed e)) (
          before_trace google answers
            (resume_publish p.message.topic p.message.ordering_key ∷ [])
            (after_isolated google answers (isolated google p true o) e rest)) in
        GoesOn answers p rest t ⊎ Stops p t
  unfolding join is
  isolated_cases e (returned id) = inl (
    publish_and_wait google p (failed e)
        ++ resume_publish p.message.topic p.message.ordering_key
          ∷ publish_and_wait google p (returned id)
        ++ report (add_confirmed_id p.log_id) ∷ [],
    refl,
    record { own = (tt, (tt, (refl, tt))); tries = inr refl },
    inl (inr (inr (inl refl))),
    ground (arith, own_key),
  )
  isolated_cases e (failed e') = elim (Bool-cases (is_deadline google e')) [
    | inl late ↦ rw late (
        inr (
          _,
          refl,
          record { own = (tt, (tt, (tt, tt))); tries = inr refl },
          inr (ground (arith, own_key), refl),
        ))
    | inr soon ↦ (elim (Bool-cases (is_pubsub_permanent_backend_error google e')) [
      | inl bad ↦
          rw (soon, bad)
            (inl (
              publish_and_wait google p (failed e)
                  ++ resume_publish p.message.topic p.message.ordering_key
                    ∷ publish_and_wait google p (failed e')
                  ++ resume_publish p.message.topic p.message.ordering_key
                    ∷ report (add_poison_id p.log_id (google.error_text e'))
                    ∷ log_pubsub_failure google p e'
                    ∷ [],
              refl,
              record { own = (tt, (tt, (refl, (tt, tt)))); tries = inr refl },
              inr (google.error_text e', inr (inr (inl refl))),
              ground (arith, own_key),
            ))
      | inr other ↦
          rw (soon, other)
            (inr (
              e',
              refl,
              record { own = (tt, (tt, (tt, tt))); tries = inr refl },
              inl (ground (arith, own_key)),
            ))
    ])
  ]

  -- Every case after the first wait.
  pub ordered_cases :
      (o : Outcome String)
      → let t =
          before_trace google answers
            (publish_and_wait google p o)
            (ordered_answer google answers p o rest) in
        GoesOn answers p rest t ⊎ Stops p t
  unfolding join is send_pubsub_isolated
  ordered_cases (returned id) = inl (
    publish_and_wait google p (returned id) ++ report (add_confirmed_id p.log_id) ∷ [],
    refl,
    record { own = (tt, (refl, tt)); tries = inl refl },
    inl (inr (inl refl)),
    ground (arith, own_key),
  )
  ordered_cases (failed e) = elim (Bool-cases (is_deadline google e)) [
    | inl late ↦ rw late (
        inr (
          _,
          refl,
          record { own = (tt, (tt, tt)); tries = inl refl },
          inr (ground (arith, own_key), refl),
        ))
    | inr soon ↦ (elim (Bool-cases (is_pubsub_permanent_backend_error google e)) [
      | inl bad ↦ rw (soon, bad) (isolated_cases e (answers.alone_answer p))
      | inr other ↦
          rw (soon, other)
            (inr (
              e,
              refl,
              record { own = (tt, (tt, tt)); tries = inl refl },
              inl (ground (arith, own_key)),
            ))
    ])
  ]
