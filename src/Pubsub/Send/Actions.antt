-- ===== src/Pubsub/Send/Actions.antt =====
-- Sequences of actions, and what preparePubsubEvent does with one event.
use outboxer.Prelude.{
  String, Bool, Option, none, some, List, [], ◌∷◌, ◌++◌, ◌≡◌, refl, ap, inl, inr,
}
use outboxer.Value.{Fields, Result, ok, err}
use outboxer.Provider.{Callback, option_object, reject_malformed_options}
use outboxer.Provider.Settles.{Settled, Own}
use outboxer.Pubsub.{
  Message, PubsubCandidateEvent, PubsubPreparedEvent, message_of, packed, with_attributes,
  pubsub_poison_reason, prepare_pubsub_event,
}
use outboxer.Pubsub.Send.{Action, publish, flush, wait, resume_publish, report, reports}
use outboxer.Pubsub.Send.Steps.{callbacks_of, messages_of, key_step, key_run}

pub callbacks-append :
    (xs ys : List Action) → callbacks_of (xs ++ ys) ≡ callbacks_of xs ++ callbacks_of ys
callbacks-append [] ys = refl
callbacks-append (report c ∷ xs) ys = ap (λ cs. c ∷ cs) (callbacks-append xs ys)
callbacks-append (publish m ∷ xs) ys = callbacks-append xs ys
callbacks-append (flush t ∷ xs) ys = callbacks-append xs ys
callbacks-append (wait m o ∷ xs) ys = callbacks-append xs ys
callbacks-append (resume_publish t k ∷ xs) ys = callbacks-append xs ys

pub messages-append :
    (xs ys : List Action) → messages_of (xs ++ ys) ≡ messages_of xs ++ messages_of ys
messages-append [] ys = refl
messages-append (publish m ∷ xs) ys = ap (λ ms. m ∷ ms) (messages-append xs ys)
messages-append (report c ∷ xs) ys = messages-append xs ys
messages-append (flush t ∷ xs) ys = messages-append xs ys
messages-append (wait m o ∷ xs) ys = messages-append xs ys
messages-append (resume_publish t k ∷ xs) ys = messages-append xs ys

pub callbacks-reports : (cs : List Callback) → callbacks_of (reports cs) ≡ cs
callbacks-reports [] = refl
callbacks-reports (c ∷ cs) = ap (λ xs. c ∷ xs) (callbacks-reports cs)

pub messages-reports : (cs : List Callback) → messages_of (reports cs) ≡ []
messages-reports [] = refl
messages-reports (c ∷ cs) = messages-reports cs

module _ (topic key : String) where
  pub key_run-append :
      (before after : Bool) (xs ys : List Action)
      → key_run topic key before xs ≡ some after
      → key_run topic key before (xs ++ ys) ≡ key_run topic key after ys
  key_run-append before after [] ys h = ap (λ s. key_run topic key s ys) (cc h)
  key_run-append before after (x ∷ xs) ys h =
      step (key_step topic key before x) (λ now. key_run-append now after xs ys) h
    where
      step :
          (o : Option Bool)
          → ((now : Bool)
              → key_run topic key now xs ≡ some after
              → key_run topic key now (xs ++ ys) ≡ key_run topic key after ys)
          → (elim o as (λ _. Option Bool) [ none ↦ none | some now ↦ key_run topic key now xs ])
            ≡ some after
          → (elim o as (λ _. Option Bool) [
            | none ↦ none
            | some now ↦ key_run topic key now (xs ++ ys)
          ])
            ≡ key_run topic key after ys
      step none ih k = cc k
      step (some now) ih k = ih now k

  pub key_run-reports : (s : Bool) (cs : List Callback) → key_run topic key s (reports cs) ≡ some s
  key_run-reports s [] = refl
  key_run-reports s (c ∷ cs) = key_run-reports s cs

-- The message of the candidate, up to its attributes.
abbrev pub IsMessage : PubsubCandidateEvent → Message → Type 0
IsMessage c m =
    (m.topic ≡ c.evt.destination) × (m.ordering_key ≡ c.ordering_key) × (m.payload ≡ c.evt.payload)

-- An event is rejected on its own, or its message is prepared.
abbrev pub IsPrepared : PubsubCandidateEvent → List Callback → Option PubsubPreparedEvent → Type 0
IsPrepared c callbacks none = Own c.evt.id callbacks × Settled c.evt.id callbacks
IsPrepared c callbacks (some p) = (callbacks ≡ []) × (p.log_id ≡ c.evt.id) × IsMessage c p.message

packed-IsPrepared :
    (c : PubsubCandidateEvent) (attributes : Option Fields) (reason : Option String)
    → IsPrepared c
        (packed c (message_of c attributes) reason).callbacks
        (packed c (message_of c attributes) reason).value
packed-IsPrepared c attributes (some reason) = ((refl, tt), inr (reason, inl refl))
packed-IsPrepared c attributes none = (refl, refl, (refl, refl, refl))

with_attributes-IsPrepared :
    (c : PubsubCandidateEvent) (r : Result (Option Fields))
    → IsPrepared c (with_attributes c r).callbacks (with_attributes c r).value
unfolding reject_malformed_options
with_attributes-IsPrepared c (err problem) = ((refl, (tt, tt)), inr (problem, inl refl))
with_attributes-IsPrepared c (ok attributes) =
    packed-IsPrepared c attributes (pubsub_poison_reason (message_of c attributes))

pub prepare_pubsub_event-IsPrepared :
    (c : PubsubCandidateEvent)
    → IsPrepared c (prepare_pubsub_event c).callbacks (prepare_pubsub_event c).value
unfolding prepare_pubsub_event
prepare_pubsub_event-IsPrepared c =
    with_attributes-IsPrepared c (option_object c.evt.options "attributes")
