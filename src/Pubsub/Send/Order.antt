-- ===== src/Pubsub/Send/Order.antt =====
-- The order within an ordering key, and the key's state at the publisher, over a whole group.
use outboxer.Prelude.{
  String, Bool, true, false, Option, none, some, List, [], ◌∷◌, ◌++◌, map, ◌≡◌, ◌↔◌, refl, ◌∙◌, ap,
  sym, subst, ◌⊎◌, inl, inr, All, All-append, All-map, In, append-nil,
}
use outboxer.Errors.{Error, is?, fatal_after_commit}
use outboxer.Provider.{EventId, Callback}
use outboxer.Provider.Settles.{
  Concerns, Concerns-mono, Settled, Settled-append_left, Settled-append_right, Own,
}
use outboxer.Pubsub.{Message, PubsubCandidateEvent, PubsubPreparedEvent, prepare_pubsub_event}
use outboxer.Pubsub.Send.{
  Action, reports, Trace, Google, Answers, before_trace, publish_and_wait, ordered_answer,
  ordered_next, send_pubsub_ordered_group,
}
use outboxer.Pubsub.Send.Steps.{callbacks_of, messages_of, key_run, ordered_cases}
use outboxer.Pubsub.Send.Actions.{
  callbacks-append, messages-append, callbacks-reports, messages-reports, key_run-append,
  key_run-reports, IsMessage, IsPrepared, prepare_pubsub_event-IsPrepared,
}

-- The message of a candidate is published at most twice.
abbrev pub IsTries : PubsubCandidateEvent → List Message → Type 0
IsTries c ms = (ms ≡ []) ⊎ ((m : Message) × IsMessage c m × ((ms ≡ m ∷ []) ⊎ (ms ≡ m ∷ m ∷ [])))

-- The messages are those of the candidates, in their order.
abbrev pub InOrder : List Message → List PubsubCandidateEvent → Type 0
InOrder ms [] = ms ≡ []
InOrder ms (c ∷ cs) =
    (now : List Message) × (later : List Message) × (ms ≡ now ++ later)
    × IsTries c now
    × InOrder later cs

abbrev pub first : List PubsubCandidateEvent → List PubsubCandidateEvent
first [] = []
first (c ∷ cs) = c ∷ []

abbrev id_of : PubsubCandidateEvent → EventId
id_of c = c.evt.id

abbrev pub ids : List PubsubCandidateEvent → List EventId
ids = map id_of

abbrev pub HasKey : String → String → PubsubCandidateEvent → Type 0
HasKey topic key c = (c.evt.destination ≡ topic) × (c.ordering_key ≡ key)

-- A key at the end of a group: open, or paused with an error that ends the relay.
abbrev pub IsReleased : String → String → List Action → Option Error → Type 0
IsReleased topic key as' err =
    (key_run topic key false as' ≡ some false)
    ⊎ ((key_run topic key false as' ≡ some true) × (is? err fatal_after_commit ≡ true))

-- How far a group came. It settled its first events, published nothing beyond the event that
-- follows them, settled no other event, and reports an error exactly if events are left; its key
-- was never published to while paused.
pub record IsGroup (topic : String) (key : String) (cs : List PubsubCandidateEvent) (t : Trace)
    : Type 0 where
  pub settled : List PubsubCandidateEvent
  pub rest : List PubsubCandidateEvent
  pub split : cs ≡ settled ++ rest
  pub done : All (λ (c : PubsubCandidateEvent). Settled c.evt.id (callbacks_of t.actions)) settled
  pub in_order : InOrder (messages_of t.actions) (settled ++ first rest)
  pub own : All (Concerns (λ i. In i (ids (settled ++ first rest)))) (callbacks_of t.actions)
  pub complete : (rest ≡ []) ↔ (t.err ≡ none)
  pub released : IsReleased topic key t.actions t.err

-- The actions on one candidate, before those on the later ones.
go_on :
    (topic key : String) (c : PubsubCandidateEvent) (cs : List PubsubCandidateEvent)
    (as' : List Action) (t : Trace)
    → Own c.evt.id (callbacks_of as')
    → Settled c.evt.id (callbacks_of as')
    → IsTries c (messages_of as')
    → key_run topic key false as' ≡ some false
    → IsGroup topic key cs t
    → IsGroup topic key (c ∷ cs) (record t { actions = as' ++ t.actions })
go_on topic key c cs as' t own done tries open_key g = record {
  settled = c ∷ g.settled;
  rest = g.rest;
  split = ap (λ xs. c ∷ xs) g.split;
  done = (
    later c (Settled-append_left c.evt.id (callbacks_of as') (callbacks_of t.actions) done),
    All-map _ _ g.settled
        (λ x s.
          later x (Settled-append_right x.evt.id (callbacks_of as') (callbacks_of t.actions) s))
        g.done,
  );
  in_order =
      (messages_of as', messages_of t.actions, messages-append as' t.actions, tries, g.in_order);
  own = rw (callbacks-append as' t.actions) (
      All-append (Concerns (λ i. In i (ids (c ∷ (g.settled ++ first g.rest))))) (callbacks_of as')
        (callbacks_of t.actions)
        (Concerns-mono (λ i. i ≡ c.evt.id) _ (λ i e. inl (sym e)) (callbacks_of as') own)
        (Concerns-mono (λ i. In i (ids (g.settled ++ first g.rest))) _ (λ i j. inr j)
          (callbacks_of t.actions) g.own));
  complete = g.complete;
  released = rw (key_run-append topic key false false as' t.actions open_key) g.released;
}
  where
    later :
        (x : PubsubCandidateEvent)
        → Settled x.evt.id (callbacks_of as' ++ callbacks_of t.actions)
        → Settled x.evt.id (callbacks_of (as' ++ t.actions))
    later x s = rw (callbacks-append as' t.actions) s

-- A group that stops at its first candidate.
stop :
    (topic key : String) (c : PubsubCandidateEvent) (cs : List PubsubCandidateEvent) (t : Trace)
    (e : Error)
    → t.err ≡ some e
    → Own c.evt.id (callbacks_of t.actions)
    → IsTries c (messages_of t.actions)
    → IsReleased topic key t.actions t.err
    → IsGroup topic key (c ∷ cs) t
stop topic key c cs t e stopped own tries released = record {
  settled = [];
  rest = c ∷ cs;
  split = refl;
  done = tt;
  in_order = (messages_of t.actions, [], sym (append-nil _), tries, refl);
  own = Concerns-mono (λ i. i ≡ c.evt.id) _ (λ i x. inl (sym x)) (callbacks_of t.actions) own;
  complete = (λ x. absurd (cc x), λ x. absurd (cc (x, stopped)));
  released = released;
}

key_moved :
    (p : PubsubPreparedEvent) (topic key : String) (as' : List Action) (o : Option Bool)
    → p.message.topic ≡ topic
    → p.message.ordering_key ≡ key
    → key_run p.message.topic p.message.ordering_key false as' ≡ o
    → key_run topic key false as' ≡ o
key_moved p topic key as' o a b h =
    subst (λ t. key_run t key false as' ≡ o) a
      (subst (λ k. key_run p.message.topic k false as' ≡ o) b h)

IsTries-of :
    (c : PubsubCandidateEvent) (p : PubsubPreparedEvent) (ms : List Message)
    → IsMessage c p.message
    → (ms ≡ p.message ∷ []) ⊎ (ms ≡ p.message ∷ p.message ∷ [])
    → IsTries c ms
IsTries-of c p ms m h = inr (p.message, m, h)

module _ (google : Google) (answers : Answers) (topic key : String) (c : PubsubCandidateEvent)
    (cs : List PubsubCandidateEvent) (has : HasKey topic key c) (t : Trace)
    (g : IsGroup topic key cs t) where
  -- After the first wait.
  answered :
      (p : PubsubPreparedEvent)
      → p.log_id ≡ c.evt.id
      → IsMessage c p.message
      → IsGroup topic key (c ∷ cs) (
          before_trace google answers
            (publish_and_wait google p (answers.first_answer p))
            (ordered_answer google answers p (answers.first_answer p) t))
  unfolding is?
  answered p own m = elim (ordered_cases google answers p t (answers.first_answer p)) [
    | inl (as', e, try, done, open_key) ↦ subst (IsGroup topic key (c ∷ cs)) (sym e) (
        go_on topic key c cs as' t (subst (λ i. Own i (callbacks_of as')) own try.own)
          (subst (λ i. Settled i (callbacks_of as')) own done)
          (IsTries-of c p (messages_of as') m try.tries)
          (key_moved p topic key as' (some false) (m.0 ∙ has.0) (m.1 ∙ has.1) open_key) g)
    | inr (e, stopped, try, released) ↦
        let u =
          before_trace google answers (publish_and_wait google p (answers.first_answer p))
            (ordered_answer google answers p (answers.first_answer p) t) in
        stop topic key c cs u e stopped (subst (λ i. Own i (callbacks_of u.actions)) own try.own)
          (IsTries-of c p (messages_of u.actions) m try.tries)
          (elim released [
            | inl open_key ↦
                inl (
                  key_moved p topic key u.actions (some false) (m.0 ∙ has.0) (m.1 ∙ has.1) open_key)
            | inr (paused, fatal) ↦ inr (
              key_moved p topic key u.actions (some true) (m.0 ∙ has.0) (m.1 ∙ has.1) paused,
              rw stopped fatal,
            )
          ])
  ]

  next :
      (callbacks : List Callback) (value : Option PubsubPreparedEvent)
      → IsPrepared c callbacks value
      → IsGroup topic key
          (c ∷ cs)
          (ordered_next google answers (record { callbacks = callbacks; value = value }) t)
  next callbacks none (own, done) =
      go_on topic key c cs (reports callbacks) t
        (subst (Own c.evt.id) (sym (callbacks-reports callbacks)) own)
        (subst (Settled c.evt.id) (sym (callbacks-reports callbacks)) done)
        (inl (messages-reports callbacks)) (key_run-reports topic key false callbacks) g
  next callbacks (some p) (quiet, own, m) =
      subst
        (λ cs'.
          IsGroup topic key (c ∷ cs)
            (ordered_next google answers (record { callbacks = cs'; value = some p }) t))
        (sym quiet) (answered p own m)

-- Within one ordering key, whatever the publisher answers: the group settles a first part of its
-- events, confirmed or rejected each; it publishes, in order and each at most twice, only events
-- of that part and the one event that follows it, and settles no other; it reports an error
-- exactly if events are left over; and it never publishes to a key that a failure has paused, and
-- leaves the key open unless its error ends the relay.
pub send_pubsub_ordered_group-IsGroup :
    (google : Google) (answers : Answers) (topic key : String) (cs : List PubsubCandidateEvent)
    → All (HasKey topic key) cs
    → IsGroup topic key cs (send_pubsub_ordered_group google answers cs)
unfolding send_pubsub_ordered_group
send_pubsub_ordered_group-IsGroup google answers topic key [] h = record {
  settled = [];
  rest = [];
  split = refl;
  done = tt;
  in_order = refl;
  own = tt;
  complete = (λ _. refl, λ _. refl);
  released = inl refl;
}
send_pubsub_ordered_group-IsGroup google answers topic key (c ∷ cs) h =
    let checked = prepare_pubsub_event c in
    next google answers topic key c cs h.0 (send_pubsub_ordered_group google answers cs)
      (send_pubsub_ordered_group-IsGroup google answers topic key cs h.1) checked.callbacks
      checked.value (prepare_pubsub_event-IsPrepared c)
