-- ===== src/Sqs/Send/Order.antt =====
-- The order of a FIFO group: an event is sent only after each earlier event of the group is
-- confirmed or rejected.
use outboxer.Prelude.{
  String, Bool, true, false, Option, none, some, List, [], ◌∷◌, ◌++◌, map, ◌≡◌, refl, ap, sym,
  subst, ◌⊎◌, inl, inr, All, All-append, All-map, In, Bool-cases, Option-cases,
}
use outboxer.Errors.{Error, Outcome, failed, returned}
use outboxer.Provider.{EventId, Callback, add_poison_id, log_failure, option_string}
use outboxer.Sqs.{MessageAttribute, PreparedEvent, BatchResponse, settle_one, send_sqs_batch}
use outboxer.Sqs.Options.{sqs_attributes, sqs_delay_seconds, sqs_aws_trace_header}
use outboxer.Sqs.Poison.{is_sqs_poison}
use outboxer.Sqs.Prepare.{Library, Candidate, check_and_pack, prepare_sqs_event}
use outboxer.Sqs.Prepare.Entries.{Decided, IsDecided, reading-IsDecided}
use outboxer.Sqs.Send.{
  Run, Service, send_with_semaphore, requests_with_semaphore, isolated_requests, batch_requests,
  after_sent, fifo_next, send_fifo_group,
}
use outboxer.Provider.Settles.{
  Concerns, Concerns-mono, Settled, Settled-append_left, Settled-append_right, Own,
}
use outboxer.Sqs.Send.Single.{IsAnswerTo, IsSingle, settle_one-IsSingle}

-- The request holds the candidate's event and nothing else.
abbrev pub IsFor : Candidate → List PreparedEvent → Type 0
IsFor c request = (p : PreparedEvent) × (request ≡ p ∷ []) × (p.log_id ≡ c.evt.id)

-- The requests are for some of the candidates, one for each, in their order.
abbrev pub InOrder : List (List PreparedEvent) → List Candidate → Type 0
InOrder requests [] = requests ≡ []
InOrder requests (c ∷ cs) =
    InOrder requests cs
    ⊎ ((request : List PreparedEvent) × (later : List (List PreparedEvent)) × (requests
          ≡ request ∷ later)
        × IsFor c request
        × InOrder later cs)

abbrev pub first : List Candidate → List Candidate
first [] = []
first (c ∷ cs) = c ∷ []

abbrev pub id_of : Candidate → EventId
id_of c = c.evt.id

abbrev pub ids : List Candidate → List EventId
ids = map id_of

-- How far a run came: it settled the first events, sent no event beyond the one that follows
-- them, and settled no other event; a run that came to the end reports no error.
pub record IsPrefix (cs : List Candidate) (r : Run) : Type 0 where
  pub settled : List Candidate
  pub rest : List Candidate
  pub split : cs ≡ settled ++ rest
  pub done : All (λ (c : Candidate). Settled c.evt.id r.callbacks) settled
  pub in_order : InOrder r.requests (settled ++ first rest)
  pub own : All (Concerns (λ i. In i (ids (settled ++ first rest)))) r.callbacks
  pub complete : rest ≡ [] → r.err ≡ none

InOrder-none : (cs : List Candidate) → InOrder [] cs
InOrder-none [] = refl
InOrder-none (c ∷ cs) = inl (InOrder-none cs)

-- What is sent for one candidate: nothing, or one request.
abbrev AtMost : Candidate → List (List PreparedEvent) → Type 0
AtMost c requests =
    (requests ≡ []) ⊎ ((request : List PreparedEvent) × (requests ≡ request ∷ []) × IsFor c request)

InOrder-then :
    (c : Candidate) (requests later : List (List PreparedEvent)) (cs : List Candidate)
    → AtMost c requests
    → InOrder later cs
    → InOrder (requests ++ later) (c ∷ cs)
InOrder-then c requests later cs (inl e) h = rw e (inl h)
InOrder-then c requests later cs (inr (request, e, own)) h =
    rw e (inr (request, later, refl, own, h))

module _ (lib : Library) (queue : String) where
  packed-IsDecided :
      (c : Candidate) (is_fifo : Bool) (attributes : List (String × MessageAttribute)) (d : String)
      (delay : Option _) (trace : String)
      → IsDecided c.evt
          (λ p. p.log_id ≡ c.evt.id)
          (check_and_pack lib c queue is_fifo attributes d delay trace)
  unfolding check_and_pack
  packed-IsDecided c is_fifo attributes d delay trace =
      elim (Bool-cases (is_sqs_poison c.evt.payload attributes c.ordering_key d delay)) [
        | inl bad ↦ rw bad ("Event is invalid for SQS", _, refl)
        | inr good ↦ rw good (refl, refl)
      ]

  -- An event is rejected, or prepared under its own id.
  pub prepared-IsDecided :
      (c : Candidate) (is_fifo : Bool)
      → IsDecided c.evt (λ p. p.log_id ≡ c.evt.id) (prepare_sqs_event lib c queue is_fifo)
  unfolding prepare_sqs_event
  prepared-IsDecided c is_fifo =
      let P = λ (p : PreparedEvent). p.log_id ≡ c.evt.id in
      reading-IsDecided c.evt P _ (sqs_attributes lib.decode_base64 c.evt.options) _ λ as'.
        reading-IsDecided c.evt P _ (option_string c.evt.options "messageDeduplicationId") _ λ d.
          reading-IsDecided c.evt P _ (sqs_delay_seconds lib.out_of_range c.evt.options) _ λ delay.
            reading-IsDecided c.evt P _ (sqs_aws_trace_header c.evt.options) _
              λ trace. packed-IsDecided c is_fifo as' d delay trace

-- The callbacks about one candidate, put before those of a run on the later ones.
Concerns-append :
    (c : Candidate) (cs : List Candidate) (before later : List Callback)
    → Own c.evt.id before
    → All (Concerns (λ i. In i (ids cs))) later
    → All (Concerns (λ i. In i (ids (c ∷ cs)))) (before ++ later)
Concerns-append c cs before later h k =
    All-append (Concerns (λ i. In i (ids (c ∷ cs)))) before later
      (Concerns-mono (λ i. i ≡ c.evt.id) _ (λ i e. inl (sym e)) before h)
      (Concerns-mono (λ i. In i (ids cs)) _ (λ i j. inr j) later k)

-- A run that rejects or settles its first candidate and goes on.
go_on :
    (c : Candidate) (cs : List Candidate) (before : List Callback)
    (requests : List (List PreparedEvent)) (r : Run)
    → Own c.evt.id before
    → Settled c.evt.id before
    → AtMost c requests
    → IsPrefix cs r
    → IsPrefix
        (c ∷ cs)
        (record r { requests = requests ++ r.requests; callbacks = before ++ r.callbacks })
go_on c cs before requests r own done few p = record {
  settled = c ∷ p.settled;
  rest = p.rest;
  split = ap (λ xs. c ∷ xs) p.split;
  done = (
    Settled-append_left c.evt.id before r.callbacks done,
    All-map _ _ p.settled (λ x s. Settled-append_right x.evt.id before r.callbacks s) p.done,
  );
  in_order = InOrder-then c requests r.requests (p.settled ++ first p.rest) few p.in_order;
  own = Concerns-append c (p.settled ++ first p.rest) before r.callbacks own p.own;
  complete = p.complete;
}

only :
    (c : Candidate) (requests : List (List PreparedEvent))
    → AtMost c requests
    → InOrder requests (c ∷ [])
only c requests (inl e) = inl e
only c requests (inr (request, e, own)) = inr (request, [], e, own, refl)

-- A run that stops at its first candidate.
stop :
    (c : Candidate) (cs : List Candidate) (r : Run)
    → Own c.evt.id r.callbacks
    → AtMost c r.requests
    → IsPrefix (c ∷ cs) r
stop c cs r own few = record {
  settled = [];
  rest = c ∷ cs;
  split = refl;
  done = tt;
  in_order = only c r.requests few;
  own = Concerns-mono (λ i. i ≡ c.evt.id) _ (λ i e. inl (sym e)) r.callbacks own;
  complete = λ e. absurd (cc e);
}

isolated_one : (o : Outcome BatchResponse) (p : PreparedEvent) → isolated_requests o (p ∷ []) ≡ []
isolated_one (failed e) p = refl
isolated_one (returned r) p = refl

-- The answers report entries of their requests only.
abbrev pub IsFaithful : Service → Type 0
IsFaithful svc = (events : List PreparedEvent) → IsAnswerTo events (svc.answer events)

module _ (lib : Library) (svc : Service) (queue : String) (faithful : IsFaithful svc) where
  -- What is sent of one event, and what comes back.
  send_one :
      (c : Candidate) (p : PreparedEvent)
      → p.log_id ≡ c.evt.id
      → IsSingle c.evt.id (send_with_semaphore lib svc queue (p ∷ []))
        × AtMost c (requests_with_semaphore lib svc queue (p ∷ []))
  unfolding send_with_semaphore requests_with_semaphore batch_requests send_sqs_batch
  send_one c p own = elim (Option-cases (svc.gate (p ∷ []))) [
    | inl entered ↦ rw entered (
      subst (λ i. IsSingle i (settle_one lib.error_text lib.sprint queue p (svc.answer (p ∷ []))))
          own
          (settle_one-IsSingle lib.error_text lib.sprint queue p (svc.answer (p ∷ []))
            (faithful (p ∷ []))),
      inr (
        p ∷ [],
        ap (λ later. (p ∷ []) ∷ later) (isolated_one (svc.answer (p ∷ [])) p),
        (p, refl, own),
      ),
    )
    | inr (e, cancelled) ↦ rw cancelled (record { own = tt; settled = λ x. cc x }, inl refl)
  ]

  after_sent-IsPrefix :
      (c : Candidate) (cs : List Candidate) (callbacks : List Callback) (done : Bool)
      (err : Option Error) (requests : List (List PreparedEvent)) (r : Run)
      → IsSingle c.evt.id (record { callbacks = callbacks; any_done = done; err = err })
      → AtMost c requests
      → IsPrefix cs r
      → IsPrefix (c ∷ cs) (
          after_sent lib svc queue
            (record { callbacks = callbacks; any_done = done; err = err })
            requests
            r)
  after_sent-IsPrefix c cs callbacks done (some e) requests r s few p = stop c cs _ s.own few
  after_sent-IsPrefix c cs callbacks false none requests r s few p = stop c cs _ s.own few
  after_sent-IsPrefix c cs callbacks true none requests r s few p =
      go_on c cs callbacks requests r s.own (s.settled refl) few p

  fifo_next-IsPrefix :
      (c : Candidate) (cs : List Candidate) (callbacks : List Callback)
      (value : Option PreparedEvent) (r : Run)
      → Decided c.evt (λ p. p.log_id ≡ c.evt.id) callbacks value
      → IsPrefix cs r
      → IsPrefix
          (c ∷ cs)
          (fifo_next lib svc queue (record { callbacks = callbacks; value = value }) r)
  fifo_next-IsPrefix c cs callbacks none r d p =
      let (reason, report, e) = d in
      subst (λ before. IsPrefix (c ∷ cs) (record r { callbacks = before ++ r.callbacks })) (sym e)
        (go_on c cs (add_poison_id c.evt.id reason ∷ log_failure "Failed to send event" report ∷ [])
          [] r (refl, (tt, tt)) (inr (reason, inl refl)) (inl refl) p)
  fifo_next-IsPrefix c cs callbacks (some event) r d p =
      let (s, few) = send_one c event d.1 in
      let sent = send_with_semaphore lib svc queue (event ∷ []) in
      let requests = requests_with_semaphore lib svc queue (event ∷ []) in
      subst
        (λ before. IsPrefix (c ∷ cs) (record (after_sent lib svc queue sent requests r) {
          callbacks = before ++ (after_sent lib svc queue sent requests r).callbacks;
        }))
        (sym d.0)
        (after_sent-IsPrefix c cs sent.callbacks sent.any_done sent.err requests r s few p)

-- Within a FIFO group, where the answers report only entries of their requests: the run settles a
-- first part of the group's events, confirmed or rejected each; its requests are single events of
-- that part and of the one event that follows it, in the group's order; its callbacks settle no
-- other event; and a run that settles the whole group reports no error. So no event is sent before
-- each earlier event of its group is settled.
pub send_fifo_group-IsPrefix :
    (lib : Library) (svc : Service) (queue : String)
    → IsFaithful svc
    → (cs : List Candidate) → IsPrefix cs (send_fifo_group lib svc queue cs)
unfolding send_fifo_group
send_fifo_group-IsPrefix lib svc queue faithful [] = record {
  settled = [];
  rest = [];
  split = refl;
  done = tt;
  in_order = refl;
  own = tt;
  complete = λ _. refl;
}
send_fifo_group-IsPrefix lib svc queue faithful (c ∷ cs) =
    let checked = prepare_sqs_event lib c queue true in
    fifo_next-IsPrefix lib svc queue faithful c cs checked.callbacks checked.value
      (send_fifo_group lib svc queue cs) (prepared-IsDecided lib queue c true)
      (send_fifo_group-IsPrefix lib svc queue faithful cs)
