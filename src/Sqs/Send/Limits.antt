-- ===== src/Sqs/Send/Limits.antt =====
-- Send as a whole: each request goes to the queue of its events and keeps the limits on a request.
use outboxer.Prelude.{
  ◌≤◌, String, Bool, true, false, Option, none, some, List, [], ◌∷◌, ◌≡◌, refl, sym, subst, All,
  All-map, In, In-All, inl, inr, Bool-cases, codes, has_suffix, group_by, group_by-Grouped, Grouped,
  string_eq, arith,
}
use outboxer.Value.{Result, ok, err}
use outboxer.Provider.{Event, Callback, option_string}
use outboxer.Sqs.{PreparedEvent, sqs_event_max_size_byte}
use outboxer.Sqs.Poison.{valid_sqs_queue_url}
use outboxer.Sqs.Prepare.{
  Library, Candidate, candidate_of, parse_sqs_candidate, prepare_sqs_event, fifo_group_id,
}
use outboxer.Sqs.Prepare.Ids.{IsDigest}
use outboxer.Sqs.Prepare.Entries.{IsEntry, Decided, prepare_sqs_event-IsDecided}
use outboxer.Sqs.Send.{
  Run, QueueRun, Service, cons?, send_fifo_group, group_runs, send_sqs_fifo_events, candidates,
  prepare_all, queue_accepted, send_sqs_queue_events, queue_runs, send_sqs_events,
}
use outboxer.Sqs.Send.Requests.{AreRequests, fifo_next-AreRequests, standard-AreRequests}

abbrev pub is_fifo_queue : String → Bool
is_fifo_queue queue = has_suffix (codes ".fifo") (codes queue)

-- The entry of an event with `P`.
abbrev pub IsEntryOf : (Event → Type 0) → Bool → PreparedEvent → Type 0
IsEntryOf P fifo p = (c : Candidate) × P c.evt × IsEntry c fifo p

cons?-All :
    {A : Type 0} (Q : A → Type 0) (o : Option A) (xs : List A)
    → ((a : A) → o ≡ some a → Q a)
    → All Q xs
    → All Q (cons? o xs)
cons?-All Q none xs f h = h
cons?-All Q (some a) xs f h = (f a refl, h)

candidate_inv :
    (evt : Event) (r : Result String) (c : Candidate)
    → (candidate_of evt r).value ≡ some c
    → c.evt ≡ evt
candidate_inv evt (err problem) c e = cc e
candidate_inv evt (ok key) c e = cc e

module _ (P : Event → Type 0) where
  IsEntryOf-fits :
      (fifo : Bool) (p : PreparedEvent)
      → IsEntryOf P fifo p
      → p.message_size ≤ sqs_event_max_size_byte
  IsEntryOf-fits fifo p (c, own, e) = rw e.measured e.fits.small

  module _ (lib : Library) (svc : Service) (queue : String) (hex : IsDigest lib.stable_digest) where
    Decided-of :
        (c : Candidate) (fifo : Bool) (callbacks : List Callback) (value : Option PreparedEvent)
        → P c.evt
        → Decided c.evt (IsEntry c fifo) callbacks value
        → Decided c.evt (IsEntryOf P fifo) callbacks value
    Decided-of c fifo callbacks none own d = d
    Decided-of c fifo callbacks (some p) own d = (d.0, (c, own, d.1))

    fifo_group-AreRequests :
        (cs : List Candidate)
        → All (λ (c : Candidate). P c.evt) cs
        → AreRequests (IsEntryOf P true) (send_fifo_group lib svc queue cs)
    unfolding send_fifo_group
    fifo_group-AreRequests [] h = tt
    fifo_group-AreRequests (c ∷ cs) h =
        let checked = prepare_sqs_event lib c queue true in
        fifo_next-AreRequests (IsEntryOf P true) (IsEntryOf-fits true) lib svc queue c.evt
          checked.callbacks checked.value (send_fifo_group lib svc queue cs)
          (Decided-of c true checked.callbacks checked.value h.0
            (prepare_sqs_event-IsDecided lib hex c queue true))
          (fifo_group-AreRequests cs h.1)

    group_runs-AreRequests :
        (groups : List (String × List Candidate))
        → Grouped (λ _ (c : Candidate). P c.evt) groups
        → All (AreRequests (IsEntryOf P true)) (group_runs lib svc queue groups)
    group_runs-AreRequests [] h = tt
    group_runs-AreRequests ((id, cs) ∷ groups) h =
        (fifo_group-AreRequests cs h.0, group_runs-AreRequests groups h.1)

    -- The candidates are events of the queue.
    candidates-own :
        (events : List Event)
        → All P events
        → All (λ (c : Candidate). P c.evt) (candidates lib svc queue events).1
    unfolding candidates parse_sqs_candidate
    candidates-own [] h = tt
    candidates-own (evt ∷ events) h =
        cons?-All (λ (c : Candidate). P c.evt) (parse_sqs_candidate evt).value _
          (λ c e.
            subst P (sym (candidate_inv evt (option_string evt.options "messageGroupId") c e)) h.0)
          (candidates-own events h.1)

    prepare_all-own :
        (cs : List Candidate)
        → All (λ (c : Candidate). P c.evt) cs
        → All (IsEntryOf P false) (prepare_all lib svc queue cs).1
    unfolding prepare_all
    prepare_all-own [] h = tt
    prepare_all-own (c ∷ cs) h =
        let checked = prepare_sqs_event lib c queue false in
        cons?-All (IsEntryOf P false) checked.value _
          (λ p e.
            passed c checked.callbacks checked.value
              (Decided-of c false checked.callbacks checked.value h.0
                (prepare_sqs_event-IsDecided lib hex c queue false))
              p e)
          (prepare_all-own cs h.1)
      where
        passed :
            (d : Candidate) (callbacks : List Callback) (value : Option PreparedEvent)
            → Decided d.evt (IsEntryOf P false) callbacks value
            → (p : PreparedEvent) → value ≡ some p
            → IsEntryOf P false p
        passed d callbacks none k p e = cc e
        passed d callbacks (some q) k p e = subst (IsEntryOf P false) (cc e) k.1

    -- The goroutines of a queue.
    abbrev Queued : QueueRun → Type 0
    Queued q = All (AreRequests (IsEntryOf P (is_fifo_queue queue))) q.runs

    accepted-Queued :
        (callbacks : List Callback) (cs : List Candidate)
        → All (λ (c : Candidate). P c.evt) cs
        → Queued (queue_accepted lib svc queue (callbacks, cs))
    unfolding send_sqs_fifo_events
    accepted-Queued callbacks cs h = elim (Bool-cases (is_fifo_queue queue)) [
      | inl fifo ↦ rw fifo (
          group_runs-AreRequests (group_by (fifo_group_id lib) cs)
            (group_by-Grouped (λ _ (c : Candidate). P c.evt) (fifo_group_id lib) cs h))
      | inr standard ↦ rw standard (
          standard-AreRequests (IsEntryOf P false) (IsEntryOf-fits false) lib svc queue
            (prepare_all lib svc queue cs).1 (prepare_all-own cs h))
    ]

    queue-Queued :
        (events : List Event)
        → All P events
        → All
            (λ (r : Run).
              (valid_sqs_queue_url lib.parse_url queue ≡ true)
              × AreRequests (IsEntryOf P (is_fifo_queue queue)) r)
            (send_sqs_queue_events lib svc queue events).runs
    unfolding send_sqs_queue_events
    queue-Queued events h = elim (Bool-cases (valid_sqs_queue_url lib.parse_url queue)) [
      | inl valid ↦ rw valid (
          All-map _ _ (queue_accepted lib svc queue (candidates lib svc queue events)).runs
            (λ r k. (refl, k))
            (accepted-Queued (candidates lib svc queue events).0 (candidates lib svc queue events).1
              (candidates-own events h)))
      | inr invalid ↦ rw invalid tt
    ]

queue_kept :
    (lib : Library) (svc : Service) (queue : String) (events : List Event)
    → (send_sqs_queue_events lib svc queue events).queue ≡ queue
unfolding send_sqs_queue_events
queue_kept lib svc queue events = ground arith

abbrev OfQueue : List Event → String → Event → Type 0
OfQueue events queue evt = In evt events × (evt.destination ≡ queue)

-- What one queue's goroutines request: nothing unless its URL is valid, and then only entries made
-- from its own events.
abbrev pub IsServed : Library → List Event → QueueRun → Type 0
IsServed lib events q =
    All
      (λ (r : Run).
        (valid_sqs_queue_url lib.parse_url q.queue ≡ true)
        × AreRequests (IsEntryOf (OfQueue events q.queue) (is_fifo_queue q.queue)) r)
      q.runs

module _ (lib : Library) (svc : String → Service) (hex : IsDigest lib.stable_digest)
    (events : List Event) where
  queue_runs-IsServed :
      (groups : List (String × List Event))
      → Grouped (OfQueue events) groups
      → All (IsServed lib events) (queue_runs lib svc groups)
  queue_runs-IsServed [] h = tt
  queue_runs-IsServed ((queue, es) ∷ groups) h = (
    subst
        (λ k.
          All
            (λ (r : Run).
              (valid_sqs_queue_url lib.parse_url k ≡ true)
              × AreRequests (IsEntryOf (OfQueue events k) (is_fifo_queue k)) r)
            (send_sqs_queue_events lib (svc queue) queue es).runs)
        (sym (queue_kept lib (svc queue) queue es))
        (queue-Queued (OfQueue events queue) lib (svc queue) queue hex es h.0),
    queue_runs-IsServed groups h.1,
  )

-- Every batch request that Send makes goes to the valid queue URL that its events name, has
-- between one and ten entries of together at most a mebibyte, and each entry is made from an event
-- that Send was given for this queue, with a body, attributes, ids, a delay and a size as IsEntry
-- lists. The digest is taken to be 64 hexadecimal digits.
pub send_sqs_events-IsServed :
    (lib : Library) (svc : String → Service)
    → IsDigest lib.stable_digest
    → (events : List Event) → All (IsServed lib events) (send_sqs_events lib svc events)
unfolding send_sqs_events
send_sqs_events-IsServed lib svc hex events =
    queue_runs-IsServed lib svc hex events (group_by (λ (evt : Event). evt.destination) events) (
      group_by-Grouped (OfQueue events) (λ (evt : Event). evt.destination) events
        (In-All _ events (λ evt i. (i, refl))))
