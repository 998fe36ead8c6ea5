-- ===== src/Sqs/Send/Requests.antt =====
-- Every request that Send makes keeps the limits on a request.
use outboxer.Prelude.{
  ◌≤◌, String, Bool, true, false, Option, none, some, List, [], ◌∷◌, map, sym, subst, inl, inr, All,
  All-append, Bool-cases, length, All-concat_inv, string_eq, arith,
}
use outboxer.Errors.{Error, Outcome, failed, returned}
use outboxer.Provider.{Event}
use outboxer.Sqs.{
  PreparedEvent, BatchResponse, sqs_event_max_size_byte, chunk_sqs_standard_events,
  is_sqs_permanent_request_error,
}
use outboxer.Sqs.Chunks.{size, IsChunk, chunk_sqs_standard_events-IsChunk}
use outboxer.Sqs.Prepare.{Library}
use outboxer.Sqs.Prepare.Entries.{Decided}
use outboxer.Sqs.Send.{
  Run, Service, batch_requests, isolated_requests, singletons, requests_with_semaphore,
  gated_requests, after_sent, fifo_next, send_with_semaphore, chunk_run, send_sqs_standard_events,
}

-- Fit for one call, given what holds of each entry.
pub record IsRequest (E : PreparedEvent → Type 0) (request : List PreparedEvent) : Type 0 where
  pub filled : 1 ≤ length request
  pub few : length request ≤ 10
  pub small : size request ≤ sqs_event_max_size_byte
  pub entries : All E request

abbrev pub AreRequests : (PreparedEvent → Type 0) → Run → Type 0
AreRequests E r = All (IsRequest E) r.requests

module _ (E : PreparedEvent → Type 0)
    (fits : (p : PreparedEvent) → E p → p.message_size ≤ sqs_event_max_size_byte) where
  one-IsRequest : (p : PreparedEvent) → E p → IsRequest E (p ∷ [])
  one-IsRequest p h = record {
    filled = omega arith;
    few = omega arith;
    small = omega (arith, fits p h);
    entries = (h, tt);
  }

  singletons-IsRequest : (ps : List PreparedEvent) → All E ps → All (IsRequest E) (singletons ps)
  singletons-IsRequest [] h = tt
  singletons-IsRequest (p ∷ ps) h = (one-IsRequest p h.0, singletons-IsRequest ps h.1)

  chunk-IsRequest : (chunk : List PreparedEvent) → IsChunk chunk → All E chunk → IsRequest E chunk
  chunk-IsRequest [] c h = absurd (omega (arith, c.filled))
  chunk-IsRequest (p ∷ []) c h = one-IsRequest p h.0
  chunk-IsRequest (p ∷ q ∷ ps) c h = record {
    filled = c.filled;
    few = c.few;
    small = c.small (omega arith);
    entries = h;
  }

  isolated-IsRequest :
      (o : Outcome BatchResponse) (chunk : List PreparedEvent)
      → All E chunk
      → All (IsRequest E) (isolated_requests o chunk)
  isolated-IsRequest (returned r) chunk h = tt
  isolated-IsRequest (failed e) [] h = tt
  isolated-IsRequest (failed e) (p ∷ []) h = tt
  isolated-IsRequest (failed e) (p ∷ q ∷ ps) h =
      elim (Bool-cases (is_sqs_permanent_request_error e)) [
        | inl bad ↦ rw bad (singletons-IsRequest (p ∷ q ∷ ps) h)
        | inr late ↦ rw late tt
      ]

  batch-IsRequest :
      (o : Outcome BatchResponse) (chunk : List PreparedEvent)
      → IsRequest E chunk
      → All (IsRequest E) (batch_requests o chunk)
  unfolding batch_requests
  batch-IsRequest o [] r = tt
  batch-IsRequest o (p ∷ ps) r = (r, isolated-IsRequest o (p ∷ ps) r.entries)

  module _ (lib : Library) (svc : Service) (queue : String) where
    gated-IsRequest :
        (gate : Option Error) (request : List PreparedEvent)
        → IsRequest E request
        → All (IsRequest E) (gated_requests lib svc queue gate request)
    gated-IsRequest (some e) request r = tt
    gated-IsRequest none request r = batch-IsRequest (svc.answer request) request r

    with_semaphore-IsRequest :
        (request : List PreparedEvent)
        → IsRequest E request
        → All (IsRequest E) (requests_with_semaphore lib svc queue request)
    unfolding requests_with_semaphore
    with_semaphore-IsRequest request r = gated-IsRequest (svc.gate request) request r

    after_sent-AreRequests :
        (err : Option Error) (done : Bool) (callbacks : List _)
        (requests : List (List PreparedEvent)) (r : Run)
        → All (IsRequest E) requests
        → AreRequests E r
        → AreRequests E (
            after_sent lib svc queue
              (record { callbacks = callbacks; any_done = done; err = err })
              requests
              r)
    after_sent-AreRequests (some e) done callbacks requests r h k = h
    after_sent-AreRequests none false callbacks requests r h k = h
    after_sent-AreRequests none true callbacks requests r h k =
        All-append (IsRequest E) requests r.requests h k

    pub fifo_next-AreRequests :
        (evt : Event) (callbacks : List _) (value : Option PreparedEvent) (r : Run)
        → Decided evt E callbacks value
        → AreRequests E r
        → AreRequests E
            (fifo_next lib svc queue (record { callbacks = callbacks; value = value }) r)
    fifo_next-AreRequests evt callbacks none r d k = k
    fifo_next-AreRequests evt callbacks (some p) r d k =
        let sent = send_with_semaphore lib svc queue (p ∷ []) in
        after_sent-AreRequests sent.err sent.any_done sent.callbacks
          (requests_with_semaphore lib svc queue (p ∷ [])) r
          (with_semaphore-IsRequest (p ∷ []) (one-IsRequest p d.1)) k

    chunks-AreRequests :
        (chunks : List (List PreparedEvent))
        → All IsChunk chunks
        → All (All E) chunks
        → All (AreRequests E) (map (chunk_run lib svc queue) chunks)
    chunks-AreRequests [] c h = tt
    chunks-AreRequests (chunk ∷ chunks) c h = (
      with_semaphore-IsRequest chunk (chunk-IsRequest chunk c.0 h.0),
      chunks-AreRequests chunks c.1 h.1,
    )

    pub standard-AreRequests :
        (ps : List PreparedEvent)
        → All E ps
        → All (AreRequests E) (send_sqs_standard_events lib svc queue ps)
    unfolding send_sqs_standard_events
    standard-AreRequests ps h =
        let (c, e) = chunk_sqs_standard_events-IsChunk ps in
        chunks-AreRequests (chunk_sqs_standard_events ps) c
          (All-concat_inv E (chunk_sqs_standard_events ps) (subst (All E) (sym e) h))
