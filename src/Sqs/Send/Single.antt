-- ===== src/Sqs/Send/Single.antt =====
-- A request with one event concerns that event only, and is done only once the event is settled.
use outboxer.Prelude.{
  String, true, List, [], ◌∷◌, ◌≡◌, refl, ap, inl, inr, All, All-append, All-map, In,
  In-append_right, Bool-cases, lookup, insert, string_eq,
}
use outboxer.Errors.{Error, Outcome, returned, failed}
use outboxer.Provider.{EventId, add_confirmed_id, add_poison_id, mark_progress}
use outboxer.Provider.Settles.{Concerns, Settled, Settled-append_left, Own}
use outboxer.Sqs.{
  PreparedEvent, BatchFailure, BatchResponse, Sent, reason, or_null_id, logs_by_entry_id,
  confirm_successful, settle_failures, settle_one, is_sqs_permanent_request_error,
}
use outboxer.Sqs.Isolation.{entry_ids}

-- What SQS documents: an answer reports entries of its request only.
abbrev pub IsAnswerTo : List PreparedEvent → Outcome BatchResponse → Type 0
IsAnswerTo events (failed e) = Unit
IsAnswerTo events (returned response) =
    All (λ (k : String). In k (entry_ids events)) response.successful
    × All (λ (f : BatchFailure). In f.id (entry_ids events)) response.failures

pub record IsSingle (id : EventId) (s : Sent) : Type 0 where
  pub own : Own id s.callbacks
  pub settled : s.any_done ≡ true → Settled id s.callbacks

module _ (error_text : Error → String) (sprint : EventId → String) (queue : String) (id : EventId)
    (logs : List (String × EventId)) where
  Known : String → Type 0
  Known k = or_null_id (lookup k logs) ≡ id

  confirm-IsSingle :
      (ids : List String)
      → All Known ids
      → IsSingle id (confirm_successful error_text sprint queue logs ids)
  unfolding confirm_successful Known
  confirm-IsSingle [] h = record { own = tt; settled = λ e. cc e }
  confirm-IsSingle (k ∷ ids) h = record {
    own = (h.0, (confirm-IsSingle ids h.1).own);
    settled = λ _. inl (inl (ap add_confirmed_id h.0));
  }

  failures-IsSingle :
      (fs : List BatchFailure) (so_far : Sent)
      → All (λ (f : BatchFailure). Known f.id) fs
      → IsSingle id so_far
      → IsSingle id (settle_failures error_text sprint queue logs fs so_far)
  unfolding settle_failures Known
  failures-IsSingle [] so_far h s = s
  failures-IsSingle (f ∷ fs) so_far h s = elim (Bool-cases f.sender_fault) [
    | inl fault ↦ rw fault (
        failures-IsSingle fs _ h.1 (record {
          own = All-append (Concerns (λ i. i ≡ id)) so_far.callbacks _ s.own (h.0, (tt, tt));
          settled = λ _. inr (
            _,
            In-append_right _ so_far.callbacks _
                (inl (ap (λ i. add_poison_id i (reason error_text sprint queue f)) h.0)),
          );
        }))
    | inr ours ↦ rw ours (
        failures-IsSingle fs _ h.1 (record {
          own = All-append (Concerns (λ i. i ≡ id)) so_far.callbacks _ s.own (tt, tt);
          settled = λ e. Settled-append_left id so_far.callbacks _ (s.settled e);
        }))
  ]

module _ (error_text : Error → String) (sprint : EventId → String) (queue : String)
    (evt : PreparedEvent) where
  only_log :
      (k : String)
      → In k (entry_ids (evt ∷ []))
      → or_null_id (lookup k (logs_by_entry_id [] (evt ∷ []))) ≡ evt.log_id
  unfolding logs_by_entry_id lookup insert
  only_log k (inl same) = rw ((string_eq.beq_iff evt.entry.id k).1 same) refl
  only_log k (inr absent) = absurd absent

  pub settle_one-IsSingle :
      (o : Outcome BatchResponse)
      → IsAnswerTo (evt ∷ []) o
      → IsSingle evt.log_id (settle_one error_text sprint queue evt o)
  unfolding settle_one Known
  settle_one-IsSingle (failed e) h = elim (Bool-cases (is_sqs_permanent_request_error e)) [
    | inl bad ↦
        rw bad
          (record { own = (refl, (tt, (tt, tt))); settled = λ _. inr (error_text e, inl refl) })
    | inr late ↦ rw late (record { own = (tt, (tt, tt)); settled = λ x. cc x })
  ]
  settle_one-IsSingle (returned response) h =
      let logs = logs_by_entry_id [] (evt ∷ []) in
      let s =
        failures-IsSingle error_text sprint queue evt.log_id logs response.failures
          (confirm_successful error_text sprint queue logs response.successful)
          (All-map _ _ response.failures (λ (f : BatchFailure) k. only_log f.id k) h.1)
          (confirm-IsSingle error_text sprint queue evt.log_id logs response.successful
            (All-map _ _ response.successful only_log h.0)) in
      record {
        own = All-append (Concerns (λ i. i ≡ evt.log_id)) _ (mark_progress ∷ []) s.own (tt, tt);
        settled = λ e. Settled-append_left evt.log_id _ (mark_progress ∷ []) (s.settled e);
      }
