-- ===== src/Sqs/Isolation.antt =====
-- Why a batch request makes an event poison: the answer names its entry, or the event was alone in
-- a request that SQS refused for good. A bad event takes no other one with it.
use outboxer.Prelude.{
  ◌≡◌, refl, sym, ◌∙◌, ap, subst, String, Bool, true, false, some, List, [], ◌∷◌, map, All,
  All-append, In, inl, inr, ◌⊎◌, Bool-cases, lookup, insert, lookup-insert, ◌==◌, string_eq,
  if◌then◌else◌, arith,
}
use outboxer.Errors.{Error, Outcome, returned, failed}
use outboxer.Provider.{EventId, Callback, add_poison_id, mark_progress}
use outboxer.Sqs.{
  PreparedEvent, BatchFailure, BatchResponse, Sent, nothing_sent, or_null_id, logs_by_entry_id,
  confirm_successful, settle_failures, settle_one, settle_many, send_sqs_batch_isolated,
  send_sqs_batch, is_sqs_permanent_request_error,
}

abbrev pub entry_ids : List PreparedEvent → List String
entry_ids = map (λ (evt : PreparedEvent). evt.entry.id)

-- What SQS documents: an answer reports entries of its request only.
abbrev pub IsAnswer : List PreparedEvent → Outcome BatchResponse → Type 0
IsAnswer events (failed e) = Unit
IsAnswer events (returned response) =
    All (λ (f : BatchFailure). In f.id (entry_ids events)) response.failures

-- The answer reports the event's entry as the sender's fault.
abbrev pub IsFaulted : Outcome BatchResponse → PreparedEvent → Type 0
IsFaulted (failed e) evt = ⊥
IsFaulted (returned response) evt =
    (f : BatchFailure) × In f response.failures × (f.sender_fault ≡ true) × (f.id ≡ evt.entry.id)

-- The request was refused for good.
abbrev pub IsRefused : Outcome BatchResponse → Type 0
IsRefused (failed e) = is_sqs_permanent_request_error e ≡ true
IsRefused (returned response) = ⊥

-- Whatever a callback rejects is an event of the batch with a reason `W`.
abbrev pub IsBlamed : (PreparedEvent → Type 0) → List PreparedEvent → Callback → Type 0
IsBlamed W events (add_poison_id id reason) =
    (evt : PreparedEvent) × In evt events × (evt.log_id ≡ id) × W evt
IsBlamed W events _ = Unit

-- The map of logs holds, under an entry's id, the log of an event with that entry.
logs-found :
    (m : List (String × EventId)) (events : List PreparedEvent) (k : String)
    → ((evt : PreparedEvent) × In evt events
        × (evt.entry.id ≡ k)
        × (lookup k (logs_by_entry_id m events) ≡ some evt.log_id))
      ⊎ ((In k (entry_ids events) → ⊥) × (lookup k (logs_by_entry_id m events) ≡ lookup k m))
unfolding logs_by_entry_id
logs-found m [] k = inr (λ i. i, refl)
logs-found m (x ∷ events) k = elim (logs-found (insert x.entry.id x.log_id m) events k) [
  | inl (evt, i, same, e) ↦ inl (evt, inr i, same, e)
  | inr (fresh, e) ↦ pick (x.entry.id == k) refl fresh (e ∙ lookup-insert x.entry.id k x.log_id m)
]
  where
    pick :
        (b : Bool)
        → (x.entry.id == k) ≡ b
        → (In k (entry_ids events) → ⊥)
        → lookup k (logs_by_entry_id (insert x.entry.id x.log_id m) events)
          ≡ (if b then some x.log_id else lookup k m)
        → ((evt : PreparedEvent) × In evt (x ∷ events)
            × (evt.entry.id ≡ k)
            × (lookup k (logs_by_entry_id (insert x.entry.id x.log_id m) events) ≡ some evt.log_id))
          ⊎ ((In k (entry_ids (x ∷ events)) → ⊥)
              × (lookup k (logs_by_entry_id (insert x.entry.id x.log_id m) events) ≡ lookup k m))
    pick true t fresh e = inl (x, inl refl, (string_eq.beq_iff x.entry.id k).0 t, e)
    pick false t fresh e = inr (
      λ i. elim i [
        | inl same ↦ ground (arith, t, same, string_eq.beq_iff x.entry.id k)
        | inr j ↦ fresh j
      ],
      e,
    )

logs-entry :
    (events : List PreparedEvent) (k : String)
    → In k (entry_ids events)
    → (evt : PreparedEvent) × In evt events
      × (evt.entry.id ≡ k)
      × (or_null_id (lookup k (logs_by_entry_id [] events)) ≡ evt.log_id)
logs-entry events k i = elim (logs-found [] events k) [
  | inl (evt, j, same, e) ↦ (evt, j, same, ap or_null_id e)
  | inr (fresh, e) ↦ absurd (fresh i)
]

module _ (error_text : Error → String) (sprint : EventId → String) (queue : String)
    (W : PreparedEvent → Type 0) (events : List PreparedEvent) where
  confirm-IsBlamed :
      (logs : List (String × EventId)) (ids : List String)
      → All (IsBlamed W events) (confirm_successful error_text sprint queue logs ids).callbacks
  unfolding confirm_successful
  confirm-IsBlamed logs [] = tt
  confirm-IsBlamed logs (id ∷ ids) = (tt, confirm-IsBlamed logs ids)

  settle_failures-IsBlamed :
      (batch : List PreparedEvent) (fs : List BatchFailure) (so_far : Sent)
      → ((evt : PreparedEvent) → In evt batch → In evt events)
      → All (λ (f : BatchFailure). In f.id (entry_ids batch)) fs
      → ((f : BatchFailure) (evt : PreparedEvent)
          → In f fs
          → In evt batch
          → f.sender_fault ≡ true
          → f.id ≡ evt.entry.id
          → W evt)
      → All (IsBlamed W events) so_far.callbacks
      → All
          (IsBlamed W events)
          (settle_failures error_text sprint queue (logs_by_entry_id [] batch) fs so_far).callbacks
  unfolding settle_failures
  settle_failures-IsBlamed batch [] so_far sub known why h = h
  settle_failures-IsBlamed batch (f ∷ fs) so_far sub known why h =
      elim (Bool-cases f.sender_fault) [
        | inl fault ↦
            let (evt, i, same, e) = logs-entry batch f.id known.0 in
            rw fault (
              settle_failures-IsBlamed batch fs _ sub known.1 (λ g x j. why g x (inr j))
                (All-append (IsBlamed W events) so_far.callbacks _ h
                  ((evt, sub evt i, sym e, why f evt (inl refl) i fault (sym same)), (tt, tt))))
        | inr ours ↦ rw ours (
            settle_failures-IsBlamed batch fs _ sub known.1 (λ g x j. why g x (inr j))
              (All-append (IsBlamed W events) so_far.callbacks _ h (tt, tt)))
      ]

  settle_one-IsBlamed :
      (evt : PreparedEvent) (o : Outcome BatchResponse)
      → In evt events
      → IsAnswer (evt ∷ []) o
      → (IsRefused o → W evt)
      → (IsFaulted o evt → W evt)
      → All (IsBlamed W events) (settle_one error_text sprint queue evt o).callbacks
  unfolding settle_one
  settle_one-IsBlamed evt (failed e) i a refused faulted =
      elim (Bool-cases (is_sqs_permanent_request_error e)) [
        | inl bad ↦ rw bad ((evt, i, refl, refused bad), (tt, (tt, tt)))
        | inr late ↦ rw late (tt, (tt, tt))
      ]
  settle_one-IsBlamed evt (returned response) i a refused faulted =
      All-append (IsBlamed W events) _ (mark_progress ∷ [])
        (settle_failures-IsBlamed (evt ∷ []) response.failures
          (confirm_successful error_text sprint queue (logs_by_entry_id [] (evt ∷ []))
            response.successful)
          (λ x j. elim j [ inl same ↦ subst (λ y. In y events) same i | inr no' ↦ absurd no' ]) a
          (λ f x k j fault same. elim j [
            | inl own ↦
                subst W own
                  (faulted (f, k, fault, same ∙ ap (λ (y : PreparedEvent). y.entry.id) (sym own)))
            | inr no' ↦ absurd no'
          ])
          (confirm-IsBlamed (logs_by_entry_id [] (evt ∷ [])) response.successful))
        (tt, tt)

  isolated-IsBlamed :
      (answer : PreparedEvent → Outcome BatchResponse) (rest : List PreparedEvent) (so_far : Sent)
      → ((evt : PreparedEvent) → In evt rest → In evt events)
      → ((evt : PreparedEvent) → IsAnswer (evt ∷ []) (answer evt))
      → ((evt : PreparedEvent) → IsRefused (answer evt) → W evt)
      → ((evt : PreparedEvent) → IsFaulted (answer evt) evt → W evt)
      → All (IsBlamed W events) so_far.callbacks
      → All
          (IsBlamed W events)
          (send_sqs_batch_isolated error_text sprint queue answer rest so_far).callbacks
  unfolding send_sqs_batch_isolated
  isolated-IsBlamed answer [] so_far sub a refused faulted h = h
  isolated-IsBlamed answer (evt ∷ rest) so_far sub a refused faulted h =
      isolated-IsBlamed answer rest _ (λ x i. sub x (inr i)) a refused faulted
        (All-append (IsBlamed W events) so_far.callbacks _ h (
          settle_one-IsBlamed evt (answer evt) (sub evt (inl refl)) (a evt) (refused evt)
            (faulted evt)))

  settle_many-IsBlamed :
      (answer : PreparedEvent → Outcome BatchResponse) (o : Outcome BatchResponse)
      → IsAnswer events o
      → ((evt : PreparedEvent) → IsAnswer (evt ∷ []) (answer evt))
      → ((evt : PreparedEvent) → IsRefused (answer evt) → W evt)
      → ((evt : PreparedEvent) → IsFaulted (answer evt) evt → W evt)
      → ((evt : PreparedEvent) → IsFaulted o evt → W evt)
      → All (IsBlamed W events) (settle_many error_text sprint queue answer events o).callbacks
  settle_many-IsBlamed answer (failed e) known a refused faulted named =
      elim (Bool-cases (is_sqs_permanent_request_error e)) [
        | inl bad ↦ rw bad (
            All-append (IsBlamed W events) _ (mark_progress ∷ [])
              (isolated-IsBlamed answer events (nothing_sent error_text sprint queue) (λ x i. i) a
                refused faulted tt)
              (tt, tt))
        | inr late ↦ rw late (tt, (tt, tt))
      ]
  settle_many-IsBlamed answer (returned response) known a refused faulted named =
      All-append (IsBlamed W events) _ (mark_progress ∷ [])
        (settle_failures-IsBlamed events response.failures
          (confirm_successful error_text sprint queue (logs_by_entry_id [] events)
            response.successful)
          (λ x i. i) known (λ f x k j fault same. named x (f, k, fault, same))
          (confirm-IsBlamed (logs_by_entry_id [] events) response.successful))
        (tt, tt)

-- The reasons for which a batch may reject an event: its entry is named as the sender's fault, or
-- it was sent alone, and that request was refused for good or named it.
abbrev pub IsGuilty :
    (PreparedEvent → Outcome BatchResponse)
    → List PreparedEvent
    → Outcome BatchResponse
    → PreparedEvent
    → Type 0
IsGuilty answer events whole evt =
    IsFaulted whole evt
    ⊎ ((o : Outcome BatchResponse) × ((o ≡ answer evt) ⊎ ((events ≡ evt ∷ []) × (o ≡ whole)))
        × (IsRefused o ⊎ IsFaulted o evt))

-- Every event that sendSQSBatch rejects is guilty itself, where the answers report only entries of
-- their requests: an event refused for good takes no other event of its batch with it.
pub send_sqs_batch-IsBlamed :
    (error_text : Error → String) (sprint : EventId → String) (queue : String)
    (answer : PreparedEvent → Outcome BatchResponse) (events : List PreparedEvent)
    (whole : Outcome BatchResponse)
    → IsAnswer events whole
    → ((evt : PreparedEvent) → IsAnswer (evt ∷ []) (answer evt))
    → All
        (IsBlamed (IsGuilty answer events whole) events)
        (send_sqs_batch error_text sprint queue answer events whole).callbacks
unfolding send_sqs_batch
send_sqs_batch-IsBlamed error_text sprint queue answer [] whole known a = tt
send_sqs_batch-IsBlamed error_text sprint queue answer (evt ∷ []) whole known a =
    settle_one-IsBlamed error_text sprint queue (IsGuilty answer (evt ∷ []) whole) (evt ∷ []) evt
      whole (inl refl) known (λ r. inr (whole, inr (refl, refl), inl r)) (λ f. inl f)
send_sqs_batch-IsBlamed error_text sprint queue answer (x ∷ y ∷ events) whole known a =
    settle_many-IsBlamed error_text sprint queue (IsGuilty answer (x ∷ y ∷ events) whole)
      (x ∷ y ∷ events) answer whole known a (λ evt r. inr (answer evt, inl refl, inl r))
      (λ evt f. inr (answer evt, inl refl, inr f)) (λ evt f. inl f)
