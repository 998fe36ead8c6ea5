-- ===== src/Provider/Settles.antt =====
-- Which events a sequence of callbacks is about, and which of them it settles.
use outboxer.Prelude.{
  String, List, [], ◌∷◌, ◌++◌, ◌≡◌, ◌⊎◌, inl, inr, All, In, In-append_left, In-append_right,
}
use outboxer.Provider.{
  EventId, Callback, add_confirmed_id, add_poison_id, mark_progress, log_failure,
}

-- If the callback settles an event, it is one with `P`.
abbrev pub Concerns : (EventId → Type 0) → Callback → Type 0
Concerns P (add_confirmed_id id) = P id
Concerns P (add_poison_id id reason) = P id
Concerns P _ = Unit

pub Concerns-mono :
    (P Q : EventId → Type 0)
    → ((i : EventId) → P i → Q i)
    → (cs : List Callback) → All (Concerns P) cs
    → All (Concerns Q) cs
Concerns-mono P Q f [] h = tt
Concerns-mono P Q f (add_confirmed_id i ∷ cs) h = (f i h.0, Concerns-mono P Q f cs h.1)
Concerns-mono P Q f (add_poison_id i reason ∷ cs) h = (f i h.0, Concerns-mono P Q f cs h.1)
Concerns-mono P Q f (mark_progress ∷ cs) h = (tt, Concerns-mono P Q f cs h.1)
Concerns-mono P Q f (log_failure a b ∷ cs) h = (tt, Concerns-mono P Q f cs h.1)

-- The event is confirmed or rejected.
abbrev pub Settled : EventId → List Callback → Type 0
Settled id cs = In (add_confirmed_id id) cs ⊎ ((reason : String) × In (add_poison_id id reason) cs)

pub Settled-append_left :
    (id : EventId) (xs ys : List Callback) → Settled id xs → Settled id (xs ++ ys)
Settled-append_left id xs ys (inl h) = inl (In-append_left _ xs ys h)
Settled-append_left id xs ys (inr (reason, h)) = inr (reason, In-append_left _ xs ys h)

pub Settled-append_right :
    (id : EventId) (xs ys : List Callback) → Settled id ys → Settled id (xs ++ ys)
Settled-append_right id xs ys (inl h) = inl (In-append_right _ xs ys h)
Settled-append_right id xs ys (inr (reason, h)) = inr (reason, In-append_right _ xs ys h)

abbrev pub Own : EventId → List Callback → Type 0
Own id = All (Concerns (λ i. i ≡ id))
