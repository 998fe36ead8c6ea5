-- ===== src/Processor/Publish/Settled.antt =====
-- What the publish phase settles: events of the groups, no more than there are, each reported by
-- its own sender.
use outboxer.Prelude.{
  ℕ, ◌+◌, ◌≤◌, ◌≡◌, refl, sym, String, Option, List, [], ◌∷◌, ◌++◌, ◌==◌, string_eq, members,
  length, length-append, All, All-map, In, In-append_left, In-append_right, total, inl, inr, arith,
  Bool-cases,
}
use outboxer.Errors.{Error}
use outboxer.Value.{Runtime}
use outboxer.Provider.{EventId, add_confirmed_id, add_poison_id}
use outboxer.Config.{AppConfig}
use outboxer.Event.{Event, event_id_key}
use outboxer.Collector.{PoisonEvent, SenderOutput, SenderCollector, new_sender_collector}
use outboxer.Collector.Once.{
  id_key, IsSettling, new-IsSettling, callback-IsSettling, output-le-batch,
}
use outboxer.Collector.Reports.{callback-IsReported}
use outboxer.Processor.Publish.{
  Delivery, SenderResult, collectors, deliver, publish, sender_results,
}

-- How many events a result settles.
abbrev pub settled_count : SenderResult → ℕ
settled_count r = length r.output.confirmed + length r.output.poison

module _ (rt : Runtime) (cfg : AppConfig) where
  -- The sender of the target called AddConfirmedID with an id of the event's key.
  abbrev pub Confirmed : List Delivery → String → Event → Type 0
  Confirmed schedule target evt =
      (d : Delivery) × In d schedule
      × (d.target ≡ target)
      × ((id : EventId) × (d.report ≡ add_confirmed_id id)
          × (id_key rt cfg evt ≡ event_id_key rt id))

  -- The sender of the target called AddPoisonID with an id of the event's key and this reason.
  abbrev pub Rejected : List Delivery → String → PoisonEvent → Type 0
  Rejected schedule target p =
      (d : Delivery) × In d schedule
      × (d.target ≡ target)
      × ((id : EventId) × (d.report ≡ add_poison_id id p.error)
          × (id_key rt cfg p.evt ≡ event_id_key rt id))

  abbrev Reported : List Delivery → String → SenderOutput → Type 0
  Reported schedule target o =
      All (Confirmed schedule target) o.confirmed × All (Rejected schedule target) o.poison

  -- A collector for each group, in the groups' order.
  abbrev Aligned :
      List Delivery → List (String × List Event) → List (String × SenderCollector) → Type 0
  Aligned schedule [] [] = Unit
  Aligned schedule ((t, events) ∷ groups) ((t', c) ∷ cs) =
      (t ≡ t')
      × IsSettling rt cfg events c
      × Reported schedule t' c.output
      × Aligned schedule groups cs
  Aligned schedule _ _ = ⊥

  collectors-Aligned :
      (schedule : List Delivery) (groups : List (String × List Event))
      → Aligned schedule groups (collectors rt cfg groups)
  unfolding collectors new_sender_collector
  collectors-Aligned schedule [] = tt
  collectors-Aligned schedule ((t, events) ∷ groups) =
      (refl, new-IsSettling rt cfg events, (tt, tt), collectors-Aligned schedule groups)

  deliver-Aligned :
      (schedule : List Delivery) (d : Delivery) (groups : List (String × List Event))
      (cs : List (String × SenderCollector))
      → In d schedule
      → Aligned schedule groups cs
      → Aligned schedule groups (deliver rt d cs)
  unfolding deliver
  deliver-Aligned schedule d [] [] i h = tt
  deliver-Aligned schedule d ((t, events) ∷ groups) ((t', c) ∷ cs) i h =
      elim (Bool-cases (t' == d.target)) [
        | inl hit ↦
            let own : d.target ≡ t' = sym ((string_eq.beq_iff t' d.target).0 hit) in
            rw hit (
              h.0,
              callback-IsSettling rt cfg events d.report c h.1,
              callback-IsReported rt cfg (Confirmed schedule t') (Rejected schedule t') events
                  d.report c h.1 (λ id evt e k. (d, i, own, (id, e, k)))
                  (λ id reason evt e k. (d, i, own, (id, e, k))) h.2,
              h.3,
            )
        | inr miss ↦ rw miss (h.0, h.1, h.2, deliver-Aligned schedule d groups cs i h.3)
      ]
  deliver-Aligned schedule d [] ((t', c) ∷ cs) i h = absurd h
  deliver-Aligned schedule d ((t, events) ∷ groups) [] i h = absurd h

  publish-Aligned :
      (schedule ds : List Delivery) (groups : List (String × List Event))
      (cs : List (String × SenderCollector))
      → ((d : Delivery) → In d ds → In d schedule)
      → Aligned schedule groups cs
      → Aligned schedule groups (publish rt ds cs)
  unfolding publish
  publish-Aligned schedule [] groups cs sub h = h
  publish-Aligned schedule (d ∷ ds) groups cs sub h =
      publish-Aligned schedule ds groups (deliver rt d cs) (λ x i. sub x (inr i))
        (deliver-Aligned schedule d groups cs (sub d (inl refl)) h)

  -- A result reports events of the batch, with a report of its own sender for each.
  pub record IsBacked (schedule : List Delivery) (events : List Event) (r : SenderResult)
      : Type 0 where
    pub confirmed_in : All (λ evt. In evt events) r.output.confirmed
    pub poison_in : All (λ (p : PoisonEvent). In p.evt events) r.output.poison
    pub confirmed_by : All (Confirmed schedule r.target) r.output.confirmed
    pub poison_by : All (Rejected schedule r.target) r.output.poison

  widen :
      (schedule : List Delivery) (xs ys : List Event) (r : SenderResult)
      → ((evt : Event) → In evt xs → In evt ys)
      → IsBacked schedule xs r
      → IsBacked schedule ys r
  widen schedule xs ys r sub b = record {
    confirmed_in =
        All-map (λ evt. In evt xs) (λ evt. In evt ys) r.output.confirmed sub b.confirmed_in;
    poison_in =
        All-map (λ (p : PoisonEvent). In p.evt xs) (λ (p : PoisonEvent). In p.evt ys)
          r.output.poison (λ p. sub p.evt) b.poison_in;
    confirmed_by = b.confirmed_by;
    poison_by = b.poison_by;
  }

  results-IsBacked :
      (schedule : List Delivery) (send_error : String → Option Error)
      (groups : List (String × List Event)) (cs : List (String × SenderCollector))
      → Aligned schedule groups cs
      → All (IsBacked schedule (members groups)) (sender_results send_error cs)
  unfolding sender_results
  results-IsBacked schedule send_error [] [] h = tt
  results-IsBacked schedule send_error ((t, events) ∷ groups) ((t', c) ∷ cs) h = (
    widen schedule events (events ++ members groups) _
        (λ evt. In-append_left evt events (members groups))
        (record {
          confirmed_in = h.1.confirmed_in;
          poison_in = h.1.poison_in;
          confirmed_by = h.2.0;
          poison_by = h.2.1;
        }),
    All-map (IsBacked schedule (members groups)) (IsBacked schedule (events ++ members groups)) _
        (λ r.
          widen schedule (members groups) (events ++ members groups) r
            (λ evt. In-append_right evt events (members groups)))
        (results-IsBacked schedule send_error groups cs h.3),
  )
  results-IsBacked schedule send_error [] ((t', c) ∷ cs) h = absurd h
  results-IsBacked schedule send_error ((t, events) ∷ groups) [] h = absurd h

  total-results :
      (schedule : List Delivery) (send_error : String → Option Error)
      (groups : List (String × List Event)) (cs : List (String × SenderCollector))
      → Aligned schedule groups cs
      → total settled_count (sender_results send_error cs) ≤ length (members groups)
  unfolding sender_results
  total-results schedule send_error [] [] h = omega arith
  total-results schedule send_error ((t, events) ∷ groups) ((t', c) ∷ cs) h = omega (
    arith,
    output-le-batch rt cfg events c h.1,
    total-results schedule send_error groups cs h.3,
    length-append events (members groups),
  )
  total-results schedule send_error [] ((t', c) ∷ cs) h = absurd h
  total-results schedule send_error ((t, events) ∷ groups) [] h = absurd h

  -- The results before they arrive: backed by reports, and no more than the events sent on.
  abbrev finished :
      (String → Option Error) → List Delivery → List (String × List Event) → List SenderResult
  finished send_error schedule groups =
      sender_results send_error (publish rt schedule (collectors rt cfg groups))

  pub finished-IsBacked :
      (send_error : String → Option Error) (schedule : List Delivery)
      (groups : List (String × List Event))
      → All (IsBacked schedule (members groups)) (finished send_error schedule groups)
  finished-IsBacked send_error schedule groups =
      results-IsBacked schedule send_error groups _
        (publish-Aligned schedule schedule groups _ (λ d i. i) (collectors-Aligned schedule groups))

  pub total-finished :
      (send_error : String → Option Error) (schedule : List Delivery)
      (groups : List (String × List Event))
      → total settled_count (finished send_error schedule groups) ≤ length (members groups)
  total-finished send_error schedule groups =
      total-results schedule send_error groups _
        (publish-Aligned schedule schedule groups _ (λ d i. i) (collectors-Aligned schedule groups))
