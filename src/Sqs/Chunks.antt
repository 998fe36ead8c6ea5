-- ===== src/Sqs/Chunks.antt =====
-- What a chunk of standard events is: never empty, of at most ten events, within the size limit
-- unless it is a single event, and in the order given.
use outboxer.Prelude.{
  ℕ, ◌+◌, ◌≤◌, ◌≡◌, refl, ◌∙◌, ap, Bool, true, false, ◌||◌, ◌&&◌, List, [], ◌∷◌, ◌++◌, append_assoc,
  length, length-append, concat, total, All, arith, ltb, leb, if◌then◌else◌,
}
use outboxer.Sqs.{
  PreparedEvent, sqs_event_batch_size, sqs_event_max_size_byte, chunks_from,
  chunk_sqs_standard_events,
}

abbrev pub size : List PreparedEvent → ℕ
size = total (λ (evt : PreparedEvent). evt.message_size)

pub record IsChunk (events : List PreparedEvent) : Type 0 where
  pub filled : 1 ≤ length events
  pub few : length events ≤ 10
  pub small : 2 ≤ length events → size events ≤ sqs_event_max_size_byte

-- A chunk that may still grow.
record IsOpen (events : List PreparedEvent) : Type 0 where
  few : length events ≤ 10
  small : 2 ≤ length events → size events ≤ sqs_event_max_size_byte

size-append : (xs ys : List PreparedEvent) → size (xs ++ ys) ≡ size xs + size ys
size-append [] ys = omega arith
size-append (x ∷ xs) ys = omega (arith, size-append xs ys)

IsOpen-grow :
    (current : List PreparedEvent) (evt : PreparedEvent)
    → IsOpen current
    → (ltb 0 (length current)
        && (leb sqs_event_batch_size (length current)
            || ltb sqs_event_max_size_byte (size current + evt.message_size)))
      ≡ false
    → IsOpen (current ++ evt ∷ [])
IsOpen-grow current evt o h =
    let l = length-append current (evt ∷ []) in
    let s = size-append current (evt ∷ []) in
    record { few = ground (arith, l, o.few, h); small = λ two. ground (arith, l, s, two, h) }

IsOpen-one : (evt : PreparedEvent) → IsOpen (evt ∷ [])
IsOpen-one evt = record { few = omega arith; small = λ two. absurd (omega (arith, two)) }

-- The chunks to come are chunks, and hold the current events and the rest in order.
abbrev Splits : List PreparedEvent → List (List PreparedEvent) → Type 0
Splits events chunks = All IsChunk chunks × (concat chunks ≡ events)

chunks_from-Splits :
    (current : List PreparedEvent) (current_size : ℕ) (events : List PreparedEvent)
    → current_size ≡ size current
    → IsOpen current
    → Splits (current ++ events) (chunks_from current current_size events)
unfolding chunks_from
chunks_from-Splits [] n [] e o = (tt, refl)
chunks_from-Splits (c ∷ current) n [] e o =
    ((record { filled = omega arith; few = o.few; small = o.small }, tt), refl)
chunks_from-Splits current n (evt ∷ events) e o =
    split
      (ltb 0 (length current)
        && (leb sqs_event_batch_size (length current)
            || ltb sqs_event_max_size_byte (n + evt.message_size)))
      refl (chunks_from-Splits (evt ∷ []) evt.message_size events (omega arith) (IsOpen-one evt))
      (λ grown.
        chunks_from-Splits (current ++ evt ∷ []) (n + evt.message_size) events
          (omega (arith, e, size-append current (evt ∷ []))) grown)
  where
    split :
        (b : Bool)
        → (ltb 0 (length current)
            && (leb sqs_event_batch_size (length current)
                || ltb sqs_event_max_size_byte (n + evt.message_size)))
          ≡ b
        → Splits (evt ∷ [] ++ events) (chunks_from (evt ∷ []) evt.message_size events)
        → (IsOpen (current ++ evt ∷ [])
            → Splits
                ((current ++ evt ∷ []) ++ events)
                (chunks_from (current ++ evt ∷ []) (n + evt.message_size) events))
        → Splits (current ++ evt ∷ events) (
            if b
            then current ∷ chunks_from (evt ∷ []) evt.message_size events
            else chunks_from (current ++ evt ∷ []) (n + evt.message_size) events)
    split true h closed grow = (
      (record { filled = ground (arith, h); few = o.few; small = o.small }, closed.0),
      ap (λ xs. current ++ xs) closed.1,
    )
    split false h closed grow =
        let grown = grow (IsOpen-grow current evt o (ground (arith, h, e))) in
        (grown.0, grown.1 ∙ append_assoc current (evt ∷ []) events)

-- The chunks hold the events in the order given, and each is fit for one request: not empty, of at
-- most ten events, and of at most a mebibyte unless it is a single event.
pub chunk_sqs_standard_events-IsChunk :
    (events : List PreparedEvent)
    → All IsChunk (chunk_sqs_standard_events events)
      × (concat (chunk_sqs_standard_events events) ≡ events)
unfolding chunk_sqs_standard_events
chunk_sqs_standard_events-IsChunk events =
    chunks_from-Splits [] 0 events (omega arith)
      (record { few = omega arith; small = λ two. absurd (omega (arith, two)) })
