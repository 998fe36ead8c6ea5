-- ===== src/Sqs/Prepare/Limits.antt =====
-- The limits on an entry that isSQSPoison of internal/outboxer/sqs/options.go keeps.
use outboxer.Prelude.{
  ◌||◌, codes, every, is_alphanumeric, ℕ, ◌≤◌, String, true, false, not, Option, none, some, List,
  [], ◌∷◌, ◌≡◌, ◌≢◌, ◌⊎◌, inl, inr, ◌&&◌, Bool-cases, All, length, nat_beq, is_empty, arith,
  string_eq,
}
use outboxer.Prelude.Int.{ℤ, pos, ◌≤ℤ◌}
use outboxer.Sqs.{MessageAttribute}
use outboxer.Sqs.Poison.{
  is_fifo_id, is_fifo_char, is_entry_id, is_sqs_poison, every_attribute, valid_sqs_attributes,
  out_of_bounds,
}
use outboxer.Sqs.Prepare.Texts.{IsText, sqs_allowed_unicode_bytes-IsText}
use outboxer.Sqs.Prepare.Attributes.{IsAttribute, message_bytes, length-message_bytes}
use outboxer.Sqs.Prepare.AttributeTests.{valid_attribute-IsAttribute}

-- At most 128 printable characters of ASCII, no space among them.
abbrev pub IsFifoId : String → Type 0
IsFifoId s =
    (1 ≤ length (codes s))
    × (length (codes s) ≤ 128)
    × All (λ (c : ℕ). (0x21 ≤ c) × (c ≤ 0x7E)) (codes s)

-- At most 80 letters, digits, underscores and hyphens.
abbrev pub IsEntryId : String → Type 0
IsEntryId s =
    (1 ≤ length (codes s))
    × (length (codes s) ≤ 80)
    × All
        (λ (c : ℕ).
          ((b'A' ≤ c) × (c ≤ b'Z'))
          ⊎ ((b'a' ≤ c) × (c ≤ b'z'))
          ⊎ ((b'0' ≤ c) × (c ≤ b'9'))
          ⊎ (c ≡ b'_')
          ⊎ (c ≡ b'-'))
        (codes s)

-- An id that may be left out.
abbrev pub IsOptionalId : String → Type 0
IsOptionalId s = (s ≡ "") ⊎ IsFifoId s

abbrev pub IsDelay : Option ℤ → Type 0
IsDelay none = Unit
IsDelay (some d) = (pos 0 ≤ℤ d) × (d ≤ℤ pos 900)

-- A text, of at most a mebibyte with at most ten attributes, and with ids and a delay that SQS
-- takes.
pub record Fits (body : List ℕ) (attributes : List (String × MessageAttribute)) (key : String)
    (deduplication_id : String) (delay : Option ℤ) : Type 0 where
  pub some_body : body ≢ []
  pub text : IsText body
  pub small : length (message_bytes body attributes) ≤ 1048576
  pub few : length attributes ≤ 10
  pub well_formed : All IsAttribute attributes
  pub key_ok : IsOptionalId key
  pub deduplication_ok : IsOptionalId deduplication_id
  pub delay_ok : IsDelay delay

every_attribute-All :
    (as' : List (String × MessageAttribute)) → every_attribute as' ≡ true → All IsAttribute as'
every_attribute-All [] h = tt
every_attribute-All (a ∷ rest) h =
    (valid_attribute-IsAttribute a (ground arith), every_attribute-All rest (ground arith))

pub is_fifo_id-IsFifoId : (s : String) → is_fifo_id s ≡ true → IsFifoId s
is_fifo_id-IsFifoId s h = (ground arith, ground arith, each (codes s) (ground arith))
  where
    each :
        (cs : List ℕ) → every is_fifo_char cs ≡ true → All (λ (c : ℕ). (0x21 ≤ c) × (c ≤ 0x7E)) cs
    each [] k = tt
    each (c ∷ cs) k = (ground arith, each cs (ground arith))

pub is_entry_id-IsEntryId : (s : String) → is_entry_id s ≡ true → IsEntryId s
is_entry_id-IsEntryId s h = (ground arith, ground arith, each (codes s) (ground arith))
  where
    each :
        (cs : List ℕ)
        → every (λ c. is_alphanumeric c || nat_beq c b'_' || nat_beq c b'-') cs ≡ true
        → All
            (λ (c : ℕ).
              ((b'A' ≤ c) × (c ≤ b'Z'))
              ⊎ ((b'a' ≤ c) × (c ≤ b'z'))
              ⊎ ((b'0' ≤ c) × (c ≤ b'9'))
              ⊎ (c ≡ b'_')
              ⊎ (c ≡ b'-'))
            cs
    each [] k = tt
    each (c ∷ cs) k = (ground arith, each cs (ground arith))

not_empty : (body : List ℕ) → body ≡ [] → nat_beq (length body) 0 ≡ false → ⊥
not_empty [] e h = cc h
not_empty (b ∷ bs) e h = cc e

optional_id : (s : String) → (not (is_empty s) && not (is_fifo_id s)) ≡ false → IsOptionalId s
optional_id s h = elim (Bool-cases (is_empty s)) [
  | inl none' ↦ inl ((string_eq.beq_iff s "").0 none')
  | inr some' ↦ inr (is_fifo_id-IsFifoId s (ground arith))
]

in_bounds : (d : Option ℤ) → out_of_bounds d ≡ false → IsDelay d
in_bounds none h = tt
in_bounds (some d) h = ground arith

pub not-poison-Fits :
    (body : List ℕ) (attributes : List (String × MessageAttribute)) (key : String)
    (deduplication_id : String) (delay : Option ℤ)
    → is_sqs_poison body attributes key deduplication_id delay ≡ false
    → Fits body attributes key deduplication_id delay
unfolding is_sqs_poison valid_sqs_attributes
not-poison-Fits body attributes key deduplication_id delay h = record {
  some_body = λ e. not_empty body e (ground arith);
  text = sqs_allowed_unicode_bytes-IsText body (ground arith);
  small = rw (length-message_bytes body attributes) (ground arith);
  few = ground arith;
  well_formed = every_attribute-All attributes (ground arith);
  key_ok = optional_id key (ground arith);
  deduplication_ok = optional_id deduplication_id (ground arith);
  delay_ok = in_bounds delay (ground arith);
}
