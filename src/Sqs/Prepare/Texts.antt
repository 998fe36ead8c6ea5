-- ===== src/Sqs/Prepare/Texts.antt =====
-- Which texts SQS takes, said without the tests of sqsAllowedUnicodeBytes
-- (internal/outboxer/sqs/options.go).
use outboxer.Prelude.{
  ℕ, ◌≤◌, Bool, true, false, Option, none, some, List, [], ◌∷◌, ◌≡◌, ◌⊎◌, refl, All, arith,
}
use outboxer.Sqs.Poison.{sqs_allowed_unicode_bytes, runes, every_allowed}

-- The characters that SQS documents for a message body.
abbrev pub IsAllowed : ℕ → Type 0
IsAllowed r =
    (r ≡ 9)
    ⊎ (r ≡ 10)
    ⊎ (r ≡ 13)
    ⊎ ((0x20 ≤ r) × (r ≤ 0xD7FF))
    ⊎ ((0xE000 ≤ r) × (r ≤ 0xFFFD))
    ⊎ ((0x10000 ≤ r) × (r ≤ 0x10FFFF))

-- Bytes that are a text of allowed characters.
abbrev pub IsText : List ℕ → Type 0
IsText bytes = (rs : List ℕ) × (runes bytes ≡ some rs) × All IsAllowed rs

every_allowed-All : (rs : List ℕ) → every_allowed rs ≡ true → All IsAllowed rs
every_allowed-All [] h = tt
every_allowed-All (r ∷ rs) h = (ground arith, every_allowed-All rs (ground arith))

pub sqs_allowed_unicode_bytes-IsText :
    (body : List ℕ)
    → sqs_allowed_unicode_bytes body ≡ true
    → (rs : List ℕ) × (runes body ≡ some rs) × All IsAllowed rs
unfolding sqs_allowed_unicode_bytes
sqs_allowed_unicode_bytes-IsText body h = read (runes body) refl h
  where
    read :
        (o : Option (List ℕ))
        → runes body ≡ o
        → (elim o as (λ _. Bool) [ none ↦ false | some rs ↦ every_allowed rs ]) ≡ true
        → (rs : List ℕ) × (runes body ≡ some rs) × All IsAllowed rs
    read none e k = absurd (cc k)
    read (some rs) e k = (rs, e, every_allowed-All rs k)
