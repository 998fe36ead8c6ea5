-- ===== src/Sqs/Prepare/Ids.antt =====
-- The ids that the provider makes up match the patterns of SQS.
use text.Mathlib.TextLemmas.{append-nil}
use outboxer.Prelude.{
  ℕ, String, Bool, true, ◌||◌, ◌≡◌, Bool-cases, length, length-append, inl, inr, between, codes,
  codes-append, every, every-append, every_mono, format, arith,
}
use outboxer.Sqs.Poison.{
  is_entry_id, is_fifo_id, is_fifo_char, synthetic_fifo_group_id, provider_safe_id,
}

abbrev pub is_hexadecimal : ℕ → Bool
is_hexadecimal c = between b'0' b'9' c || between b'a' b'f' c

-- What SHA-256 and Go's hex.EncodeToString document of every digest.
abbrev pub IsDigest : (String → String) → Type 0
IsDigest digest =
    (s : String)
    → (length (codes (digest s)) ≡ 64) × (every is_hexadecimal (codes (digest s)) ≡ true)

module _ (digest : String → String) (hex : IsDigest digest) where
  entry_id-digest : (s : String) → is_entry_id (digest s) ≡ true
  entry_id-digest s =
      rw (hex s).0 (every_mono is_hexadecimal _ (codes (digest s)) (λ c h. ground arith) (hex s).1)

  fifo_id-digest : (s : String) → is_fifo_id (digest s) ≡ true
  fifo_id-digest s =
      rw (hex s).0 (every_mono is_hexadecimal _ (codes (digest s)) (λ c h. ground arith) (hex s).1)

  pub is_entry_id-safe : (s : String) → is_entry_id (provider_safe_id digest s is_entry_id) ≡ true
  unfolding provider_safe_id
  is_entry_id-safe s = elim (Bool-cases (is_entry_id s)) [
    | inl fits ↦ rw fits fits
    | inr not' ↦ rw not' (entry_id-digest s)
  ]

  pub is_fifo_id-safe : (s : String) → is_fifo_id (provider_safe_id digest s is_fifo_id) ≡ true
  unfolding provider_safe_id
  is_fifo_id-safe s = elim (Bool-cases (is_fifo_id s)) [
    | inl fits ↦ rw fits fits
    | inr not' ↦ rw not' (fifo_id-digest s)
  ]

  pub is_fifo_id-synthetic : (s : String) → is_fifo_id (synthetic_fifo_group_id digest s) ≡ true
  unfolding synthetic_fifo_group_id format
  is_fifo_id-synthetic s =
      rw
        (
          append-nil (digest s),
          codes-append "outboxer-" (digest s),
          length-append (codes "outboxer-") (codes (digest s)),
          (hex s).0,
          every-append is_fifo_char (codes "outboxer-") (codes (digest s)),
        )
        (every_mono is_hexadecimal _ (codes (digest s)) (λ c h. ground arith) (hex s).1)
