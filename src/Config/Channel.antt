-- ===== src/Config/Channel.antt =====
-- Which event tables share a notification channel.
use outboxer.Prelude.{
  ℕ, zero, suc, ◌≤◌, ◌≡◌, ◌↔◌, refl, sym, ◌∙◌, ap, String, Bool, true, false, List, [], ◌∷◌, ◌++◌,
  length, ltb, arith, if◌then◌else◌,
}
use outboxer.Value.{to_bytes}
use outboxer.Config.{take, notify_channel_prefix, notify_channel_max_bytes, derive_notify_channel}

take-all : {A : Type 0} (n : ℕ) (xs : List A) → ltb n (length xs) ≡ false → take n xs ≡ xs
unfolding take
take-all zero [] h = refl
take-all zero (x ∷ xs) h = ground (arith, h)
take-all (suc n) [] h = refl
take-all (suc n) (x ∷ xs) h = ap (λ ys. x ∷ ys) (take-all n xs (ground (arith, h)))

length-take : {A : Type 0} (n : ℕ) (xs : List A) → length (take n xs) ≤ n
unfolding take
length-take zero xs = omega arith
length-take (suc n) [] = omega arith
length-take (suc n) (x ∷ xs) = omega (arith, length-take n xs)

-- The channel is the first 63 bytes of the prefix and the table name.
channel-take :
    (table : String)
    → derive_notify_channel table
      ≡ take notify_channel_max_bytes (notify_channel_prefix ++ to_bytes table)
unfolding derive_notify_channel
channel-take table =
    split (ltb notify_channel_max_bytes (length (notify_channel_prefix ++ to_bytes table))) refl
  where
    split :
        (b : Bool)
        → ltb notify_channel_max_bytes (length (notify_channel_prefix ++ to_bytes table)) ≡ b
        → (if b
            then take notify_channel_max_bytes (notify_channel_prefix ++ to_bytes table)
            else notify_channel_prefix ++ to_bytes table)
          ≡ take notify_channel_max_bytes (notify_channel_prefix ++ to_bytes table)
    split true h = refl
    split false h =
        sym (take-all notify_channel_max_bytes (notify_channel_prefix ++ to_bytes table) h)

abbrev tail9 : List ℕ → List ℕ
tail9 (a ∷ b ∷ c ∷ d ∷ e ∷ f ∷ g ∷ h ∷ i ∷ xs) = xs
tail9 _ = []

tail9-channel :
    (table : String)
    → tail9 (take notify_channel_max_bytes (notify_channel_prefix ++ to_bytes table))
      ≡ take 54 (to_bytes table)
unfolding take to_bytes
tail9-channel table = refl

prefix-channel :
    (a b : String)
    → take 54 (to_bytes a) ≡ take 54 (to_bytes b)
    → take notify_channel_max_bytes (notify_channel_prefix ++ to_bytes a)
      ≡ take notify_channel_max_bytes (notify_channel_prefix ++ to_bytes b)
unfolding take to_bytes
prefix-channel a b h = ap (λ xs. notify_channel_prefix ++ xs) h

-- Two tables share a channel exactly when the first 54 bytes of their names agree, and no channel
-- is longer than 63 bytes.
pub derive_notify_channel_iff :
    (a b : String)
    → ((derive_notify_channel a ≡ derive_notify_channel b)
        ↔ (take 54 (to_bytes a) ≡ take 54 (to_bytes b)))
      × (length (derive_notify_channel a) ≤ 63)
derive_notify_channel_iff a b = (
  (
    λ h.
        sym (tail9-channel a)
        ∙ ap tail9 (sym (channel-take a) ∙ h ∙ channel-take b)
        ∙ tail9-channel b,
    λ h. channel-take a ∙ prefix-channel a b h ∙ sym (channel-take b),
  ),
  rw (channel-take a) (length-take 63 (notify_channel_prefix ++ to_bytes a)),
)
