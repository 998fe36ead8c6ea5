-- ===== src/Sqs/Poison.antt =====
-- The local checks of an SQS message: the predicates of internal/outboxer/sqs/options.go, and
-- providerSafeID. `parse_url` is net/url's Parse, and `digest` is stableDigest, the SHA-256 of a
-- text in hexadecimal.
use outboxer.Prelude.{
  ℕ, ◌+◌, ◌-◌, ◌*◌, String, Bool, true, false, ◌&&◌, ◌||◌, not, Option, none, some, List, [], ◌∷◌,
  map, length, total, ltb, nat_beq, if◌then◌else◌, is_empty, format, ◌==◌, string_eq, codes,
  between, is_alphanumeric, matches, same_codes, has_prefix, has_suffix, has_part, has_any, before,
  to_lower,
}
use outboxer.Prelude.Int.{ℤ, pos, ltb_ℤ}
use outboxer.Value.{to_bytes}
use outboxer.Sqs.{MessageAttribute, sqs_event_max_size_byte}

abbrev pub sqs_max_attributes : ℕ
sqs_max_attributes = 10

abbrev pub sqs_max_delay_seconds : ℕ
sqs_max_delay_seconds = 900

-- sqsBatchEntryIDPattern
abbrev pub is_entry_id : String → Bool
is_entry_id = matches (λ c. is_alphanumeric c || nat_beq c b'_' || nat_beq c b'-') 1 80

-- Every printable character of ASCII but the space.
abbrev pub is_fifo_char : ℕ → Bool
is_fifo_char c =
    is_alphanumeric c
    || between b'!' b'/' c
    || between b':' b'@' c
    || between b'[' b'`' c
    || between b'{' b'~' c

-- sqsFIFOIDPattern
abbrev pub is_fifo_id : String → Bool
is_fifo_id = matches is_fifo_char 1 128

-- sqsAttributeNameRe
abbrev pub is_attribute_name : String → Bool
is_attribute_name =
    matches (λ c. is_alphanumeric c || nat_beq c b'_' || nat_beq c b'.' || nat_beq c b'-') 1 256

-- Where the decoder of UTF-8 stands in a character: the bytes that are missing, the bounds of the
-- next one, and what the earlier bytes add up to.
pub record Pending : Type 0 where
  pub missing : ℕ
  pub low : ℕ
  pub high : ℕ
  pub sum : ℕ

abbrev pub fresh : Pending
fresh = record { missing = 0; low = 0x80; high = 0xBF; sum = 0 }

abbrev awaiting : ℕ → ℕ → ℕ → ℕ → Option Pending
awaiting missing low high sum =
    some (record { missing = missing; low = low; high = high; sum = sum })

-- The first byte of a character of more than one byte.
abbrev lead : ℕ → Option Pending
lead b =
    if between 0xC2 0xDF b
    then awaiting 1 0x80 0xBF (b - 0xC0)
    else if nat_beq b 0xE0
    then awaiting 2 0xA0 0xBF 0
    else if nat_beq b 0xED
    then awaiting 2 0x80 0x9F (b - 0xE0)
    else if between 0xE1 0xEF b
    then awaiting 2 0x80 0xBF (b - 0xE0)
    else if nat_beq b 0xF0
    then awaiting 3 0x90 0xBF 0
    else if between 0xF1 0xF3 b
    then awaiting 3 0x80 0xBF (b - 0xF0)
    else if nat_beq b 0xF4
    then awaiting 3 0x80 0x8F (b - 0xF0)
    else none

abbrev cons? : ℕ → Option (List ℕ) → Option (List ℕ)
cons? r none = none
cons? r (some rs) = some (r ∷ rs)

-- The runes of a text in UTF-8, and nothing where utf8.Valid is false.
unfoldable pub runes_from : Pending → List ℕ → Option (List ℕ)
runes_from p [] = if nat_beq p.missing 0 then some [] else none
runes_from p (b ∷ bs) =
    let closed = cons? (p.sum * 64 + (b - 0x80)) (runes_from fresh bs) in
    let continued =
      runes_from
        (record { missing = p.missing - 1; low = 0x80; high = 0xBF; sum = p.sum * 64 + (b - 0x80) })
        bs in
    let single = cons? b (runes_from fresh bs) in
    let started : Option (List ℕ) = elim (lead b) [ none ↦ none | some p' ↦ runes_from p' bs ] in
    if nat_beq p.missing 0
    then (if ltb b 0x80 then single else started)
    else if between p.low p.high b
    then (if nat_beq p.missing 1 then closed else continued)
    else none

unfoldable pub runes : List ℕ → Option (List ℕ)
unfolding runes_from
runes = runes_from fresh

abbrev pub allowed_rune : ℕ → Bool
allowed_rune r =
    nat_beq r 9
    || nat_beq r 10
    || nat_beq r 13
    || between 0x20 0xD7FF r
    || between 0xE000 0xFFFD r
    || between 0x10000 0x10FFFF r

abbrev pub every_allowed : List ℕ → Bool
every_allowed [] = true
every_allowed (r ∷ rs) = allowed_rune r && every_allowed rs

-- sqsAllowedUnicodeBytes
unfoldable pub sqs_allowed_unicode_bytes : List ℕ → Bool
unfolding runes
sqs_allowed_unicode_bytes b = elim (runes b) [ none ↦ false | some rs ↦ every_allowed rs ]

-- `len(s)` of a text
abbrev pub text_size : String → ℕ
text_size s = length (to_bytes s)

abbrev pub attribute_size : String × MessageAttribute → ℕ
attribute_size (key, a) =
    text_size key
    + text_size a.data_type
    + (if a.has_string_value then text_size a.string_value else 0)
    + (if a.has_binary_value then length a.binary_value else 0)
    + total text_size a.string_list_values
    + total length a.binary_list_values

-- sqsMessageSize
unfoldable pub sqs_message_size : List ℕ → List (String × MessageAttribute) → ℕ
sqs_message_size body attributes = length body + total attribute_size attributes

-- validSQSAttributeDataType
unfoldable pub valid_sqs_attribute_data_type : String → Bool
valid_sqs_attribute_data_type data_type =
    let base = before b'.' (codes data_type) in
    same_codes base (codes "String")
    || same_codes base (codes "Number")
    || same_codes base (codes "Binary")

-- One round of the loop of validSQSAttributes. Where the name is tested for a prefix without
-- regard to case, the pattern has already confined it to ASCII.
unfoldable pub valid_attribute : String × MessageAttribute → Bool
unfolding valid_sqs_attribute_data_type sqs_allowed_unicode_bytes
valid_attribute (key, a) =
    let name = codes key in
    let lower = map to_lower name in
    let binary_ok = a.has_binary_value && not a.has_string_value in
    let text_ok =
      a.has_string_value
      && not a.has_binary_value
      && not (is_empty a.string_value)
      && sqs_allowed_unicode_bytes (to_bytes a.string_value) in
    not (is_empty key || is_empty a.data_type)
    && is_attribute_name key
    && not (has_prefix (codes "aws.") lower || has_prefix (codes "amazon.") lower)
    && not
        (has_prefix (codes ".") name || has_suffix (codes ".") name || has_part (codes "..") name)
    && valid_sqs_attribute_data_type a.data_type
    && not (a.has_string_list || a.has_binary_list)
    && (if has_prefix (codes "Binary") (codes a.data_type) then binary_ok else text_ok)
    && not (a.has_binary_value && nat_beq (length a.binary_value) 0)

abbrev pub every_attribute : List (String × MessageAttribute) → Bool
every_attribute [] = true
every_attribute (a ∷ rest) = valid_attribute a && every_attribute rest

-- validSQSAttributes
unfoldable pub valid_sqs_attributes : List (String × MessageAttribute) → Bool
unfolding valid_attribute
valid_sqs_attributes attributes =
    not (ltb sqs_max_attributes (length attributes)) && every_attribute attributes

abbrev pub out_of_bounds : Option ℤ → Bool
out_of_bounds none = false
out_of_bounds (some delay) = ltb_ℤ delay (pos 0) || ltb_ℤ (pos sqs_max_delay_seconds) delay

-- isSQSPoison
unfoldable pub is_sqs_poison :
    List ℕ → List (String × MessageAttribute) → String → String → Option ℤ → Bool
unfolding sqs_allowed_unicode_bytes sqs_message_size valid_sqs_attributes
is_sqs_poison body attributes ordering_key deduplication_id delay_seconds =
    nat_beq (length body) 0
    || not (sqs_allowed_unicode_bytes body)
    || ltb sqs_event_max_size_byte (sqs_message_size body attributes)
    || not (valid_sqs_attributes attributes)
    || (not (is_empty ordering_key) && not (is_fifo_id ordering_key))
    || (not (is_empty deduplication_id) && not (is_fifo_id deduplication_id))
    || out_of_bounds delay_seconds

pub record Url : Type 0 where
  pub scheme : String
  pub host : String
  pub path : String

-- `strings.Trim(path, "/") != ""`
abbrev not_only_slashes : List ℕ → Bool
not_only_slashes [] = false
not_only_slashes (c ∷ cs) = not (nat_beq c b'/') || not_only_slashes cs

abbrev url_ok : Option Url → Bool
url_ok none = false
url_ok (some url) =
    is_empty url.scheme
    || ((url.scheme == "http" || url.scheme == "https")
        && not (is_empty url.host)
        && not_only_slashes (codes url.path))

-- validSQSQueueURL
unfoldable pub valid_sqs_queue_url : (String → Option Url) → String → Bool
valid_sqs_queue_url parse_url queue_url =
    not (is_empty queue_url || has_any (32 ∷ 9 ∷ 13 ∷ 10 ∷ []) (codes queue_url))
    && url_ok (parse_url queue_url)

-- syntheticFIFOGroupID
unfoldable pub synthetic_fifo_group_id : (String → String) → String → String
synthetic_fifo_group_id digest event_id = format ("outboxer-" ∷ digest event_id ∷ [])

-- providerSafeID
unfoldable pub provider_safe_id : (String → String) → String → (String → Bool) → String
provider_safe_id digest value pattern = if pattern value then value else digest value
