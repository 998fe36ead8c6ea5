-- ===== src/Sqs/Prepare/Complete.antt =====
-- isSQSPoison of internal/outboxer/sqs/options.go takes for poison what does not fit, and nothing
-- else.
use outboxer.Prelude.{
  ◌||◌, codes, every, is_alphanumeric, ℕ, ◌≤◌, String, Bool, true, false, not, Option, none, some,
  List, [], ◌∷◌, ◌≡◌, ◌≢◌, ◌⊎◌, ◌↔◌, inl, inr, refl, subst, ◌&&◌, Bool-cases, All, length,
  length-append, nat_beq, is_empty, arith, string_eq, map, to_lower, has_prefix, has_prefix_iff,
  has_suffix_iff, has_part_iff, before_iff, if◌then◌else◌,
}
use outboxer.Prelude.Int.{ℤ}
use outboxer.Value.{to_bytes}
use outboxer.Sqs.{MessageAttribute}
use outboxer.Sqs.Poison.{
  is_fifo_id, is_fifo_char, is_sqs_poison, every_attribute, valid_attribute, valid_sqs_attributes,
  out_of_bounds, sqs_allowed_unicode_bytes, every_allowed, is_attribute_name,
  valid_sqs_attribute_data_type,
}
use outboxer.Sqs.Prepare.Texts.{IsAllowed, IsText}
use outboxer.Sqs.Prepare.Attributes.{
  IsNameChar, IsName, IsTyped, IsValued, IsAttribute, length-message_bytes,
}
use outboxer.Sqs.Prepare.AttributeTests.{binary_prefix, text_prefix}
use outboxer.Sqs.Prepare.Limits.{Fits, IsFifoId, IsOptionalId, IsDelay, not-poison-Fits}

every_allowed_all : (rs : List ℕ) → All IsAllowed rs → every_allowed rs ≡ true
every_allowed_all [] h = refl
every_allowed_all (r ∷ rs) h = ground (arith, every_allowed_all rs h.1)

IsText-allowed : (bytes : List ℕ) → IsText bytes → sqs_allowed_unicode_bytes bytes ≡ true
unfolding sqs_allowed_unicode_bytes
IsText-allowed bytes (rs, e, h) = ground (arith, e, every_allowed_all rs h)

every_char :
    (cs : List ℕ)
    → All IsNameChar cs
    → every (λ c. is_alphanumeric c || nat_beq c b'_' || nat_beq c b'.' || nat_beq c b'-') cs ≡ true
every_char [] h = refl
every_char (c ∷ cs) (one, rest) = (let later = every_char cs rest in ground arith)

-- A test of what is not there.
absent : {A : Type 0} (b : Bool) → ((b ≡ true) ↔ A) → (A → ⊥) → b ≡ false
absent true h n = absurd (n (h.0 refl))
absent false h n = refl

not_empty : (s : String) → 1 ≤ length (codes s) → is_empty s ≡ false
not_empty s h = elim (Bool-cases (is_empty s)) [
  | inl e ↦
      (let none' = subst (λ t. 1 ≤ length (codes t)) ((string_eq.beq_iff s "").0 e) h in
        ground arith)
  | inr some' ↦ some'
]

IsTyped-some :
    (base type : String) → 1 ≤ length (codes base) → IsTyped base type → 1 ≤ length (codes type)
IsTyped-some base type h (inl e) = rw e h
IsTyped-some base type h (inr (label, e)) =
    rw (e, length-append (codes base) (b'.' ∷ label)) (omega arith)

-- The three tests of a type.
module _ (type : String) where
  string_typed : IsTyped "String" type → valid_sqs_attribute_data_type type ≡ true
  unfolding valid_sqs_attribute_data_type
  string_typed t =
      (let e = (before_iff b'.' (codes "String") (codes type) refl).1 t in ground arith)

  number_typed : IsTyped "Number" type → valid_sqs_attribute_data_type type ≡ true
  unfolding valid_sqs_attribute_data_type
  number_typed t =
      (let e = (before_iff b'.' (codes "Number") (codes type) refl).1 t in ground arith)

  binary_typed : IsTyped "Binary" type → valid_sqs_attribute_data_type type ≡ true
  unfolding valid_sqs_attribute_data_type
  binary_typed t =
      (let e = (before_iff b'.' (codes "Binary") (codes type) refl).1 t in ground arith)

some_bytes : (bytes : List ℕ) → bytes ≢ [] → nat_beq (length bytes) 0 ≡ false
some_bytes [] h = absurd (h refl)
some_bytes (b ∷ bytes) h = ground arith

some_string : (s : String) → s ≢ "" → is_empty s ≡ false
some_string s h = absent (is_empty s) (string_eq.beq_iff s "") h

value_test : MessageAttribute → Bool
value_test a =
    if has_prefix (codes "Binary") (codes a.data_type)
    then a.has_binary_value && not a.has_string_value
    else a.has_string_value
      && not a.has_binary_value
      && not (is_empty a.string_value)
      && sqs_allowed_unicode_bytes (to_bytes a.string_value)

-- The tests of a value hold, and those of its type.
abbrev IsTaken : MessageAttribute → Type 0
IsTaken a =
    (is_empty a.data_type ≡ false)
    × (valid_sqs_attribute_data_type a.data_type ≡ true)
    × (value_test a ≡ true)
    × ((a.has_binary_value && nat_beq (length a.binary_value) 0) ≡ false)

IsValued-IsTaken : (a : MessageAttribute) → IsValued a → IsTaken a
unfolding value_test
IsValued-IsTaken a (inl (b, hb, hs, nb)) = (
  not_empty a.data_type (IsTyped-some "Binary" a.data_type (omega arith) b),
  binary_typed a.data_type b,
  rw (binary_prefix a.data_type b, hb, hs) refl,
  rw (hb, some_bytes a.binary_value nb) refl,
)
IsValued-IsTaken a (inr (t, hs, hb, ns, x)) = typed t
  where
    text : has_prefix (codes "Binary") (codes a.data_type) ≡ false → value_test a ≡ true
    text e =
        rw (e, hs, hb, some_string a.string_value ns, IsText-allowed (to_bytes a.string_value) x)
          refl

    typed : IsTyped "String" a.data_type ⊎ IsTyped "Number" a.data_type → IsTaken a
    typed (inl s) = (
      not_empty a.data_type (IsTyped-some "String" a.data_type (omega arith) s),
      string_typed a.data_type s,
      text (text_prefix "String" a.data_type refl refl (λ label. refl) s),
      rw hb refl,
    )
    typed (inr n) = (
      not_empty a.data_type (IsTyped-some "Number" a.data_type (omega arith) n),
      number_typed a.data_type n,
      text (text_prefix "Number" a.data_type refl refl (λ label. refl) n),
      rw hb refl,
    )

matches_name : (key : String) → IsName (codes key) → is_attribute_name key ≡ true
matches_name key n =
    (let low = n.some_name in
      let high = n.short in let all = every_char (codes key) n.characters in ground arith)

IsAttribute-valid : (a : String × MessageAttribute) → IsAttribute a → valid_attribute a ≡ true
unfolding valid_attribute value_test
IsAttribute-valid (key, a) h =
    let n = h.name_ok in
    let (some_type, typed, value, nothing) = IsValued-IsTaken a h.valued in
    rw
      (
        not_empty key n.some_name,
        some_type,
        matches_name key n,
        absent _ (has_prefix_iff (codes "aws.") (map to_lower (codes key))) n.not_aws,
        absent _ (has_prefix_iff (codes "amazon.") (map to_lower (codes key))) n.not_amazon,
        absent _ (has_prefix_iff (codes ".") (codes key)) n.first_dot,
        absent _ (has_suffix_iff (codes ".") (codes key)) n.last_dot,
        absent _ (has_part_iff (codes "..") (codes key)) n.dots,
        typed,
        h.no_strings,
        h.no_binaries,
        value,
        nothing,
      )
      refl

every_attribute_all :
    (as' : List (String × MessageAttribute)) → All IsAttribute as' → every_attribute as' ≡ true
every_attribute_all [] h = refl
every_attribute_all (a ∷ rest) (one, later) =
    rw (IsAttribute-valid a one, every_attribute_all rest later) refl

IsFifoId-matches : (s : String) → IsFifoId s → is_fifo_id s ≡ true
IsFifoId-matches s (low, high, all) = (let e = each (codes s) all in ground arith)
  where
    each :
        (cs : List ℕ) → All (λ (c : ℕ). (0x21 ≤ c) × (c ≤ 0x7E)) cs → every is_fifo_char cs ≡ true
    each [] k = refl
    each (c ∷ cs) (k, later) = (let e = each cs later in ground arith)

optional_ok : (s : String) → IsOptionalId s → (not (is_empty s) && not (is_fifo_id s)) ≡ false
optional_ok s (inl none') = (let e = (string_eq.beq_iff s "").1 none' in ground arith)
optional_ok s (inr fits) = (let e = IsFifoId-matches s fits in ground arith)

delay_in_bounds : (d : Option ℤ) → IsDelay d → out_of_bounds d ≡ false
delay_in_bounds none h = refl
delay_in_bounds (some d) h = ground arith

-- isSQSPoison finds a message without poison exactly if its body is a text of allowed characters
-- and not empty, body and attributes have at most a mebibyte, there are at most ten attributes, with
-- well-formed names, types and values, the two ids are left out or have at most 128 printable
-- characters of ASCII, and a delay is from 0 to 900 seconds.
pub is_sqs_poison_iff :
    (body : List ℕ) (attributes : List (String × MessageAttribute)) (key : String)
    (deduplication_id : String) (delay : Option ℤ)
    → (is_sqs_poison body attributes key deduplication_id delay ≡ false)
      ↔ Fits body attributes key deduplication_id delay
unfolding is_sqs_poison valid_sqs_attributes
is_sqs_poison_iff body attributes key deduplication_id delay = (
  not-poison-Fits body attributes key deduplication_id delay,
  λ f.
      (let bound = rw (length-message_bytes body attributes) at f.small in
        let few = f.few in
        rw
          (
            some_bytes body f.some_body,
            IsText-allowed body f.text,
            every_attribute_all attributes f.well_formed,
            optional_ok key f.key_ok,
            optional_ok deduplication_id f.deduplication_ok,
            delay_in_bounds delay f.delay_ok,
          )
          (ground arith)),
)
