-- ===== src/Sqs/Prepare/AttributeTests.antt =====
-- The tests of validSQSAttributes (internal/outboxer/sqs/options.go) accept only attributes as
-- Attributes describes them.
use outboxer.Prelude.{
  ℕ, String, Bool, true, false, not, ◌&&◌, ◌||◌, List, [], ◌∷◌, ◌++◌, map, ◌≡◌, ◌≢◌, ◌⊎◌, inl, inr,
  ◌↔◌, refl, All, length, nat_beq, is_empty, arith, string_eq, codes, every, if◌then◌else◌,
  is_alphanumeric, to_lower, has_prefix, has_suffix, has_part, has_prefix_iff, has_suffix_iff,
  has_part_iff, before_iff,
}
use outboxer.Value.{to_bytes}
use outboxer.Sqs.{MessageAttribute}
use outboxer.Sqs.Poison.{
  is_attribute_name, valid_sqs_attribute_data_type, valid_attribute, sqs_allowed_unicode_bytes,
}
use outboxer.Sqs.Prepare.Texts.{sqs_allowed_unicode_bytes-IsText}
use outboxer.Sqs.Prepare.Attributes.{IsNameChar, IsName, IsTyped, IsValued, IsAttribute}

every-IsNameChar :
    (cs : List ℕ)
    → every (λ c. is_alphanumeric c || nat_beq c b'_' || nat_beq c b'.' || nat_beq c b'-') cs ≡ true
    → All IsNameChar cs
every-IsNameChar [] h = tt
every-IsNameChar (c ∷ cs) h = (ground arith, every-IsNameChar cs (ground arith))

-- A part that a test denies is not there.
denied : {A : Type 0} (b : Bool) → ((b ≡ true) ↔ A) → b ≡ false → A → ⊥
denied b h e a = cc (h.1 a, e)

is_attribute_name-IsName :
    (key : String)
    → is_attribute_name key ≡ true
    → (has_prefix (codes "aws.") (map to_lower (codes key))
        || has_prefix (codes "amazon.") (map to_lower (codes key)))
      ≡ false
    → (has_prefix (codes ".") (codes key)
        || has_suffix (codes ".") (codes key)
        || has_part (codes "..") (codes key))
      ≡ false
    → IsName (codes key)
is_attribute_name-IsName key h reserved dotted = record {
  some_name = ground arith;
  short = ground arith;
  characters = every-IsNameChar (codes key) (ground arith);
  not_aws = denied _ (has_prefix_iff (codes "aws.") (map to_lower (codes key))) (ground arith);
  not_amazon =
      denied _ (has_prefix_iff (codes "amazon.") (map to_lower (codes key))) (ground arith);
  first_dot = denied _ (has_prefix_iff (codes ".") (codes key)) (ground arith);
  last_dot = denied _ (has_suffix_iff (codes ".") (codes key)) (ground arith);
  dots = denied _ (has_part_iff (codes "..") (codes key)) (ground arith);
}

-- One of three tests that holds.
one_of :
    {A B C : Type 0} (a b c : Bool)
    → ((a ≡ true) ↔ A)
    → ((b ≡ true) ↔ B)
    → ((c ≡ true) ↔ C)
    → (a || b || c) ≡ true
    → A ⊎ B ⊎ C
one_of true b c x y z h = inl (x.0 refl)
one_of false true c x y z h = inr (inl (y.0 refl))
one_of false false c x y z h = inr (inr (z.0 h))

valid_sqs_attribute_data_type-IsTyped :
    (type : String)
    → valid_sqs_attribute_data_type type ≡ true
    → IsTyped "String" type ⊎ IsTyped "Number" type ⊎ IsTyped "Binary" type
unfolding valid_sqs_attribute_data_type
valid_sqs_attribute_data_type-IsTyped type h =
    one_of _ _ _ (before_iff b'.' (codes "String") (codes type) refl)
      (before_iff b'.' (codes "Number") (codes type) refl)
      (before_iff b'.' (codes "Binary") (codes type) refl) h

pub binary_prefix :
    (type : String) → IsTyped "Binary" type → has_prefix (codes "Binary") (codes type) ≡ true
binary_prefix type (inl e) = rw e refl
binary_prefix type (inr (label, e)) = rw e refl

pub text_prefix :
    (base type : String)
    → has_prefix (codes "Binary") (codes base) ≡ false
    → has_prefix (codes "Binary") (codes base ++ (b'.' ∷ [])) ≡ false
    → ((label : List ℕ) → has_prefix (codes "Binary") (codes base ++ (b'.' ∷ label)) ≡ false)
    → IsTyped base type
    → has_prefix (codes "Binary") (codes type) ≡ false
text_prefix base type k l m (inl e) = rw e k
text_prefix base type k l m (inr (label, e)) = rw e (m label)

no_bytes : (bytes : List ℕ) → nat_beq (length bytes) 0 ≡ false → bytes ≢ []
no_bytes [] h e = cc h
no_bytes (b ∷ bytes) h e = cc e

no_string : (s : String) → is_empty s ≡ false → s ≢ ""
no_string s h e = cc (h, (string_eq.beq_iff s "").1 e)

has_prefix-IsValued :
    (a : MessageAttribute)
    → valid_sqs_attribute_data_type a.data_type ≡ true
    → (if has_prefix (codes "Binary") (codes a.data_type)
        then a.has_binary_value && not a.has_string_value
        else a.has_string_value
          && not a.has_binary_value
          && not (is_empty a.string_value)
          && sqs_allowed_unicode_bytes (to_bytes a.string_value))
      ≡ true
    → (a.has_binary_value && nat_beq (length a.binary_value) 0) ≡ false
    → IsValued a
has_prefix-IsValued a typed value some' =
    elim (valid_sqs_attribute_data_type-IsTyped a.data_type typed) [
      | inl s ↦ text (inl s) (text_prefix "String" a.data_type refl refl (λ label. refl) s)
      | inr (inl n) ↦ text (inr n) (text_prefix "Number" a.data_type refl refl (λ label. refl) n)
      | inr (inr b) ↦
          (let e = binary_prefix a.data_type b in
            inl (b, ground arith, ground arith, no_bytes a.binary_value (ground arith)))
    ]
  where
    text :
        IsTyped "String" a.data_type ⊎ IsTyped "Number" a.data_type
        → has_prefix (codes "Binary") (codes a.data_type) ≡ false
        → IsValued a
    text t e = inr (
      t,
      ground arith,
      ground arith,
      no_string a.string_value (ground arith),
      sqs_allowed_unicode_bytes-IsText (to_bytes a.string_value) (ground arith),
    )

all_tests :
    (some' name reserved dotted typed strings binaries value nothing : Bool)
    → (some'
        && name
        && not reserved
        && not dotted
        && typed
        && not (strings || binaries)
        && value
        && not nothing)
      ≡ true
    → (name ≡ true)
      × (reserved ≡ false)
      × (dotted ≡ false)
      × (typed ≡ true)
      × (strings ≡ false)
      × (binaries ≡ false)
      × (value ≡ true)
      × (nothing ≡ false)
all_tests some' name reserved dotted typed strings binaries value nothing h = ground arith

pub valid_attribute-IsAttribute :
    (a : String × MessageAttribute) → valid_attribute a ≡ true → IsAttribute a
unfolding valid_attribute
valid_attribute-IsAttribute (key, a) h =
    let (name, reserved, dotted, typed, strings, binaries, value, nothing) =
      all_tests _ _ _ _ _ a.has_string_list a.has_binary_list _ _ h in
    record {
      name_ok = is_attribute_name-IsName key name reserved dotted;
      valued = has_prefix-IsValued a typed value nothing;
      no_strings = strings;
      no_binaries = binaries;
    }
