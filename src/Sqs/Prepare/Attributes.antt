-- ===== src/Sqs/Prepare/Attributes.antt =====
-- What an attribute of a message may be, and how large a message is, said without the tests of
-- validSQSAttributes and sqsMessageSize (internal/outboxer/sqs/options.go).
use outboxer.Prelude.{
  ℕ, ◌+◌, ◌≤◌, String, Bool, true, false, List, [], ◌∷◌, ◌++◌, map, ◌≡◌, ◌≢◌, ◌⊎◌, refl, ◌∙◌, ap,
  All, length, length-append, total, arith, string_eq, codes, if◌then◌else◌, to_lower, IsFront,
  IsEnd, IsWithin,
}
use outboxer.Value.{to_bytes}
use outboxer.Sqs.{MessageAttribute}
use outboxer.Sqs.Poison.{attribute_size, sqs_message_size, text_size}
use outboxer.Sqs.Prepare.Texts.{IsText}

-- A letter, a digit, or one of `_`, `-` and `.`
abbrev pub IsNameChar : ℕ → Type 0
IsNameChar c =
    ((b'A' ≤ c) × (c ≤ b'Z'))
    ⊎ ((b'a' ≤ c) × (c ≤ b'z'))
    ⊎ ((b'0' ≤ c) × (c ≤ b'9'))
    ⊎ (c ≡ b'_')
    ⊎ (c ≡ b'.')
    ⊎ (c ≡ b'-')

-- A name of at most 256 such characters that is not reserved for AWS, in whatever case, and in
-- which dots are neither at an end nor next to each other.
pub record IsName (name : List ℕ) : Type 0 where
  pub some_name : 1 ≤ length name
  pub short : length name ≤ 256
  pub characters : All IsNameChar name
  pub not_aws : IsFront (codes "aws.") (map to_lower name) → ⊥
  pub not_amazon : IsFront (codes "amazon.") (map to_lower name) → ⊥
  pub first_dot : IsFront (codes ".") name → ⊥
  pub last_dot : IsEnd (codes ".") name → ⊥
  pub dots : IsWithin (codes "..") name → ⊥

-- A type of SQS, or one with a label after a dot.
abbrev pub IsTyped : String → String → Type 0
IsTyped base type =
    (codes type ≡ codes base) ⊎ ((label : List ℕ) × (codes type ≡ codes base ++ (b'.' ∷ label)))

-- The value is the one that the type asks for, and not empty.
abbrev pub IsValued : MessageAttribute → Type 0
IsValued a =
    (IsTyped "Binary" a.data_type
      × (a.has_binary_value ≡ true)
      × (a.has_string_value ≡ false)
      × (a.binary_value ≢ []))
    ⊎ ((IsTyped "String" a.data_type ⊎ IsTyped "Number" a.data_type)
        × (a.has_string_value ≡ true)
        × (a.has_binary_value ≡ false)
        × (a.string_value ≢ "")
        × IsText (to_bytes a.string_value))

pub record IsAttribute (a : String × MessageAttribute) : Type 0 where
  pub name_ok : IsName (codes a.0)
  pub valued : IsValued a.1
  pub no_strings : a.1.has_string_list ≡ false
  pub no_binaries : a.1.has_binary_list ≡ false

-- The bytes of a message that count: the body, and of each attribute the name, the type and the
-- values.
abbrev pub string_bytes : MessageAttribute → List ℕ
string_bytes a = if a.has_string_value then to_bytes a.string_value else []

abbrev pub binary_bytes : MessageAttribute → List ℕ
binary_bytes a = if a.has_binary_value then a.binary_value else []

abbrev pub joined : List (List ℕ) → List ℕ
joined [] = []
joined (part ∷ parts) = part ++ joined parts

abbrev pub attribute_bytes : String × MessageAttribute → List ℕ
attribute_bytes (name, a) =
    to_bytes name
    ++ (to_bytes a.data_type
        ++ (string_bytes a
            ++ (binary_bytes a
                ++ (joined (map to_bytes a.string_list_values) ++ joined a.binary_list_values))))

abbrev pub message_bytes : List ℕ → List (String × MessageAttribute) → List ℕ
message_bytes body attributes = body ++ joined (map attribute_bytes attributes)

length-joined_texts : (ss : List String) → length (joined (map to_bytes ss)) ≡ total text_size ss
length-joined_texts [] = refl
length-joined_texts (s ∷ ss) =
    length-append (to_bytes s) (joined (map to_bytes ss))
    ∙ ap (λ n. length (to_bytes s) + n) (length-joined_texts ss)

length-joined : (bs : List (List ℕ)) → length (joined bs) ≡ total length bs
length-joined [] = refl
length-joined (b ∷ bs) = length-append b (joined bs) ∙ ap (λ n. length b + n) (length-joined bs)

length_if : (b : Bool) (xs : List ℕ) → length (if b then xs else []) ≡ (if b then length xs else 0)
length_if true xs = refl
length_if false xs = refl

length-attribute_bytes :
    (a : String × MessageAttribute) → length (attribute_bytes a) ≡ attribute_size a
length-attribute_bytes (name, a) =
    let texts = joined (map to_bytes a.string_list_values) in
    let lists = texts ++ joined a.binary_list_values in
    let from_binary = binary_bytes a ++ lists in
    let from_text = string_bytes a ++ from_binary in
    let from_type = to_bytes a.data_type ++ from_text in
    let e1 = length-append (to_bytes name) from_type in
    let e2 = length-append (to_bytes a.data_type) from_text in
    let e3 = length-append (string_bytes a) from_binary in
    let e4 = length-append (binary_bytes a) lists in
    let e5 = length-append texts (joined a.binary_list_values) in
    let e6 = length-joined_texts a.string_list_values in
    let e7 = length-joined a.binary_list_values in
    let e8 = length_if a.has_string_value (to_bytes a.string_value) in
    let e9 = length_if a.has_binary_value a.binary_value in omega arith

length-attributes :
    (attributes : List (String × MessageAttribute))
    → length (joined (map attribute_bytes attributes)) ≡ total attribute_size attributes
length-attributes [] = refl
length-attributes (a ∷ rest) =
    length-append (attribute_bytes a) (joined (map attribute_bytes rest))
    ∙ (ap (λ n. n + length (joined (map attribute_bytes rest))) (length-attribute_bytes a)
        ∙ ap (λ n. attribute_size a + n) (length-attributes rest))

pub length-message_bytes :
    (body : List ℕ) (attributes : List (String × MessageAttribute))
    → length (message_bytes body attributes) ≡ sqs_message_size body attributes
unfolding sqs_message_size
length-message_bytes body attributes =
    length-append body (joined (map attribute_bytes attributes))
    ∙ ap (λ n. length body + n) (length-attributes attributes)
