-- ===== src/Sqs/Options.antt =====
-- The SQS section of an event's options: the readers of internal/outboxer/sqs/options.go.
pub mod Delay
use outboxer.Prelude.{
  ℕ, zero, suc, ◌+◌, ◌-◌, ◌*◌, ◌/◌, ◌%◌, ◌^◌, String, Bool, true, false, ◌&&◌, Option, none, some,
  List, [], ◌∷◌, if◌then◌else◌, nat_beq, ltb, is_empty, insert, string_eq, format,
}
use outboxer.Prelude.Int.{ℤ, pos, negsuc, pos_part, neg_part, leb_ℤ}
use outboxer.Value.{
  Value, Fields, null, str, int, float, no_fields, field, Result, ok, err, ◌>>=◌, field?, as_object,
}
use outboxer.Provider.{Options, malformed}
use outboxer.Sqs.{MessageAttribute}

abbrev optional_of : String → Option Value → Result (Option String)
optional_of key none = ok none
optional_of key (some null) = ok none
optional_of key (some (str s)) = ok (some s)
optional_of key (some _) = err (format (key ∷ " must be a string" ∷ []))

-- optionalString
unfoldable pub optional_string : Fields → String → Result (Option String)
unfolding field?
optional_string m key = optional_of key (field? m key)

abbrev required_of : String → Option String → Result String
required_of key none = err (format (key ∷ " is required" ∷ []))
required_of key (some s) = if is_empty s then err (format (key ∷ " is required" ∷ [])) else ok s

-- requiredString
unfoldable pub required_string : Fields → String → Result String
unfolding optional_string
required_string m key = do value ← optional_string m key; required_of key value

abbrev is_there : Option Value → Bool
is_there none = false
is_there (some v) = true

abbrev string_or_empty : Option String → String
string_or_empty none = ""
string_or_empty (some s) = s

abbrev bytes_or_empty : Option (List ℕ) → List ℕ
bytes_or_empty none = []
bytes_or_empty (some b) = b

abbrev given {ℓ} : {A : Type ℓ} → Option A → Bool
given none = false
given (some a) = true

-- The attribute's name is put before what is wrong with it.
abbrev in_attribute : String → Result MessageAttribute → Result MessageAttribute
in_attribute name (ok attribute) = ok attribute
in_attribute name (err problem) =
    err (malformed (format ("attribute " ∷ name ∷ ": " ∷ problem ∷ [])))

-- `decode_base64` is the standard encoding's DecodeString of Go's library.
module _ (decode_base64 : String → Result (List ℕ)) where
  abbrev decoded_of : String → Option String → Result (Option (List ℕ))
  decoded_of key none = ok none
  decoded_of key (some s) = elim (decode_base64 s) [
    | ok b ↦ ok (some b)
    | err problem ↦ err (format (key ∷ " must be base64: " ∷ problem ∷ []))
  ]

  -- optionalBase64
  unfoldable pub optional_base64 : Fields → String → Result (Option (List ℕ))
  unfolding optional_string
  optional_base64 m key = do value ← optional_string m key; decoded_of key value

  abbrev attribute_of : Option Fields → Result MessageAttribute
  attribute_of none = err "must be a MessageAttributeValue object"
  attribute_of (some m) = do
    data_type ← required_string m "DataType"
    text ← optional_string m "StringValue"
    binary ← optional_base64 m "BinaryValue"
    if is_there (field? m "StringListValues")
        then err "StringListValues is reserved by SQS and not supported"
        else if is_there (field? m "BinaryListValues")
        then err "BinaryListValues is reserved by SQS and not supported"
        else ok (record {
          data_type = data_type;
          string_value = string_or_empty text;
          binary_value = bytes_or_empty binary;
          string_list_values = [];
          binary_list_values = [];
          has_string_value = given text;
          has_binary_value = given binary;
          has_string_list = false;
          has_binary_list = false;
        })

  -- sqsMessageAttributeValue
  unfoldable pub sqs_message_attribute_value : Value → Result MessageAttribute
  unfolding required_string optional_string optional_base64 field? as_object
  sqs_message_attribute_value value = attribute_of (as_object value)

  -- The loop over the attributes, in the order in which the map is visited.
  unfoldable pub convert_attributes :
      List (String × MessageAttribute) → Fields → Result (List (String × MessageAttribute))
  unfolding sqs_message_attribute_value insert
  convert_attributes converted no_fields = ok converted
  convert_attributes converted (field name raw m) =
      in_attribute name (sqs_message_attribute_value raw) >>= λ attribute.
      convert_attributes (insert name attribute converted) m

  abbrev attributes_of : Option Value → Result (List (String × MessageAttribute))
  attributes_of none = ok []
  attributes_of (some null) = ok []
  attributes_of (some v) = elim (as_object v) [
    | none ↦ err (malformed "attributes must be an object")
    | some m ↦ convert_attributes [] m
  ]

  -- sqsAttributes; a nil map is an empty one.
  unfoldable pub sqs_attributes : Options → Result (List (String × MessageAttribute))
  unfolding convert_attributes field? as_object
  sqs_attributes o = attributes_of (field? o.values "attributes")

-- The integer of a bit pattern of 32 bits, and the conversion int32(n).
abbrev pub signed32 : ℕ → ℤ
signed32 low = if ltb low (2 ^ 31) then pos low else negsuc (2 ^ 32 - 1 - low)

unfoldable pub int32_of_int : ℤ → ℤ
int32_of_int (pos n) = signed32 (n % 2 ^ 32)
int32_of_int (negsuc n) = signed32 (2 ^ 32 - 1 - n % 2 ^ 32)

abbrev pub same_ℤ : ℤ → ℤ → Bool
same_ℤ a b = nat_beq (pos_part a + neg_part b) (pos_part b + neg_part a)

abbrev pub negated : ℕ → ℤ
negated zero = pos 0
negated (suc n) = negsuc n

abbrev pub fits_int32 : ℤ → Bool
fits_int32 n = leb_ℤ (negsuc (2 ^ 31 - 1)) n && leb_ℤ n (pos (2 ^ 31 - 1))

-- The integer part of n / 2^k, toward zero.
abbrev pub truncated : ℤ → ℕ → ℤ
truncated (pos n) k = pos (n / 2 ^ k)
truncated (negsuc n) k = negated (suc n / 2 ^ k)

-- s * 2^k
abbrev pub scaled : ℤ → ℕ → ℤ
scaled (pos s) k = pos (s * 2 ^ k)
scaled (negsuc s) k = negated (suc s * 2 ^ k)

-- `out_of_range` is what the machine makes of a float64 that no int32 can hold.
module _ (out_of_range : ℤ → ℕ → ℤ) where
  unfoldable pub int32_of_float : ℤ → ℕ → ℤ
  int32_of_float n k = if fits_int32 (truncated n k) then truncated n k else out_of_range n k

  abbrev delay_of : Option Value → Result (Option ℤ)
  delay_of none = ok none
  delay_of (some null) = ok none
  delay_of (some (int n)) =
      if same_ℤ (int32_of_int n) n
      then ok (some (int32_of_int n))
      else err (malformed "delaySeconds must be a valid int32")
  delay_of (some (float n k)) =
      if same_ℤ (scaled (int32_of_float n k) k) n
      then ok (some (int32_of_float n k))
      else err (malformed "delaySeconds must be an integer")
  delay_of (some _) = err (malformed "delaySeconds must be an integer")

  -- sqsDelaySeconds
  unfoldable pub sqs_delay_seconds : Options → Result (Option ℤ)
  unfolding int32_of_int int32_of_float field?
  sqs_delay_seconds o = delay_of (field? o.values "delaySeconds")

abbrev trace_problem : Result String
trace_problem = err (malformed "only AWSTraceHeader is supported in messageSystemAttributes")

abbrev trace_header_of : Fields → Result String
trace_header_of no_fields = ok ""
trace_header_of (field key v (field key' v' m)) = trace_problem
trace_header_of (field key v no_fields) =
    if is_there (field? (field key v no_fields) "AWSTraceHeader")
    then elim (required_string (field key v no_fields) "AWSTraceHeader") [
      | ok header ↦ ok header
      | err problem ↦ err (malformed problem)
    ]
    else trace_problem

abbrev trace_of : Option Value → Result String
trace_of none = ok ""
trace_of (some null) = ok ""
trace_of (some v) = elim (as_object v) [
  | none ↦ err (malformed "messageSystemAttributes must be an object")
  | some m ↦ trace_header_of m
]

-- sqsAWSTraceHeader
unfoldable pub sqs_aws_trace_header : Options → Result String
unfolding required_string field? as_object
sqs_aws_trace_header o = trace_of (field? o.values "messageSystemAttributes")
