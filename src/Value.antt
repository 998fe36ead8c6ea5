-- ===== src/Value.antt =====
-- Raw values: what database/sql returns for a column and what encoding/json decodes (Go's `any`),
-- and the functions of Go's standard library that the program applies to them.
use Prim.Native.Char.{code}
use outboxer.Prelude.{
  ℕ, ◌+◌, ◌/◌, ◌%◌, ◌-◌, ◌^◌, min, String, Bool, Option, none, some, List, [], ◌∷◌, ◌++◌, ltb,
  if◌then◌else◌, ◌==◌, string_eq,
}
use outboxer.Prelude.Int.{ℤ}

-- Nanoseconds since Go's zero time (January 1 of year 1), so that 0 is the zero time.
abbrev pub Time : Type 0
Time = ℕ

-- `now.Sub(t)` for a time that is not after `now`; a Duration holds at most 2^63 - 1.
abbrev pub max_duration : ℕ
max_duration = 2 ^ 63 - 1

unfoldable pub elapsed : Time → Time → ℕ
elapsed now t = min (now - t) max_duration

-- `float n k` is the finite float64 n / 2^k.
mutual
  pub data Value : Type 0 where
    null : Value
    boolean : Bool → Value
    int : ℤ → Value
    float : ℤ → ℕ → Value
    str : String → Value
    bytes : List ℕ → Value
    time : Time → Value
    array : Items → Value
    object : Fields → Value

  -- map[string]any
  pub data Fields : Type 0 where
    no_fields : Fields
    field : String → Value → Fields → Fields

  -- []any
  pub data Items : Type 0 where
    no_items : Items
    item : Value → Items → Items

-- `value, ok := m[key]`
unfoldable pub field? : Fields → String → Option Value
field? no_fields key = none
field? (field k v m) key = if k == key then some v else field? m key

abbrev pub or_null : Option Value → Value
or_null none = null
or_null (some v) = v

-- `m[key]`: nil for a key that is not there
unfoldable pub get : Fields → String → Value
unfolding field?
get m key = or_null (field? m key)

-- `m[key] = value`
unfoldable pub put : Fields → String → Value → Fields
put no_fields key value = field key value no_fields
put (field k v m) key value = if k == key then field k value m else field k v (put m key value)

-- provider.Object
unfoldable pub as_object : Value → Option Fields
as_object (object m) = some m
as_object _ = none

-- The UTF-8 bytes of a code point.
abbrev utf8 : ℕ → List ℕ
utf8 c =
    if ltb c 0x80
    then c ∷ []
    else if ltb c 0x800
    then (0xC0 + c / 64) ∷ (0x80 + c % 64) ∷ []
    else if ltb c 0x10000
    then (0xE0 + c / 4096) ∷ (0x80 + c / 64 % 64) ∷ (0x80 + c % 64) ∷ []
    else (0xF0 + c / 262144) ∷ (0x80 + c / 4096 % 64) ∷ (0x80 + c / 64 % 64) ∷ (0x80 + c % 64) ∷ []

-- `[]byte(s)`
unfoldable pub to_bytes : String → List ℕ
to_bytes String.[] = []
to_bytes (String.◌∷◌ c s) = utf8 (code c) ++ to_bytes s

-- A function that returns a value or an error, where only the error's text is ever read.
pub data Result {ℓ} (A : Type ℓ) : Type ℓ where
  ok : A → Result A
  err : String → Result A

infixl 10 ◌>>=◌
abbrev pub ◌>>=◌ {ℓ κ} : {A : Type ℓ} {B : Type κ} → Result A → (A → Result B) → Result B
ok a >>= f = f a
err e >>= f = err e

-- The layouts of time.Parse that the program tries.
pub data Layout : Type 0 where
  rfc3339_nano datetime_nano datetime : Layout

-- fmt's verbs %T and %v, encoding/json's Unmarshal, the conversion string(b), Time.Format at
-- RFC3339Nano, and time.Parse.
pub record Runtime : Type 0 where
  pub type_name : Value → String
  pub sprint : Value → String
  pub unmarshal : List ℕ → Result Value
  pub from_bytes : List ℕ → String
  pub format_time : Time → String
  pub parse_time : Layout → String → Option Time
