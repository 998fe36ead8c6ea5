-- ===== src/Database/Literals.antt =====
-- Literals in SQL text: what sqlStringLiteral of internal/outboxer/db.go writes is read back whole.
use Prim.Native.Char.{Char, code}
use Prim.Native.String
use text.Mathlib.TextLemmas.{nil-append, cons-append, append_assoc}
use outboxer.Prelude.{
  String, Bool, true, false, Option, none, some, ◌≡◌, refl, ap, ◌∙◌, Bool-cases, inl, inr,
  if◌then◌else◌, nat_beq, format,
}
use outboxer.Database.{double_quotes, sql_string_literal}

abbrev quoted : Char → Bool
quoted c = nat_beq (code c) b'\''

abbrev put_first : Char → Option (String × String) → Option (String × String)
put_first c none = none
put_first c (some (value, rest)) = some (String.◌∷◌ c value, rest)

-- How PostgreSQL reads a literal after its first quote, with standard_conforming_strings: two
-- quotes are one of the value, and a single one ends it. The value, and the text that follows.
abbrev pub literal_body : String → Option (String × String)
literal_body String.[] = none
literal_body (String.◌∷◌ c String.[]) = if quoted c then some ("", "") else none
literal_body (String.◌∷◌ c (String.◌∷◌ d s)) =
    let doubled = put_first c (literal_body s) in
    let plain = put_first c (literal_body (String.◌∷◌ d s)) in
    if quoted c then (if quoted d then doubled else some ("", String.◌∷◌ d s)) else plain

abbrev pub read_literal : String → Option (String × String)
read_literal String.[] = none
read_literal (String.◌∷◌ c s) = if quoted c then literal_body s else none

-- The text goes on with something other than a quote, or ends.
abbrev pub goes_on : String → Bool
goes_on String.[] = true
goes_on (String.◌∷◌ c s) = if quoted c then false else true

plain_body :
    (c : Char) (s : String)
    → quoted c ≡ false
    → literal_body (String.◌∷◌ c s) ≡ put_first c (literal_body s)
plain_body c String.[] h = rw h refl
plain_body c (String.◌∷◌ d s) h = rw h refl

double_body :
    (c : Char) (s : String)
    → quoted c ≡ true
    → literal_body (String.◌∷◌ c (String.◌∷◌ c s)) ≡ put_first c (literal_body s)
double_body c s h = rw h refl

end_body :
    (c : Char) (rest : String)
    → quoted c ≡ true
    → goes_on rest ≡ true
    → literal_body (String.◌∷◌ c rest) ≡ some ("", rest)
end_body c String.[] q h = rw q refl
end_body c (String.◌∷◌ d s) q h = elim (Bool-cases (quoted d)) [
  | inl quote ↦ cc (rw quote at h)
  | inr other ↦ rw (q, other) refl
]

quote-append : (s : String) → String.◌++◌ "'" s ≡ String.◌∷◌ "'" s
quote-append s = rw (cons-append "'" "" s, nil-append s) refl

body :
    (value rest : String)
    → goes_on rest ≡ true
    → literal_body (String.◌++◌ (double_quotes value) (String.◌++◌ "'" rest)) ≡ some (value, rest)
unfolding double_quotes
body String.[] rest h =
    rw (nil-append (String.◌++◌ "'" rest), quote-append rest) (end_body "'" rest refl h)
body (String.◌∷◌ c s) rest h = elim (Bool-cases (quoted c)) [
  | inl quote ↦
      rw
        (
          quote,
          cons-append c (String.◌∷◌ c (double_quotes s)) (String.◌++◌ "'" rest),
          cons-append c (double_quotes s) (String.◌++◌ "'" rest),
        )
        (double_body c (String.◌++◌ (double_quotes s) (String.◌++◌ "'" rest)) quote
          ∙ ap (put_first c) (body s rest h))
  | inr other ↦
      rw (other, cons-append c (double_quotes s) (String.◌++◌ "'" rest))
        (plain_body c (String.◌++◌ (double_quotes s) (String.◌++◌ "'" rest)) other
          ∙ ap (put_first c) (body s rest h))
]

-- What sqlStringLiteral writes for a text is read as that text and nothing else, wherever the
-- literal stands, if no quote follows it: no text ends its literal early.
pub read_literal-sql_string_literal :
    (value rest : String)
    → goes_on rest ≡ true
    → read_literal (String.◌++◌ (sql_string_literal value) rest) ≡ some (value, rest)
unfolding sql_string_literal format
read_literal-sql_string_literal value rest h =
    rw
      (
        append_assoc "'" (String.◌++◌ (double_quotes value) "'") rest,
        append_assoc (double_quotes value) "'" rest,
        quote-append (String.◌++◌ (double_quotes value) (String.◌++◌ "'" rest)),
      )
      (body value rest h)
