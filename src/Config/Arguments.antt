-- ===== src/Config/Arguments.antt =====
-- What the flag package of Go's library makes of the command line that
-- internal/outboxer/config_flags.go gives it, as its documentation says. Its error texts are
-- shortened.
use Prim.Native.Char.{code}
use outboxer.Prelude.{
  String, Bool, true, false, ◌||◌, Option, none, some, List, [], ◌∷◌, if◌then◌else◌, nat_beq,
  string_eq, format, ◌==◌,
}
use outboxer.Prelude.Int.{ℤ}
use outboxer.Value.{Result, ok, err, ◌>>=◌}
use outboxer.Config.Flags.{bool_flag, CliOption, Cells, Parsed, flag_set, find_option}

-- What the library takes an argument for.
pub data Argument : Type 0 where
  operand terminator malformed_flag : Argument
  flag_of : String → Option String → Argument

module _ (parse_int : String → Option ℤ) where
  -- A name, and the value after the first `=`.
  unfoldable pub name_and_value : String → String × Option String
  name_and_value String.[] = ("", none)
  name_and_value (String.◌∷◌ c s) =
      let (name, value) = name_and_value s in
      if nat_beq (code c) b'=' then ("", some s) else (String.◌∷◌ c name, value)

  abbrev flag_text : String → Argument
  flag_text String.[] = malformed_flag
  flag_text (String.◌∷◌ c s) =
      let (name, value) = name_and_value (String.◌∷◌ c s) in
      if nat_beq (code c) b'-' || nat_beq (code c) b'=' then malformed_flag else flag_of name value

  -- After the first dash
  abbrev dashed : String → Argument
  dashed String.[] = operand
  dashed (String.◌∷◌ c String.[]) =
      if nat_beq (code c) b'-' then terminator else flag_text (String.◌∷◌ c String.[])
  dashed (String.◌∷◌ c (String.◌∷◌ d s)) =
      if nat_beq (code c) b'-'
      then flag_text (String.◌∷◌ d s)
      else flag_text (String.◌∷◌ c (String.◌∷◌ d s))

  unfoldable pub argument : String → Argument
  unfolding name_and_value
  argument String.[] = operand
  argument (String.◌∷◌ c s) = if nat_beq (code c) b'-' then dashed s else operand

  abbrev pub is_bool : Option CliOption → Bool
  is_bool none = false
  is_bool (some o) = elim o.kind [ bool_flag ↦ true | _ ↦ false ]

  abbrev pub undefined_flag : String → Result Parsed
  undefined_flag name =
      if name == "help" || name == "h"
      then err "flag: help requested"
      else err (format ("flag provided but not defined: -" ∷ name ∷ []))

  abbrev pub value_or_true : Option String → String
  value_or_true none = "true"
  value_or_true (some value) = value

  -- One flag: `value` follows `=`, `next` is the next argument with what is done after it, and
  -- `go_on` is what is done if no further argument is taken.
  abbrev pub valued_flag :
      List CliOption
      → Cells
      → String
      → Option String
      → Option (String × (Cells → Result Parsed))
      → (Cells → Result Parsed)
      → Result Parsed
  valued_flag options cells name (some v) next go_on =
      flag_set parse_int options name v cells >>= go_on
  valued_flag options cells name none none go_on =
      err (format ("flag needs an argument: -" ∷ name ∷ []))
  valued_flag options cells name none (some (v, after)) go_on =
      flag_set parse_int options name v cells >>= after

  abbrev pub one_flag :
      Option CliOption
      → List CliOption
      → Cells
      → String
      → Option String
      → Option (String × (Cells → Result Parsed))
      → (Cells → Result Parsed)
      → Result Parsed
  one_flag none options cells name value next go_on = undefined_flag name
  one_flag (some o) options cells name value next go_on =
      if is_bool (some o)
      then flag_set parse_int options name (value_or_true value) cells >>= go_on
      else valued_flag options cells name value next go_on

  -- What is done with an argument: where it is none, ends the flags, has no name, or is a flag.
  abbrev pub argument_then :
      Argument
      → Result Parsed
      → Result Parsed
      → Result Parsed
      → (String → Option String → Result Parsed)
      → Result Parsed
  argument_then operand stop ended malformed flag = stop
  argument_then terminator stop ended malformed flag = ended
  argument_then malformed_flag stop ended malformed flag = malformed
  argument_then (flag_of name value) stop ended malformed flag = flag name value

  abbrev pub bad_syntax : String → Result Parsed
  bad_syntax a = err (format ("bad flag syntax: " ∷ a ∷ []))

  -- FlagSet.Parse
  unfoldable pub parse_args : List CliOption → Cells → List String → Result Parsed
  unfolding flag_set argument find_option
  parse_args options cells [] = ok (cells, [])
  parse_args options cells (a ∷ []) =
      argument_then (argument a) (ok (cells, a ∷ [])) (ok (cells, [])) (bad_syntax a) λ name value.
        one_flag (find_option parse_int name options) options cells name value none
          (λ c. parse_args options c [])
  parse_args options cells (a ∷ b ∷ args) =
      argument_then (argument a) (ok (cells, a ∷ b ∷ args)) (ok (cells, b ∷ args)) (bad_syntax a)
        λ name value.
          one_flag (find_option parse_int name options) options cells name value
            (some (b, λ c. parse_args options c args)) (λ c. parse_args options c (b ∷ args))
