-- ===== src/Config/Flags.antt =====
-- The configuration's flags and environment variables: internal/outboxer/config_flags.go.
-- Usage texts are not modelled.
use outboxer.Prelude.{
  ℕ, ◌+◌, ◌-◌, ◌*◌, ◌^◌, String, Bool, true, false, Option, none, some, List, [], ◌∷◌, map,
  if◌then◌else◌, is_empty, nat_beq, ltb, contains, lookup, insert, string_eq, format, codes,
  between, same_codes, to_lower, ◌==◌,
}
use outboxer.Prelude.Int.{ℤ}
use outboxer.Value.{Result, ok, err, ◌>>=◌}

-- What a flag's variable holds.
pub data Setting : Type 0 where
  text : String → Setting
  integer : ℤ → Setting
  switch : Bool → Setting
  port : ℕ → Setting

-- The value types: nonEmptyStringValue, disableableStringValue, secretStringValue, the library's
-- int and bool, and uint16Value.
pub data FlagKind : Type 0 where
  non_empty disableable secret int_flag bool_flag uint16_flag : FlagKind

-- cliOption, with the variable's default.
pub record CliOption : Type 0 where
  pub name : String
  pub kind : FlagKind
  pub default : Setting
  pub env_vars : List String

abbrev pub disable_sentinel : String
disable_sentinel = "disabled"

-- strings.EqualFold with a text of ASCII: beside case, U+017F is an `s`.
abbrev folded : ℕ → ℕ
folded c = if nat_beq c 0x17F then b's' else to_lower c

abbrev lowered : String → List ℕ
lowered s = map folded (codes s)

-- The digits of a decimal number after the number so far, if they are digits.
unfoldable pub digits_after : ℕ → List ℕ → Option ℕ
digits_after n [] = some n
digits_after n (c ∷ cs) =
    let rest = digits_after (n * 10 + (c - b'0')) cs in if between b'0' b'9' c then rest else none

abbrev in_16_bits : Option ℕ → Result Setting
in_16_bits none = err "invalid syntax"
in_16_bits (some n) = if ltb n (2 ^ 16) then ok (port n) else err "value out of range"

-- strconv.ParseUint(value, 10, 16)
unfoldable pub parse_uint16 : List ℕ → Result Setting
unfolding digits_after
parse_uint16 [] = err "invalid syntax"
parse_uint16 (c ∷ cs) = in_16_bits (digits_after 0 (c ∷ cs))

-- strconv.ParseBool
unfoldable pub parse_bool : String → Result Setting
unfolding contains
parse_bool s =
    if contains s ("1" ∷ "t" ∷ "T" ∷ "true" ∷ "TRUE" ∷ "True" ∷ [])
    then ok (switch true)
    else if contains s ("0" ∷ "f" ∷ "F" ∷ "false" ∷ "FALSE" ∷ "False" ∷ [])
    then ok (switch false)
    else err "parse error"

-- nonEmptyStringValue.Set
abbrev pub set_non_empty : String → Result Setting
set_non_empty value = if is_empty value then err "value must not be empty" else ok (text value)

-- disableableStringValue.Set
abbrev pub set_disableable : String → Result Setting
set_disableable value =
    if is_empty value
    then err "value must not be empty; use \"disabled\" to omit it"
    else if same_codes (lowered value) (lowered disable_sentinel)
    then ok (text "")
    else ok (text value)

-- secretStringValue.Set
abbrev pub set_secret : String → Result Setting
set_secret value = if is_empty value then err "value must not be empty" else ok (text value)

abbrev parsed_int : Option ℤ → Result Setting
parsed_int none = err "parse error"
parsed_int (some n) = ok (integer n)

-- The variables of the flags, by the flags' names.
abbrev pub Cells : Type 0
Cells = List (String × Setting)

-- The settings, and the arguments that are no flags.
abbrev pub Parsed : Type 0
Parsed = Cells × List String

-- `parse_int` is strconv.ParseInt with base 0 and 64 bits.
module _ (parse_int : String → Option ℤ) where
  -- The Set methods
  unfoldable pub set_value : FlagKind → String → Result Setting
  unfolding parse_uint16 parse_bool
  set_value non_empty value = set_non_empty value
  set_value disableable value = set_disableable value
  set_value secret value = set_secret value
  set_value int_flag value = parsed_int (parse_int value)
  set_value bool_flag value = parse_bool value
  set_value uint16_flag value = parse_uint16 (codes value)

  unfoldable pub find_option : String → List CliOption → Option CliOption
  find_option name [] = none
  find_option name (o ∷ options) = if o.name == name then some o else find_option name options

  abbrev pub set_option : Option CliOption → String → String → Cells → Result Cells
  set_option none name value cells = err (format ("no such flag -" ∷ name ∷ []))
  set_option (some o) name value cells = set_value o.kind value >>= λ v. ok (insert o.name v cells)

  -- FlagSet.Set
  unfoldable pub flag_set : List CliOption → String → String → Cells → Result Cells
  unfolding find_option set_value insert
  flag_set options name value cells = set_option (find_option name options) name value cells

  -- The first variable of the list that is set, with its value.
  unfoldable pub first_set : List (String × String) → List String → Option (String × String)
  unfolding lookup
  first_set env [] = none
  first_set env (name ∷ names) = elim (lookup name env) [
    | some value ↦ some (name, value)
    | none ↦ first_set env names
  ]

  abbrev pub named_error : String → Result Cells → Result Cells
  named_error name (ok cells) = ok cells
  named_error name (err problem) = err (format ("invalid " ∷ name ∷ ": " ∷ problem ∷ []))

  abbrev pub apply_one :
      List CliOption → CliOption → Option (String × String) → Cells → Result Cells
  apply_one options o none cells = ok cells
  apply_one options o (some (name, value)) cells =
      named_error name (flag_set options o.name value cells)

  -- applyEnv: the loop over the options that are left, `all` being registered.
  unfoldable pub apply_env :
      List CliOption → List (String × String) → List CliOption → Cells → Result Cells
  unfolding first_set flag_set
  apply_env all env [] cells = ok cells
  apply_env all env (o ∷ options) cells =
      apply_one all o (first_set env o.env_vars) cells >>= λ cells'.
      apply_env all env options cells'

-- retiredEnvVars
abbrev pub retired_env_vars : List String
retired_env_vars =
    "SQS_SEND_CONCURRENCY" ∷ "BACKLOG_COUNT_LIMIT" ∷ "ERROR_COOLDOWN_MS" ∷ "PUBLISH_RESULT_GRACE_MS"
    ∷ "WATCHDOG_INTERVAL_MS" ∷ "STATS_INTERVAL_MS" ∷ "PG_CONNECT_TIMEOUT_MS"
    ∷ "AWS_ROLE_DURATION_SECONDS" ∷ "AWS_CREDENTIAL_REFRESH_WINDOW_MS" ∷ "HEALTH_STALE_AFTER_MS"
    ∷ "NOTIFY_CHANNEL" ∷ "POLL_INTERVAL_MS" ∷ []

-- rejectRetiredEnv: the first of these variables that is set, in the order in which the map is
-- visited; what it is fixed at is part of the text only.
unfoldable pub reject_retired_env : List (String × String) → List String → Option String
unfolding lookup
reject_retired_env env [] = none
reject_retired_env env (name ∷ names) = elim (lookup name env) [
  | some value ↦ some (format (name ∷ " was removed; unset it" ∷ []))
  | none ↦ reject_retired_env env names
]
