-- ===== src/Config/Precedence.antt =====
-- Where a setting comes from: the command line, else the environment, else the default.
use outboxer.Prelude.{
  ℕ, String, Bool, true, false, Option, none, some, List, [], ◌∷◌, ◌≡◌, ◌≢◌, refl, ◌∙◌, ap, sym,
  subst, ◌⊎◌, inl, inr, All, All-map, In, All-In, Bool-cases, Option-cases, if◌then◌else◌, ◌==◌,
  string_eq, lookup, insert, lookup-insert, arith,
}
use outboxer.Prelude.Int.{ℤ}
use outboxer.Value.{Result, ok, err, ◌>>=◌}
use outboxer.Config.Flags.{
  Setting, FlagKind, bool_flag, CliOption, Cells, Parsed, set_value, find_option, set_option,
  flag_set, first_set, named_error, apply_one, apply_env, retired_env_vars, reject_retired_env,
}
use outboxer.Config.Arguments.{
  Argument, operand, terminator, malformed_flag, flag_of, valued_flag, undefined_flag,
  argument_then, bad_syntax, argument, is_bool, one_flag, value_or_true, parse_args,
}
use outboxer.Config.Options.{default_cells, parse_settings}
pub mod CommandLine
pub mod Environment
pub mod Settings
pub mod Loaded

-- No two options have one name.
abbrev pub AreDistinct : List CliOption → Type 0
AreDistinct [] = Unit
AreDistinct (o ∷ options) =
    All (λ (p : CliOption). (p.name == o.name) ≡ false) options × AreDistinct options

pub same_name : (a b : String) → a ≡ b → (a == b) ≡ true
same_name a b e = (string_eq.beq_iff a b).1 e

pub other_name :
    (p o : CliOption) (options : List CliOption)
    → All (λ (q : CliOption). (q.name == p.name) ≡ false) options
    → In o options
    → (p.name == o.name) ≡ false
other_name p o options h later = elim (Bool-cases (p.name == o.name)) [
  | inl same ↦
      (let named = same_name o.name p.name (sym ((string_eq.beq_iff p.name o.name).0 same)) in
        let different = All-In (λ (q : CliOption). (q.name == p.name) ≡ false) o options h later in
        cc (named, different))
  | inr different ↦ different
]

-- The value that a list of assignments gives last.
abbrev pub last_given : String → List (String × String) → Option String
last_given name [] = none
last_given name ((other, value) ∷ rest) = elim (last_given name rest) [
  | some later ↦ some later
  | none ↦ if other == name then some value else none
]

module _ (parse_int : String → Option ℤ) where
  -- A flag without `=` takes the next argument, unless it is a Boolean flag.
  abbrev pub assignment :
      Option CliOption
      → String
      → Option String
      → String
      → List (String × String)
      → List (String × String)
      → List (String × String)
  assignment found name (some value) next rest later = (name, value) ∷ rest
  assignment found name none next rest later =
      if is_bool parse_int found then (name, "true") ∷ rest else (name, next) ∷ later

  abbrev pub assigned_then :
      Argument → (String → Option String → List (String × String)) → List (String × String)
  assigned_then (flag_of name value) flag = flag name value
  assigned_then operand flag = []
  assigned_then terminator flag = []
  assigned_then malformed_flag flag = []

  -- The flags of a command line, in order, up to the first argument that is none.
  abbrev pub assigned : List CliOption → List String → List (String × String)
  assigned options [] = []
  assigned options (a ∷ []) =
      assigned_then (argument parse_int a) λ name value. (name, value_or_true parse_int value) ∷ []
  assigned options (a ∷ b ∷ args) =
      let rest = assigned options (b ∷ args) in
      let later = assigned options args in
      assigned_then (argument parse_int a)
        λ name value. assignment (find_option parse_int name options) name value b rest later

  -- A variable after a value was given for it or not.
  abbrev pub After : FlagKind → Option String → Option Setting → Option Setting → Type 0
  After kind none old new = new ≡ old
  After kind (some given) old new =
      (v : Setting) × (set_value parse_int kind given ≡ ok v) × (new ≡ some v)

  find_option-name :
      (name : String) (options : List CliOption) (o : CliOption)
      → find_option parse_int name options ≡ some o
      → o.name ≡ name
  unfolding find_option
  find_option-name name [] o h = cc h
  find_option-name name (p ∷ options) o h = elim (Bool-cases (p.name == name)) [
    | inl same ↦
        (let e : p ≡ o = cc (rw same at h) in
          ap (λ (q : CliOption). q.name) (sym e) ∙ (string_eq.beq_iff p.name name).0 same)
    | inr other ↦ find_option-name name options o (rw other at h)
  ]

  set_option_inv :
      (found : Option CliOption) (name given : String) (cells cells' : Cells)
      → set_option parse_int found name given cells ≡ ok cells'
      → (p : CliOption) × (v : Setting) × (found ≡ some p)
        × (set_value parse_int p.kind given ≡ ok v)
        × (cells' ≡ insert p.name v cells)
  set_option_inv none name given cells cells' h = cc h
  set_option_inv (some p) name given cells cells' h =
      valued (set_value parse_int p.kind given) refl h
    where
      valued :
          (r : Result Setting)
          → set_value parse_int p.kind given ≡ r
          → (r >>= λ v. ok (insert p.name v cells)) ≡ ok cells'
          → (q : CliOption) × (v : Setting) × (◌≡◌ {A = Option CliOption} (some p) (some q))
            × (set_value parse_int q.kind given ≡ ok v)
            × (cells' ≡ insert q.name v cells)
      valued (err problem) e k = cc k
      valued (ok v) e k = (p, v, refl, e, cc k)

  -- What a successful Set does to the variable of an option.
  pub flag_set-After :
      (options : List CliOption) (o : CliOption) (name given : String) (cells cells' : Cells)
      → find_option parse_int o.name options ≡ some o
      → flag_set parse_int options name given cells ≡ ok cells'
      → After o.kind
          (if name == o.name then some given else none)
          (lookup o.name cells)
          (lookup o.name cells')
  unfolding flag_set
  flag_set-After options o name given cells cells' found h =
      let (p, v, is, valued, e) =
        set_option_inv (find_option parse_int name options) name given cells cells' h in
      let named = find_option-name name options p is in
      let read = ap (lookup o.name) e ∙ lookup-insert p.name o.name v cells in
      pick p v is valued named read (name == o.name) refl
    where
      pick :
          (p : CliOption) (v : Setting)
          → find_option parse_int name options ≡ some p
          → set_value parse_int p.kind given ≡ ok v
          → p.name ≡ name
          → lookup o.name cells' ≡ (if p.name == o.name then some v else lookup o.name cells)
          → (b : Bool) → (name == o.name) ≡ b
          → After o.kind
              (if b then some given else none)
              (lookup o.name cells)
              (lookup o.name cells')
      pick p v is valued named read true t =
          let same = (string_eq.beq_iff name o.name).0 t in
          let both : some p ≡ some o =
            sym is ∙ (ap (λ n. find_option parse_int n options) same ∙ found) in
          let one : p ≡ o = cc both in
          (
            v,
            subst (λ (q : CliOption). set_value parse_int q.kind given ≡ ok v) one valued,
            read ∙ rw (named, t) refl,
          )
      pick p v is valued named read false t = read ∙ rw (named, t) refl

  -- A variable after two lists of assignments, the second one made later.
  pub After-then :
      (kind : FlagKind) (first later : Option String) (old middle new : Option Setting)
      → After kind first old middle
      → After kind later middle new
      → After kind (elim later as (λ _. Option String) [ some t ↦ some t | none ↦ first ]) old new
  After-then kind first (some t) old middle new a b = b
  After-then kind none none old middle new a b = b ∙ a
  After-then kind (some t) none old middle new (v, e, r) b = (v, e, b ∙ r)
