-- ===== src/Config/Precedence/Settings.antt =====
-- Where the settings of internal/outboxer/config_flags.go come from, as a whole.
use outboxer.Prelude.{
  String, Option, none, some, List, [], ◌∷◌, ◌≡◌, refl, ap, subst, inl, inr, In, string_eq, lookup,
}
use outboxer.Prelude.Int.{ℤ}
use outboxer.Value.{Result, ok, err, ◌>>=◌}
use outboxer.Config.Flags.{
  CliOption, Cells, Parsed, find_option, apply_env, retired_env_vars, reject_retired_env,
}
use outboxer.Config.Arguments.{parse_args}
use outboxer.Config.Options.{default_cells, parse_settings}
use outboxer.Config.Precedence.{
  AreDistinct, same_name, other_name, last_given, assigned, After, After-then,
}
use outboxer.Config.Precedence.CommandLine.{parse_args-After}
use outboxer.Config.Precedence.Environment.{
  env_value, env_assigned, last_given-env_value, apply_env-After,
}

module _ (parse_int : String → Option ℤ) where
  find_option-In :
      (o : CliOption) (options : List CliOption)
      → AreDistinct options
      → In o options
      → find_option parse_int o.name options ≡ some o
  unfolding find_option
  find_option-In o [] h none_in = absurd none_in
  find_option-In o (p ∷ options) h (inl same) =
      rw (same_name p.name o.name (ap (λ (q : CliOption). q.name) same)) (ap some same)
  find_option-In o (p ∷ options) h (inr later) =
      rw (other_name p o options h.0 later) (find_option-In o options h.1 later)

  lookup-default_cells :
      (o : CliOption) (options : List CliOption)
      → AreDistinct options
      → In o options
      → lookup o.name (default_cells options) ≡ some o.default
  unfolding lookup
  lookup-default_cells o [] h none_in = absurd none_in
  lookup-default_cells o (p ∷ options) h (inl same) =
      rw (same_name p.name o.name (ap (λ (q : CliOption). q.name) same))
        (ap (λ (q : CliOption). some q.default) same)
  lookup-default_cells o (p ∷ options) h (inr later) =
      rw (other_name p o options h.0 later) (lookup-default_cells o options h.1 later)

  -- The value given for an option: the last one on the command line, else the one of the first of
  -- its environment variables that is set.
  abbrev pub value_given :
      List CliOption → List (String × String) → List String → CliOption → Option String
  value_given options env args o =
      elim (last_given o.name (assigned parse_int options args)) as (λ _. Option String) [
        | some value ↦ some value
        | none ↦ env_value parse_int env o
      ]

  -- When the settings are accepted, the options having different names, the variable of every
  -- option holds what its flag's Set method makes of the last value that the command line gives
  -- it; if there is none, of the first of its environment variables that is set; and if no such
  -- variable is set, it holds its default.
  pub parse_settings-After :
      (options : List CliOption) (env : List (String × String)) (args left : List String)
      (cells : Cells)
      → AreDistinct options
      → parse_settings parse_int options env args ≡ ok (cells, left)
      → (o : CliOption) → In o options
      → After parse_int o.kind
          (value_given options env args o)
          (some o.default)
          (lookup o.name cells)
  unfolding parse_settings
  parse_settings-After options env args left cells h is o here =
      retired (reject_retired_env env retired_env_vars) is
    where
      started :
          (r : Result Cells)
          → apply_env parse_int options env options (default_cells options) ≡ r
          → (r >>= λ c. parse_args parse_int options c args) ≡ ok (cells, left)
          → After parse_int o.kind
              (value_given options env args o)
              (some o.default)
              (lookup o.name cells)
      started (err problem) e k = cc k
      started (ok c) e k =
          let found = find_option-In o options h here in
          let from_env =
            subst (λ given. After parse_int o.kind given (some o.default) (lookup o.name c))
              (last_given-env_value parse_int env o options h here)
              (subst
                (λ old.
                  After parse_int o.kind (last_given o.name (env_assigned parse_int env options))
                    old (lookup o.name c))
                (lookup-default_cells o options h here)
                (apply_env-After parse_int env options o found options (default_cells options) c
                  e)) in
          After-then parse_int o.kind (env_value parse_int env o)
            (last_given o.name (assigned parse_int options args)) (some o.default) (lookup o.name c)
            (lookup o.name cells) from_env
            (parse_args-After parse_int options o found args c cells left k)

      retired :
          (r : Option String)
          → (elim r as (λ _. Result Parsed) [
            | some problem ↦ err problem
            | none ↦ apply_env parse_int options env options (default_cells options) >>= λ c.
                parse_args parse_int options c args
          ])
            ≡ ok (cells, left)
          → After parse_int o.kind
              (value_given options env args o)
              (some o.default)
              (lookup o.name cells)
      retired (some problem) k = cc k
      retired none k =
          started (apply_env parse_int options env options (default_cells options)) refl k
