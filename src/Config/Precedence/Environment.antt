-- ===== src/Config/Precedence/Environment.antt =====
-- What the environment does to the variable of one flag: applyEnv of
-- internal/outboxer/config_flags.go.
use outboxer.Prelude.{
  String, Bool, true, false, Option, none, some, List, [], ◌∷◌, ◌≡◌, refl, subst, inl, inr, All, In,
  if◌then◌else◌, ◌==◌, string_eq, lookup,
}
use outboxer.Prelude.Int.{ℤ}
use outboxer.Value.{Result, ok, err, ◌>>=◌}
use outboxer.Config.Flags.{
  CliOption, Cells, find_option, flag_set, first_set, named_error, apply_one, apply_env,
}
use outboxer.Config.Precedence.{
  AreDistinct, other_name, last_given, After, flag_set-After, After-then,
}

abbrev value_of : Option (String × String) → Option String
value_of none = none
value_of (some (name, value)) = some value

abbrev env_pair :
    String → Option (String × String) → List (String × String) → List (String × String)
env_pair name none rest = rest
env_pair name (some (variable, value)) rest = (name, value) ∷ rest

unmatched :
    (same : Bool) (value : String) (given wanted : Option String)
    → same ≡ false
    → given ≡ wanted
    → (elim given as (λ _. Option String) [
      | some later ↦ some later
      | none ↦ if same then some value else none
    ])
      ≡ wanted
unmatched true value given wanted t e = cc t
unmatched false value none wanted t e = e
unmatched false value (some v) wanted t e = e

module _ (parse_int : String → Option ℤ) (env : List (String × String)) where
  -- The value of the first variable of an option that is set.
  abbrev pub env_value : CliOption → Option String
  env_value o = value_of (first_set parse_int env o.env_vars)

  -- The assignments that the environment makes.
  abbrev pub env_assigned : List CliOption → List (String × String)
  env_assigned [] = []
  env_assigned (o ∷ options) =
      env_pair o.name (first_set parse_int env o.env_vars) (env_assigned options)

  last_given-other :
      (name : String) (options : List CliOption)
      → All (λ (p : CliOption). (p.name == name) ≡ false) options
      → last_given name (env_assigned options) ≡ none
  last_given-other name [] h = refl
  last_given-other name (p ∷ options) h =
      other (first_set parse_int env p.env_vars) (last_given-other name options h.1)
    where
      other :
          (f : Option (String × String))
          → last_given name (env_assigned options) ≡ none
          → last_given name (env_pair p.name f (env_assigned options)) ≡ none
      other none e = e
      other (some (variable, value)) e = rw (last_given, env_pair, e, h.0) refl

  pub last_given-env_value :
      (o : CliOption) (options : List CliOption)
      → AreDistinct options
      → In o options
      → last_given o.name (env_assigned options) ≡ env_value o
  last_given-env_value o [] h none_in = absurd none_in
  last_given-env_value o (p ∷ options) h (inl same) =
      subst (λ (q : CliOption). last_given q.name (env_assigned (p ∷ options)) ≡ env_value q) same
        (first (first_set parse_int env p.env_vars))
    where
      first :
          (f : Option (String × String))
          → last_given p.name (env_pair p.name f (env_assigned options)) ≡ value_of f
      first none = last_given-other p.name options h.0
      first (some (variable, value)) =
          rw
            (
              last_given,
              env_pair,
              last_given-other p.name options h.0,
              (string_eq.beq_iff p.name p.name).1 refl,
            )
            refl
  last_given-env_value o (p ∷ options) h (inr later) =
      skip (first_set parse_int env p.env_vars) (last_given-env_value o options h.1 later)
    where
      other : (p.name == o.name) ≡ false
      other = other_name p o options h.0 later

      skip :
          (f : Option (String × String))
          → last_given o.name (env_assigned options) ≡ env_value o
          → last_given o.name (env_pair p.name f (env_assigned options)) ≡ env_value o
      skip none e = e
      skip (some (variable, value)) e =
          unmatched (p.name == o.name) value (last_given o.name (env_assigned options))
            (env_value o) other e

  module _ (all : List CliOption) (o : CliOption)
      (found : find_option parse_int o.name all ≡ some o) where
    pub apply_env-After :
        (options : List CliOption) (cells cells' : Cells)
        → apply_env parse_int all env options cells ≡ ok cells'
        → After parse_int o.kind
            (last_given o.name (env_assigned options))
            (lookup o.name cells)
            (lookup o.name cells')
    unfolding apply_env
    apply_env-After [] cells cells' h = cc h
    apply_env-After (p ∷ options) cells cells' h =
        one (first_set parse_int env p.env_vars) h (λ c k. apply_env-After options c cells' k)
      where
        one :
            (f : Option (String × String))
            → (apply_one parse_int all p f cells >>= λ c. apply_env parse_int all env options c)
              ≡ ok cells'
            → ((c : Cells)
                → apply_env parse_int all env options c ≡ ok cells'
                → After parse_int o.kind
                    (last_given o.name (env_assigned options))
                    (lookup o.name c)
                    (lookup o.name cells'))
            → After parse_int o.kind
                (last_given o.name (env_pair p.name f (env_assigned options)))
                (lookup o.name cells)
                (lookup o.name cells')
        one none k ih = ih cells k
        one (some (variable, value)) k ih = set (flag_set parse_int all p.name value cells) refl k
          where
            set :
                (r : Result Cells)
                → flag_set parse_int all p.name value cells ≡ r
                → (named_error parse_int variable r >>= λ c. apply_env parse_int all env options c)
                  ≡ ok cells'
                → After parse_int o.kind
                    (last_given o.name ((p.name, value) ∷ env_assigned options))
                    (lookup o.name cells)
                    (lookup o.name cells')
            set (err problem) e j = cc j
            set (ok c) e j =
                After-then parse_int o.kind (if p.name == o.name then some value else none)
                  (last_given o.name (env_assigned options)) (lookup o.name cells) (lookup o.name c)
                  (lookup o.name cells')
                  (flag_set-After parse_int all o p.name value cells c found e) (ih c j)
