-- ===== src/Routing.antt =====
-- The routing predicates of the collection query: internal/outboxer/db.go builds them as SQL text,
-- here they are the trees that the text spells, with PostgreSQL's meaning. NULL is `none`.
pub mod Spec
pub mod Ownership
pub mod Verdict
pub mod Meaning
pub mod Match
use outboxer.Prelude.{
  ℕ, String, Bool, true, false, not, ◌&&◌, Option, none, some, List, [], ◌∷◌, map, if◌then◌else◌,
  ◌==◌, string_eq, nat_eq, is_empty, contains, length,
}
use outboxer.Config.{AppConfig, ProviderRoute, configured_provider_routes}

-- `column alias name`; `outer name` is a column of the row of `routes`; `case_of e bs` is
-- CASE WHEN e = 'b' THEN 'r' … ELSE '' END over the pairs (b, r).
pub data Expr : Type 0 where
  null_text : Expr
  text : String → Expr
  column : String → String → Expr
  outer : String → Expr
  coalesce : Expr → Expr → Expr
  nullif : Expr → String → Expr
  case_of : Expr → List (String × String) → Expr

pub data Pred : Type 0 where
  constant : Bool → Pred
  equal unequal : Expr → Expr → Pred
  is_null : Expr → Pred
  is_in : Expr → List String → Pred
  both either : Pred → Pred → Pred

-- The row that an alias and the row that `routes` stand for.
pub record Row : Type 0 where
  pub read : String → String → Option String
  pub read_outer : String → Option String

abbrev pub coalesced : Option String → Option String → Option String
coalesced (some s) other = some s
coalesced none other = other

abbrev pub nullified : Option String → String → Option String
nullified none s = none
nullified (some t) s = if t == s then none else some t

abbrev pub chosen_branch : Option String → List (String × String) → Option String
chosen_branch t [] = some ""
chosen_branch none ((b, r) ∷ branches) = chosen_branch none branches
chosen_branch (some t) ((b, r) ∷ branches) =
    let rest = chosen_branch (some t) branches in if t == b then some r else rest

unfoldable pub eval : Row → Expr → Option String
eval row null_text = none
eval row (text s) = some s
eval row (column a name) = row.read a name
eval row (outer name) = row.read_outer name
eval row (coalesce x y) = coalesced (eval row x) (eval row y)
eval row (nullif x s) = nullified (eval row x) s
eval row (case_of x branches) = chosen_branch (eval row x) branches

abbrev pub compared : (Bool → Bool) → Option String → Option String → Option Bool
compared f (some a) (some b) = some (f (a == b))
compared f _ _ = none

abbrev pub and_3 : Option Bool → Option Bool → Option Bool
and_3 (some false) _ = some false
and_3 (some true) y = y
and_3 none (some false) = some false
and_3 none _ = none

abbrev pub or_3 : Option Bool → Option Bool → Option Bool
or_3 (some true) _ = some true
or_3 (some false) y = y
or_3 none (some true) = some true
or_3 none _ = none

abbrev pub null_test : Option String → Bool
null_test none = true
null_test (some s) = false

abbrev pub listed : Option String → List String → Option Bool
listed none ss = none
listed (some s) ss = some (contains s ss)

unfoldable pub test : Row → Pred → Option Bool
unfolding eval contains
test row (constant b) = some b
test row (equal x y) = compared (λ b. b) (eval row x) (eval row y)
test row (unequal x y) = compared not (eval row x) (eval row y)
test row (is_null x) = some (null_test (eval row x))
test row (is_in x ss) = listed (eval row x) ss
test row (both p q) = and_3 (test row p) (test row q)
test row (either p q) = or_3 (test row p) (test row q)

-- providerTargets
unfoldable pub provider_targets : List ProviderRoute → List String
provider_targets = map (λ r. r.target)

abbrev pub target_of : AppConfig → String → List ProviderRoute → Expr × Pred
target_of cfg table_alias [] = (null_text, constant false)
target_of cfg table_alias (route ∷ []) =
    if is_empty cfg.event_target then (text route.target, constant true) else (
      coalesce (nullif (column table_alias cfg.event_target) "") (text route.target),
      equal (coalesce (nullif (column table_alias cfg.event_target) "") (text route.target))
          (text route.target),
    )
target_of cfg table_alias (a ∷ b ∷ routes) =
    if is_empty cfg.event_target then (null_text, constant false) else (
      nullif (column table_alias cfg.event_target) "",
      is_in (nullif (column table_alias cfg.event_target) "") (provider_targets (a ∷ b ∷ routes)),
    )

-- resolvedTargetSQL: the expression, and its predicate
unfoldable pub resolved_target_sql : AppConfig → String → Expr × Pred
unfolding configured_provider_routes provider_targets
resolved_target_sql cfg table_alias = target_of cfg table_alias (configured_provider_routes cfg)

unfoldable pub default_destination_sql : AppConfig → Expr → Expr
unfolding configured_provider_routes
default_destination_sql cfg target_expr = case_of target_expr (
    map (λ (r : ProviderRoute). (r.target, r.default_destination)) (configured_provider_routes cfg))

abbrev pub sole_default : AppConfig → Expr → List ProviderRoute → Expr
sole_default cfg target_expr (route ∷ []) = text route.default_destination
sole_default cfg target_expr _ = default_destination_sql cfg target_expr

unfoldable pub resolved_destination_sql : AppConfig → String → Expr → Expr
unfolding configured_provider_routes default_destination_sql
resolved_destination_sql cfg table_alias target_expr =
    if is_empty cfg.event_destination
    then sole_default cfg target_expr (configured_provider_routes cfg)
    else coalesce (nullif (column table_alias cfg.event_destination) "")
        (default_destination_sql cfg target_expr)

abbrev sole_target : List ProviderRoute → String
sole_target (route ∷ []) = route.target
sole_target _ = ""

-- defaultTargetSQL, without its quotes
unfoldable pub default_target_sql : AppConfig → String
unfolding configured_provider_routes
default_target_sql cfg = sole_target (configured_provider_routes cfg)

-- `x = y OR (x IS NULL AND d = y)`, where x is the column with '' read as NULL
abbrev matched : Expr → Expr → Expr → Pred
matched col default_value wanted =
    either (equal (nullif col "") wanted)
      (both (is_null (nullif col "")) (equal default_value wanted))

unfoldable pub route_match_sql : AppConfig → String → Expr → Expr → Pred
unfolding default_target_sql default_destination_sql
route_match_sql cfg table_alias target_expr destination_expr =
    both
      (if is_empty cfg.event_target
        then equal target_expr (outer "resolved_target")
        else if is_empty (default_target_sql cfg)
        then equal (column table_alias cfg.event_target) (outer "resolved_target")
        else matched (column table_alias cfg.event_target) (text (default_target_sql cfg))
            (outer "resolved_target"))
      (if is_empty cfg.event_destination
        then equal destination_expr (outer "resolved_destination")
        else matched (column table_alias cfg.event_destination)
            (default_destination_sql cfg target_expr) (outer "resolved_destination"))

abbrev pub ownership : Expr → Expr → List ProviderRoute → List Pred
ownership target_expr destination_expr [] = []
ownership target_expr destination_expr (route ∷ routes) =
    let rest = ownership target_expr destination_expr routes in
    if length route.owned_destinations == 0
    then rest
    else either (unequal target_expr (text route.target))
        (is_in destination_expr route.owned_destinations)
      ∷ rest

-- strings.Join with AND, which associates to the left
abbrev pub conjunction : Pred → List Pred → Pred
conjunction p [] = p
conjunction p (q ∷ qs) = conjunction (both p q) qs

abbrev pub all_of : List Pred → Pred
all_of [] = constant true
all_of (p ∷ ps) = conjunction p ps

unfoldable pub route_ownership_sql : AppConfig → Expr → Expr → Pred
unfolding configured_provider_routes
route_ownership_sql cfg target_expr destination_expr =
    all_of (ownership target_expr destination_expr (configured_provider_routes cfg))

abbrev or_targets : AppConfig → Expr → Option Pred → Pred
or_targets cfg target_expr none =
    is_in target_expr (provider_targets (configured_provider_routes cfg))
or_targets cfg target_expr (some p) = p

-- routableSQL; a predicate that is not given is `none`
unfoldable pub routable_sql : AppConfig → Expr → Expr → Option Pred → Pred
unfolding route_ownership_sql configured_provider_routes provider_targets
routable_sql cfg target_expr destination_expr target_predicate =
    both
      (both (or_targets cfg target_expr target_predicate)
        (unequal (coalesce destination_expr (text "")) (text "")))
      (route_ownership_sql cfg target_expr destination_expr)
