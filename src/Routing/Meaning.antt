-- ===== src/Routing/Meaning.antt =====
-- What the routing predicates mean: the query selects each row under the route that the
-- configuration gives it.
use mathlib.Core.Bool.{false≢true}
use outboxer.Prelude.{
  String, ◌≡◌, refl, sym, ◌∙◌, ap, subst, Unique, Bool, true, false, Option, none, some, List, [],
  ◌∷◌, if◌then◌else◌, ◌==◌, string_eq, nat_eq, is_empty, contains, arith, Bool-cases, inl, inr,
}
use outboxer.Config.{AppConfig, ProviderRoute, provider_specs, configured_provider_routes}
use outboxer.Event.{Route}
use outboxer.Routing.{
  Expr, Pred, Row, text, null_text, constant, equal, column, nullif, target_of, sole_default,
  coalesce, is_in, eval, test, nullified, coalesced, resolved_target_sql, resolved_destination_sql,
  default_destination_sql, provider_targets, route_ownership_sql, routable_sql,
}
use outboxer.Routing.Spec.{
  given, find_route, sole, or_default, with_provider, with_target, route_of, selected_route,
}
use outboxer.Routing.Ownership.{default_of, targets, default_branch}
use outboxer.Routing.Verdict.{verdict, verdict-none, verdict-known}

module _ (cfg : AppConfig) (row : Row) (table_alias : String) where
  default_value :
      (te : Expr) (t : String)
      → eval row te ≡ some t
      → eval row (default_destination_sql cfg te)
        ≡ some (default_of (find_route t (configured_provider_routes cfg)))
  unfolding eval default_destination_sql
  default_value te t h = rw h (default_branch t (configured_provider_routes cfg))

  abbrev destination_of : Expr → List ProviderRoute → Expr
  destination_of te routes =
      if is_empty cfg.event_destination
      then sole_default cfg te routes
      else coalesce (nullif (column table_alias cfg.event_destination) "")
          (default_destination_sql cfg te)

  sole_value :
      (te : Expr) (t : String) (routes : List ProviderRoute)
      → configured_provider_routes cfg ≡ routes
      → eval row te ≡ some t
      → contains t (targets routes) ≡ true
      → eval row (sole_default cfg te routes) ≡ some (default_of (find_route t routes))
  unfolding eval contains find_route
  sole_value te t [] same h k = absurd (false≢true k)
  sole_value te t (r ∷ []) same h k = ground (arith, k)
  sole_value te t (a ∷ b ∷ rs) same h k =
      subst
        (λ rs'. eval row (default_destination_sql cfg te) ≡ some (default_of (find_route t rs')))
        same (default_value te t h)

  destination_value :
      (te : Expr) (t : String) (routes : List ProviderRoute)
      → configured_provider_routes cfg ≡ routes
      → eval row te ≡ some t
      → contains t (targets routes) ≡ true
      → eval row (destination_of te routes)
        ≡ some (
            or_default
              (given row table_alias cfg.event_destination)
              (default_of (find_route t routes)))
  unfolding given eval
  destination_value te t routes same h k = elim (Bool-cases (is_empty cfg.event_destination)) [
    | inl unset ↦ rw unset (sole_value te t routes same h k)
    | inr set ↦ rw set (
        named (nullified (row.read table_alias cfg.event_destination) "") (
          subst
            (λ rs. eval row (default_destination_sql cfg te) ≡ some (default_of (find_route t rs)))
            same (default_value te t h)))
  ]
    where
      named :
          {v : Option String} {s : String} (x : Option String)
          → v ≡ some s
          → coalesced x v ≡ some (or_default x s)
      named none e = e
      named (some z) e = refl

  nowhere : (x y : Option String) → none ≡ with_target (coalesced x none) [] y
  unfolding find_route
  nowhere none y = refl
  nowhere (some t) y = refl

  given_unset : (name : String) → is_empty name ≡ true → given row table_alias name ≡ none
  unfolding given
  given_unset name h = rw h refl

  given_set :
      (name : String)
      → is_empty name ≡ false
      → given row table_alias name ≡ nullified (row.read table_alias name) ""
  unfolding given
  given_set name h = rw h refl

  abbrev y' : Option String
  y' = given row table_alias cfg.event_destination

  abbrev named_or : ProviderRoute → Expr
  named_or r = coalesce (nullif (column table_alias cfg.event_target) "") (text r.target)

  known_one : (t : String) (r : ProviderRoute) → (t == r.target) ≡ contains t (targets (r ∷ []))
  unfolding contains
  known_one t r = ground (arith, string_eq.beq_iff t r.target, string_eq.beq_iff r.target t)

  own_target : (r : ProviderRoute) → true ≡ contains r.target (targets (r ∷ []))
  unfolding contains
  own_target r = ground (arith, string_eq.beq_iff r.target r.target)

  one_unset :
      (r : ProviderRoute)
      → configured_provider_routes cfg ≡ r ∷ []
      → Unique (targets (r ∷ []))
      → verdict row
          (text r.target)
          (destination_of (text r.target) (r ∷ []))
          (constant true)
          (r ∷ [])
        ≡ with_provider (find_route r.target (r ∷ [])) y'
  unfolding eval test
  one_unset r same u =
      verdict-known row (text r.target) (destination_of (text r.target) (r ∷ [])) (constant true)
        (r ∷ []) r.target y' u refl (ap some (own_target r))
        (destination_value (text r.target) r.target (r ∷ []) same refl)

  one_set :
      (r : ProviderRoute) (x : Option String)
      → nullified (row.read table_alias cfg.event_target) "" ≡ x
      → configured_provider_routes cfg ≡ r ∷ []
      → Unique (targets (r ∷ []))
      → verdict row
          (named_or r)
          (destination_of (named_or r) (r ∷ []))
          (equal (named_or r) (text r.target))
          (r ∷ [])
        ≡ with_target (coalesced x (some r.target)) (r ∷ []) y'
  unfolding eval test
  one_set r none e same u =
      let at_t : eval row (named_or r) ≡ some r.target = rw e refl in
      verdict-known row (named_or r) (destination_of (named_or r) (r ∷ []))
        (equal (named_or r) (text r.target)) (r ∷ []) r.target y' u at_t
        (rw e (ap some (known_one r.target r)))
        (destination_value (named_or r) r.target (r ∷ []) same at_t)
  one_set r (some t) e same u =
      let at_t : eval row (named_or r) ≡ some t = rw e refl in
      verdict-known row (named_or r) (destination_of (named_or r) (r ∷ []))
        (equal (named_or r) (text r.target)) (r ∷ []) t y' u at_t (rw e (ap some (known_one t r)))
        (destination_value (named_or r) t (r ∷ []) same at_t)

  abbrev named_only : Expr
  named_only = nullif (column table_alias cfg.event_target) ""

  many_set :
      (routes : List ProviderRoute) (x : Option String)
      → nullified (row.read table_alias cfg.event_target) "" ≡ x
      → configured_provider_routes cfg ≡ routes
      → Unique (targets routes)
      → verdict row named_only
          (destination_of named_only routes)
          (is_in named_only (provider_targets routes))
          routes
        ≡ with_target (coalesced x none) routes y'
  unfolding eval test provider_targets
  many_set routes none e same u =
      verdict-none row named_only (destination_of named_only routes)
        (is_in named_only (provider_targets routes)) routes (inl (rw e refl))
  many_set routes (some t) e same u =
      let at_t : eval row named_only ≡ some t = rw e refl in
      verdict-known row named_only (destination_of named_only routes)
        (is_in named_only (provider_targets routes)) routes t y' u at_t (rw e refl)
        (destination_value named_only t routes same at_t)

  listed_route :
      (routes : List ProviderRoute)
      → configured_provider_routes cfg ≡ routes
      → Unique (targets routes)
      → verdict row
          (target_of cfg table_alias routes).0
          (destination_of (target_of cfg table_alias routes).0 routes)
          (target_of cfg table_alias routes).1
          routes
        ≡ with_target
            (coalesced (given row table_alias cfg.event_target) (sole routes))
            routes
            (given row table_alias cfg.event_destination)
  unfolding test
  listed_route [] same u =
      verdict-none row null_text (destination_of null_text []) (constant false) [] (inr refl)
      ∙ nowhere _ y'
  listed_route (r ∷ []) same u = elim (Bool-cases (is_empty cfg.event_target)) [
    | inl unset ↦ rw unset (rw (given_unset cfg.event_target unset) (one_unset r same u))
    | inr set ↦ rw set (rw (given_set cfg.event_target set) (one_set r _ refl same u))
  ]
  listed_route (a ∷ b ∷ rs) same u = elim (Bool-cases (is_empty cfg.event_target)) [
    | inl unset ↦ rw (given_unset cfg.event_target unset) (
        along (null_text, constant false) (rw unset refl)
          (verdict-none row null_text (destination_of null_text (a ∷ b ∷ rs)) (constant false)
            (a ∷ b ∷ rs) (inr refl)))
    | inr set ↦ rw (given_set cfg.event_target set) (
        along (named_only, is_in named_only (provider_targets (a ∷ b ∷ rs))) (rw set refl)
          (many_set (a ∷ b ∷ rs) _ refl same u))
  ]
    where
      along :
          (x : Expr × Pred) {r : Option Route}
          → target_of cfg table_alias (a ∷ b ∷ rs) ≡ x
          → verdict row x.0 (destination_of x.0 (a ∷ b ∷ rs)) x.1 (a ∷ b ∷ rs) ≡ r
          → verdict row
              (target_of cfg table_alias (a ∷ b ∷ rs)).0
              (destination_of (target_of cfg table_alias (a ∷ b ∷ rs)).0 (a ∷ b ∷ rs))
              (target_of cfg table_alias (a ∷ b ∷ rs)).1
              (a ∷ b ∷ rs)
            ≡ r
      along x {r} e h =
          subst (λ z. verdict row z.0 (destination_of z.0 (a ∷ b ∷ rs)) z.1 (a ∷ b ∷ rs) ≡ r)
            (sym e) h

pub targets-Unique : (cfg : AppConfig) → Unique (targets (configured_provider_routes cfg))
unfolding configured_provider_routes provider_specs contains
targets-Unique cfg = distinct cfg.pubsub_enabled cfg.sqs_enabled
  where
    pubsub : ProviderRoute
    pubsub = record {
      target = "pubsub";
      default_destination = cfg.default_pubsub_topic;
      owned_destinations = cfg.pubsub_destinations;
    }

    sqs : ProviderRoute
    sqs = record {
      target = "sqs";
      default_destination = cfg.default_sqs_queue_url;
      owned_destinations = cfg.sqs_destinations;
    }

    rest : Bool → List ProviderRoute
    rest q = if q then sqs ∷ [] else []

    distinct : (p q : Bool) → Unique (targets (if p then pubsub ∷ rest q else rest q))
    distinct true true = (refl, (refl, tt))
    distinct true false = (refl, tt)
    distinct false true = (refl, tt)
    distinct false false = tt

-- The query selects a row exactly under the route that the configuration gives it: the provider
-- that the row names, or the only one there is, and the destination that the row names, or the
-- provider's default one, unless that is empty or the relay owns others only.
pub selected_route-route_of :
    (cfg : AppConfig) (row : Row) (table_alias : String)
    → selected_route cfg row table_alias ≡ route_of cfg row table_alias
unfolding selected_route route_of resolved_target_sql resolved_destination_sql routable_sql
    route_ownership_sql
selected_route-route_of cfg row table_alias =
    listed_route cfg row table_alias (configured_provider_routes cfg) refl (targets-Unique cfg)
