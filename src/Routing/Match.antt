-- ===== src/Routing/Match.antt =====
-- The two halves of the collection query agree: a row that one half resolves to a route is picked
-- by the other half for that route and for no other.
use mathlib.Core.Bool.{false≢true}
use outboxer.Prelude.{
  String, ◌≡◌, ◌≢◌, ◌↔◌, refl, ◌∙◌, ap, Bool, true, false, not, Option, none, some, List, [], ◌∷◌,
  if◌then◌else◌, string_eq, is_empty, arith, Bool-cases, All, inl, inr,
}
use outboxer.Config.{AppConfig, ProviderRoute, provider_specs, configured_provider_routes}
use outboxer.Event.{Route}
use outboxer.Routing.{
  Expr, Row, text, equal, column, outer, target_of, sole_target, sole_default, matched, eval, test,
  nullified, compared, and_3, or_3, coalesced, null_test, resolved_target_sql,
  resolved_destination_sql, default_destination_sql, default_target_sql, listed, routable_sql,
  route_match_sql,
}
use outboxer.Routing.Spec.{pair_route, when, selected_route}

pub and_3_iff : (a b : Option Bool) → (and_3 a b ≡ some true) ↔ ((a ≡ some true) × (b ≡ some true))
and_3_iff a b = ground arith

compared_iff :
    (t : String) (x : Option String) → (compared (λ b. b) x (some t) ≡ some true) ↔ (x ≡ some t)
compared_iff t none = (λ h. ground arith, λ h. ground arith)
compared_iff t (some s) =
    (λ h. ground (arith, h, string_eq.beq_iff s t), λ h. ground (arith, h, string_eq.beq_iff s t))

-- `x = w OR (x IS NULL AND d = w)` holds exactly when x, or else d, is w.
matched_iff :
    (x d : Option String) (w : String)
    → (or_3
          (compared (λ b. b) x (some w))
          (and_3 (some (null_test x)) (compared (λ b. b) d (some w)))
        ≡ some true)
      ↔ (coalesced x d ≡ some w)
matched_iff none d w =
    (λ h. (compared_iff w d).0 (ground (arith, h)), λ h. ground (arith, (compared_iff w d).1 h))
matched_iff (some s) d w = (
  λ h. (compared_iff w (some s)).0 (ground (arith, h)),
  λ h. ground (arith, (compared_iff w (some s)).1 h),
)

not_null : (x : Option String) (w : String) → nullified x "" ≡ some w → x ≡ some w
not_null none w h = h
not_null (some s) w h = ground (arith, h)

-- A text that stands for itself: equal to `w` exactly when the text that it is, is `w`.
same_iff : (x : Option String) (t w : String) → x ≡ some t → (x ≡ some w) ↔ (t ≡ w)
same_iff x t w e = (λ h. ground (arith, e, h), λ h. e ∙ ap some h)

eq_case :
    (x o : Option String) (t w : String)
    → o ≡ some w
    → x ≡ some t
    → (compared (λ b. b) x o ≡ some true) ↔ (t ≡ w)
eq_case x o t w at_o e =
    let k = compared_iff w x in
    let l = same_iff x t w e in rw at_o (λ h. l.0 (k.0 h), λ h. k.1 (l.1 h))

matched_case :
    (x d o : Option String) (t w : String)
    → o ≡ some w
    → coalesced x d ≡ some t
    → (or_3 (compared (λ b. b) x o) (and_3 (some (null_test x)) (compared (λ b. b) d o))
        ≡ some true)
      ↔ (t ≡ w)
matched_case x d o t w at_o e =
    let k = matched_iff x d w in
    let l = same_iff (coalesced x d) t w e in rw at_o (λ h. l.0 (k.0 h), λ h. k.1 (l.1 h))

nothing : (t : String) → ◌≡◌ {A = Option String} none (some t) → ⊥
nothing t h = ground (arith, h)

full_text : (s : String) → s ≢ "" → is_empty s ≡ false
full_text s h = ground (arith, h, string_eq.beq_iff s "")

module _ (cfg : AppConfig) (row : Row) (table_alias w : String)
    (at_outer : row.read_outer "resolved_target" ≡ some w) where
  target_match :
      (routes : List ProviderRoute) (t : String)
      → All (λ (r : ProviderRoute). r.target ≢ "") routes
      → eval row (target_of cfg table_alias routes).0 ≡ some t
      → (test row (
            if is_empty cfg.event_target
            then equal (target_of cfg table_alias routes).0 (outer "resolved_target")
            else if is_empty (sole_target routes)
            then equal (column table_alias cfg.event_target) (outer "resolved_target")
            else matched
                (column table_alias cfg.event_target)
                (text (sole_target routes))
                (outer "resolved_target"))
          ≡ some true)
        ↔ (t ≡ w)
  unfolding eval test
  target_match [] t full h = absurd (ground (arith, h))
  target_match (r ∷ []) t full h = elim (Bool-cases (is_empty cfg.event_target)) [
    | inl unset ↦
        rw unset
          (eq_case (some r.target) (row.read_outer "resolved_target") t w at_outer (rw unset at h))
    | inr set ↦ rw set (
        rw (full_text r.target full.0) (
          matched_case (nullified (row.read table_alias cfg.event_target) "") (some r.target)
            (row.read_outer "resolved_target") t w at_outer (rw set at h)))
  ]
  target_match (a ∷ b ∷ rs) t full h = elim (Bool-cases (is_empty cfg.event_target)) [
    | inl unset ↦ absurd (nothing t (rw unset at h))
    | inr set ↦ rw set (
        eq_case (row.read table_alias cfg.event_target) (row.read_outer "resolved_target") t w
          at_outer (not_null (row.read table_alias cfg.event_target) t (rw set at h)))
  ]

destination_match :
    (cfg : AppConfig) (row : Row) (table_alias : String) (te : Expr) (d v : String)
    → row.read_outer "resolved_destination" ≡ some v
    → eval row (resolved_destination_sql cfg table_alias te) ≡ some d
    → (test row (
          if is_empty cfg.event_destination
          then equal (resolved_destination_sql cfg table_alias te) (outer "resolved_destination")
          else matched
              (column table_alias cfg.event_destination)
              (default_destination_sql cfg te)
              (outer "resolved_destination"))
        ≡ some true)
      ↔ (d ≡ v)
unfolding eval test resolved_destination_sql
destination_match cfg row table_alias te d v at_outer h =
    elim (Bool-cases (is_empty cfg.event_destination)) [
      | inl unset ↦ rw unset (
          eq_case (eval row (sole_default cfg te (configured_provider_routes cfg)))
            (row.read_outer "resolved_destination") d v at_outer (rw unset at h))
      | inr set ↦ rw set (
          matched_case (nullified (row.read table_alias cfg.event_destination) "")
            (eval row (default_destination_sql cfg te)) (row.read_outer "resolved_destination") d v
            at_outer (rw set at h))
    ]

pair_inv :
    (b : Option Bool) (x y : Option String) (r : Route)
    → when b (pair_route x y) ≡ some r
    → (x ≡ some r.target) × (y ≡ some r.destination)
pair_inv b x y r h = ground (arith, h)

All-full :
    (cfg : AppConfig) → All (λ (r : ProviderRoute). r.target ≢ "") (configured_provider_routes cfg)
unfolding configured_provider_routes provider_specs
All-full cfg = each cfg.pubsub_enabled cfg.sqs_enabled
  where
    pubsub : ProviderRoute
    pubsub = record {
      target = "pubsub";
      default_destination = cfg.default_pubsub_topic;
      owned_destinations = cfg.pubsub_destinations;
    }

    sqs : ProviderRoute
    sqs = record {
      target = "sqs";
      default_destination = cfg.default_sqs_queue_url;
      owned_destinations = cfg.sqs_destinations;
    }

    rest : Bool → List ProviderRoute
    rest q = if q then sqs ∷ [] else []

    p_full : ◌≢◌ {A = String} "pubsub" ""
    p_full e = absurd (false≢true ((string_eq.beq_iff "pubsub" "").1 e))

    s_full : ◌≢◌ {A = String} "sqs" ""
    s_full e = absurd (false≢true ((string_eq.beq_iff "sqs" "").1 e))

    each :
        (p q : Bool)
        → All (λ (r : ProviderRoute). r.target ≢ "") (if p then pubsub ∷ rest q else rest q)
    each true true = (p_full, (s_full, tt))
    each true false = (p_full, tt)
    each false true = (s_full, tt)
    each false false = tt

-- A row that the query resolves to a route is picked for that route, and for no other.
pub route_match-selected :
    (cfg : AppConfig) (row : Row) (table_alias : String) (wanted resolved : Route)
    → row.read_outer "resolved_target" ≡ some wanted.target
    → row.read_outer "resolved_destination" ≡ some wanted.destination
    → selected_route cfg row table_alias ≡ some resolved
    → (test row (
          route_match_sql cfg table_alias
            (resolved_target_sql cfg table_alias).0
            (resolved_destination_sql cfg table_alias (resolved_target_sql cfg table_alias).0))
        ≡ some true)
      ↔ (resolved ≡ wanted)
unfolding test route_match_sql default_target_sql selected_route resolved_target_sql
route_match-selected cfg row table_alias wanted resolved at_t at_d h =
    let te = (resolved_target_sql cfg table_alias).0 in
    let de = resolved_destination_sql cfg table_alias te in
    let parts = pair_inv _ (eval row te) (eval row de) resolved h in
    let left =
      target_match cfg row table_alias wanted.target at_t (configured_provider_routes cfg)
        resolved.target (All-full cfg) parts.0 in
    let right =
      destination_match cfg row table_alias te resolved.destination wanted.destination at_d
        parts.1 in
    (
      λ k.
          let both' = (and_3_iff _ _).0 k in
          let l = left.0 both'.0 in let r = right.0 both'.1 in cc,
      λ k.
          (and_3_iff _ _).1 (
            left.1 (ap (λ (x : Route). x.target) k),
            right.1 (ap (λ (x : Route). x.destination) k),
          ),
    )

some_inj : {a b : Bool} → ◌≡◌ {A = Option Bool} (some a) (some b) → a ≡ b
some_inj {a} {b} h = ground (arith, h)

listed-some :
    (x : Option String) (ss : List String) → listed x ss ≡ some true → (t : String) × (x ≡ some t)
listed-some none ss h = ground (arith, h)
listed-some (some t) ss h = (t, refl)

target_some :
    (cfg : AppConfig) (row : Row) (table_alias : String) (routes : List ProviderRoute)
    → test row (target_of cfg table_alias routes).1 ≡ some true
    → (t : String) × (eval row (target_of cfg table_alias routes).0 ≡ some t)
unfolding test eval
target_some cfg row table_alias [] h = absurd (false≢true (some_inj h))
target_some cfg row table_alias (r ∷ []) h = elim (Bool-cases (is_empty cfg.event_target)) [
  | inl unset ↦ rw unset (r.target, refl)
  | inr set ↦ rw set (r.target, (compared_iff r.target _).0 (rw set at h))
]
target_some cfg row table_alias (a ∷ b ∷ rs) h = elim (Bool-cases (is_empty cfg.event_target)) [
  | inl unset ↦ absurd (false≢true (some_inj (rw unset at h)))
  | inr set ↦ rw set (listed-some _ _ (rw set at h))
]

destination_some :
    (x : Option String)
    → compared not (coalesced x (some "")) (some "") ≡ some true
    → (d : String) × (x ≡ some d)
destination_some none h = absurd (false≢true (some_inj h))
destination_some (some d) h = (d, refl)

-- A routable row has a route.
pub routable-selected :
    (cfg : AppConfig) (row : Row) (table_alias : String)
    → test row (
        routable_sql cfg
          (resolved_target_sql cfg table_alias).0
          (resolved_destination_sql cfg table_alias (resolved_target_sql cfg table_alias).0)
          (some (resolved_target_sql cfg table_alias).1))
      ≡ some true
    → (r : Route) × (selected_route cfg row table_alias ≡ some r)
unfolding test routable_sql selected_route resolved_target_sql eval
routable-selected cfg row table_alias h =
    let outer' = (and_3_iff _ _).0 h in
    let inner = (and_3_iff _ _).0 outer'.0 in
    let (t, at_t) = target_some cfg row table_alias (configured_provider_routes cfg) inner.0 in
    let (d, at_d) = destination_some _ inner.1 in
    (record { target = t; destination = d }, rw h (rw at_t (rw at_d refl)))
