-- ===== src/Config/Runnable.antt =====
-- What relay validation accepts: the configurations that a relay can run with.
use mathlib.Core.Bool.{false≢true}
use outboxer.Prelude.{
  ◌≡◌, ◌≢◌, ◌↔◌, refl, String, Bool, true, false, not, ◌&&◌, none, List, [], ◌∷◌, All, inl, inr,
  ◌⊎◌, arith, ◌==◌, string_eq, nat_eq, length, is_empty, ltb, if◌then◌else◌,
}
use outboxer.Prelude.Int.{pos, ltb_ℤ}
use outboxer.Config.{
  AppConfig, ProviderRoute, ProviderSpec, provider_specs, configured_provider_routes,
}
use outboxer.Config.Validate.{
  no_provider, no_target_column, relay, orelse, validate_storage, missing_destination,
  disabled_owner, validate_web_identity, validate_limits, validate_runtime, validate,
}
use outboxer.Config.Storable.{orelse_iff, nonempty_iff, guard_iff, storage_iff, CanStore}

-- The web identity settings: off, or Google with a role and an audience.
abbrev pub CanAssumeRole : AppConfig → Type 0
CanAssumeRole cfg =
    (cfg.aws_web_identity_provider ≡ "")
    ⊎ ((cfg.aws_web_identity_provider ≡ "google")
        × (cfg.aws_role_arn ≢ "")
        × (cfg.aws_web_identity_audience ≢ ""))

web_identity_iff : (cfg : AppConfig) → (validate_web_identity cfg ≡ none) ↔ CanAssumeRole cfg
unfolding validate_web_identity
web_identity_iff cfg = ground (
  arith,
  string_eq.beq_iff cfg.aws_web_identity_provider "",
  string_eq.beq_iff cfg.aws_web_identity_provider "google",
  string_eq.beq_iff cfg.aws_role_arn "",
  string_eq.beq_iff cfg.aws_web_identity_audience "",
)

-- A relay can publish: a provider is enabled, each event has a target and a destination, no
-- disabled provider owns destinations, and the limits make sense.
pub record CanPublish (cfg : AppConfig) : Type 0 where
  pub enabled : (cfg.pubsub_enabled ≡ true) ⊎ (cfg.sqs_enabled ≡ true)
  pub target : cfg.pubsub_enabled ≡ true → cfg.sqs_enabled ≡ true → cfg.event_target ≢ ""
  pub pubsub_destination :
      cfg.pubsub_enabled ≡ true → (cfg.default_pubsub_topic ≢ "") ⊎ (cfg.event_destination ≢ "")
  pub sqs_destination :
      cfg.sqs_enabled ≡ true → (cfg.default_sqs_queue_url ≢ "") ⊎ (cfg.event_destination ≢ "")
  pub pubsub_owner : (cfg.pubsub_enabled ≡ true) ⊎ (cfg.pubsub_destinations ≡ [])
  pub sqs_owner : (cfg.sqs_enabled ≡ true) ⊎ (cfg.sqs_destinations ≡ [])
  pub batch_target : ltb_ℤ (pos 0) cfg.collect_batch_target ≡ true
  pub publish_timeout : ltb_ℤ (pos 0) cfg.publish_timeout ≡ true
  pub event_age :
      (cfg.max_event_age ≡ pos 0)
      ⊎ ((ltb_ℤ (pos 0) cfg.max_event_age ≡ true) × (cfg.event_timestamp ≢ ""))
  pub web_identity : CanAssumeRole cfg

limits_iff :
    (cfg : AppConfig)
    → (validate_limits cfg ≡ none) ↔ (
        (ltb_ℤ (pos 0) cfg.collect_batch_target ≡ true)
        × (ltb_ℤ (pos 0) cfg.publish_timeout ≡ true)
        × ((cfg.max_event_age ≡ pos 0)
            ⊎ ((ltb_ℤ (pos 0) cfg.max_event_age ≡ true) × (cfg.event_timestamp ≢ "")))
        × CanAssumeRole cfg)
unfolding validate_limits
limits_iff cfg = ground (arith, web_identity_iff cfg, string_eq.beq_iff cfg.event_timestamp "")

abbrev HasDestination : AppConfig → ProviderRoute → Type 0
HasDestination cfg route = (route.default_destination ≢ "") ⊎ (cfg.event_destination ≢ "")

missing_iff :
    (cfg : AppConfig) (routes : List ProviderRoute)
    → (missing_destination cfg routes ≡ none) ↔ All (HasDestination cfg) routes
unfolding missing_destination
missing_iff cfg [] = (λ h. tt, λ h. refl)
missing_iff cfg (route ∷ routes) = guard_iff _ _ _ reachable (missing_iff cfg routes)
  where
    reachable :
        ((is_empty route.default_destination && is_empty cfg.event_destination) ≡ false)
        ↔ ((route.default_destination ≢ "") ⊎ (cfg.event_destination ≢ ""))
    reachable = ground (
      arith,
      string_eq.beq_iff route.default_destination "",
      string_eq.beq_iff cfg.event_destination "",
    )

abbrev Owns : AppConfig → ProviderSpec → Type 0
Owns cfg spec = (spec.enabled cfg ≡ true) ⊎ ((spec.route cfg).owned_destinations ≡ [])

empty_iff :
    (b : Bool) (xs : List String)
    → ((not b && ltb 0 (length xs)) ≡ false) ↔ ((b ≡ true) ⊎ (xs ≡ []))
empty_iff true xs = (λ h. inl refl, λ h. refl)
empty_iff false [] = (λ h. inr refl, λ h. ground arith)
empty_iff false (x ∷ xs) = (λ h. ground arith, λ h. ground arith)

owner_iff :
    (cfg : AppConfig) (specs : List ProviderSpec)
    → (disabled_owner cfg specs ≡ none) ↔ All (Owns cfg) specs
unfolding disabled_owner
owner_iff cfg [] = (λ h. tt, λ h. refl)
owner_iff cfg (spec ∷ specs) =
    guard_iff _ _ _ (empty_iff (spec.enabled cfg) (spec.route cfg).owned_destinations)
      (owner_iff cfg specs)

-- The routes of the two providers, each if it is enabled.
abbrev chosen : Bool → Bool → ProviderRoute → ProviderRoute → List ProviderRoute
chosen p q a b = let rest = if q then b ∷ [] else [] in if p then a ∷ rest else rest

some_iff :
    (p q : Bool) (a b : ProviderRoute)
    → ((length (chosen p q a b) == 0) ≡ false) ↔ ((p ≡ true) ⊎ (q ≡ true))
some_iff true q a b = (λ h. inl refl, λ h. ground arith)
some_iff false true a b = (λ h. inr refl, λ h. ground arith)
some_iff false false a b = (λ h. ground arith, λ h. ground arith)

target_iff :
    (p q : Bool) (a b : ProviderRoute) (column : String)
    → ((ltb 1 (length (chosen p q a b)) && is_empty column) ≡ false)
      ↔ (p ≡ true → q ≡ true → column ≢ "")
target_iff true true a b column =
    (λ h _ _. (nonempty_iff column).0 h, λ h. (nonempty_iff column).1 (h refl refl))
target_iff true false a b column = (λ h _ e. absurd (false≢true e), λ h. ground arith)
target_iff false true a b column = (λ h e _. absurd (false≢true e), λ h. ground arith)
target_iff false false a b column = (λ h e _. absurd (false≢true e), λ h. ground arith)

each_iff :
    (p q : Bool) (a b : ProviderRoute) (P : ProviderRoute → Type 0)
    → All P (chosen p q a b) ↔ ((p ≡ true → P a) × (q ≡ true → P b))
each_iff true true a b P = (λ h. (λ _. h.0, λ _. h.1.0), λ h. (h.0 refl, (h.1 refl, tt)))
each_iff true false a b P = (λ h. (λ _. h.0, λ e. absurd (false≢true e)), λ h. (h.0 refl, tt))
each_iff false true a b P = (λ h. (λ e. absurd (false≢true e), λ _. h.0), λ h. (h.1 refl, tt))
each_iff false false a b P =
    (λ h. (λ e. absurd (false≢true e), λ e. absurd (false≢true e)), λ h. tt)

runtime_iff : (cfg : AppConfig) → (validate_runtime cfg ≡ none) ↔ CanPublish cfg
unfolding validate_runtime configured_provider_routes provider_specs
runtime_iff cfg =
    let p = cfg.pubsub_enabled in
    let q = cfg.sqs_enabled in
    let a : ProviderRoute = record {
      target = "pubsub";
      default_destination = cfg.default_pubsub_topic;
      owned_destinations = cfg.pubsub_destinations;
    } in
    let b : ProviderRoute = record {
      target = "sqs";
      default_destination = cfg.default_sqs_queue_url;
      owned_destinations = cfg.sqs_destinations;
    } in
    let tests = guard_iff _ no_provider _ (some_iff p q a b) (
      guard_iff _ no_target_column _ (target_iff p q a b cfg.event_target) (
        orelse_iff (missing_destination cfg (configured_provider_routes cfg))
          (orelse (disabled_owner cfg provider_specs) (validate_limits cfg)))) in
    (
      λ h.
          let (enabled, (target, (missing, others))) = tests.0 h in
          let (owner, limits) = (orelse_iff (disabled_owner cfg provider_specs) _).0 others in
          let reach =
            (each_iff p q a b (HasDestination cfg)).0
              ((missing_iff cfg (configured_provider_routes cfg)).0 missing) in
          let owned = (owner_iff cfg provider_specs).0 owner in
          let (batch_target, publish_timeout, event_age, web_identity) =
            (limits_iff cfg).0 limits in
          record {
            enabled = enabled;
            target = target;
            pubsub_destination = reach.0;
            sqs_destination = reach.1;
            pubsub_owner = owned.0;
            sqs_owner = owned.1.0;
            batch_target = batch_target;
            publish_timeout = publish_timeout;
            event_age = event_age;
            web_identity = web_identity;
          },
      λ c. tests.1 (
        c.enabled,
        (
          c.target,
          (
            (missing_iff cfg (configured_provider_routes cfg)).1 (
                (each_iff p q a b (HasDestination cfg)).1
                  (c.pubsub_destination, c.sqs_destination)),
            (orelse_iff (disabled_owner cfg provider_specs) _).1 (
              (owner_iff cfg provider_specs).1 (c.pubsub_owner, (c.sqs_owner, tt)),
              (limits_iff cfg).1 (c.batch_target, c.publish_timeout, c.event_age, c.web_identity),
            ),
          ),
        ),
      ),
    )

-- Relay validation passes exactly when the relay can read its table and publish.
pub validate-relay_iff :
    (cfg : AppConfig) → (validate relay cfg ≡ none) ↔ (CanStore cfg × CanPublish cfg)
unfolding validate
validate-relay_iff cfg =
    let both = orelse_iff (validate_storage cfg) (validate_runtime cfg) in
    (
      λ h. ((storage_iff cfg).0 (both.0 h).0, (runtime_iff cfg).0 (both.0 h).1),
      λ h. both.1 ((storage_iff cfg).1 h.0, (runtime_iff cfg).1 h.1),
    )
