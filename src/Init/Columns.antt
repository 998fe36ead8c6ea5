-- ===== src/Init/Columns.antt =====
-- The event table that init creates has the columns that the relay checks for:
-- createEventTableSQL of internal/outboxer/init.go and validateEventColumns of db.go.
use outboxer.Prelude.{
  String, Bool, true, false, none, List, [], ◌∷◌, map, ◌≡◌, refl, All, All-append, ltb, length, not,
  ◌&&◌, if◌then◌else◌, is_empty, contains, string_eq, arith,
}
use outboxer.Prelude.Int.{nonpositive}
use outboxer.Config.{AppConfig, configured_provider_routes}
use outboxer.Database.{lacks_default, required_columns, missing_columns, validate_event_columns}
use outboxer.Init.{event_columns}

abbrev pub name_of : String × String → String
name_of (name, type) = name

abbrev IsThere : AppConfig → String → Type 0
IsThere cfg name =
    (not (is_empty name) && not (contains name (map name_of (event_columns cfg)))) ≡ false

missing_columns-none :
    (columns names : List String)
    → All (λ name. (not (is_empty name) && not (contains name columns)) ≡ false) names
    → missing_columns columns names ≡ []
missing_columns-none columns [] h = refl
missing_columns-none columns (name ∷ names) (here, h) =
    rw (here, missing_columns-none columns names h) refl

id-IsThere : (cfg : AppConfig) → IsThere cfg cfg.event_id
unfolding event_columns contains
id-IsThere cfg = ground (arith, string_eq.beq_iff cfg.event_id cfg.event_id)

payload-IsThere : (cfg : AppConfig) → IsThere cfg cfg.event_payload
unfolding event_columns contains
payload-IsThere cfg = ground (arith, string_eq.beq_iff cfg.event_payload cfg.event_payload)

target-IsThere : (cfg : AppConfig) → IsThere cfg cfg.event_target
unfolding event_columns contains
target-IsThere cfg = ground (arith, string_eq.beq_iff cfg.event_target cfg.event_target)

destination-IsThere : (cfg : AppConfig) → IsThere cfg cfg.event_destination
unfolding event_columns contains
destination-IsThere cfg =
    ground (arith, string_eq.beq_iff cfg.event_destination cfg.event_destination)

timestamp-IsThere : (cfg : AppConfig) → IsThere cfg cfg.event_timestamp
unfolding event_columns contains
timestamp-IsThere cfg = ground (arith, string_eq.beq_iff cfg.event_timestamp cfg.event_timestamp)

if-All : (P : String → Type 0) (b : Bool) (x : String) → P x → All P (if b then x ∷ [] else [])
if-All P true x p = (p, tt)
if-All P false x p = tt

unless-All : (P : String → Type 0) (b : Bool) (x : String) → P x → All P (if b then [] else x ∷ [])
unless-All P true x p = tt
unless-All P false x p = (p, tt)

required_columns-All : (cfg : AppConfig) → All (IsThere cfg) (required_columns cfg)
required_columns-All cfg = (
  id-IsThere cfg,
  (
    payload-IsThere cfg,
    All-append (IsThere cfg) _ _
        (All-append (IsThere cfg) _ _
          (unless-All (IsThere cfg) (nonpositive cfg.max_event_age) cfg.event_timestamp
            (timestamp-IsThere cfg))
          (if-All (IsThere cfg) (ltb 1 (length (configured_provider_routes cfg))) cfg.event_target
            (target-IsThere cfg)))
        (if-All (IsThere cfg) (lacks_default (configured_provider_routes cfg)) cfg.event_destination
          (destination-IsThere cfg)),
  ),
)

-- A table that init creates has every column that validateEventColumns asks for, whatever the
-- configuration is.
pub validate_event_columns-event_columns :
    (cfg : AppConfig) → validate_event_columns cfg (map name_of (event_columns cfg)) ≡ none
unfolding validate_event_columns
validate_event_columns-event_columns cfg =
    rw
      (missing_columns-none (map name_of (event_columns cfg)) (required_columns cfg)
        (required_columns-All cfg))
      refl
