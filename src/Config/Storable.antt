-- ===== src/Config/Storable.antt =====
-- What storage validation accepts.
use mathlib.Core.Bool.{true≢false}
use outboxer.Prelude.{
  ◌≡◌, ◌≢◌, ◌↔◌, refl, String, Bool, true, false, not, ◌&&◌, Option, none, some, List, [], ◌∷◌, All,
  inl, inr, ◌⊎◌, arith, ◌==◌, string_eq, nat_eq, Bool-cases, lookup, insert, lookup-insert, Unique,
  contains, is_empty, if◌then◌else◌, keep, keys,
}
use outboxer.Config.{AppConfig}
use outboxer.Config.Validate.{
  ConfigError, same_column, no_event_table, no_event_id, no_event_payload, no_pg_schema,
  dlq_is_event_table, orelse, labelled_columns, repeated_column, validate_storage,
}

pub orelse_iff : (a b : Option ConfigError) → (orelse a b ≡ none) ↔ ((a ≡ none) × (b ≡ none))
orelse_iff none b = (λ h. (refl, h), λ h. h.1)
orelse_iff (some e) b = (λ h. ground arith, λ h. ground arith)

-- The columns named by the configuration, in the order of the checks.
abbrev pub columns : AppConfig → List String
columns cfg =
    cfg.event_id ∷ cfg.event_payload ∷ cfg.event_target ∷ cfg.event_destination
    ∷ cfg.event_timestamp ∷ cfg.event_options ∷ []

-- A relay can read its table: no column stands for two things, and dead letters go elsewhere.
pub record CanStore (cfg : AppConfig) : Type 0 where
  pub table : cfg.event_table ≢ ""
  pub id : cfg.event_id ≢ ""
  pub payload : cfg.event_payload ≢ ""
  pub schema : cfg.pg_schema ≢ ""
  pub apart : (cfg.dlq_table ≡ "") ⊎ (cfg.dlq_table ≢ cfg.event_table)
  pub distinct : Unique (keep (λ c. not (is_empty c)) (columns cfg))

abbrev named : List String → List String
named = keep (λ c. not (is_empty c))

abbrev IsFresh : List (String × String) → List String → Type 0
IsFresh seen = All (λ c. lookup c seen ≡ none)

IsFresh-insert :
    (value label : String) (seen : List (String × String)) (cs : List String)
    → IsFresh (insert value label seen) cs ↔ ((contains value cs ≡ false) × IsFresh seen cs)
unfolding contains
IsFresh-insert value label seen [] = (λ h. (refl, tt), λ h. tt)
IsFresh-insert value label seen (c ∷ cs) =
    let rec = IsFresh-insert value label seen cs in
    let head : (lookup c (insert value label seen) ≡ none)
        ↔ (((c == value) ≡ false) × (lookup c seen ≡ none)) =
      ground (
        arith,
        lookup-insert value c label seen,
        string_eq.beq_iff c value,
        string_eq.beq_iff value c,
      ) in
    (
      λ h. let a = head.0 h.0 in let b = rec.0 h.1 in (ground (arith, a.0, b.0), (a.1, b.1)),
      λ h. (head.1 (ground (arith, h.0), h.1.0), rec.1 (ground (arith, h.0), h.1.1)),
    )

-- No column name is repeated, and none is among those seen already.
repeated_iff :
    (seen cs : List (String × String))
    → (repeated_column seen cs ≡ none) ↔ (Unique (named (keys cs)) × IsFresh seen (named (keys cs)))
unfolding repeated_column
repeated_iff seen [] = (λ h. (tt, tt), λ h. refl)
repeated_iff seen ((value, label) ∷ rest) = elim (Bool-cases (is_empty value)) [
  | inl empty ↦ rw empty (repeated_iff seen rest)
  | inr full ↦
      rw full (split (lookup value seen) refl (repeated_iff (insert value label seen) rest))
]
  where
    answer : Option String → Option ConfigError
    answer x = elim x [
      | some previous ↦ some (same_column previous label value)
      | none ↦ repeated_column (insert value label seen) rest
    ]

    split :
        (x : Option String)
        → lookup value seen ≡ x
        → (repeated_column (insert value label seen) rest ≡ none)
          ↔ (Unique (named (keys rest)) × IsFresh (insert value label seen) (named (keys rest)))
        → (answer x ≡ none) ↔ (
            ((contains value (named (keys rest)) ≡ false) × Unique (named (keys rest)))
            × ((lookup value seen ≡ none) × IsFresh seen (named (keys rest))))
    split (some previous) e rec = (λ h. ground arith, λ h. ground (arith, e, h.1.0))
    split none e rec = (
      λ h.
          let r = rec.0 h in
          let f = (IsFresh-insert value label seen (named (keys rest))).0 r.1 in
          ((f.0, r.0), (e, f.1)),
      λ h. rec.1 (h.0.1, (IsFresh-insert value label seen (named (keys rest))).1 (h.0.0, h.1.1)),
    )

keys-labelled : (cfg : AppConfig) → keys (labelled_columns cfg) ≡ columns cfg
keys-labelled cfg = refl

IsFresh-nil : (cs : List String) → IsFresh [] cs
unfolding lookup
IsFresh-nil [] = tt
IsFresh-nil (c ∷ cs) = (refl, IsFresh-nil cs)

pub nonempty_iff : (s : String) → (is_empty s ≡ false) ↔ (s ≢ "")
nonempty_iff s = ground (arith, string_eq.beq_iff s "")

-- `if test { return problem }` before the rest of the checks.
pub guard_iff :
    (b : Bool) (p : ConfigError) (rest : Option ConfigError) {A B : Type 0}
    → (b ≡ false) ↔ A
    → (rest ≡ none) ↔ B
    → ((if b then some p else rest) ≡ none) ↔ (A × B)
guard_iff true p rest h k = (λ e. ground arith, λ x. absurd (true≢false (h.1 x.0)))
guard_iff false p rest h k = (λ e. (h.0 refl, k.0 e), λ x. k.1 x.1)

apart_iff :
    (dlq table : String)
    → ((not (is_empty dlq) && dlq == table) ≡ false) ↔ ((dlq ≡ "") ⊎ (dlq ≢ table))
apart_iff dlq table = ground (arith, string_eq.beq_iff dlq "", string_eq.beq_iff dlq table)

pub storage_iff : (cfg : AppConfig) → (validate_storage cfg ≡ none) ↔ CanStore cfg
unfolding validate_storage
storage_iff cfg =
    let r = repeated_iff [] (labelled_columns cfg) in
    let tests = guard_iff _ no_event_table _ (nonempty_iff cfg.event_table) (
      guard_iff _ no_event_id _ (nonempty_iff cfg.event_id) (
        guard_iff _ no_event_payload _ (nonempty_iff cfg.event_payload) (
          guard_iff _ no_pg_schema _ (nonempty_iff cfg.pg_schema)
            (guard_iff _ dlq_is_event_table _ (apart_iff cfg.dlq_table cfg.event_table) r)))) in
    (
      λ h.
          let (table, (id, (payload, (schema, (apart, (distinct, fresh)))))) = tests.0 h in
          record {
            table = table;
            id = id;
            payload = payload;
            schema = schema;
            apart = apart;
            distinct = distinct;
          },
      λ s. tests.1 (
        s.table,
        (s.id, (s.payload, (s.schema, (s.apart, (s.distinct, IsFresh-nil (named (columns cfg))))))),
      ),
    )
