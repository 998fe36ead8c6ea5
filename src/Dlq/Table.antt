-- ===== src/Dlq/Table.antt =====
-- validateDLQTableMetadata accepts exactly the tables that an INSERT into `event` alone can fill.
use mathlib.Core.Bool.{false≢true}
use outboxer.Prelude.{
  ◌≡◌, ◌≢◌, ◌↔◌, refl, sym, ◌∙◌, subst, String, Bool, true, false, not, Option, none, some, List,
  [], ◌∷◌, In, inl, inr, ◌⊎◌, arith, ◌==◌, string_eq, nat_eq, Bool-cases, lookup, Unique, length,
  if◌then◌else◌,
}
use outboxer.Dlq.{
  DlqColumnMetadata, DlqTableMetadata, id_not_omittable, no_event_column,
  can_omit_column_from_insert, columns_by_name, blocking, blocked, check_id,
  validate_dlq_table_metadata,
}
use outboxer.Dlq.Columns.{names, Columns, columns_by_name-present, columns_by_name-found}

-- The column may be left out of an INSERT: it is nullable, or gets a value by itself.
abbrev pub CanOmit : DlqColumnMetadata → Type 0
CanOmit c =
    (c.not_null ≡ false) ⊎ ((c.default_expr ≢ none) ⊎ ((c.identity ≢ "") ⊎ (c.generated ≢ "")))

-- What the INSERT into `event` alone needs of a table.
pub record Accepts (t : DlqTableMetadata) : Type 0 where
  pub kind : (t.relkind ≡ "r") ⊎ (t.relkind ≡ "p")
  pub privilege : t.can_insert_table ≡ true
  pub has_id : (c : DlqColumnMetadata) × In c t.columns × (c.name ≡ "id")
  pub omittable : (c : DlqColumnMetadata) → In c t.columns → c.name ≢ "event" → CanOmit c
  pub has_event :
      (c : DlqColumnMetadata) × In c t.columns
      × (c.name ≡ "event")
      × (c.generated ≡ "")
      × ((c.type_name ≡ "json") ⊎ (c.type_name ≡ "jsonb"))
      × (c.can_insert_column ≡ true)

CanOmit-iff : (c : DlqColumnMetadata) → (can_omit_column_from_insert c ≡ true) ↔ CanOmit c
unfolding can_omit_column_from_insert
CanOmit-iff c = by_default c.default_expr refl
  where
    by_default :
        (o : Option String)
        → c.default_expr ≡ o
        → (can_omit_column_from_insert c ≡ true) ↔ CanOmit c
    by_default none e =
        rw e (ground (arith, e, string_eq.beq_iff c.identity "", string_eq.beq_iff c.generated ""))
    by_default (some x) e =
        rw e (ground (arith, e, string_eq.beq_iff c.identity "", string_eq.beq_iff c.generated ""))

abbrev Fits : DlqColumnMetadata → Type 0
Fits c = c.name ≢ "id" → c.name ≢ "event" → can_omit_column_from_insert c ≡ true

blocking-cons :
    (d : DlqColumnMetadata) (cs : Columns)
    → (blocking (d ∷ cs) ≡ []) ↔ (Fits d × (blocking cs ≡ []))
unfolding blocking
blocking-cons d cs = elim (Bool-cases (d.name == "id")) [
  | inl id ↦ rw id (λ h. (λ n m. absurd (n ((string_eq.beq_iff d.name "id").0 id)), h), λ h. h.1)
  | inr other ↦ rw other (elim (Bool-cases (d.name == "event")) [
    | inl event ↦
        rw event
          (λ h. (λ n m. absurd (m ((string_eq.beq_iff d.name "event").0 event)), h), λ h. h.1)
    | inr plain ↦ rw plain (elim (Bool-cases (can_omit_column_from_insert d)) [
      | inl free ↦ rw free (λ h. (λ n m. refl, h), λ h. h.1)
      | inr bound ↦ rw bound (
        λ h. ground arith,
        λ h. absurd (
            false≢true (
              h.0 (λ e. ground (arith, e, other, string_eq.beq_iff d.name "id"))
                (λ e. ground (arith, e, plain, string_eq.beq_iff d.name "event")))),
      )
    ])
  ])
]

blocking_iff :
    (columns : Columns)
    → (blocking columns ≡ []) ↔ ((c : DlqColumnMetadata) → In c columns → Fits c)
unfolding blocking
blocking_iff [] = (λ e c i. absurd i, λ h. blocking_nil)
  where
    blocking_nil : blocking [] ≡ []
    blocking_nil = refl
blocking_iff (d ∷ cs) = (
  λ h. each ((blocking-cons d cs).0 h).0 ((blocking_iff cs).0 ((blocking-cons d cs).0 h).1),
  λ h. (blocking-cons d cs).1 (h d (inl refl), (blocking_iff cs).1 (λ c i. h c (inr i))),
)
  where
    each :
        Fits d
        → ((c : DlqColumnMetadata) → In c cs → Fits c)
        → (c : DlqColumnMetadata) → In c (d ∷ cs)
        → Fits c
    each h rest c (inl same) = subst Fits same h
    each h rest c (inr i) = rest c i

abbrev Checked : DlqTableMetadata → DlqColumnMetadata → DlqColumnMetadata → Type 0
Checked t id event =
    (can_omit_column_from_insert id ≡ true)
    × (event.generated ≡ "")
    × ((event.type_name ≡ "json") ⊎ (event.type_name ≡ "jsonb"))
    × (event.can_insert_column ≡ true)
    × (blocking t.columns ≡ [])

blocked_iff : (ns : List String) → (blocked ns ≡ none) ↔ (ns ≡ [])
blocked_iff [] = (λ _. refl, λ _. refl)
blocked_iff (n ∷ ns) = (λ h. ground arith, λ h. ground arith)

check_id-some :
    (t : DlqTableMetadata) (id event : DlqColumnMetadata)
    → (check_id t (some id) (some event) ≡ none) ↔ Checked t id event
check_id-some t id event = ground (
  arith,
  string_eq.beq_iff event.generated "",
  string_eq.beq_iff event.type_name "json",
  string_eq.beq_iff event.type_name "jsonb",
  blocked_iff (blocking t.columns),
)

validate-none :
    (t : DlqTableMetadata)
    → (validate_dlq_table_metadata t ≡ none) ↔ (
        (t.columns ≢ [])
        × ((t.relkind ≡ "r") ⊎ (t.relkind ≡ "p"))
        × (t.can_insert_table ≡ true)
        × (check_id t
              (lookup "id" (columns_by_name [] t.columns))
              (lookup "event" (columns_by_name [] t.columns))
            ≡ none))
unfolding validate_dlq_table_metadata
validate-none t =
    ground (
      arith,
      string_eq.beq_iff t.relkind "r",
      string_eq.beq_iff t.relkind "p",
      length-zero t.columns,
    )
  where
    length-zero : (cs : Columns) → ((length cs == 0) ≡ true) ↔ (cs ≡ [])
    length-zero [] = (λ _. refl, λ _. refl)
    length-zero (c ∷ cs) = (λ h. ground arith, λ h. ground arith)

none_held : (n : String) (c : DlqColumnMetadata) → lookup {V = DlqColumnMetadata} n [] ≡ some c → ⊥
unfolding lookup
none_held n c e = ground arith

-- What the map of the columns holds under a name is a column of that name.
held :
    (t : DlqTableMetadata) (n : String) (c : DlqColumnMetadata)
    → lookup n (columns_by_name [] t.columns) ≡ some c
    → In c t.columns × (c.name ≡ n)
held t n c e = elim (columns_by_name-found [] t.columns n c e) [
  | inl found ↦ found
  | inr nothing ↦ absurd (none_held n c nothing)
]

same_column :
    (t : DlqTableMetadata) (n : String) (c : DlqColumnMetadata)
    → Unique (names t.columns)
    → In c t.columns
    → c.name ≡ n
    → lookup n (columns_by_name [] t.columns) ≡ some c
same_column t n c u i e =
    subst (λ x. lookup x (columns_by_name [] t.columns) ≡ some c) e
      (columns_by_name-present [] t.columns c u i)

accepted :
    (t : DlqTableMetadata) (id event : Option DlqColumnMetadata)
    → lookup "id" (columns_by_name [] t.columns) ≡ id
    → lookup "event" (columns_by_name [] t.columns) ≡ event
    → Unique (names t.columns)
    → (t.relkind ≡ "r") ⊎ (t.relkind ≡ "p")
    → t.can_insert_table ≡ true
    → check_id t id event ≡ none
    → Accepts t
accepted t none event e f u kind privilege h = ground arith
accepted t (some id) none e f u kind privilege h = refused (can_omit_column_from_insert id) h
  where
    refused :
        (b : Bool)
        → (if not b then some id_not_omittable else some no_event_column) ≡ none
        → Accepts t
    refused true g = ground arith
    refused false g = ground arith
accepted t (some id) (some event) e f u kind privilege h =
    let c = (check_id-some t id event).0 h in
    let at_id = held t "id" id e in
    let at_event = held t "event" event f in
    record {
      kind = kind;
      privilege = privilege;
      has_id = (id, at_id.0, at_id.1);
      omittable = λ d i m. (CanOmit-iff d).0 (elim (Bool-cases (d.name == "id")) [
        | inl own ↦
            let same : some d ≡ some id =
              sym (same_column t "id" d u i ((string_eq.beq_iff d.name "id").0 own)) ∙ e in
            ground (arith, same, c.0)
        | inr other ↦
            (blocking_iff t.columns).0 c.4 d i
              (λ x. ground (arith, x, other, string_eq.beq_iff d.name "id")) m
      ]);
      has_event = (event, at_event.0, at_event.1, c.1, c.2, c.3);
    }

id_not_event : ◌≢◌ {A = String} "id" "event"
id_not_event e = absurd (false≢true ((string_eq.beq_iff "id" "event").1 e))

-- A table whose columns have distinct names is accepted exactly when an INSERT that names only
-- `event` can fill it.
pub validate-Accepts :
    (t : DlqTableMetadata)
    → Unique (names t.columns)
    → (validate_dlq_table_metadata t ≡ none) ↔ Accepts t
validate-Accepts t u = (
  λ h. let v = (validate-none t).0 h in accepted t _ _ refl refl u v.1 v.2 v.3,
  λ a.
      let (id, i, n) = a.has_id in
      let (event, j, m, given, typed, allowed) = a.has_event in
      (validate-none t).1 (
        (λ e. subst (In id) e i),
        a.kind,
        a.privilege,
        rw (same_column t "id" id u i n) (
            rw (same_column t "event" event u j m) (
              (check_id-some t id event).1 (
                (CanOmit-iff id).1 (a.omittable id i (λ e. id_not_event (sym n ∙ e))),
                given,
                typed,
                allowed,
                (blocking_iff t.columns).1 (λ c k x y. (CanOmit-iff c).1 (a.omittable c k y)),
              ))),
      ),
)
