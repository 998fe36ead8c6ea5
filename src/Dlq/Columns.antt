-- ===== src/Dlq/Columns.antt =====
-- The map of a table's columns by name.
use outboxer.Prelude.{
  ◌≡◌, refl, sym, ◌∙◌, ap, subst, String, Bool, true, false, some, List, [], ◌∷◌, map, In, inl, inr,
  ◌⊎◌, arith, ◌==◌, string_eq, nat_eq, lookup, insert, lookup-insert, Unique, contains,
  if◌then◌else◌,
}
use outboxer.Dlq.{DlqColumnMetadata, columns_by_name}

abbrev pub Columns : Type 0
Columns = List DlqColumnMetadata

abbrev pub names : Columns → List String
names = map (λ c. c.name)

-- The last column of a name wins; a name that no column has keeps what the map held.
columns_by_name-absent :
    (m : List (String × DlqColumnMetadata)) (columns : Columns) (n : String)
    → contains n (names columns) ≡ false
    → lookup n (columns_by_name m columns) ≡ lookup n m
unfolding columns_by_name contains
columns_by_name-absent m [] n h = refl
columns_by_name-absent m (c ∷ cs) n h =
    let rec = columns_by_name-absent (insert c.name c m) cs n (ground (arith, h)) in
    ground (arith, rec, lookup-insert c.name n c m, h)

pub columns_by_name-present :
    (m : List (String × DlqColumnMetadata)) (columns : Columns) (c : DlqColumnMetadata)
    → Unique (names columns)
    → In c columns
    → lookup c.name (columns_by_name m columns) ≡ some c
unfolding columns_by_name
columns_by_name-present m (d ∷ cs) c u (inl same) =
    columns_by_name-absent (insert d.name d m) cs c.name
      (subst (λ x. contains x.name (names cs) ≡ false) same u.0)
    ∙ lookup-insert d.name c.name d m
    ∙ ground
        (arith, same, string_eq.beq_iff d.name c.name, ap (λ (x : DlqColumnMetadata). x.name) same)
columns_by_name-present m (d ∷ cs) c u (inr i) =
    columns_by_name-present (insert d.name d m) cs c u.1 i
columns_by_name-present m [] c u i = absurd i

pub columns_by_name-found :
    (m : List (String × DlqColumnMetadata)) (columns : Columns) (n : String) (c : DlqColumnMetadata)
    → lookup n (columns_by_name m columns) ≡ some c
    → (In c columns × (c.name ≡ n)) ⊎ (lookup n m ≡ some c)
unfolding columns_by_name
columns_by_name-found m [] n c h = inr h
columns_by_name-found m (d ∷ cs) n c h = elim (columns_by_name-found (insert d.name d m) cs n c h) [
  | inl (i, e) ↦ inl (inr i, e)
  | inr e ↦ pick (d.name == n) refl (sym (lookup-insert d.name n d m) ∙ e)
]
  where
    pick :
        (b : Bool)
        → (d.name == n) ≡ b
        → (if b then some d else lookup n m) ≡ some c
        → (In c (d ∷ cs) × (c.name ≡ n)) ⊎ (lookup n m ≡ some c)
    pick true t e =
        let same : d ≡ c = cc in
        inl (
          inl same,
          ap (λ (x : DlqColumnMetadata). x.name) (sym same) ∙ (string_eq.beq_iff d.name n).0 t,
        )
    pick false t e = inr e
