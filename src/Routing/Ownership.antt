-- ===== src/Routing/Ownership.antt =====
-- The ownership predicates, and the provider of a target.
use outboxer.Prelude.{
  String, ◌≡◌, refl, ◌∙◌, subst, Unique, Bool, true, false, not, ◌&&◌, ◌||◌, Option, none, some,
  List, [], ◌∷◌, map, ◌==◌, string_eq, nat_eq, contains, length, arith, Bool-cases, inl, inr,
}
use outboxer.Config.{ProviderRoute}
use outboxer.Routing.{
  Expr, Pred, Row, text, either, both, unequal, is_in, conjunction, ownership, all_of, eval, test,
  listed, chosen_branch, compared, and_3, or_3,
}
use outboxer.Routing.Spec.{find_route, owns}

abbrev pub absent : Option ProviderRoute → Bool
absent none = true
absent (some r) = false

abbrev pub default_of : Option ProviderRoute → String
default_of none = ""
default_of (some r) = r.default_destination

-- Every provider that is the row's target owns the destination.
abbrev pub own_all : String → String → List ProviderRoute → Bool
own_all t d [] = true
own_all t d (r ∷ rs) =
    let rest = own_all t d rs in
    (length r.owned_destinations == 0 || (not (t == r.target) || contains d r.owned_destinations))
    && rest

module _ (row : Row) (te de : Expr) (t d : String) (at_target : eval row te ≡ some t)
    (at_destination : eval row de ≡ some d) where
  conjunction_value :
      (p : Pred) (b : Bool) (routes : List ProviderRoute)
      → test row p ≡ some b
      → test row (conjunction p (ownership te de routes)) ≡ some (b && own_all t d routes)
  unfolding test
  conjunction_value p b [] h = ground (arith, h)
  conjunction_value p b (r ∷ rs) h = elim (Bool-cases (length r.owned_destinations == 0)) [
    | inl open' ↦ rw open' (conjunction_value p b rs h ∙ ground arith)
    | inr closed ↦ rw closed (
        conjunction_value
          (both p (either (unequal te (text r.target)) (is_in de r.owned_destinations)))
          (b && (not (t == r.target) || contains d r.owned_destinations)) rs
          (joined b (t == r.target) (contains d r.owned_destinations) (test row p) h)
        ∙ ground arith)
  ]
    where
      joined :
          (b o c : Bool) (v : Option Bool)
          → v ≡ some b
          → and_3 v (
              or_3
                (compared not (eval row te) (some r.target))
                (listed (eval row de) r.owned_destinations))
            ≡ some (b && (not (t == r.target) || contains d r.owned_destinations))
      joined b o c v e = rw e (rw at_target (rw at_destination (ground arith)))

  pub ownership_value :
      (routes : List ProviderRoute)
      → test row (all_of (ownership te de routes)) ≡ some (own_all t d routes)
  unfolding test
  ownership_value [] = refl
  ownership_value (r ∷ rs) = elim (Bool-cases (length r.owned_destinations == 0)) [
    | inl open' ↦ rw open' (ownership_value rs)
    | inr closed ↦ rw closed (
        conjunction_value (either (unequal te (text r.target)) (is_in de r.owned_destinations))
          (not (t == r.target) || contains d r.owned_destinations) rs
          (rw at_target (rw at_destination (ground arith))))
  ]

abbrev pub targets : List ProviderRoute → List String
targets = map (λ r. r.target)

own_all-absent :
    (t d : String) (routes : List ProviderRoute)
    → contains t (targets routes) ≡ false
    → own_all t d routes ≡ true
unfolding contains
own_all-absent t d [] h = refl
own_all-absent t d (r ∷ rs) h =
    ground
      (arith, own_all-absent t d rs, h, string_eq.beq_iff t r.target, string_eq.beq_iff r.target t)

-- Where targets are distinct, only the row's own provider has a say.
pub own_all-found :
    (t d : String) (routes : List ProviderRoute) (r : ProviderRoute)
    → Unique (targets routes)
    → find_route t routes ≡ some r
    → own_all t d routes ≡ owns r d
unfolding find_route contains
own_all-found t d [] r u h = ground (arith, h)
own_all-found t d (a ∷ rs) r u h = elim (Bool-cases (a.target == t)) [
  | inl hit ↦
      let same : a ≡ r = ground (arith, h, hit) in
      let none_else =
        own_all-absent t d rs (
          subst (λ x. contains x (targets rs) ≡ false) ((string_eq.beq_iff a.target t).0 hit)
            u.0) in
      ground
        (arith, none_else, same, hit, string_eq.beq_iff t a.target, string_eq.beq_iff a.target t)
  | inr miss ↦ ground (
    arith,
    own_all-found t d rs r u.1,
    h,
    miss,
    string_eq.beq_iff t a.target,
    string_eq.beq_iff a.target t,
  )
]

pub found_iff :
    (t : String) (routes : List ProviderRoute)
    → contains t (targets routes) ≡ not (absent (find_route t routes))
unfolding find_route contains
found_iff t [] = refl
found_iff t (a ∷ rs) = ground (arith, found_iff t rs)

pub default_branch :
    (t : String) (routes : List ProviderRoute)
    → chosen_branch (some t) (map (λ r. (r.target, r.default_destination)) routes)
      ≡ some (default_of (find_route t routes))
unfolding find_route
default_branch t [] = refl
default_branch t (a ∷ rs) =
    ground (arith, default_branch t rs, string_eq.beq_iff t a.target, string_eq.beq_iff a.target t)
