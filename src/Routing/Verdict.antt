-- ===== src/Routing/Verdict.antt =====
-- What the predicates say of a row whose target and destination are known.
use mathlib.Core.Bool.{true≢false}
use outboxer.Prelude.{
  String, ◌≡◌, refl, sym, ◌∙◌, ap, Unique, true, false, not, Option, none, some, List, [], ◌∷◌,
  ◌==◌, string_eq, nat_eq, contains, arith, Bool-cases, inl, inr, ◌⊎◌,
}
use outboxer.Config.{ProviderRoute}
use outboxer.Event.{Route}
use outboxer.Routing.{
  Expr, Pred, Row, text, coalesce, both, unequal, ownership, all_of, eval, test, and_3,
}
use outboxer.Routing.Spec.{find_route, or_default, with_provider, pair_route, when}
use outboxer.Routing.Ownership.{
  absent, default_of, own_all, ownership_value, targets, own_all-found, found_iff,
}

find_route-target :
    (t : String) (routes : List ProviderRoute) (r : ProviderRoute)
    → find_route t routes ≡ some r
    → r.target ≡ t
unfolding find_route
find_route-target t [] r h = ground (arith, h)
find_route-target t (a ∷ rs) r h =
    ground (arith, find_route-target t rs r, h, string_eq.beq_iff a.target t)

abbrev pub verdict : Row → Expr → Expr → Pred → List ProviderRoute → Option Route
verdict row te de predicate routes =
    when
      (test row (
        both (both predicate (unequal (coalesce de (text "")) (text "")))
          (all_of (ownership te de routes))))
      (pair_route (eval row te) (eval row de))

-- The verdict on a row with a target, if the predicate asks for a known target.
verdict-target :
    (row : Row) (te de : Expr) (predicate : Pred) (routes : List ProviderRoute) (t : String)
    (y : Option String)
    → Unique (targets routes)
    → eval row te ≡ some t
    → test row predicate ≡ some (contains t (targets routes))
    → eval row de ≡ some (or_default y (default_of (find_route t routes)))
    → verdict row te de predicate routes ≡ with_provider (find_route t routes) y
unfolding eval test
verdict-target row te de predicate routes t y u at_t at_p at_d =
    let d = or_default y (default_of (find_route t routes)) in
    rw at_p (
      rw at_d (
        rw at_t (
          rw (ownership_value row te de t d at_t at_d routes)
            (rw (found_iff t routes) (split (find_route t routes) refl)))))
  where
    split :
        (o : Option ProviderRoute)
        → find_route t routes ≡ o
        → when
            (and_3
              (and_3 (some (not (absent o))) (some (not (or_default y (default_of o) == ""))))
              (some (own_all t (or_default y (default_of o)) routes)))
            (some (record { target = t; destination = or_default y (default_of o) }))
          ≡ with_provider o y
    split none e = refl
    split (some r) e =
        rw (own_all-found t (or_default y r.default_destination) routes r u e)
          (ground (arith, find_route-target t routes r e))

pub verdict-none :
    (row : Row) (te de : Expr) (predicate : Pred) (routes : List ProviderRoute)
    → ((test row predicate ≡ none) ⊎ (test row predicate ≡ some false))
    → verdict row te de predicate routes ≡ none
unfolding test
verdict-none row te de predicate routes (inl h) = rw h (ground arith)
verdict-none row te de predicate routes (inr h) = rw h (ground arith)

absent-with_provider :
    (o : Option ProviderRoute) (y : Option String)
    → not (absent o) ≡ false
    → none ≡ with_provider o y
absent-with_provider none y h = refl
absent-with_provider (some r) y h = absurd (true≢false h)

pub verdict-known :
    (row : Row) (te de : Expr) (predicate : Pred) (routes : List ProviderRoute) (t : String)
    (y : Option String)
    → Unique (targets routes)
    → eval row te ≡ some t
    → test row predicate ≡ some (contains t (targets routes))
    → (contains t (targets routes) ≡ true
        → eval row de ≡ some (or_default y (default_of (find_route t routes))))
    → verdict row te de predicate routes ≡ with_provider (find_route t routes) y
verdict-known row te de predicate routes t y u at_t at_p at_d =
    elim (Bool-cases (contains t (targets routes))) [
      | inl known ↦ verdict-target row te de predicate routes t y u at_t at_p (at_d known)
      | inr unknown ↦
          verdict-none row te de predicate routes (inr (at_p ∙ ap some unknown))
          ∙ absent-with_provider (find_route t routes) y (sym (found_iff t routes) ∙ unknown)
    ]
