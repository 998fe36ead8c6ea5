-- ===== src/Selection/Members.antt =====
-- Members of the lists that the query passes through.
use outboxer.Prelude.{
  ℕ, zero, suc, ◌≤◌, ◌≡◌, ◌↔◌, refl, ap, subst, Bool, true, Option, none, some, List, [], ◌∷◌,
  string_eq, arith, Bool-cases, inl, inr, contains, keep, In, In-of_contains,
}
use outboxer.Config.{take}
use outboxer.Event.{Route, route_eq}
use outboxer.Routing.Spec.{when}
use outboxer.Selection.{resolved, distinct, is_true}

pub is_true_iff : (o : Option Bool) → (is_true o ≡ true) ↔ (o ≡ some true)
is_true_iff o = ground arith

pub In-resolved : (r : Route) (os : List (Option Route)) → In (some r) os → In r (resolved os)
In-resolved r [] i = absurd i
In-resolved r (none ∷ os) (inl e) = ground (arith, e)
In-resolved r (some x ∷ os) (inl e) = inl (ground (arith, e))
In-resolved r (none ∷ os) (inr i) = In-resolved r os i
In-resolved r (some x ∷ os) (inr i) = inr (In-resolved r os i)

pub In-distinct : (r : Route) (rs : List Route) → In r rs → In r (distinct rs)
unfolding distinct
In-distinct r [] i = absurd i
In-distinct r (x ∷ rs) (inl e) = elim (Bool-cases (contains x (distinct rs))) [
  | inl old ↦ rw old (subst (λ y. In y (distinct rs)) e (In-of_contains x (distinct rs) old))
  | inr fresh ↦ rw fresh (inl e)
]
In-distinct r (x ∷ rs) (inr i) = elim (Bool-cases (contains x (distinct rs))) [
  | inl old ↦ rw old (In-distinct r rs i)
  | inr fresh ↦ rw fresh (inr (In-distinct r rs i))
]

pub In-resolved_inv : (r : Route) (os : List (Option Route)) → In r (resolved os) → In (some r) os
In-resolved_inv r [] i = absurd i
In-resolved_inv r (none ∷ os) i = inr (In-resolved_inv r os i)
In-resolved_inv r (some x ∷ os) (inl e) = inl (ap some e)
In-resolved_inv r (some x ∷ os) (inr i) = inr (In-resolved_inv r os i)

pub In-distinct_inv : (r : Route) (rs : List Route) → In r (distinct rs) → In r rs
unfolding distinct
In-distinct_inv r [] i = absurd i
In-distinct_inv r (x ∷ rs) i = elim (Bool-cases (contains x (distinct rs))) [
  | inl old ↦ inr (In-distinct_inv r rs (rw old at i))
  | inr fresh ↦ elim (rw fresh at i) [ inl e ↦ inl e | inr j ↦ inr (In-distinct_inv r rs j) ]
]

pub In-keep_inv :
    {A : Type 0} (p : A → Bool) (a : A) (xs : List A) → In a (keep p xs) → In a xs × (p a ≡ true)
In-keep_inv p a [] i = absurd i
In-keep_inv p a (x ∷ xs) i = elim (Bool-cases (p x)) [
  | inr out ↦ let (j, h) = In-keep_inv p a xs (rw out at i) in (inr j, h)
  | inl kept ↦ elim (rw kept at i) [
    | inl e ↦ (inl e, subst (λ y. p y ≡ true) e kept)
    | inr k ↦ let (j, h) = In-keep_inv p a xs k in (inr j, h)
  ]
]

pub In-take : {A : Type 0} (n : ℕ) (a : A) (xs : List A) → In a (take n xs) → In a xs
unfolding take
In-take zero a xs i = absurd i
In-take (suc n) a [] i = i
In-take (suc n) a (x ∷ xs) (inl e) = inl e
In-take (suc n) a (x ∷ xs) (inr i) = inr (In-take n a xs i)

pub take-some :
    {A : Type 0} (n : ℕ) (a : A) (xs : List A) → 1 ≤ n → In a xs → (b : A) × In b (take n xs)
unfolding take
take-some zero a xs h i = absurd (omega (arith, h))
take-some (suc n) a (x ∷ xs) h i = (x, inl refl)
take-some (suc n) a [] h i = absurd i

pub when_inv : (b : Option Bool) (x : Option Route) (r : Route) → when b x ≡ some r → b ≡ some true
when_inv b x r h = ground (arith, h)
