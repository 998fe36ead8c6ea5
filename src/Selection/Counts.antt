-- ===== src/Selection/Counts.antt =====
-- Counts of the rows of each route, for the drained test of internal/outboxer/backlog.go.
use outboxer.Prelude.{
  ℕ, zero, suc, ◌+◌, ◌≤◌, ◌<◌, ◌≡◌, refl, ◌∙◌, ap, subst, Bool, true, false, some, List, [], ◌∷◌,
  ◌++◌, map, arith, Bool-cases, inl, inr, ◌==◌, contains, keep, length, In, In-map, lookup, insert,
  lookup-insert, keys, times, Unique, if◌then◌else◌,
}
use outboxer.Prelude.Int.{ℤ}
use outboxer.Config.{take}
use outboxer.Event.{Route, route_eq, Event}
use outboxer.Backlog.{count_of, per_route_from, route_share, all_below_share, batch_drained}
use outboxer.Selection.{distinct}

-- How many events have a route.
abbrev pub of_route : Route → List Event → ℕ
of_route r events = times r (map (λ (evt : Event). evt.route) events)

chosen_true : {b : Bool} (x y : ℕ) → b ≡ true → (if b then x else y) ≡ x
chosen_true x y h = rw h refl

chosen_false : {b : Bool} (x y : ℕ) → b ≡ false → (if b then x else y) ≡ y
chosen_false x y h = rw h refl

count_of-insert :
    (r k : Route) (n : ℕ) (m : List (Route × ℕ))
    → count_of r (insert k n m) ≡ (if k == r then n else count_of r m)
unfolding count_of
count_of-insert r k n m = ground (arith, lookup-insert k r n m)

count_of-per_route_from :
    (r : Route) (m : List (Route × ℕ)) (events : List Event)
    → count_of r (per_route_from m events) ≡ count_of r m + of_route r events
unfolding per_route_from times
count_of-per_route_from r m [] = omega arith
count_of-per_route_from r m (evt ∷ events) =
    let n = count_of evt.route m + 1 in
    let rec = count_of-per_route_from r (insert evt.route n m) events in
    let set = count_of-insert r evt.route n m in
    elim (Bool-cases (evt.route == r)) [
      | inl own ↦
          let same = ap (λ x. count_of x m) ((route_eq.beq_iff evt.route r).0 own) in
          rw own (omega (arith, rec, same, set ∙ chosen_true n (count_of r m) own))
      | inr other ↦ rw other (omega (arith, rec, set ∙ chosen_false n (count_of r m) other))
    ]

pub all_below_inv :
    (share : ℕ) (m : List (Route × ℕ)) (r : Route) (c : ℕ)
    → all_below_share share m ≡ true
    → lookup r m ≡ some c
    → c < share
unfolding all_below_share lookup
all_below_inv share [] r c h e = ground (arith, e)
all_below_inv share ((k, n) ∷ m) r c h e = ground (arith, all_below_inv share m r c, h, e)

-- A prefix that is shorter than asked is everything.
pub take-short : {A : Type 0} (n : ℕ) (xs : List A) → length (take n xs) < n → take n xs ≡ xs
unfolding take
take-short zero xs h = absurd (omega (arith, h))
take-short (suc n) [] h = refl
take-short (suc n) (x ∷ xs) h = ap (λ ys. x ∷ ys) (take-short n xs (omega (arith, h)))

-- One list within another, in its order.
pub data Within {A : Type 0} : List A → List A → Type 0 where
  done : {ys : List A} → Within [] ys
  both : {x : A} {xs ys : List A} → Within xs ys → Within (x ∷ xs) (x ∷ ys)
  skip : {y : A} {xs ys : List A} → Within xs ys → Within xs (y ∷ ys)

pub Within-keep : {A : Type 0} (p : A → Bool) (xs : List A) → Within (keep p xs) xs
Within-keep p [] = done
Within-keep p (x ∷ xs) = elim (Bool-cases (p x)) [
  | inl kept ↦ rw kept (both (Within-keep p xs))
  | inr out ↦ rw out (skip (Within-keep p xs))
]

pub Within-take : {A : Type 0} (n : ℕ) {xs ys : List A} → Within xs ys → Within (take n xs) ys
unfolding take
Within-take zero w = done
Within-take (suc n) done = done
Within-take (suc n) (both w) = both (Within-take n w)
Within-take (suc n) (skip w) = skip (Within-take (suc n) w)

pub Unique-distinct : (rs : List Route) → Unique (distinct rs)
unfolding distinct
Unique-distinct [] = tt
Unique-distinct (r ∷ rs) = elim (Bool-cases (contains r (distinct rs))) [
  | inl old ↦ rw old (Unique-distinct rs)
  | inr fresh ↦ rw fresh (fresh, Unique-distinct rs)
]

pub times-In : (r : Route) (rs : List Route) → In r rs → 1 ≤ times r rs
unfolding times
times-In r [] i = absurd i
times-In r (x ∷ rs) (inl h) = ground (arith, (route_eq.beq_iff x r).1 h)
times-In r (x ∷ rs) (inr i) = ground (arith, times-In r rs i)

pub of_route-append :
    (r : Route) (xs ys : List Event) → of_route r (xs ++ ys) ≡ of_route r xs + of_route r ys
unfolding times
of_route-append r [] ys = omega arith
of_route-append r (x ∷ xs) ys = ground (arith, of_route-append r xs ys)

pub batch_drained_inv :
    (target : ℤ) (events : List Event) (evt : Event)
    → In evt events
    → batch_drained events target ≡ true
    → all_below_share
        (route_share target (length (per_route_from [] events)))
        (per_route_from [] events)
      ≡ true
unfolding batch_drained
batch_drained_inv target [] evt i h = absurd i
batch_drained_inv target (x ∷ events) evt i h = h

no_count : (r : Route) → count_of r [] ≡ 0
unfolding count_of lookup
no_count r = refl

count_found :
    (r : Route) (m : List (Route × ℕ)) → 1 ≤ count_of r m → lookup r m ≡ some (count_of r m)
unfolding count_of
count_found r m h = ground (arith, h)

-- The counts of the routes that events have, found in the map.
pub lookup-per_route_from :
    (r : Route) (events : List Event)
    → 1 ≤ of_route r events
    → lookup r (per_route_from [] events) ≡ some (of_route r events)
lookup-per_route_from r events h =
    let c : count_of r (per_route_from [] events) ≡ of_route r events =
      omega (arith, count_of-per_route_from r [] events, no_count r) in
    count_found r (per_route_from [] events) (omega (arith, c, h)) ∙ ap some c

pub length-keys : (m : List (Route × ℕ)) → length (keys m) ≡ length m
length-keys [] = refl
length-keys ((r, n) ∷ m) = omega (arith, length-keys m)

pub length-In : (r : Route) (rs : List Route) → In r rs → 1 ≤ length rs
length-In r [] i = absurd i
length-In r (x ∷ rs) i = omega arith

pub of_route-In :
    (r : Route) (events : List Event) (evt : Event)
    → In evt events
    → evt.route ≡ r
    → 1 ≤ of_route r events
of_route-In r events evt i h = times-In r _ (
    subst (λ x. In x (map (λ (y : Event). y.route) events)) h
      (In-map (λ (y : Event). y.route) evt events i))
