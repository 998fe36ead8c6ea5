-- ===== src/Prelude/Maps.antt =====
-- Go maps as association lists: lookup, assignment, and grouping by a key.
use Prim.Native.Nat.{suc}
use mathlib.Core.Path.{◌≡◌, refl, sym, ◌∙◌, subst}
use mathlib.Core.Logic.{◌⊎◌, ◌↔◌, inl, inr}
use mathlib.Core.Bool.{Bool, true, false}
use mathlib.Core.Option.{Option, none, some}
use mathlib.Core.List.{List, [], ◌∷◌, ◌++◌, append-nil, append_assoc}
use native.Mathlib.Omega.{arith}
use outboxer.Prelude.Tests.{Eq, ◌==◌, if◌then◌else◌, Bool-cases}
use outboxer.Prelude.Lists.{
  keep, length, length-append, All, All-append, All-In, In, In-append_left, In-append_right,
  In-append_cases,
}

module _ {ℓ κ} {K : Type ℓ} {V : Type κ} ⦃e : Eq K⦄ where
  unfoldable pub lookup : K → List (K × V) → Option V
  lookup key [] = none
  lookup key ((other, held) ∷ rest) = if other == key then some held else lookup key rest

  -- `m[key] = v`
  unfoldable pub insert : K → V → List (K × V) → List (K × V)
  insert key v [] = (key, v) ∷ []
  insert key v ((other, held) ∷ rest) =
      if other == key then (other, v) ∷ rest else (other, held) ∷ insert key v rest

  pub lookup-insert :
      (set read : K) (v : V) (m : List (K × V))
      → lookup read (insert set v m) ≡ (if set == read then some v else lookup read m)
  unfolding insert lookup
  lookup-insert set read v [] = refl
  lookup-insert set read v ((other, held) ∷ rest) = ground (
    arith,
    lookup-insert set read v rest,
    e.beq_iff other set,
    e.beq_iff other read,
    e.beq_iff set read,
  )

module _ {ℓ κ} {K : Type ℓ} {A : Type κ} ⦃e : Eq K⦄ where
  -- `m[k] = append(m[k], a)`
  unfoldable pub append_at : K → A → List (K × List A) → List (K × List A)
  append_at k a [] = (k, a ∷ []) ∷ []
  append_at k a ((j, items) ∷ m) =
      if j == k then (j, items ++ a ∷ []) ∷ m else (j, items) ∷ append_at k a m

  -- A slice that was never appended to reads as nil.
  unfoldable pub group : K → List (K × List A) → List A
  group k [] = []
  group k ((j, items) ∷ m) = if j == k then items else group k m

  pub group-append_at :
      (k j : K) (a : A) (m : List (K × List A))
      → group j (append_at k a m) ≡ (if k == j then group j m ++ a ∷ [] else group j m)
  unfolding group append_at
  group-append_at k j a [] = refl
  group-append_at k j a ((i, items) ∷ m) =
      ground (arith, e.beq_iff k j, e.beq_iff i k, e.beq_iff i j, group-append_at k j a m)

module _ {ℓ κ} {K : Type ℓ} {A : Type κ} ⦃e : Eq K⦄ where
  -- The loop `for _, x := range xs { m[key(x)] = append(m[key(x)], x) }`.
  unfoldable pub group_from : (A → K) → List (K × List A) → List A → List (K × List A)
  group_from key m [] = m
  group_from key m (x ∷ xs) = group_from key (append_at (key x) x m) xs

  unfoldable pub group_by : (A → K) → List A → List (K × List A)
  unfolding group_from
  group_by key xs = group_from key [] xs

  group-group_from :
      (key : A → K) (k : K) (m : List (K × List A)) (xs : List A)
      → group k (group_from key m xs) ≡ group k m ++ keep (λ x. key x == k) xs
  unfolding group_from
  group-group_from key k m [] = sym (append-nil _)
  group-group_from key k m (x ∷ xs) =
      group-group_from key k (append_at (key x) x m) xs ∙ rw group-append_at (step (key x == k))
    where
      step :
          (b : Bool)
          → (if b then group k m ++ x ∷ [] else group k m) ++ keep (λ y. key y == k) xs
            ≡ group k m ++ (if b then x ∷ keep (λ y. key y == k) xs else keep (λ y. key y == k) xs)
      step true = append_assoc (group k m) (x ∷ []) _
      step false = refl

  -- A group holds the items of its key, in their order.
  pub group-group_by :
      (key : A → K) (k : K) (xs : List A) → group k (group_by key xs) ≡ keep (λ x. key x == k) xs
  unfolding group_by group
  group-group_by key k xs = group-group_from key k [] xs

-- The items of all the groups.
abbrev pub members {ℓ κ} : {K : Type ℓ} {A : Type κ} → List (K × List A) → List A
members [] = []
members ((k, items) ∷ m) = items ++ members m

-- Grouping loses no item and makes none up.
module _ {K A : Type 0} ⦃e : Eq K⦄ where
  pub In-append_at_new : (k : K) (a : A) (m : List (K × List A)) → In a (members (append_at k a m))
  unfolding append_at
  In-append_at_new k a [] = inl refl
  In-append_at_new k a ((j, items) ∷ m) = elim (Bool-cases (j == k)) [
    | inl hit ↦ rw hit (
        In-append_left a (items ++ a ∷ []) (members m)
          (In-append_right a items (a ∷ []) (inl refl)))
    | inr miss ↦
        rw miss (In-append_right a items (members (append_at k a m)) (In-append_at_new k a m))
  ]

  pub In-append_at_old :
      (k : K) (a b : A) (m : List (K × List A))
      → In b (members m)
      → In b (members (append_at k a m))
  unfolding append_at
  In-append_at_old k a b [] h = absurd h
  In-append_at_old k a b ((j, items) ∷ m) h = elim (Bool-cases (j == k)) [
    | inl hit ↦ rw hit (elim (In-append_cases b items (members m) h) [
      | inl l ↦ In-append_left b (items ++ a ∷ []) _ (In-append_left b items _ l)
      | inr r ↦ In-append_right b (items ++ a ∷ []) _ r
    ])
    | inr miss ↦ rw miss (elim (In-append_cases b items (members m) h) [
      | inl l ↦ In-append_left b items _ l
      | inr r ↦ In-append_right b items _ (In-append_at_old k a b m r)
    ])
  ]

  In-append_at_inv :
      (k : K) (a b : A) (m : List (K × List A))
      → In b (members (append_at k a m))
      → (a ≡ b) ⊎ In b (members m)
  unfolding append_at
  In-append_at_inv k a b [] (inl e) = inl e
  In-append_at_inv k a b [] (inr h) = absurd h
  In-append_at_inv k a b ((j, items) ∷ m) h = elim (Bool-cases (j == k)) [
    | inl hit ↦ (elim (In-append_cases b (items ++ a ∷ []) (members m) (rw hit at h)) [
      | inl l ↦ (elim (In-append_cases b items (a ∷ []) l) [
        | inl old ↦ inr (In-append_left b items _ old)
        | inr (inl e) ↦ inl e
        | inr (inr no_more) ↦ absurd no_more
      ])
      | inr r ↦ inr (In-append_right b items _ r)
    ])
    | inr miss ↦ (elim (In-append_cases b items (members (append_at k a m)) (rw miss at h)) [
      | inl l ↦ inr (In-append_left b items _ l)
      | inr r ↦ (elim (In-append_at_inv k a b m r) [
        | inl e ↦ inl e
        | inr old ↦ inr (In-append_right b items _ old)
      ])
    ])
  ]

  In-group_from :
      (key : A → K) (b : A) (m : List (K × List A)) (xs : List A)
      → In b (members m) ⊎ In b xs
      → In b (members (group_from key m xs))
  unfolding group_from
  In-group_from key b m [] (inl h) = h
  In-group_from key b m [] (inr h) = absurd h
  In-group_from key b m (x ∷ xs) (inl h) =
      In-group_from key b (append_at (key x) x m) xs (inl (In-append_at_old (key x) x b m h))
  In-group_from key b m (x ∷ xs) (inr (inl e)) =
      In-group_from key b (append_at (key x) x m) xs
        (inl (subst (λ y. In y (members (append_at (key x) x m))) e (In-append_at_new (key x) x m)))
  In-group_from key b m (x ∷ xs) (inr (inr h)) =
      In-group_from key b (append_at (key x) x m) xs (inr h)

  In-group_from_inv :
      (key : A → K) (b : A) (m : List (K × List A)) (xs : List A)
      → In b (members (group_from key m xs))
      → In b (members m) ⊎ In b xs
  unfolding group_from
  In-group_from_inv key b m [] h = inl h
  In-group_from_inv key b m (x ∷ xs) h =
      elim (In-group_from_inv key b (append_at (key x) x m) xs h) [
        | inr i ↦ inr (inr i)
        | inl i ↦ (elim (In-append_at_inv (key x) x b m i) [
          | inl e ↦ inr (inl e)
          | inr old ↦ inl old
        ])
      ]

  pub In-group_by : (key : A → K) (b : A) (xs : List A) → In b (members (group_by key xs)) ↔ In b xs
  unfolding group_by
  In-group_by key b xs = (
    λ h. elim (In-group_from_inv key b [] xs h) [ inl i ↦ absurd i | inr i ↦ i ],
    λ h. In-group_from key b [] xs (inr h),
  )

-- What holds of every item under its key.
module _ {K A : Type 0} ⦃e : Eq K⦄ where
  abbrev pub Grouped {ℓ} : (K → A → Type ℓ) → List (K × List A) → Type ℓ
  Grouped P [] = Unit
  Grouped P ((k, items) ∷ m) = All (P k) items × Grouped P m

  pub append_at-Grouped {ℓ} :
      (P : K → A → Type ℓ) (k : K) (a : A) (m : List (K × List A))
      → P k a
      → Grouped P m
      → Grouped P (append_at k a m)
  unfolding append_at
  append_at-Grouped P k a [] p h = ((p, tt), tt)
  append_at-Grouped P k a ((j, items) ∷ m) p (h, hs) = elim (Bool-cases (j == k)) [
    | inl hit ↦ rw hit (
      All-append (P j) items (a ∷ []) h (subst (λ i. P i a) (sym ((e.beq_iff j k).0 hit)) p, tt),
      hs,
    )
    | inr miss ↦ rw miss (h, append_at-Grouped P k a m p hs)
  ]

  pub Grouped-In {ℓ} :
      (P : K → A → Type ℓ) (a : A) (m : List (K × List A))
      → In a (members m)
      → Grouped P m
      → (k : K) × P k a
  Grouped-In P a [] i h = absurd i
  Grouped-In P a ((k, items) ∷ m) i h = elim (In-append_cases a items (members m) i) [
    | inl here ↦ (k, All-In (P k) a items h.0 here)
    | inr there ↦ Grouped-In P a m there h.1
  ]

  pub length-members-append_at :
      (k : K) (a : A) (m : List (K × List A))
      → length (members (append_at k a m)) ≡ suc (length (members m))
  unfolding append_at
  length-members-append_at k a [] = refl
  length-members-append_at k a ((j, items) ∷ m) = elim (Bool-cases (j == k)) [
    | inl hit ↦ rw hit (
        omega (
          arith,
          length-append (items ++ a ∷ []) (members m),
          length-append items (a ∷ []),
          length-append items (members m),
        ))
    | inr miss ↦ rw miss (
        omega (
          arith,
          length-members-append_at k a m,
          length-append items (members m),
          length-append items (members (append_at k a m)),
        ))
  ]
