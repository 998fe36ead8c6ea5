-- ===== src/Prelude/Sets.antt =====
-- Sets of keys as lists: Boolean membership, no repetition, and how many keys fit.
use Prim.Native.Nat.{ℕ, suc, ◌≤◌}
use mathlib.Core.Path.{◌≡◌}
use mathlib.Core.Logic.{inl, inr}
use mathlib.Core.Bool.{Bool, true, false, ◌||◌}
use mathlib.Core.Option.{some}
use mathlib.Core.List.{List, [], ◌∷◌}
use native.Mathlib.Omega.{arith}
use outboxer.Prelude.Tests.{Eq, ◌==◌, if◌then◌else◌, Bool-cases}
use outboxer.Prelude.Lists.{length, All, In}
use outboxer.Prelude.Maps.{lookup, insert}

module _ {ℓ} {K : Type ℓ} ⦃e : Eq K⦄ where
  -- `_, ok := set[k]`
  unfoldable pub contains : K → List K → Bool
  contains k [] = false
  contains k (j ∷ js) = j == k || contains k js

  -- How often a key stands in a list.
  unfoldable pub times : K → List K → ℕ
  times k [] = 0
  times k (j ∷ js) = let rest = times k js in if j == k then suc rest else rest

  abbrev pub Unique : List K → Type 0
  Unique [] = Unit
  Unique (k ∷ ks) = (contains k ks ≡ false) × Unique ks

  without : K → List K → List K
  without k [] = []
  without k (j ∷ js) = if j == k then js else j ∷ without k js

  length-without :
      (k : K) (ks : List K) → contains k ks ≡ true → suc (length (without k ks)) ≡ length ks
  unfolding contains without
  length-without k [] h = ground arith
  length-without k (j ∷ js) h = ground (arith, length-without k js)

  contains-without :
      (k j : K) (ks : List K)
      → (k == j) ≡ false
      → contains j ks ≡ true
      → contains j (without k ks) ≡ true
  unfolding contains without
  contains-without k j [] d h = h
  contains-without k j (i ∷ is) d h =
      ground (arith, contains-without k j is d, e.beq_iff k j, e.beq_iff i k, e.beq_iff i j)

  All-without :
      (k : K) (js ks : List K)
      → contains k js ≡ false
      → All (λ j. contains j ks ≡ true) js
      → All (λ j. contains j (without k ks) ≡ true) js
  unfolding contains
  All-without k [] ks u h = tt
  All-without k (j ∷ js) ks u h = (
    contains-without k j ks (ground (arith, e.beq_iff k j, e.beq_iff j k)) h.0,
    All-without k js ks (ground arith) h.1,
  )

  -- Distinct keys out of `ks` are no more than `ks` has.
  pub length-le_of_Unique :
      (js ks : List K) → Unique js → All (λ j. contains j ks ≡ true) js → length js ≤ length ks
  length-le_of_Unique [] ks u h = omega arith
  length-le_of_Unique (j ∷ js) ks u h = omega (
    arith,
    length-le_of_Unique js (without j ks) u.1 (All-without j js ks u.0 h.1),
    length-without j ks h.0,
  )

module _ {ℓ κ} {K : Type ℓ} {V : Type κ} ⦃e : Eq K⦄ where
  abbrev pub keys : List (K × V) → List K
  keys [] = []
  keys ((k, v) ∷ m) = k ∷ keys m

  pub contains-keys :
      (k : K) (v : V) (m : List (K × V)) → lookup k m ≡ some v → contains k (keys m) ≡ true
  unfolding lookup contains
  contains-keys k v [] h = ground arith
  contains-keys k v ((j, w) ∷ m) h = ground (arith, contains-keys k v m)

  pub length-keys-insert :
      (k : K) (v : V) (m : List (K × V)) → length (keys (insert k v m)) ≤ suc (length (keys m))
  unfolding insert
  length-keys-insert k v [] = omega arith
  length-keys-insert k v ((j, w) ∷ m) = ground (arith, length-keys-insert k v m)

module _ {K : Type 0} ⦃e : Eq K⦄ where
  pub In-of_contains : (k : K) (ks : List K) → contains k ks ≡ true → In k ks
  unfolding contains
  In-of_contains k [] h = ground arith
  In-of_contains k (j ∷ js) h = elim (Bool-cases (j == k)) [
    | inl hit ↦ inl ((e.beq_iff j k).0 hit)
    | inr miss ↦ inr (In-of_contains k js (rw (miss) at h))
  ]
