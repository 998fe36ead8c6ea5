-- ===== src/Prelude/Lists.antt =====
-- Lists measured by native numbers, predicates on all their members, and Boolean membership.
use Prim.Native.Nat.{ℕ, suc, ◌+◌, ◌≤◌}
use mathlib.Core.Path.{◌≡◌, refl, sym, ap, subst, ◌∙◌}
use mathlib.Core.Logic.{◌⊎◌, inl, inr}
use mathlib.Core.Bool.{Bool, true, false}
use mathlib.Core.List.{List, [], ◌∷◌, ◌++◌, map, Permᴰ}
use native.Mathlib.Omega.{arith}
use outboxer.Prelude.Tests.{if◌then◌else◌}

module _ {ℓ} {A : Type ℓ} where
  abbrev pub length : List A → ℕ
  length [] = 0
  length (x ∷ xs) = suc (length xs)

  pub length-append : (xs ys : List A) → length (xs ++ ys) ≡ length xs + length ys
  length-append [] ys = omega arith
  length-append (x ∷ xs) ys = omega (arith, length-append xs ys)

  -- The items handled so far, the last one first.
  abbrev pub reverse_onto : List A → List A → List A
  reverse_onto [] done = done
  reverse_onto (x ∷ xs) done = reverse_onto xs (x ∷ done)

  abbrev pub concat : List (List A) → List A
  concat [] = []
  concat (xs ∷ xss) = xs ++ concat xss

  -- The members that pass a Boolean test, in order.
  abbrev pub keep : (A → Bool) → List A → List A
  keep p [] = []
  keep p (x ∷ xs) = let rest = keep p xs in if p x then x ∷ rest else rest

  pub length-keep-le : (p : A → Bool) (xs : List A) → length (keep p xs) ≤ length xs
  length-keep-le p [] = omega arith
  length-keep-le p (x ∷ xs) = ground (arith, length-keep-le p xs)

  abbrev pub All {κ} : (A → Type κ) → List A → Type κ
  All P [] = Unit
  All P (x ∷ xs) = P x × All P xs

  pub All-append {κ} : (P : A → Type κ) (xs ys : List A) → All P xs → All P ys → All P (xs ++ ys)
  All-append P [] ys hx hy = hy
  All-append P (x ∷ xs) ys hx hy = (hx.0, All-append P xs ys hx.1 hy)

  pub All-map {κ μ} :
      (P : A → Type κ) (Q : A → Type μ) (xs : List A) → ((x : A) → P x → Q x) → All P xs → All Q xs
  All-map P Q [] f h = tt
  All-map P Q (x ∷ xs) f h = (f x h.0, All-map P Q xs f h.1)

module _ {ℓ} {A : Type ℓ} where
  pub length-reverse_onto :
      (xs done : List A) → length (reverse_onto xs done) ≡ length xs + length done
  length-reverse_onto [] done = omega arith
  length-reverse_onto (x ∷ xs) done = omega (arith, length-reverse_onto xs (x ∷ done))

  pub All-reverse_onto {κ} :
      (P : A → Type κ) (xs done : List A) → All P (reverse_onto xs done) → All P xs × All P done
  All-reverse_onto P [] done h = (tt, h)
  All-reverse_onto P (x ∷ xs) done h =
      let (hs, (hx, hd)) = All-reverse_onto P xs (x ∷ done) h in ((hx, hs), hd)

module _ {A : Type 0} where
  -- Where an item stands, kept as data.
  abbrev pub In : A → List A → Type 0
  In a [] = ⊥
  In a (x ∷ xs) = (x ≡ a) ⊎ In a xs

  pub In-append_left : (a : A) (xs ys : List A) → In a xs → In a (xs ++ ys)
  In-append_left a [] ys h = absurd h
  In-append_left a (x ∷ xs) ys (inl e) = inl e
  In-append_left a (x ∷ xs) ys (inr h) = inr (In-append_left a xs ys h)

  pub In-append_right : (a : A) (xs ys : List A) → In a ys → In a (xs ++ ys)
  In-append_right a [] ys h = h
  In-append_right a (x ∷ xs) ys h = inr (In-append_right a xs ys h)

  pub In-append_cases : (a : A) (xs ys : List A) → In a (xs ++ ys) → In a xs ⊎ In a ys
  In-append_cases a [] ys h = inr h
  In-append_cases a (x ∷ xs) ys (inl e) = inl (inl e)
  In-append_cases a (x ∷ xs) ys (inr h) = elim (In-append_cases a xs ys h) [
    | inl l ↦ inl (inr l)
    | inr r ↦ inr r
  ]

  pub In-keep : (p : A → Bool) (a : A) (xs : List A) → In a xs → p a ≡ true → In a (keep p xs)
  In-keep p a (x ∷ xs) (inl e) h = rw (ap p e ∙ h) (inl e)
  In-keep p a (x ∷ xs) (inr i) h = late (p x) (In-keep p a xs i h)
    where
      late : (b : Bool) → In a (keep p xs) → In a (if b then x ∷ keep p xs else keep p xs)
      late true j = inr j
      late false j = j
  In-keep p a [] i h = absurd i

  pub All-In {κ} : (P : A → Type κ) (a : A) (xs : List A) → All P xs → In a xs → P a
  All-In P a (x ∷ xs) h (inl e) = subst P e h.0
  All-In P a (x ∷ xs) h (inr i) = All-In P a xs h.1 i
  All-In P a [] h i = absurd i

  pub In-All {κ} : (P : A → Type κ) (xs : List A) → ((a : A) → In a xs → P a) → All P xs
  In-All P [] h = tt
  In-All P (x ∷ xs) h = (h x (inl refl), In-All P xs (λ a i. h a (inr i)))

module _ {A B : Type 0} where
  pub In-map : (f : A → B) (a : A) (xs : List A) → In a xs → In (f a) (map f xs)
  In-map f a [] h = absurd h
  In-map f a (x ∷ xs) (inl e) = inl (ap f e)
  In-map f a (x ∷ xs) (inr h) = inr (In-map f a xs h)

  pub In-map_inv :
      (f : A → B) (b : B) (xs : List A) → In b (map f xs) → (a : A) × In a xs × (f a ≡ b)
  In-map_inv f b [] h = absurd h
  In-map_inv f b (x ∷ xs) (inl e) = (x, inl refl, e)
  In-map_inv f b (x ∷ xs) (inr h) = let (a, i, e) = In-map_inv f b xs h in (a, inr i, e)

-- The order of arrival does not matter to what holds of all.
pub All-perm {ℓ} :
    {A : Type 0} (P : A → Type ℓ) {xs ys : List A} → Permᴰ xs ys → All P ys → All P xs
All-perm P Permᴰ.nil h = tt
All-perm P (Permᴰ.cons e p) (h, hs) = (subst P (sym e) h, All-perm P p hs)
All-perm P (Permᴰ.swap e d) (h, (k, hs)) = (subst P (sym e) k, (subst P (sym d) h, hs))
All-perm P (Permᴰ.trans p q) h = All-perm P p (All-perm P q h)

abbrev pub total {ℓ} : {A : Type ℓ} → (A → ℕ) → List A → ℕ
total f [] = 0
total f (x ∷ xs) = f x + total f xs

pub total-perm : {A : Type 0} (f : A → ℕ) {xs ys : List A} → Permᴰ xs ys → total f xs ≡ total f ys
total-perm f Permᴰ.nil = refl
total-perm f (Permᴰ.cons e p) = omega (arith, ap f e, total-perm f p)
total-perm f (Permᴰ.swap e d) = omega (arith, ap f e, ap f d)
total-perm f (Permᴰ.trans p q) = total-perm f p ∙ total-perm f q
