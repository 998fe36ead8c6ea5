-- ===== src/Prelude/Parts.antt =====
-- What the tests of Go's strings package on code points mean.
use mathlib.Core.Path.{◌≡◌, refl, ap, ◌∙◌, sym, subst}
use mathlib.Core.Logic.{◌↔◌, ◌⊎◌, inl, inr}
use mathlib.Core.Bool.{Bool, true, false, ◌||◌}
use mathlib.Core.List.{List, [], ◌∷◌, ◌++◌}
use native.Mathlib.Omega.{arith}
use Prim.Native.Nat.{ℕ}
use outboxer.Prelude.Tests.{nat_beq, if◌then◌else◌, Bool-cases}
use outboxer.Prelude.Chars.{same_codes, has_prefix, has_suffix, has_part, before}

-- `x` stands in front of `s`, at its end, or somewhere in it.
abbrev pub IsFront : List ℕ → List ℕ → Type 0
IsFront x s = (rest : List ℕ) × (s ≡ x ++ rest)

abbrev pub IsEnd : List ℕ → List ℕ → Type 0
IsEnd x s = (front : List ℕ) × (s ≡ front ++ x)

abbrev pub IsWithin : List ℕ → List ℕ → Type 0
IsWithin x s = (front : List ℕ) × (rest : List ℕ) × (s ≡ front ++ (x ++ rest))

pub same_codes_iff : (x y : List ℕ) → (same_codes x y ≡ true) ↔ (x ≡ y)
same_codes_iff [] [] = (λ _. refl, λ _. refl)
same_codes_iff [] (b ∷ y) = (λ h. cc h, λ h. cc h)
same_codes_iff (a ∷ x) [] = (λ h. cc h, λ h. cc h)
same_codes_iff (a ∷ x) (b ∷ y) = ground (arith, same_codes_iff x y)

pub has_prefix_iff : (x s : List ℕ) → (has_prefix x s ≡ true) ↔ IsFront x s
has_prefix_iff [] s = (λ _. (s, refl), λ _. refl)
has_prefix_iff (a ∷ x) [] = (λ h. cc h, λ (rest, h). cc h)
has_prefix_iff (a ∷ x) (c ∷ s) = (
  λ h.
      (let same : a ≡ c = ground arith in
        let (rest, e) = (has_prefix_iff x s).0 (ground arith) in (rest, cc (same, e))),
  λ (rest, h).
      (let same : a ≡ c = cc h in
        let e : s ≡ x ++ rest = cc h in
        let later = (has_prefix_iff x s).1 (rest, e) in ground arith),
)

same_codes_refl : (x : List ℕ) → same_codes x x ≡ true
same_codes_refl x = (same_codes_iff x x).1 refl

or_true : (b : Bool) → (b || true) ≡ true
or_true true = refl
or_true false = refl

suffix-front : (front x : List ℕ) → has_suffix x (front ++ x) ≡ true
suffix-front [] [] = refl
suffix-front [] (c ∷ x) = rw (same_codes_refl (c ∷ x)) refl
suffix-front (d ∷ front) x = rw (suffix-front front x) (or_true _)

pub has_suffix_iff : (x s : List ℕ) → (has_suffix x s ≡ true) ↔ IsEnd x s
has_suffix_iff x [] = (
  λ h. ([], sym ((same_codes_iff x []).0 h)),
  λ (front, h). subst (λ s. has_suffix x s ≡ true) (sym h) (suffix-front front x),
)
has_suffix_iff x (c ∷ s) = (
  λ h. elim (Bool-cases (same_codes x (c ∷ s))) [
    | inl whole ↦ ([], sym ((same_codes_iff x (c ∷ s)).0 whole))
    | inr part ↦
        (let (front, e) = (has_suffix_iff x s).0 (ground arith) in (c ∷ front, ap (λ t. c ∷ t) e))
  ],
  λ (front, h). subst (λ t. has_suffix x t ≡ true) (sym h) (suffix-front front x),
)

part-front : (front x rest : List ℕ) → has_part x (front ++ (x ++ rest)) ≡ true
part-front [] [] [] = refl
part-front [] [] (c ∷ rest) = refl
part-front [] (c ∷ x) rest = rw ((has_prefix_iff (c ∷ x) (c ∷ (x ++ rest))).1 (rest, refl)) refl
part-front (d ∷ front) x rest = rw (part-front front x rest) (or_true _)

pub has_part_iff : (x s : List ℕ) → (has_part x s ≡ true) ↔ IsWithin x s
has_part_iff x [] = (
  λ h. ([], [], ap (λ t. t ++ []) (sym ((same_codes_iff x []).0 h))),
  λ (front, rest, h). subst (λ t. has_part x t ≡ true) (sym h) (part-front front x rest),
)
has_part_iff x (c ∷ s) = (
  λ h. elim (Bool-cases (has_prefix x (c ∷ s))) [
    | inl here ↦ (let (rest, e) = (has_prefix_iff x (c ∷ s)).0 here in ([], rest, e))
    | inr later ↦
        (let (front, rest, e) = (has_part_iff x s).0 (ground arith) in
          (c ∷ front, rest, ap (λ t. c ∷ t) e))
  ],
  λ (front, rest, h). subst (λ t. has_part x t ≡ true) (sym h) (part-front front x rest),
)

-- No part `x` has the separator.
abbrev pub lacks : ℕ → List ℕ → Bool
lacks separator [] = true
lacks separator (c ∷ s) = if nat_beq c separator then false else lacks separator s

before-whole :
    (separator : ℕ) (base : List ℕ) → lacks separator base ≡ true → before separator base ≡ base
before-whole separator [] h = refl
before-whole separator (c ∷ base) h = elim (Bool-cases (nat_beq c separator)) [
  | inl here ↦ cc (rw here at h)
  | inr other ↦ rw other (ap (λ t. c ∷ t) (before-whole separator base (rw other at h)))
]

before-front :
    (separator : ℕ) (base rest : List ℕ)
    → lacks separator base ≡ true
    → before separator (base ++ (separator ∷ rest)) ≡ base
before-front separator [] rest h = ground arith
before-front separator (c ∷ base) rest h = elim (Bool-cases (nat_beq c separator)) [
  | inl here ↦ cc (rw here at h)
  | inr other ↦ rw other (ap (λ t. c ∷ t) (before-front separator base rest (rw other at h)))
]

before_inv :
    (separator : ℕ) (s : List ℕ)
    → (s ≡ before separator s) ⊎ ((rest : List ℕ) × (s ≡ before separator s ++ (separator ∷ rest)))
before_inv separator [] = inl refl
before_inv separator (c ∷ s) = elim (Bool-cases (nat_beq c separator)) [
  | inl here ↦ (let same : c ≡ separator = ground arith in rw here (inr (s, ap (λ d. d ∷ s) same)))
  | inr other ↦ elim (before_inv separator s) [
    | inl e ↦ rw other (inl (ap (λ t. c ∷ t) e))
    | inr (rest, e) ↦ rw other (inr (rest, ap (λ t. c ∷ t) e))
  ]
]

-- What stands before the first separator: the whole text, or what a separator follows.
pub before_iff :
    (separator : ℕ) (base s : List ℕ)
    → lacks separator base ≡ true
    → (same_codes (before separator s) base ≡ true)
      ↔ ((s ≡ base) ⊎ ((rest : List ℕ) × (s ≡ base ++ (separator ∷ rest))))
before_iff separator base s h = (
  λ same.
      (let e = (same_codes_iff (before separator s) base).0 same in
        subst (λ b. (s ≡ b) ⊎ ((rest : List ℕ) × (s ≡ b ++ (separator ∷ rest)))) e
          (before_inv separator s)),
  λ read. (same_codes_iff (before separator s) base).1 (given read),
)
  where
    given :
        (s ≡ base) ⊎ ((rest : List ℕ) × (s ≡ base ++ (separator ∷ rest)))
        → before separator s ≡ base
    given (inl e) = ap (before separator) e ∙ before-whole separator base h
    given (inr (rest, e)) = ap (before separator) e ∙ before-front separator base rest h
