-- ===== src/Prelude/Chars.antt =====
-- Texts as code points and the tests of Go's strings and regexp packages that the program makes.
use Prim.Native.Nat.{ℕ, ◌+◌}
use Prim.Native.Char.{code}
use Prim.Native.String.{String, ◌++◌}
use mathlib.Core.Path.{◌≡◌, refl}
use mathlib.Core.Logic.{◌↔◌}
use mathlib.Core.Bool.{Bool, true, false, ◌&&◌, ◌||◌}
use mathlib.Core.List
use mathlib.Core.List.{List, [], ◌∷◌, map}
use native.Mathlib.Omega.{arith}
use text.Mathlib.TextLemmas.{nil-append, cons-append}
use outboxer.Prelude.Tests.{leb, nat_beq, if◌then◌else◌}
use outboxer.Prelude.Lists.{length, All}

abbrev pub codes : String → List ℕ
codes String.[] = []
codes (String.◌∷◌ c s) = code c ∷ codes s

pub codes-append : (a b : String) → codes (a ++ b) ≡ List.◌++◌ (codes a) (codes b)
codes-append String.[] b = rw (nil-append b) refl
codes-append (String.◌∷◌ c a) b = rw (cons-append c a b, codes-append a b) refl

-- A range of characters, as in `[a-z]`.
abbrev pub between : ℕ → ℕ → ℕ → Bool
between low high c = leb low c && leb c high

abbrev pub is_alphanumeric : ℕ → Bool
is_alphanumeric c = between b'A' b'Z' c || between b'a' b'z' c || between b'0' b'9' c

abbrev pub every : (ℕ → Bool) → List ℕ → Bool
every test [] = true
every test (c ∷ cs) = test c && every test cs

pub every-All :
    (test : ℕ → Bool) (cs : List ℕ) → (every test cs ≡ true) ↔ All (λ c. test c ≡ true) cs
every-All test [] = (λ _. tt, λ _. refl)
every-All test (c ∷ cs) = ground (arith, every-All test cs)

pub every-append :
    (test : ℕ → Bool) (xs ys : List ℕ)
    → every test (List.◌++◌ xs ys) ≡ (every test xs && every test ys)
every-append test [] ys = refl
every-append test (x ∷ xs) ys = ground (arith, every-append test xs ys)

-- The pattern `^[class]{low,high}$`.
abbrev pub matches : (ℕ → Bool) → ℕ → ℕ → String → Bool
matches class low high s = between low high (length (codes s)) && every class (codes s)

abbrev pub same_codes : List ℕ → List ℕ → Bool
same_codes [] [] = true
same_codes [] (y ∷ ys) = false
same_codes (x ∷ xs) [] = false
same_codes (x ∷ xs) (y ∷ ys) = nat_beq x y && same_codes xs ys

-- strings.HasPrefix
abbrev pub has_prefix : List ℕ → List ℕ → Bool
has_prefix [] s = true
has_prefix (p ∷ prefix) [] = false
has_prefix (p ∷ prefix) (c ∷ s) = nat_beq p c && has_prefix prefix s

-- strings.HasSuffix
abbrev pub has_suffix : List ℕ → List ℕ → Bool
has_suffix suffix [] = same_codes suffix []
has_suffix suffix (c ∷ s) = same_codes suffix (c ∷ s) || has_suffix suffix s

-- strings.Contains
abbrev pub has_part : List ℕ → List ℕ → Bool
has_part part [] = same_codes part []
has_part part (c ∷ s) = has_prefix part (c ∷ s) || has_part part s

-- strings.ContainsAny
abbrev pub has_any : List ℕ → List ℕ → Bool
has_any chars [] = false
has_any chars (c ∷ s) = has_part (c ∷ []) chars || has_any chars s

-- What strings.Cut gives before the separator
abbrev pub before : ℕ → List ℕ → List ℕ
before separator [] = []
before separator (c ∷ s) = if nat_beq c separator then [] else c ∷ before separator s

-- strings.Split at one character
abbrev pub extend : ℕ → List (List ℕ) → List (List ℕ)
extend c [] = (c ∷ []) ∷ []
extend c (part ∷ parts) = (c ∷ part) ∷ parts

abbrev pub split_at : ℕ → List ℕ → List (List ℕ)
split_at separator [] = [] ∷ []
split_at separator (c ∷ s) =
    let parts = split_at separator s in if nat_beq c separator then [] ∷ parts else extend c parts

-- strings.ToLower on an ASCII letter
abbrev pub to_lower : ℕ → ℕ
to_lower c = if between b'A' b'Z' c then c + 32 else c

pub every_mono :
    (p q : ℕ → Bool) (cs : List ℕ)
    → ((c : ℕ) → p c ≡ true → q c ≡ true)
    → every p cs ≡ true
    → every q cs ≡ true
every_mono p q [] sub h = refl
every_mono p q (c ∷ cs) sub h = ground (arith, sub c, every_mono p q cs sub)
