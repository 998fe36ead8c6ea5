-- ===== src/Prelude/Groups.antt =====
-- What holds of each item under its key holds of the groups, and of the pieces of a list.
use mathlib.Core.List.{List, [], ◌∷◌, ◌++◌}
use outboxer.Prelude.Tests.{Eq}
use outboxer.Prelude.Lists.{All, concat}
use outboxer.Prelude.Maps.{append_at, group_from, group_by, Grouped, append_at-Grouped}

module _ {K A : Type 0} ⦃e : Eq K⦄ where
  group_from-Grouped {ℓ} :
      (P : K → A → Type ℓ) (key : A → K) (m : List (K × List A)) (xs : List A)
      → All (λ a. P (key a) a) xs
      → Grouped P m
      → Grouped P (group_from key m xs)
  unfolding group_from
  group_from-Grouped P key m [] h g = g
  group_from-Grouped P key m (x ∷ xs) h g =
      group_from-Grouped P key (append_at (key x) x m) xs h.1
        (append_at-Grouped P (key x) x m h.0 g)

  pub group_by-Grouped {ℓ} :
      (P : K → A → Type ℓ) (key : A → K) (xs : List A)
      → All (λ a. P (key a) a) xs
      → Grouped P (group_by key xs)
  unfolding group_by
  group_by-Grouped P key xs h = group_from-Grouped P key [] xs h tt

module _ {ℓ κ} {A : Type ℓ} (P : A → Type κ) where
  pub All-append_inv : (xs ys : List A) → All P (xs ++ ys) → All P xs × All P ys
  All-append_inv [] ys h = (tt, h)
  All-append_inv (x ∷ xs) ys h = let (hs, hy) = All-append_inv xs ys h.1 in ((h.0, hs), hy)

  pub All-concat_inv : (xss : List (List A)) → All P (concat xss) → All (All P) xss
  All-concat_inv [] h = tt
  All-concat_inv (xs ∷ xss) h =
      let (hx, hs) = All-append_inv xs (concat xss) h in (hx, All-concat_inv xss hs)
