-- ===== src/Errors/Join.antt =====
-- Joins lose no error: what errors.Is finds, and how many leaves there are.
use outboxer.Prelude.{
  refl, ◌∙◌, Permᴰ, total, total-perm, ℕ, ◌+◌, ◌≡◌, Bool, false, ◌||◌, Option, none, some, List, [],
  ◌∷◌, arith,
}
use outboxer.Errors.{Cause, Error, join, is, is?, count_joined_errors, count_leaves, join_all}

pub is?-join : (a b : Option Error) (t : Cause) → is? (join a b) t ≡ (is? a t || is? b t)
unfolding join is? is
is?-join a b t = ground arith

pub count-join :
    (a b : Option Error)
    → count_joined_errors (join a b) ≡ count_joined_errors a + count_joined_errors b
unfolding join count_joined_errors count_leaves
count-join a b = ground arith

-- How many leaves a list of results has, and whether one of them is the sentinel.
abbrev pub total_leaves : List (Option Error) → ℕ
total_leaves [] = 0
total_leaves (e ∷ es) = count_joined_errors e + total_leaves es

abbrev pub any_is : List (Option Error) → Cause → Bool
any_is [] t = false
any_is (e ∷ es) t = is? e t || any_is es t

pub count-join_all :
    (acc : Option Error) (es : List (Option Error))
    → count_joined_errors (join_all acc es) ≡ count_joined_errors acc + total_leaves es
unfolding join_all count_joined_errors
count-join_all acc [] = ground arith
count-join_all acc (none ∷ es) = ground (arith, count-join_all acc es)
count-join_all acc (some e ∷ es) =
    ground (arith, count-join_all (join acc (some e)) es, count-join acc (some e))

pub is?-join_all :
    (acc : Option Error) (es : List (Option Error)) (t : Cause)
    → is? (join_all acc es) t ≡ (is? acc t || any_is es t)
unfolding join_all is?
is?-join_all acc [] t = ground arith
is?-join_all acc (none ∷ es) t = ground (arith, is?-join_all acc es t)
is?-join_all acc (some e ∷ es) t =
    ground (arith, is?-join_all (join acc (some e)) es t, is?-join acc (some e) t)

any_is-perm : (t : Cause) {es es' : List (Option Error)} → Permᴰ es es' → any_is es t ≡ any_is es' t
any_is-perm t Permᴰ.nil = refl
any_is-perm t (Permᴰ.cons e p) = ground (arith, e, any_is-perm t p)
any_is-perm t (Permᴰ.swap e f) = ground (arith, e, f)
any_is-perm t (Permᴰ.trans p q) = any_is-perm t p ∙ any_is-perm t q

-- The order in which operations finish changes neither the number of errors that they return
-- together nor what errors.Is finds in it.
pub join_all-perm :
    (es es' : List (Option Error)) (t : Cause)
    → Permᴰ es es'
    → (count_joined_errors (join_all none es) ≡ count_joined_errors (join_all none es'))
      × (is? (join_all none es) t ≡ is? (join_all none es') t)
join_all-perm es es' t p = (
  omega (
    arith,
    count-join_all none es,
    count-join_all none es',
    total_leaves_lem es,
    total_leaves_lem es',
    total-perm count_joined_errors p,
  ),
  ground (arith, is?-join_all none es t, is?-join_all none es' t, any_is-perm t p),
)
  where
    total_leaves_lem : (xs : List (Option Error)) → total_leaves xs ≡ total count_joined_errors xs
    total_leaves_lem [] = refl
    total_leaves_lem (x ∷ xs) = omega (arith, total_leaves_lem xs)
