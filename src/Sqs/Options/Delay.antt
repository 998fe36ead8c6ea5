-- ===== src/Sqs/Options/Delay.antt =====
-- sqsDelaySeconds reads exactly the numbers that an int32 holds: the conversion that wraps around
-- or cuts off a fraction is undone by the comparison after it.
use outboxer.Prelude.{
  ℕ, zero, suc, ◌-◌, ◌*◌, ◌^◌, ◌<◌, Bool, true, false, Option, none, some, ◌≡◌, ◌↔◌, String, subst,
  refl, Bool-cases, inl, inr, arith, if◌then◌else◌, ◌∙◌, sym,
}
use native.Mathlib.Nat.{one-le-pow, mul-div_cancel}
use outboxer.Prelude.Int.{ℤ, pos, negsuc, ◌≤ℤ◌, eq_of_parts}
use outboxer.Value.{
  Value, null, boolean, int, float, str, bytes, time, array, object, Result, ok, err, field?,
}
use outboxer.Provider.{Options}
use outboxer.Sqs.Options.{
  int32_of_int, int32_of_float, same_ℤ, scaled, truncated, negated, fits_int32, delay_of,
  sqs_delay_seconds,
}

abbrev pub IsInt32 : ℤ → Type 0
IsInt32 s = (negsuc (2 ^ 31 - 1) ≤ℤ s) × (s ≤ℤ pos (2 ^ 31 - 1))

-- The value is the number `s`.
abbrev pub Denotes : Value → ℤ → Type 0
Denotes (int n) s = n ≡ s
Denotes (float n k) s = n ≡ scaled s k
Denotes v s = ⊥

same_ℤ-eq : (a b : ℤ) → same_ℤ a b ≡ true → a ≡ b
same_ℤ-eq a b h = eq_of_parts a b (ground arith)

same_ℤ_refl : (a : ℤ) → same_ℤ a a ≡ true
same_ℤ_refl a = ground arith

int32_of_int-IsInt32 : (n : ℤ) → IsInt32 (int32_of_int n)
unfolding int32_of_int
int32_of_int-IsInt32 (pos n) = ground arith
int32_of_int-IsInt32 (negsuc n) = ground arith

int32_of_int_fits : (n : ℤ) → IsInt32 n → int32_of_int n ≡ n
unfolding int32_of_int
int32_of_int_fits (pos n) h = ground arith
int32_of_int_fits (negsuc n) h = ground arith

fits_int32-true : (s : ℤ) → IsInt32 s → fits_int32 s ≡ true
fits_int32-true s h = ground arith

-- A test that lets a number through.
passed_inv :
    (test : Bool) (x s : ℤ) (problem : String)
    → ◌≡◌ {A = Result (Option ℤ)} (if test then ok (some x) else err problem) (ok (some s))
    → (test ≡ true) × (x ≡ s)
passed_inv true x s p h = (refl, cc h)
passed_inv false x s p h = cc h

pow_pos : (k : ℕ) → 0 < 2 ^ k
pow_pos k = one-le-pow k 2 (omega arith)

product_pos : (s p : ℕ) → 0 < p → 0 < suc s * p
product_pos s p h = grind arith

back : (m : ℕ) → 0 < m → suc (m - 1) ≡ m
back m h = omega arith

negated_pos : (m : ℕ) → 0 < m → negated m ≡ negsuc (m - 1)
negated_pos zero h = absurd (omega arith)
negated_pos (suc m) h = ground arith

truncated-scaled : (s : ℤ) (k : ℕ) → truncated (scaled s k) k ≡ s
truncated-scaled (pos s) k = rw (mul-div_cancel s (pow_pos k)) refl
truncated-scaled (negsuc s) k =
    rw
      (
        negated_pos (suc s * 2 ^ k) (product_pos s (2 ^ k) (pow_pos k)),
        back (suc s * 2 ^ k) (product_pos s (2 ^ k) (pow_pos k)),
        mul-div_cancel (suc s) (pow_pos k),
      )
      refl

module _ (out : ℤ → ℕ → ℤ) (width : (n : ℤ) (k : ℕ) → IsInt32 (out n k)) where
  int32_of_float-IsInt32 : (n : ℤ) (k : ℕ) → IsInt32 (int32_of_float out n k)
  unfolding int32_of_float
  int32_of_float-IsInt32 n k = elim (Bool-cases (fits_int32 (truncated n k))) [
    | inl fits ↦ rw fits (ground arith)
    | inr big ↦ rw big (width n k)
  ]

  int32_of_float-scaled : (s : ℤ) (k : ℕ) → IsInt32 s → int32_of_float out (scaled s k) k ≡ s
  unfolding int32_of_float
  int32_of_float-scaled s k h = rw (truncated-scaled s k, fits_int32-true s h) refl

  delay_inv :
      (v : Option Value) (s : ℤ)
      → delay_of out v ≡ ok (some s)
      → (w : Value) × (v ≡ some w) × Denotes w s × IsInt32 s
  delay_inv none s h = cc h
  delay_inv (some null) s h = cc h
  delay_inv (some (int n)) s h =
      let (same, e) = passed_inv (same_ℤ (int32_of_int n) n) (int32_of_int n) s _ h in
      (
        int n,
        refl,
        sym (same_ℤ-eq (int32_of_int n) n same) ∙ e,
        subst IsInt32 e (int32_of_int-IsInt32 n),
      )
  delay_inv (some (float n k)) s h =
      let (same, e) =
        passed_inv (same_ℤ (scaled (int32_of_float out n k) k) n) (int32_of_float out n k) s _ h in
      (
        float n k,
        refl,
        subst (λ t. n ≡ scaled t k) e (sym (same_ℤ-eq (scaled (int32_of_float out n k) k) n same)),
        subst IsInt32 e (int32_of_float-IsInt32 n k),
      )
  delay_inv (some (boolean b)) s h = cc h
  delay_inv (some (str t)) s h = cc h
  delay_inv (some (bytes b)) s h = cc h
  delay_inv (some (time t)) s h = cc h
  delay_inv (some (array t)) s h = cc h
  delay_inv (some (object t)) s h = cc h

  delay_exact : (w : Value) (s : ℤ) → Denotes w s → IsInt32 s → delay_of out (some w) ≡ ok (some s)
  delay_exact (int n) s e h =
      subst (λ t. delay_of out (some (int t)) ≡ ok (some s)) (sym e)
        (rw (int32_of_int_fits s h, same_ℤ_refl s) refl)
  delay_exact (float n k) s e h =
      subst (λ t. delay_of out (some (float t k)) ≡ ok (some s)) (sym e)
        (rw (int32_of_float-scaled s k h, same_ℤ_refl (scaled s k)) refl)
  delay_exact null s e h = absurd e
  delay_exact (boolean b) s e h = absurd e
  delay_exact (str t) s e h = absurd e
  delay_exact (bytes b) s e h = absurd e
  delay_exact (time t) s e h = absurd e
  delay_exact (array t) s e h = absurd e
  delay_exact (object t) s e h = absurd e

-- sqsDelaySeconds returns a delay exactly when the option is that number, an integer that an int32
-- holds: no value is wrapped around or cut off. What the machine makes of a float64 that is out of
-- range is taken to be some int32.
pub sqs_delay_seconds_iff :
    (out : ℤ → ℕ → ℤ)
    → ((n : ℤ) (k : ℕ) → IsInt32 (out n k))
    → (o : Options) (s : ℤ)
    → (sqs_delay_seconds out o ≡ ok (some s))
      ↔ ((v : Value) × (field? o.values "delaySeconds" ≡ some v) × Denotes v s × IsInt32 s)
unfolding sqs_delay_seconds
sqs_delay_seconds_iff out width o s = (
  delay_inv out width (field? o.values "delaySeconds") s,
  λ h. rw h.1 (delay_exact out width h.0 s h.2 h.3),
)
