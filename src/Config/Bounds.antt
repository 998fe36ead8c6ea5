-- ===== src/Config/Bounds.antt =====
-- Durations given in milliseconds: the finalizer of internal/outboxer/config_flags.go.
use outboxer.Prelude.{
  ℕ, ◌-◌, ◌*◌, ◌%◌, ◌^◌, ◌<◌, ◌≤◌, true, ◌≡◌, refl, ◌↔◌, ltb, sym, Bool-cases, inl, inr, arith,
}
use outboxer.Prelude.Int.{pos, negsuc}
use outboxer.Config.Options.{milliseconds, wrapped}

wrapped_below : (low m : ℕ) → wrapped low ≡ pos m → (m ≡ low) × (low < 2 ^ 63)
wrapped_below low m h = elim (Bool-cases (ltb low (2 ^ 63))) [
  | inl small ↦
      (let e : pos low ≡ pos m = rw small at h in
        let same : low ≡ m = cc e in (sym same, ground arith))
  | inr large ↦ (let e : negsuc (2 ^ 64 - 1 - low) ≡ pos m = rw large at h in absurd (cc e))
]

-- A number of milliseconds, not negative, becomes that many in nanoseconds exactly if it is at most
-- 9,223,372,036,854; the multiplication wraps around on every larger one.
pub milliseconds_iff : (n : ℕ) → (milliseconds (pos n) ≡ pos (n * 1000000)) ↔ (n ≤ 9223372036854)
unfolding milliseconds
milliseconds_iff n = (
  λ h. (let (same, small) = wrapped_below (n * 1000000 % 2 ^ 64) (n * 1000000) h in omega arith),
  λ h.
      (let small : n * 1000000 % 2 ^ 64 ≡ n * 1000000 = omega arith in
        let below : ltb (n * 1000000) (2 ^ 63) ≡ true = ground arith in rw (small, below) refl),
)
