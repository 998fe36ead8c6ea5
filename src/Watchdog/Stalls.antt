-- ===== src/Watchdog/Stalls.antt =====
-- The watchdog reports a stall exactly when an interval passes without progress.
use outboxer.Prelude.{
  ℕ, zero, suc, ◌+◌, ◌%◌, ◌<◌, ◌≡◌, ◌≢◌, ◌↔◌, refl, true, false, Option, none, some, List, [], ◌∷◌,
  In, inl, inr, arith, ◌==◌, nat_eq, Bool-cases,
}
use outboxer.Watchdog.{
  Watchdog, counter_modulus, mark_progress, watching, stalled, Signal, tick, receive, watch,
}

-- The app's watchdog after `n` marks.
unfoldable pub marks : ℕ → Option Watchdog → Option Watchdog
unfolding mark_progress
marks zero w = w
marks (suc n) w = marks n (mark_progress w)

abbrev pub reading : Option Watchdog → ℕ
reading none = 0
reading (some w) = w.progress

-- The ticks that the goroutine sees when the loop marks progress so often before each of them.
unfoldable pub ticks : Option Watchdog → List ℕ → List Signal
unfolding marks
ticks w [] = []
ticks w (n ∷ ns) = tick (reading (marks n w)) ∷ ticks (marks n w) ns

-- Some interval saw no progress: the counter came back to its value.
abbrev pub IsIdle : List ℕ → Type 0
IsIdle ns = (n : ℕ) × In n ns × (n % counter_modulus ≡ 0)

reading-marks :
    (n : ℕ) (w : Watchdog)
    → (v : Watchdog) × (marks n (some w) ≡ some v)
      × (w.progress < counter_modulus
          → (v.progress ≡ (w.progress + n) % counter_modulus) × (v.progress < counter_modulus))
unfolding marks mark_progress
reading-marks zero w = (w, refl, λ h. (omega arith, h))
reading-marks (suc n) w =
    let next : Watchdog = record { progress = (w.progress + 1) % counter_modulus } in
    let (v, e, h) = reading-marks n next in
    (v, e, λ b. (omega (arith, (h (omega arith)).0), omega (arith, (h (omega arith)).1)))

watch-stalled : (ss : List Signal) → watch stalled ss ≡ stalled
unfolding watch receive
watch-stalled [] = refl
watch-stalled (s ∷ ss) = watch-stalled ss

not_idle : IsIdle [] → ⊥
not_idle (n, i, e) = absurd i

IsIdle-cons : (n : ℕ) (ns : List ℕ) → IsIdle ns → IsIdle (n ∷ ns)
IsIdle-cons n ns (k, i, e) = (k, inr i, e)

IsIdle-tail : (n : ℕ) (ns : List ℕ) → n % counter_modulus ≢ 0 → IsIdle (n ∷ ns) → IsIdle ns
IsIdle-tail n ns h (k, inl same, e) = absurd (h (ground (arith, same, e)))
IsIdle-tail n ns h (k, inr i, e) = (k, i, e)

-- The goroutine stalls exactly when some interval between two ticks saw no progress.
pub watch-stalled_iff :
    (w : Watchdog) (ns : List ℕ)
    → w.progress < counter_modulus
    → (watch (watching w.progress) (ticks (some w) ns) ≡ stalled) ↔ IsIdle ns
unfolding watch ticks receive
watch-stalled_iff w [] b = (λ e. ground arith, λ i. absurd (not_idle i))
watch-stalled_iff w (n ∷ ns) b =
    let (v, same, h) = reading-marks n w in
    let next = h b in
    rw same (elim (Bool-cases (v.progress == w.progress)) [
      | inl still ↦
          let idle : n % counter_modulus ≡ 0 = ground (arith, next.0, still, b) in
          stuck v ns (n, inl refl, idle) still
      | inr moved ↦
          moving v ns (watch-stalled_iff v ns next.1) (ground (arith, next.0, moved, b)) moved
    ])
  where
    stuck :
        (v : Watchdog) (rest : List ℕ)
        → IsIdle (n ∷ rest)
        → (v.progress == w.progress) ≡ true
        → (watch (receive (watching w.progress) (tick v.progress)) (ticks (some v) rest) ≡ stalled)
          ↔ IsIdle (n ∷ rest)
    stuck v rest i still = rw still (λ _. i, λ _. watch-stalled (ticks (some v) rest))

    moving :
        (v : Watchdog) (rest : List ℕ)
        → (watch (watching v.progress) (ticks (some v) rest) ≡ stalled) ↔ IsIdle rest
        → n % counter_modulus ≢ 0
        → (v.progress == w.progress) ≡ false
        → (watch (receive (watching w.progress) (tick v.progress)) (ticks (some v) rest) ≡ stalled)
          ↔ IsIdle (n ∷ rest)
    moving v rest rec h moved =
        rw moved (λ e. IsIdle-cons n rest (rec.0 e), λ i. rec.1 (IsIdle-tail n rest h i))
