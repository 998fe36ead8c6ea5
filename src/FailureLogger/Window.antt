-- ===== src/FailureLogger/Window.antt =====
-- What the failure log writes over a run of calls: the lines of one signature are a window apart,
-- and every call is a line, or is counted by the next line, or is still pending.
use outboxer.Prelude.{
  ℕ, suc, ◌+◌, ◌≤◌, ◌≡◌, refl, sym, ap, subst, String, Bool, true, false, Option, none, some, List,
  [], ◌∷◌, arith, ◌==◌, string_eq, Bool-cases, inl, inr, lookup, lookup-insert, if◌then◌else◌, ltb,
  length,
}
use outboxer.Value.{Time}
use outboxer.FailureLogger.{FailureLogEntry, FailureLogger, put_entry, judge, should_log}

-- One call of `log`: what the clock reads, and the signature.
abbrev pub Call : Type 0
Call = Time × String

-- The logger after the calls.
unfoldable pub after_calls : FailureLogger → List Call → FailureLogger
unfolding should_log
after_calls l [] = l
after_calls l ((now, signature) ∷ calls) = after_calls (should_log l now signature).0 calls

-- The lines that the calls write for a signature: when, and the suppressed count.
unfoldable pub lines : String → FailureLogger → List Call → List (Time × ℕ)
unfolding should_log
lines s l [] = []
lines s l ((now, signature) ∷ calls) =
    let rest = lines s (should_log l now signature).0 calls in
    if signature == s
    then (if (should_log l now signature).1
        then (now, (should_log l now signature).2) ∷ rest
        else rest)
    else rest

-- No line before `due`, and each a window after the line before it.
abbrev pub IsSpaced : ℕ → Time → List (Time × ℕ) → Type 0
IsSpaced window due [] = Unit
IsSpaced window due ((now, n) ∷ rest) = (due ≤ now) × IsSpaced window (now + window) rest

abbrev pub reported : List (Time × ℕ) → ℕ
reported [] = 0
reported ((now, n) ∷ rest) = n + reported rest

unfoldable pub calls_of : String → List Call → ℕ
calls_of s [] = 0
calls_of s ((now, signature) ∷ calls) =
    if signature == s then suc (calls_of s calls) else calls_of s calls

abbrev due_of : Option FailureLogEntry → Time
due_of none = 0
due_of (some entry) = entry.next_log_at

abbrev pending_of : Option FailureLogEntry → ℕ
pending_of none = 0
pending_of (some entry) = entry.suppressed

-- When the next line of a signature is due, and how many calls wait to be counted.
abbrev pub due : String → FailureLogger → Time
due s l = due_of (lookup s l.entries)

abbrev pub pending : String → FailureLogger → ℕ
pending s l = pending_of (lookup s l.entries)

-- What one call does to the entry of its own signature.
record IsJudged (l : FailureLogger) (now : Time) (s : String) (r : FailureLogger × Bool × ℕ)
    : Type 0 where
  window : r.0.window ≡ l.window
  logged :
      r.1 ≡ true
      → (due s l ≤ now) × (due s r.0 ≡ now + l.window) × (pending s r.0 ≡ 0) × (r.2 ≡ pending s l)
  dropped : r.1 ≡ false → (due s r.0 ≡ due s l) × (pending s r.0 ≡ suc (pending s l))

judge-IsJudged :
    (l : FailureLogger) (now : Time) (s : String) (o : Option FailureLogEntry)
    → lookup s l.entries ≡ o
    → IsJudged l now s (judge l now s o)
unfolding judge
judge-IsJudged l now s none e = record {
  window = refl;
  logged = λ _. ground (
    arith,
    e,
    lookup-insert s s (record { next_log_at = now + l.window; suppressed = 0 }) l.entries,
    string_eq.beq_iff s s,
  );
  dropped = λ h. ground arith;
}
judge-IsJudged l now s (some entry) e = elim (Bool-cases (ltb now entry.next_log_at)) [
  | inl early ↦ rw early (record {
    window = refl;
    logged = λ h. ground arith;
    dropped = λ _. ground (
      arith,
      e,
      lookup-insert s s (record entry { suppressed = entry.suppressed + 1 }) l.entries,
      string_eq.beq_iff s s,
    );
  })
  | inr late ↦ rw late (record {
    window = refl;
    logged = λ _. ground (
      arith,
      e,
      late,
      lookup-insert s s (record { next_log_at = now + l.window; suppressed = 0 }) l.entries,
      string_eq.beq_iff s s,
    );
    dropped = λ h. ground arith;
  })
]

-- A call of another signature leaves the entry alone.
record IsOther (l : FailureLogger) (s : String) (r : FailureLogger × Bool × ℕ) : Type 0 where
  window : r.0.window ≡ l.window
  due : due s r.0 ≡ due s l
  pending : pending s r.0 ≡ pending s l

put_entry-other :
    (l : FailureLogger) (s signature : String) (entry : FailureLogEntry)
    → (signature == s) ≡ false
    → lookup s (put_entry l signature entry).entries ≡ lookup s l.entries
put_entry-other l s signature entry h = ground (arith, h, lookup-insert signature s entry l.entries)

judge-IsOther :
    (l : FailureLogger) (now : Time) (s signature : String) (o : Option FailureLogEntry)
    → (signature == s) ≡ false
    → IsOther l s (judge l now signature o)
unfolding judge
judge-IsOther l now s signature none h =
    let same =
      put_entry-other l s signature (record { next_log_at = now + l.window; suppressed = 0 }) h in
    record { window = refl; due = ap due_of same; pending = ap pending_of same }
judge-IsOther l now s signature (some entry) h = elim (Bool-cases (ltb now entry.next_log_at)) [
  | inl early ↦
      let same =
        put_entry-other l s signature (record entry { suppressed = entry.suppressed + 1 }) h in
      rw early (record { window = refl; due = ap due_of same; pending = ap pending_of same })
  | inr late ↦
      let same =
        put_entry-other l s signature (record { next_log_at = now + l.window; suppressed = 0 }) h in
      rw late (record { window = refl; due = ap due_of same; pending = ap pending_of same })
]

IsSpaced-at :
    (r : List (Time × ℕ)) {w w' : ℕ} {d d' : Time}
    → w' ≡ w
    → d' ≡ d
    → IsSpaced w' d' r
    → IsSpaced w d r
IsSpaced-at r {w} {w'} {d} {d'} e f h =
    subst (λ x. IsSpaced x d r) e (subst (λ y. IsSpaced w' y r) f h)

-- Two lines of one signature are at least a window apart, and none comes before it is due.
pub lines-IsSpaced :
    (s : String) (l : FailureLogger) (calls : List Call)
    → IsSpaced l.window (due s l) (lines s l calls)
unfolding lines should_log
lines-IsSpaced s l [] = tt
lines-IsSpaced s l ((now, signature) ∷ calls) = elim (Bool-cases (signature == s)) [
  | inr other ↦
      let h = judge-IsOther l now s signature (lookup signature l.entries) other in
      rw other
        (IsSpaced-at _ h.window h.due (lines-IsSpaced s (should_log l now signature).0 calls))
  | inl own ↦ rw own (
      step ((string_eq.beq_iff signature s).0 own)
        (lines-IsSpaced s (should_log l now signature).0 calls))
]
  where
    step :
        signature ≡ s
        → IsSpaced
            (should_log l now signature).0.window
            (due s (should_log l now signature).0)
            (lines s (should_log l now signature).0 calls)
        → IsSpaced l.window (due s l) (
            if (should_log l now signature).1
            then (now, (should_log l now signature).2)
              ∷ lines s (should_log l now signature).0 calls
            else lines s (should_log l now signature).0 calls)
    step same rec =
        let h =
          subst (λ x. IsJudged l now s (should_log l now x)) (sym same)
            (judge-IsJudged l now s (lookup s l.entries) refl) in
        elim (Bool-cases (should_log l now signature).1) [
          | inl yes' ↦ rw yes' ((h.logged yes').0, IsSpaced-at _ h.window ((h.logged yes').1) rec)
          | inr no' ↦ rw no' (IsSpaced-at _ h.window ((h.dropped no').0) rec)
        ]

-- No call is lost: each is a line, is counted by a later line, or is still pending.
pub lines-conserve :
    (s : String) (l : FailureLogger) (calls : List Call)
    → pending s l + calls_of s calls
      ≡ length (lines s l calls) + reported (lines s l calls) + pending s (after_calls l calls)
unfolding lines should_log after_calls calls_of
lines-conserve s l [] = ground arith
lines-conserve s l ((now, signature) ∷ calls) = elim (Bool-cases (signature == s)) [
  | inr other ↦
      let h = judge-IsOther l now s signature (lookup signature l.entries) other in
      rw other (omega (arith, h.pending, lines-conserve s (should_log l now signature).0 calls))
  | inl own ↦ rw own (
      step ((string_eq.beq_iff signature s).0 own)
        (lines-conserve s (should_log l now signature).0 calls))
]
  where
    step :
        signature ≡ s
        → pending s (should_log l now signature).0 + calls_of s calls
          ≡ length (lines s (should_log l now signature).0 calls)
            + reported (lines s (should_log l now signature).0 calls)
            + pending s (after_calls (should_log l now signature).0 calls)
        → pending s l + suc (calls_of s calls)
          ≡ length (
              if (should_log l now signature).1
              then (now, (should_log l now signature).2)
                ∷ lines s (should_log l now signature).0 calls
              else lines s (should_log l now signature).0 calls)
            + reported (
                if (should_log l now signature).1
                then (now, (should_log l now signature).2)
                  ∷ lines s (should_log l now signature).0 calls
                else lines s (should_log l now signature).0 calls)
            + pending s (after_calls (should_log l now signature).0 calls)
    step same rec =
        let h =
          subst (λ x. IsJudged l now s (should_log l now x)) (sym same)
            (judge-IsJudged l now s (lookup s l.entries) refl) in
        elim (Bool-cases (should_log l now signature).1) [
          | inl yes' ↦ rw yes' (omega (arith, rec, h.logged yes'))
          | inr no' ↦ rw no' (omega (arith, rec, h.dropped no'))
        ]
