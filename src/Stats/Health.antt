-- ===== src/Stats/Health.antt =====
-- The health check follows the last committed batch.
use outboxer.Prelude.{
  ℕ, zero, suc, ◌+◌, ◌*◌, ◌/◌, ◌≤◌, ◌<◌, ◌≡◌, ◌↔◌, ◌∙◌, refl, true, Option, none, some, arith,
  nat_eq,
}
use outboxer.Prelude.Int.{pos}
use outboxer.Value.{Time, elapsed, max_duration}
use outboxer.Config.{AppConfig}
use outboxer.Stats.{
  BatchStats, AppStats, add_committed_batch, add_batch_error, unix_epoch_millis, last_success,
  handle_healthz,
}

-- The first millisecond that the gauge can tell from an unset one.
abbrev pub first_instant : Time
first_instant = (unix_epoch_millis + 1) * 1000000

-- The statistics after a committed batch and any number of failed ones.
unfoldable pub failing : ℕ → Option AppStats → Option AppStats
unfolding add_batch_error
failing zero s = s
failing (suc n) s = failing n (add_batch_error s)

last_success-failing : (n : ℕ) (s : Option AppStats) → last_success (failing n s) ≡ last_success s
unfolding failing add_batch_error last_success
last_success-failing zero s = refl
last_success-failing (suc n) none = last_success-failing n none
last_success-failing (suc n) (some s) = last_success-failing n _

last_success-commit :
    (batch : BatchStats) (at : Time) (s : AppStats)
    → first_instant ≤ at
    → last_success (add_committed_batch batch at (some s)) ≡ at / 1000000 * 1000000
unfolding add_committed_batch last_success
last_success-commit batch at s h = ground (arith, h)

healthz_at :
    (cfg : AppConfig) (x : Option AppStats) (last now threshold : ℕ)
    → last_success x ≡ last
    → 0 < last
    → cfg.health_stale_after ≡ pos (suc threshold)
    → suc threshold < max_duration
    → (handle_healthz cfg x now ≡ true) ↔ (now ≤ last + suc threshold)
unfolding handle_healthz elapsed
healthz_at cfg x last now threshold same h t b = rw same (rw t (ground (arith, h, b)))

-- After a commit at `at`, failed batches aside, the check answers 200 up to the threshold, and 503
-- beyond it, to the millisecond that the gauge keeps.
pub handle_healthz-window :
    (cfg : AppConfig) (batch : BatchStats) (s : AppStats) (n threshold : ℕ) (at now : Time)
    → first_instant ≤ at
    → cfg.health_stale_after ≡ pos (suc threshold)
    → suc threshold < max_duration
    → (handle_healthz cfg (failing n (add_committed_batch batch at (some s))) now ≡ true
        → now ≤ at + suc threshold)
      × (now + 1000000 ≤ at + suc threshold
          → handle_healthz cfg (failing n (add_committed_batch batch at (some s))) now ≡ true)
handle_healthz-window cfg batch s n threshold at now h t b =
    let x = add_committed_batch batch at (some s) in
    let same = last_success-failing n x ∙ last_success-commit batch at s h in
    let r = healthz_at cfg (failing n x) _ now threshold same (ground (arith, h)) t b in
    (λ e. omega (arith, r.0 e), λ e. r.1 (omega (arith, e)))
