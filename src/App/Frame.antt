-- ===== src/App/Frame.antt =====
-- What marking progress and logging a failure leave alone.
use outboxer.Prelude.{◌≡◌, refl, ◌∙◌, String}
use outboxer.App.{App, Moment, progress, report_failure}

-- Only the watchdog and the failure log differ.
pub record IsFramed (a b : App) : Type 0 where
  pub cfg : b.cfg ≡ a.cfg
  pub senders : b.senders ≡ a.senders
  pub stats : b.stats ≡ a.stats
  pub listening : b.listening ≡ a.listening
  pub last_backlog_probe : b.last_backlog_probe ≡ a.last_backlog_probe

pub IsFramed-refl : (a : App) → IsFramed a a
IsFramed-refl a = record {
  cfg = refl;
  senders = refl;
  stats = refl;
  listening = refl;
  last_backlog_probe = refl;
}

pub IsFramed-trans : {a b c : App} → IsFramed a b → IsFramed b c → IsFramed a c
IsFramed-trans f g = record {
  cfg = g.cfg ∙ f.cfg;
  senders = g.senders ∙ f.senders;
  stats = g.stats ∙ f.stats;
  listening = g.listening ∙ f.listening;
  last_backlog_probe = g.last_backlog_probe ∙ f.last_backlog_probe;
}

pub progress-IsFramed : (a : App) → IsFramed a (progress a)
unfolding progress
progress-IsFramed a = record {
  cfg = refl;
  senders = refl;
  stats = refl;
  listening = refl;
  last_backlog_probe = refl;
}

pub report_failure-IsFramed :
    (m : Moment) (s : String) (a : App) → IsFramed a (report_failure m s a)
unfolding report_failure
report_failure-IsFramed m s a = record {
  cfg = refl;
  senders = refl;
  stats = refl;
  listening = refl;
  last_backlog_probe = refl;
}

-- The configuration and the senders stay the same.
pub record IsSame (a b : App) : Type 0 where
  pub cfg : b.cfg ≡ a.cfg
  pub senders : b.senders ≡ a.senders

pub IsSame-trans : {a b c : App} → IsSame a b → IsSame b c → IsSame a c
IsSame-trans f g = record { cfg = g.cfg ∙ f.cfg; senders = g.senders ∙ f.senders }
