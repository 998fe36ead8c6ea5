-- ===== src/Stats/Intervals.antt =====
-- The statistics lines add up: the ticker's goroutine and the flush at shutdown, both of which call
-- intervalSnapshot of internal/outboxer/stats.go, in any interleaving with the loop.
use outboxer.Prelude.{
  ℕ, ◌≡◌, refl, sym, ◌∙◌, ap, All, Bool, true, false, Option, none, some, List, [], ◌∷◌, ◌++◌,
  arith, nat_eq,
}
use outboxer.Prelude.Int.{pos, sub_ℕ, ◌+ℤ◌}
use outboxer.Value.{Time}
use outboxer.Stats.{
  BatchStats, StatsSnapshot, no_counts, AppStats, StatsDelta, sub, interval_snapshot,
  add_committed_batch, add_batch_error, set_backlog, new_app_stats, snapshot,
}

-- The two that log statistics: the goroutine of the ticker, and the flush at shutdown.
pub data Caller : Type 0 where
  ticker final_flush : Caller

-- What the loop, the probe and the two loggers do to the counters. A logger reads the counters in
-- one step and writes the line, under the lock, in a later one. The loads of one snapshot are taken
-- as one step.
pub data StatsOp : Type 0 where
  commit_batch : BatchStats → Time → StatsOp
  fail_batch : StatsOp
  probe_backlog : ℕ → Bool → StatsOp
  read_counters : Caller → StatsOp
  log_interval : Caller → StatsOp

-- The counters, and the variable `current` of each caller.
pub record Logging : Type 0 where
  pub stats : Option AppStats
  pub by_ticker : StatsSnapshot
  pub by_flush : StatsSnapshot

abbrev pub current : Caller → Logging → StatsSnapshot
current ticker l = l.by_ticker
current final_flush l = l.by_flush

abbrev hold : Caller → StatsSnapshot → Logging → Logging
hold ticker c l = record l { by_ticker = c }
hold final_flush c l = record l { by_flush = c }

abbrev pub at_start : Time → Logging
unfolding new_app_stats
at_start start = record {
  stats = some (new_app_stats start);
  by_ticker = no_counts;
  by_flush = no_counts;
}

unfoldable pub apply_op : StatsOp → Logging → Logging
unfolding add_committed_batch add_batch_error set_backlog snapshot interval_snapshot
apply_op (commit_batch batch now) l = record l { stats = add_committed_batch batch now l.stats }
apply_op fail_batch l = record l { stats = add_batch_error l.stats }
apply_op (probe_backlog events floor) l = record l { stats = set_backlog events floor l.stats }
apply_op (read_counters who) l = hold who (snapshot l.stats) l
apply_op (log_interval who) l = record l { stats = (interval_snapshot (current who l) l.stats).0 }

unfoldable pub apply_ops : List StatsOp → Logging → Logging
unfolding apply_op
apply_ops [] l = l
apply_ops (op ∷ ops) l = apply_ops ops (apply_op op l)

-- The differences that the log lines show, in order.
unfoldable pub logged : List StatsOp → Logging → List StatsDelta
unfolding interval_snapshot apply_op
logged [] l = []
logged (log_interval who ∷ ops) l =
    (interval_snapshot (current who l) l.stats).1 ∷ logged ops (apply_op (log_interval who) l)
logged (op ∷ ops) l = logged ops (apply_op op l)

-- Neither a line, nor a new reading of this caller.
abbrev pub is_quiet : Caller → StatsOp → Bool
is_quiet who (log_interval other) = false
is_quiet ticker (read_counters ticker) = false
is_quiet final_flush (read_counters final_flush) = false
is_quiet who _ = true

unfoldable pub add_delta : StatsDelta → StatsDelta → StatsDelta
add_delta a b = record {
  selected = a.selected +ℤ b.selected;
  sent = a.sent +ℤ b.sent;
  poison = a.poison +ℤ b.poison;
  dlq = a.dlq +ℤ b.dlq;
  kept_for_retry = a.kept_for_retry +ℤ b.kept_for_retry;
  batches_processed = a.batches_processed +ℤ b.batches_processed;
  batch_errors = a.batch_errors +ℤ b.batch_errors;
  sender_errors = a.sender_errors +ℤ b.sender_errors;
  fatal_after_commit_errors = a.fatal_after_commit_errors +ℤ b.fatal_after_commit_errors;
}

abbrev pub no_delta : StatsDelta
no_delta = record {
  selected = pos 0;
  sent = pos 0;
  poison = pos 0;
  dlq = pos 0;
  kept_for_retry = pos 0;
  batches_processed = pos 0;
  batch_errors = pos 0;
  sender_errors = pos 0;
  fatal_after_commit_errors = pos 0;
}

unfoldable pub sum_deltas : List StatsDelta → StatsDelta
unfolding add_delta
sum_deltas [] = no_delta
sum_deltas (d ∷ ds) = add_delta d (sum_deltas ds)

telescope : (a b c : ℕ) → sub_ℕ a b +ℤ sub_ℕ c a ≡ sub_ℕ c b
unfolding ◌+ℤ◌
telescope a b c = ground arith

sub_self : (a : ℕ) → sub_ℕ a a ≡ pos 0
sub_self a = ground arith

add_delta-sub : (a b c : StatsSnapshot) → add_delta (sub a b) (sub c a) ≡ sub c b
unfolding add_delta sub
add_delta-sub a b c =
    let e0 = telescope a.selected b.selected c.selected in
    let e1 = telescope a.sent b.sent c.sent in
    let e2 = telescope a.poison b.poison c.poison in
    let e3 = telescope a.dlq b.dlq c.dlq in
    let e4 = telescope a.kept_for_retry b.kept_for_retry c.kept_for_retry in
    let e5 = telescope a.batches_processed b.batches_processed c.batches_processed in
    let e6 = telescope a.batch_errors b.batch_errors c.batch_errors in
    let e7 = telescope a.sender_errors b.sender_errors c.sender_errors in
    let e8 =
      telescope a.fatal_after_commit_errors b.fatal_after_commit_errors
        c.fatal_after_commit_errors in
    cc

sub_self_all : (c : StatsSnapshot) → sub c c ≡ no_delta
unfolding sub
sub_self_all c =
    let e0 = sub_self c.selected in
    let e1 = sub_self c.sent in
    let e2 = sub_self c.poison in
    let e3 = sub_self c.dlq in
    let e4 = sub_self c.kept_for_retry in
    let e5 = sub_self c.batches_processed in
    let e6 = sub_self c.batch_errors in
    let e7 = sub_self c.sender_errors in let e8 = sub_self c.fatal_after_commit_errors in cc

abbrev pub baseline : Option AppStats → StatsSnapshot
baseline none = no_counts
baseline (some s) = s.last_logged

abbrev logging : AppStats → StatsSnapshot → StatsSnapshot → Logging
logging s t f = record { stats = some s; by_ticker = t; by_flush = f }

-- Over any run, the differences logged add up to what the baseline moved by.
logged-telescopes :
    (ops : List StatsOp) (s : AppStats) (t f : StatsSnapshot)
    → sum_deltas (logged ops (logging s t f))
      ≡ sub (baseline (apply_ops ops (logging s t f)).stats) s.last_logged
unfolding logged apply_ops sum_deltas apply_op interval_snapshot add_committed_batch add_batch_error
    set_backlog
logged-telescopes [] s t f = sym (sub_self_all s.last_logged)
logged-telescopes (commit_batch batch now ∷ ops) s t f = logged-telescopes ops _ t f
logged-telescopes (fail_batch ∷ ops) s t f = logged-telescopes ops _ t f
logged-telescopes (probe_backlog events floor ∷ ops) s t f = logged-telescopes ops _ t f
logged-telescopes (read_counters ticker ∷ ops) s t f = logged-telescopes ops s _ f
logged-telescopes (read_counters final_flush ∷ ops) s t f = logged-telescopes ops s t _
logged-telescopes (log_interval ticker ∷ ops) s t f =
    ap (add_delta (sub t s.last_logged)) (logged-telescopes ops (record s { last_logged = t }) t f)
    ∙ add_delta-sub t s.last_logged _
logged-telescopes (log_interval final_flush ∷ ops) s t f =
    ap (add_delta (sub f s.last_logged)) (logged-telescopes ops (record s { last_logged = f }) t f)
    ∙ add_delta-sub f s.last_logged _

-- A caller keeps its reading while it is quiet.
current-apply_op :
    (who : Caller) (op : StatsOp) (l : Logging)
    → is_quiet who op ≡ true
    → current who (apply_op op l) ≡ current who l
unfolding apply_op
current-apply_op ticker (commit_batch batch now) l h = refl
current-apply_op ticker fail_batch l h = refl
current-apply_op ticker (probe_backlog events floor) l h = refl
current-apply_op ticker (read_counters ticker) l h = cc h
current-apply_op ticker (read_counters final_flush) l h = refl
current-apply_op ticker (log_interval other) l h = cc h
current-apply_op final_flush (commit_batch batch now) l h = refl
current-apply_op final_flush fail_batch l h = refl
current-apply_op final_flush (probe_backlog events floor) l h = refl
current-apply_op final_flush (read_counters ticker) l h = refl
current-apply_op final_flush (read_counters final_flush) l h = cc h
current-apply_op final_flush (log_interval other) l h = cc h

current-apply_ops :
    (who : Caller) (ops : List StatsOp) (l : Logging)
    → All (λ op. is_quiet who op ≡ true) ops
    → current who (apply_ops ops l) ≡ current who l
unfolding apply_ops
current-apply_ops who [] l h = refl
current-apply_ops who (op ∷ ops) l (q, h) =
    current-apply_ops who ops (apply_op op l) h ∙ current-apply_op who op l q

current-hold : (who : Caller) (c : StatsSnapshot) (l : Logging) → current who (hold who c l) ≡ c
current-hold ticker c l = refl
current-hold final_flush c l = refl

apply_ops-append :
    (xs ys : List StatsOp) (l : Logging) → apply_ops (xs ++ ys) l ≡ apply_ops ys (apply_ops xs l)
unfolding apply_ops
apply_ops-append [] ys l = refl
apply_ops-append (x ∷ xs) ys l = apply_ops-append xs ys (apply_op x l)

-- The counters are there.
abbrev IsStarted : Logging → Type 0
IsStarted l = (s : AppStats) × (l.stats ≡ some s)

apply_op-IsStarted : (op : StatsOp) (l : Logging) → IsStarted l → IsStarted (apply_op op l)
unfolding apply_op add_committed_batch add_batch_error set_backlog interval_snapshot
apply_op-IsStarted (commit_batch batch now) l (s, h) = (_, ap (add_committed_batch batch now) h)
apply_op-IsStarted fail_batch l (s, h) = (_, ap add_batch_error h)
apply_op-IsStarted (probe_backlog events floor) l (s, h) = (_, ap (set_backlog events floor) h)
apply_op-IsStarted (read_counters ticker) l h = h
apply_op-IsStarted (read_counters final_flush) l h = h
apply_op-IsStarted (log_interval who) l (s, h) =
    (_, ap (λ x. (interval_snapshot (current who l) x).0) h)

apply_ops-IsStarted : (ops : List StatsOp) (l : Logging) → IsStarted l → IsStarted (apply_ops ops l)
unfolding apply_ops
apply_ops-IsStarted [] l h = h
apply_ops-IsStarted (op ∷ ops) l h =
    apply_ops-IsStarted ops (apply_op op l) (apply_op-IsStarted op l h)

baseline-log_interval :
    (who : Caller) (l : Logging)
    → IsStarted l
    → baseline (apply_op (log_interval who) l).stats ≡ current who l
unfolding apply_op interval_snapshot
baseline-log_interval who l (s, h) = rw h refl

pub logged-flush :
    (before during : List StatsOp) (who : Caller) (start : Time)
    → All (λ op. is_quiet who op ≡ true) during
    → sum_deltas
        (logged (before ++ read_counters who ∷ during ++ log_interval who ∷ []) (at_start start))
      ≡ sub (snapshot (apply_ops before (at_start start)).stats) no_counts
unfolding apply_ops apply_op new_app_stats
logged-flush before during who start h =
    logged-telescopes _ (new_app_stats start) no_counts no_counts ∙ ap (λ c. sub c no_counts) last
  where
    read : Logging
    read = apply_op (read_counters who) (apply_ops before (at_start start))

    held : Logging
    held = apply_ops during read

    last :
        baseline
          (apply_ops
            (before ++ read_counters who ∷ during ++ log_interval who ∷ [])
            (at_start start)).stats
        ≡ snapshot (apply_ops before (at_start start)).stats
    last =
        ap (λ l. baseline l.stats)
          (apply_ops-append (before ++ read_counters who ∷ during) (log_interval who ∷ [])
            (at_start start))
        ∙ ap (λ l. baseline (apply_op (log_interval who) l).stats)
            (apply_ops-append before (read_counters who ∷ during) (at_start start))
        ∙ baseline-log_interval who held (
            apply_ops-IsStarted during read (
              apply_op-IsStarted (read_counters who) _
                (apply_ops-IsStarted before (at_start start) (new_app_stats start, refl))))
        ∙ current-apply_ops who during read h
        ∙ current-hold who _ (apply_ops before (at_start start))
