-- ===== src/Startup/Fit.antt =====
-- The parts of runRelay of internal/outboxer/run.go, as they run if no stall is reported.
use outboxer.Prelude.{
  String, Bool, true, false, Option, none, some, List, [], ◌∷◌, ◌++◌, ◌≡◌, refl, ◌⊎◌, inl, inr, All,
  All-append, subst, map, if◌then◌else◌, string_eq, Eq,
}
use outboxer.Prelude.Int.{nonpositive}
use outboxer.Value.{Runtime}
use outboxer.Provider.{EventId}
use outboxer.Config.{AppConfig, provider_specs}
use outboxer.Database.{check_db_works}
use outboxer.Dlq.Load.{DlqCheckError, check_dlq_works}
use outboxer.Processor.Loop.{LoopState, running, process_events}
use outboxer.Startup.{
  Resource, database, health_server, Action, release, check_db, check_dlq, start_stats_logger,
  process, log_stats, RunError, Ending, Answers, failed, scoped, before, Built, cleanup,
  build_provider_senders, with_providers, loop_error, new_app, loop, with_stats, with_server,
  dlq_checked, db_checked, db_opened, serve_failed, dlq_check_failed, db_check_failed, open_failed,
}
use outboxer.Startup.Brackets.{
  is_work, Brackets, done, acquires, releases, works, Brackets-append, Brackets-unwind,
}
use outboxer.Startup.Clients.{
  is_process, clients, cleanup-quiet, IsBuilt, build_provider_senders-IsBuilt,
}

module _ (rt : Runtime) ⦃e : Eq EventId⦄ (answers : Answers) where
  -- How the loop ends for a configuration.
  abbrev pub loop_end : AppConfig → LoopState
  loop_end cfg =
      process_events rt answers.turns
        (record { app = new_app answers.started cfg; outbox = answers.outbox; exit = running })

  abbrev pub Returns : AppConfig → Ending → Type 0
  Returns cfg end = (end.exited ≡ true) ⊎ (end.error ≡ loop_error (loop_end cfg).exit)

  -- The loop did not run; or the checks of both tables passed before, and the error that is
  -- returned, if any is, is the loop's.
  abbrev pub Guarded : AppConfig → Ending → Type 0
  Guarded cfg end =
      All (λ a. is_process a ≡ false) end.actions
      ⊎ ((check_db_works cfg answers.columns ≡ none)
          × (check_dlq_works cfg answers.metadata ≡ none)
          × Returns cfg end)

  module _ (cfg : AppConfig) where
    abbrev pub IsFit : Ending → Type 0
    IsFit end =
        (end.exited ≡ false)
        × ((held : List Resource) → Brackets held end.actions held)
        × Guarded cfg end

    failed-IsFit : (problem : RunError) → IsFit (failed problem)
    failed-IsFit problem = (refl, λ held. done held, inl tt)

    -- One more resource around a run that does not exit.
    scoped-Brackets :
        (r : Resource) (rest : Ending) (held : List Resource)
        → rest.exited ≡ false
        → Brackets (r ∷ held) rest.actions (r ∷ held)
        → Brackets held (scoped r rest).actions held
    scoped-Brackets r rest held on b = rw on (
        acquires r held held (rest.actions ++ (release r ∷ [])) (
          Brackets-append (r ∷ held) (r ∷ held) held rest.actions (release r ∷ []) b
            (releases r held held [] (done held))))

    released-quiet :
        (r : Resource) (exited : Bool)
        → All (λ a. is_process a ≡ false) (if exited then [] else release r ∷ [])
    released-quiet r true = tt
    released-quiet r false = (refl, tt)

    pub scoped-Guarded :
        (r : Resource) (rest : Ending) → Guarded cfg rest → Guarded cfg (scoped r rest)
    scoped-Guarded r rest (inl quiet) = inl (
      refl,
      All-append (λ a. is_process a ≡ false) rest.actions _ quiet (released-quiet r rest.exited),
    )
    scoped-Guarded r rest (inr ran) = inr ran

    pub scoped-IsFit : (r : Resource) (rest : Ending) → IsFit rest → IsFit (scoped r rest)
    scoped-IsFit r rest (on, brackets, guarded) = (
      on,
      λ held. scoped-Brackets r rest held on (brackets (r ∷ held)),
      scoped-Guarded r rest guarded,
    )

    before-IsFit :
        (a : Action) (rest : Ending)
        → is_work a ≡ true
        → is_process a ≡ false
        → IsFit rest
        → IsFit (before a rest)
    before-IsFit a rest work quiet (on, brackets, guarded) =
        (on, λ held. works a held held rest.actions work (brackets held), idle guarded)
      where
        idle : Guarded cfg rest → Guarded cfg (before a rest)
        idle (inl still) = inl (quiet, still)
        idle (inr ran) = inr ran

    with_providers-IsFit :
        (b : Built) (error : Option RunError) (rest : Ending)
        → b.error ≡ error
        → IsBuilt answers.built cfg [] b
        → IsFit rest
        → IsFit (with_providers b error rest)
    unfolding with_providers cleanup
    with_providers-IsFit b (some problem) rest e (brackets, quiet, inl fine) h =
        absurd (cc (e, fine))
    with_providers-IsFit b (some problem) rest e (brackets, quiet, inr closed) h = (
      refl,
      λ held.
          subst (λ (cs : List String). Brackets held b.actions (clients cs ++ held)) closed
            (brackets held),
      inl quiet,
    )
    with_providers-IsFit b none rest e (brackets, quiet, ends) (on, inside, guarded) = (
      on,
      λ held. Brackets-append held (clients b.cleanups ++ held) held b.actions _ (brackets held) (
          rw on (
            Brackets-append (clients b.cleanups ++ held) (clients b.cleanups ++ held) held
              rest.actions (map release (clients b.cleanups)) (inside (clients b.cleanups ++ held))
              (Brackets-unwind (clients b.cleanups) held))),
      idle guarded,
    )
      where
        closing :
            (exited : Bool)
            → All
                (λ a. is_process a ≡ false)
                (if exited then [] else map release (clients b.cleanups))
        closing true = tt
        closing false = cleanup-quiet (clients b.cleanups)

        idle : Guarded cfg rest → Guarded cfg (with_providers b none rest)
        idle (inl still) = inl (
            All-append (λ a. is_process a ≡ false) b.actions _ quiet
              (All-append (λ a. is_process a ≡ false) rest.actions _ still (closing rest.exited)))
        idle (inr ran) = inr ran

    loop-IsFit :
        check_db_works cfg answers.columns ≡ none
        → check_dlq_works cfg answers.metadata ≡ none
        → IsFit (loop rt answers cfg)
    unfolding loop
    loop-IsFit db dlq = (
      refl,
      λ held. works process held held _ refl (flush held (nonpositive cfg.stats_interval)),
      inr (db, dlq, inr refl),
    )
      where
        flush :
            (held : List Resource) (off : Bool)
            → Brackets held (if off then [] else log_stats ∷ []) held
        flush held true = done held
        flush held false = works log_stats held held [] refl (done held)

    with_stats-IsFit :
        check_db_works cfg answers.columns ≡ none
        → check_dlq_works cfg answers.metadata ≡ none
        → IsFit (with_stats rt answers cfg)
    with_stats-IsFit db dlq = started (nonpositive cfg.stats_interval)
      where
        started :
            (off : Bool)
            → IsFit (
                if off
                then loop rt answers cfg
                else before start_stats_logger (loop rt answers cfg))
        started true = loop-IsFit db dlq
        started false = before-IsFit start_stats_logger _ refl refl (loop-IsFit db dlq)

    dlq_checked-IsFit :
        check_db_works cfg answers.columns ≡ none
        → (r : Option DlqCheckError) → check_dlq_works cfg answers.metadata ≡ r
        → IsFit (dlq_checked rt answers cfg r)
    dlq_checked-IsFit db (some problem) dlq = failed-IsFit (dlq_check_failed problem)
    dlq_checked-IsFit db none dlq =
        on_port (nonpositive cfg.health_port) answers.served (with_stats-IsFit db dlq)
      where
        on_port :
            (off : Bool) (problem : Option String)
            → IsFit (with_stats rt answers cfg)
            → IsFit (
                if off
                then with_stats rt answers cfg
                else with_server rt answers problem (with_stats rt answers cfg))
        on_port true problem k = k
        on_port false (some problem) k = failed-IsFit (serve_failed problem)
        on_port false none k = scoped-IsFit health_server _ k

    db_checked-IsFit :
        (r : Option String)
        → check_db_works cfg answers.columns ≡ r
        → IsFit (db_checked rt answers cfg r)
    db_checked-IsFit (some problem) db = failed-IsFit (db_check_failed problem)
    db_checked-IsFit none db =
        before-IsFit check_dlq _ refl refl
          (dlq_checked-IsFit db (check_dlq_works cfg answers.metadata) refl)

    pub db_opened-IsFit : (r : Option String) → IsFit (db_opened rt answers cfg r)
    db_opened-IsFit (some problem) = failed-IsFit (open_failed problem)
    db_opened-IsFit none = scoped-IsFit database _ (
        with_providers-IsFit (build_provider_senders answers.built cfg provider_specs []) _ _ refl
          (build_provider_senders-IsBuilt answers.built cfg provider_specs [])
          (before-IsFit check_db _ refl refl
            (db_checked-IsFit (check_db_works cfg answers.columns) refl)))
