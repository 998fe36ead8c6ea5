-- ===== src/Startup/Orderly.antt =====
-- What a run of the relay's process keeps, whatever fails: runRelay of internal/outboxer/run.go.
use outboxer.Prelude.{
  String, Bool, true, false, Option, none, some, List, [], ◌∷◌, ◌++◌, ◌≡◌, refl, ◌⊎◌, inl, inr, All,
  All-append, append-nil, ℕ, zero, suc, leb, length, if◌then◌else◌, ◌==◌, string_eq, Eq,
}
use outboxer.Prelude.Int.{ℤ}
use outboxer.Value.{Runtime, Result, ok, err}
use outboxer.Provider.{EventId}
use outboxer.Config.{AppConfig, take}
use outboxer.Config.Validate.{relay, ConfigError, validate}
use outboxer.Config.Options.{load_config}
use outboxer.Database.{check_db_works}
use outboxer.Dlq.Load.{check_dlq_works}
use outboxer.Startup.{
  Resource, context, watchdog, Action, exit_process, Ending, Answers, failed, scoped, stalled,
  validated, loaded, run_relay, invalid_settings,
}
use outboxer.Startup.Brackets.{
  Brackets, done, acquires, works, Brackets-append, Brackets-besides, Brackets-take,
}
use outboxer.Startup.Clients.{is_process}
use outboxer.Startup.Fit.{Returns, Guarded, IsFit, scoped-Guarded, scoped-IsFit, db_opened-IsFit}

take_quiet :
    (n : ℕ) (actions : List Action)
    → All (λ a. is_process a ≡ false) actions
    → All (λ a. is_process a ≡ false) (take n actions)
unfolding take
take_quiet zero actions h = tt
take_quiet (suc n) [] h = tt
take_quiet (suc n) (a ∷ actions) (q, h) = (q, take_quiet n actions h)

module _ (rt : Runtime) ⦃e : Eq EventId⦄ (answers : Answers) where
  -- Everything is released; or a stall was reported and the process exits, while it holds at
  -- least the watchdog and the context.
  abbrev pub Ends : Ending → Type 0
  Ends end =
      ((end.exited ≡ false) × Brackets [] end.actions [])
      ⊎ ((end.exited ≡ true)
          × (n : ℕ) × (held : List Resource) × (answers.stall ≡ some n)
          × Brackets [] end.actions (held ++ (watchdog ∷ context ∷ [])))

  module _ (cfg : AppConfig) where
    abbrev watched : Ending → Ending
    watched rest = scoped context (scoped watchdog rest)

    watched-stalled :
        (stall : Option ℕ) (rest : Ending)
        → answers.stall ≡ stall
        → IsFit rt answers cfg rest
        → Ends (watched (stalled stall rest))
          × Guarded rt answers cfg (watched (stalled stall rest))
    unfolding stalled
    watched-stalled none rest e h =
        ended (scoped-IsFit rt answers cfg context _ (scoped-IsFit rt answers cfg watchdog rest h))
      where
        ended :
            IsFit rt answers cfg (watched rest)
            → Ends (watched rest) × Guarded rt answers cfg (watched rest)
        ended (on, brackets, guarded) = (inl (on, brackets []), guarded)
    watched-stalled (some n) rest e h = cut (leb n (length rest.actions)) h
      where
        exits : Ending
        exits = record {
          actions = take n rest.actions ++ (exit_process ∷ []);
          error = none;
          exited = true;
        }

        idle : Guarded rt answers cfg rest → Guarded rt answers cfg exits
        idle (inl quiet) = inl (
            All-append (λ a. is_process a ≡ false) (take n rest.actions) (exit_process ∷ [])
              (take_quiet n rest.actions quiet) (refl, tt))
        idle (inr (db, dlq, ran)) = inr (db, dlq, inl refl)

        cut :
            (b : Bool)
            → IsFit rt answers cfg rest
            → Ends (watched (if b then exits else rest))
              × Guarded rt answers cfg (watched (if b then exits else rest))
        cut false k =
            let (on, brackets, guarded) =
              scoped-IsFit rt answers cfg context _ (scoped-IsFit rt answers cfg watchdog rest k) in
            (inl (on, brackets []), guarded)
        cut true (on, brackets, guarded) =
            let (held, b) = Brackets-take n [] [] rest.actions (brackets []) in
            let base = watchdog ∷ context ∷ [] in
            (
              inr (
                refl,
                n,
                held,
                e,
                acquires context [] _ _ (
                    acquires watchdog (context ∷ []) _ _ (
                      rw (append-nil exits.actions, append-nil exits.actions)
                        (Brackets-append base (held ++ base) (held ++ base) (take n rest.actions)
                          (exit_process ∷ []) (Brackets-besides [] held base _ b)
                          (works exit_process (held ++ base) (held ++ base) [] refl
                            (done (held ++ base)))))),
              ),
              scoped-Guarded rt answers cfg context (scoped watchdog exits)
                  (scoped-Guarded rt answers cfg watchdog exits (idle guarded)),
            )

  module _ (parse_int : String → Option ℤ) (env : List (String × String)) (args : List String) where
    -- It ends as Ends says; and either the loop did not run, or the configuration was loaded and
    -- is valid, and the loop ran as Guarded says.
    abbrev pub IsOrderly : Ending → Type 0
    IsOrderly end =
        Ends end
        × (All (λ a. is_process a ≡ false) end.actions
            ⊎ ((cfg : AppConfig) × (load_config parse_int env args ≡ ok cfg)
                × (validate relay cfg ≡ none)
                × (check_db_works cfg answers.columns ≡ none)
                × (check_dlq_works cfg answers.metadata ≡ none)
                × Returns rt answers cfg end))

    validated-IsOrderly :
        (cfg : AppConfig) (r : Option ConfigError)
        → load_config parse_int env args ≡ ok cfg
        → validate relay cfg ≡ r
        → IsOrderly (validated rt answers cfg r)
    validated-IsOrderly cfg (some problem) is h = (inl (refl, done []), inl tt)
    validated-IsOrderly cfg none is h =
        let (ends, guarded) =
          watched-stalled cfg answers.stall _ refl
            (db_opened-IsFit rt answers cfg (answers.opened cfg)) in
        (ends, found guarded)
      where
        found :
            Guarded rt answers cfg (validated rt answers cfg none)
            → (All (λ a. is_process a ≡ false) (validated rt answers cfg none).actions)
              ⊎ ((cfg' : AppConfig) × (load_config parse_int env args ≡ ok cfg')
                  × (validate relay cfg' ≡ none)
                  × (check_db_works cfg' answers.columns ≡ none)
                  × (check_dlq_works cfg' answers.metadata ≡ none)
                  × Returns rt answers cfg' (validated rt answers cfg none))
        found (inl quiet) = inl quiet
        found (inr (db, dlq, ran)) = inr (cfg, is, h, db, dlq, ran)

    loaded-IsOrderly :
        (r : Result AppConfig)
        → load_config parse_int env args ≡ r
        → IsOrderly (loaded rt answers r)
    loaded-IsOrderly (ok cfg) h = validated-IsOrderly cfg (validate relay cfg) h refl
    loaded-IsOrderly (err problem) h = helped (problem == "flag: help requested")
      where
        helped :
            (b : Bool)
            → IsOrderly (
                if b
                then record { actions = []; error = none; exited = false }
                else failed (invalid_settings problem))
        helped true = (inl (refl, done []), inl tt)
        helped false = (inl (refl, done []), inl tt)

    -- A run of the relay releases everything that it acquired, the last one first, on every path
    -- by which it returns. It does not return only where the watchdog reported a stall: then the
    -- process exits at once, with nothing of what it holds released. In either case the processing
    -- loop did not start, or the configuration was loaded and is valid and the checks of the event
    -- table and of the dead letter table passed; and then the error returned is the loop's.
    pub run_relay-IsOrderly : IsOrderly (run_relay rt answers parse_int env args)
    unfolding run_relay
    run_relay-IsOrderly = loaded-IsOrderly (load_config parse_int env args) refl
