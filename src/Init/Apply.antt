-- ===== src/Init/Apply.antt =====
-- How init changes the database: applyInit of internal/outboxer/init.go, one transaction.
use outboxer.Prelude.{
  String, Bool, true, false, Option, none, some, List, [], ◌∷◌, ◌++◌, map, ◌≡◌, refl, subst, ◌⊎◌,
  inl, inr, if◌then◌else◌, is_empty, append_assoc, append-nil,
}
use outboxer.Errors.{Error}
use outboxer.Value.{Runtime, Result}
use outboxer.Config.{AppConfig}
use outboxer.Database.{check_db_works}
use outboxer.Dlq.{DlqTableMetadata}
use outboxer.Dlq.Load.{DlqCheckError, check_dlq_works}
use outboxer.Processor.Transaction.{CommitOutcome, committed, refused, answer_lost}
use outboxer.Init.{InitStatement, build_init_statements}

pub data InitError : Type 0 where
  open_failed begin_failed statement_failed columns_rejected : String → InitError
  dlq_rejected : DlqCheckError → InitError
  commit_failed : Error → InitError

-- What the database answers in a run: to each statement after those executed before it, and to
-- the queries of the checks after all of them.
pub record InitAnswers : Type 0 where
  pub connect : AppConfig → Option String
  pub begin : Option String
  pub exec : List String → String → Option String
  pub columns : List String → Result (List String)
  pub metadata : List String → Result DlqTableMetadata
  pub commit : CommitOutcome

-- The statements that the transaction executed, whether it was applied, and the error.
pub record InitOutcome : Type 0 where
  pub executed : List String
  pub applied : Bool
  pub error : Option InitError

-- The run role connects, unless there is a provisioning role.
abbrev pub init_connection : AppConfig → AppConfig
init_connection cfg =
    if is_empty cfg.pg_init_user
    then cfg
    else record cfg { pg_user = cfg.pg_init_user; pg_password = cfg.pg_init_password }

abbrev rolled_back : List String → InitError → InitOutcome
rolled_back executed problem = record { executed = executed; applied = false; error = some problem }

abbrev pub sql_of : InitStatement → String
sql_of s = s.sql

-- validateProvisionedSchema
abbrev dlq_error : Option DlqCheckError → Option InitError
dlq_error none = none
dlq_error (some problem) = some (dlq_rejected problem)

abbrev schema_error : Option String → Option DlqCheckError → Option InitError
schema_error (some problem) dlq = some (columns_rejected problem)
schema_error none dlq = dlq_error dlq

unfoldable pub validate_provisioned_schema :
    AppConfig → Result (List String) → Result DlqTableMetadata → Option InitError
unfolding check_db_works check_dlq_works
validate_provisioned_schema cfg columns metadata =
    schema_error (check_db_works cfg columns) (check_dlq_works cfg metadata)

abbrev commit_with : List String → CommitOutcome → InitOutcome
commit_with executed committed = record { executed = executed; applied = true; error = none }
commit_with executed (refused problem) = rolled_back executed (commit_failed problem)
commit_with executed (answer_lost problem) = record {
  executed = executed;
  applied = true;
  error = some (commit_failed problem);
}

module _ (answers : InitAnswers) where
  abbrev commit_if : List String → Option InitError → InitOutcome
  commit_if executed (some problem) = rolled_back executed problem
  commit_if executed none = commit_with executed answers.commit

  -- The loop over the statements that are left, and what follows it.
  abbrev exec_then : List String → Option String → InitOutcome → InitOutcome
  exec_then executed (some problem) rest = rolled_back executed (statement_failed problem)
  exec_then executed none rest = rest

  unfoldable pub exec_init_statements : AppConfig → List String → List InitStatement → InitOutcome
  unfolding validate_provisioned_schema
  exec_init_statements cfg executed [] =
      commit_if executed
        (validate_provisioned_schema cfg (answers.columns executed) (answers.metadata executed))
  exec_init_statements cfg executed (s ∷ stmts) =
      exec_then executed (answers.exec executed s.sql)
        (exec_init_statements cfg (executed ++ (s.sql ∷ [])) stmts)

  abbrev begun : Option String → InitOutcome → InitOutcome
  begun (some problem) rest = rolled_back [] (begin_failed problem)
  begun none rest = rest

  abbrev opened : Option String → InitOutcome → InitOutcome
  opened (some problem) rest = rolled_back [] (open_failed problem)
  opened none rest = rest

  unfoldable pub apply_init : (List String → String) → Runtime → String → AppConfig → InitOutcome
  unfolding exec_init_statements build_init_statements
  apply_init sanitize rt tag cfg = opened (answers.connect (init_connection cfg)) (
      begun answers.begin
        (exec_init_statements cfg [] (build_init_statements sanitize rt tag cfg false)))

  -- Nothing was applied, and an error says so; or all of the statements were executed in order, the
  -- relay's checks of both tables pass, and it was applied, with no error but a commit's.
  abbrev pub IsAtomic : AppConfig → List String → InitOutcome → Type 0
  IsAtomic cfg all o =
      ((o.applied ≡ false) × (problem : InitError) × (o.error ≡ some problem))
      ⊎ ((o.applied ≡ true)
          × (o.executed ≡ all)
          × (check_db_works cfg (answers.columns all) ≡ none)
          × (check_dlq_works cfg (answers.metadata all) ≡ none)
          × ((o.error ≡ none) ⊎ ((problem : Error) × (o.error ≡ some (commit_failed problem)))))

  schema_error-none :
      (db : Option String) (dlq : Option DlqCheckError)
      → schema_error db dlq ≡ none
      → (db ≡ none) × (dlq ≡ none)
  schema_error-none (some problem) dlq h = cc h
  schema_error-none none (some problem) h = cc h
  schema_error-none none none h = (refl, refl)

  commit_if-IsAtomic :
      (cfg : AppConfig) (executed : List String) (r : Option InitError)
      → validate_provisioned_schema cfg (answers.columns executed) (answers.metadata executed) ≡ r
      → IsAtomic cfg executed (commit_if executed r)
  unfolding validate_provisioned_schema
  commit_if-IsAtomic cfg executed (some problem) h = inl (refl, problem, refl)
  commit_if-IsAtomic cfg executed none h =
      let (db, dlq) =
        schema_error-none (check_db_works cfg (answers.columns executed))
          (check_dlq_works cfg (answers.metadata executed)) h in
      ends db dlq answers.commit
    where
      ends :
          check_db_works cfg (answers.columns executed) ≡ none
          → check_dlq_works cfg (answers.metadata executed) ≡ none
          → (c : CommitOutcome) → IsAtomic cfg executed (commit_with executed c)
      ends db dlq committed = inr (refl, refl, db, dlq, inl refl)
      ends db dlq (refused problem) = inl (refl, commit_failed problem, refl)
      ends db dlq (answer_lost problem) = inr (refl, refl, db, dlq, inr (problem, refl))

  exec_then-IsAtomic :
      (cfg : AppConfig) (all executed : List String) (r : Option String) (rest : InitOutcome)
      → IsAtomic cfg all rest
      → IsAtomic cfg all (exec_then executed r rest)
  exec_then-IsAtomic cfg all executed (some problem) rest h =
      inl (refl, statement_failed problem, refl)
  exec_then-IsAtomic cfg all executed none rest h = h

  exec_init_statements-IsAtomic :
      (cfg : AppConfig) (executed : List String) (stmts : List InitStatement)
      → IsAtomic cfg (executed ++ map sql_of stmts) (exec_init_statements cfg executed stmts)
  unfolding exec_init_statements
  exec_init_statements-IsAtomic cfg executed [] = rw (append-nil executed) (
      commit_if-IsAtomic cfg executed
        (validate_provisioned_schema cfg (answers.columns executed) (answers.metadata executed))
        refl)
  exec_init_statements-IsAtomic cfg executed (s ∷ stmts) =
      exec_then-IsAtomic cfg (executed ++ map sql_of (s ∷ stmts)) executed
        (answers.exec executed s.sql) (exec_init_statements cfg (executed ++ (s.sql ∷ [])) stmts)
        (subst (λ all. IsAtomic cfg all (exec_init_statements cfg (executed ++ (s.sql ∷ [])) stmts))
          (append_assoc executed (s.sql ∷ []) (map sql_of stmts))
          (exec_init_statements-IsAtomic cfg (executed ++ (s.sql ∷ [])) stmts))

  pub apply_init-IsAtomic :
      (sanitize : List String → String) (rt : Runtime) (tag : String) (cfg : AppConfig)
      → IsAtomic cfg
          (map sql_of (build_init_statements sanitize rt tag cfg false))
          (apply_init sanitize rt tag cfg)
  unfolding apply_init
  apply_init-IsAtomic sanitize rt tag cfg =
      started (answers.connect (init_connection cfg)) answers.begin
    where
      started :
          (o b : Option String)
          → IsAtomic cfg (map sql_of (build_init_statements sanitize rt tag cfg false)) (
              opened o (
                begun b
                  (exec_init_statements cfg [] (build_init_statements sanitize rt tag cfg false))))
      started (some problem) b = inl (refl, open_failed problem, refl)
      started none (some problem) = inl (refl, begin_failed problem, refl)
      started none none =
          exec_init_statements-IsAtomic cfg [] (build_init_statements sanitize rt tag cfg false)
