-- ===== src/Tests/Provision.antt =====
-- Runs of the init command and of the scan, and the instances of their theorems.
use outboxer.Prelude.{
  Bool, String, true, false, Option, none, some, List, [], ◌∷◌, map, ◌≡◌, ◌↔◌, refl, All, format,
  string_eq,
}
use Prim.Native.String
use outboxer.Value.{Value, str, Result, ok}
use outboxer.Config.{AppConfig, default_config, derive_config}
use outboxer.Event.{Event}
use outboxer.Database.{sql_string_literal, sql_string_list, validate_event_columns, scan_events}
use outboxer.Database.Literals.{read_literal, read_literal-sql_string_literal}
use outboxer.Database.Scan.{IsRouted, AreEventsOf, scan_events_iff}
use outboxer.Dlq.{DlqTableMetadata}
use outboxer.Init.{build_init_statements, render_init_script, run_role_statement, event_columns}
use outboxer.Init.Columns.{name_of, validate_event_columns-event_columns}
use outboxer.Init.Apply.{InitAnswers, sql_of, apply_init, IsAtomic, apply_init-IsAtomic}
use outboxer.Processor.Transaction.{committed}
use outboxer.Init.Command.{InitRun, printed, applied, run_init}
use outboxer.Tests.{test_runtime, test_config}
use outboxer.Tests.Config.{naturals}

abbrev quoting : List String → String
quoting [] = ""
quoting (name ∷ []) = format ("\"" ∷ name ∷ "\"" ∷ [])
quoting (schema ∷ name ∷ names) = format ("\"" ∷ schema ∷ "\".\"" ∷ name ∷ "\"" ∷ [])

abbrev init_config : AppConfig
init_config = record test_config {
  pg_init_user = "admin";
  pg_user = "relay";
  pg_password = "it's";
  pg_producer_roles = "shop" ∷ [];
}

role_run :
    (run_role_statement quoting "$t$" init_config false).sql
    ≡ "DO $t$ BEGIN\n  IF NOT EXISTS (SELECT FROM pg_roles WHERE rolname = 'relay') THEN\n    CREATE ROLE \"relay\" LOGIN PASSWORD 'it''s';\n  END IF;\nEND $t$;"
unfolding run_role_statement sql_string_literal format
role_run = refl

list_run : sql_string_list ("a" ∷ "b'" ∷ []) ≡ "'a', 'b'''"
unfolding sql_string_list format
list_run = refl

read_literal-sql_string_literal_example :
    read_literal (String.◌++◌ (sql_string_literal "it's") ";") ≡ some ("it's", ";")
read_literal-sql_string_literal_example = read_literal-sql_string_literal "it's" ";" refl

validate_event_columns-event_columns_example :
    validate_event_columns init_config (map name_of (event_columns init_config)) ≡ none
validate_event_columns-event_columns_example = validate_event_columns-event_columns init_config

abbrev sample_table : DlqTableMetadata
sample_table = record {
  relkind = "r";
  can_insert_table = true;
  columns =
      record {
        name = "id";
        type_name = "bigint";
        not_null = true;
        default_expr = none;
        identity = "d";
        generated = "";
        can_insert_column = true;
      }
      ∷ record {
        name = "event";
        type_name = "jsonb";
        not_null = true;
        default_expr = none;
        identity = "";
        generated = "";
        can_insert_column = true;
      }
      ∷ [];
}

abbrev answers : InitAnswers
answers = record {
  connect = λ cfg. none;
  begin = none;
  exec = λ done statement. none;
  columns = λ done. ok (map name_of (event_columns init_config));
  metadata = λ done. ok sample_table;
  commit = committed;
}

applied_run : (apply_init answers quoting test_runtime "$t$" init_config).applied ≡ true
unfolding apply_init default_config
applied_run = refl

apply_init-IsAtomic_example :
    IsAtomic answers init_config
      (map sql_of (build_init_statements quoting test_runtime "$t$" init_config false))
      (apply_init answers quoting test_runtime "$t$" init_config)
apply_init-IsAtomic_example = apply_init-IsAtomic answers quoting test_runtime "$t$" init_config

abbrev scanned_rows : List (Result (List Value))
scanned_rows =
    ok (str "sqs" ∷ str "queue" ∷ str "1" ∷ str "{}" ∷ [])
    ∷ ok (str "pubsub" ∷ str "topic" ∷ str "2" ∷ str "{}" ∷ [])
    ∷ []

scan_events_iff_example :
    ((events : List Event) × (scan_events test_runtime
          (ok ("resolved_target" ∷ "resolved_destination" ∷ "id" ∷ "payload" ∷ []))
          scanned_rows
          none
        ≡ ok events)
      × AreEventsOf test_runtime ("id" ∷ "payload" ∷ []) scanned_rows events)
    ↔ ((◌≡◌ {A = Option String} none none) × All (IsRouted test_runtime) scanned_rows)
scan_events_iff_example = scan_events_iff test_runtime ("id" ∷ "payload" ∷ []) scanned_rows none

abbrev is_applied : InitRun → Bool
is_applied (applied o) = o.applied
is_applied _ = false

-- Without --apply, the script is printed.
print_run :
    run_init answers quoting test_runtime "$t$" naturals [] ("--pg-init-user=admin" ∷ [])
    ≡ printed (
        render_init_script (
          build_init_statements quoting test_runtime "$t$"
            (record (derive_config default_config) { pg_init_user = "admin" })
            true))
unfolding run_init default_config derive_config
print_run = refl

apply_run :
    is_applied (
      run_init answers quoting test_runtime "$t$" naturals
        (("PG_INIT_USER", "admin") ∷ [])
        ("--apply" ∷ []))
    ≡ true
unfolding run_init default_config
apply_run = refl
