-- ===== src/Init.antt =====
-- The statements of the init command: buildInitStatements and renderInitScript of
-- internal/outboxer/init.go.
pub mod Columns
pub mod Apply
pub mod Command
use outboxer.Prelude.{
  ℕ, String, Bool, true, false, not, Option, none, some, List, [], ◌∷◌, ◌++◌, map, if◌then◌else◌,
  is_empty, format,
}
use outboxer.Value.{Runtime}
use outboxer.Config.{AppConfig}
use outboxer.Database.{sql_string_literal, join_with}

-- initStatement
pub record InitStatement : Type 0 where
  pub comment : String
  pub sql : String

abbrev pub statement : List String → InitStatement
statement parts = record { comment = ""; sql = format parts }

-- The columns of the event table that are created, with their types.
abbrev pub optional : String → String → List (String × String)
optional name type = if is_empty name then [] else (name, type) ∷ []

unfoldable pub event_columns : AppConfig → List (String × String)
event_columns cfg =
    (cfg.event_id, "bigint GENERATED BY DEFAULT AS IDENTITY PRIMARY KEY")
      ∷ (cfg.event_payload, "text NOT NULL")
      ∷ optional cfg.event_target "text"
    ++ optional cfg.event_destination "text"
    ++ optional cfg.event_timestamp "timestamptz"
    ++ optional cfg.event_options "jsonb"

-- `sanitize` is pgx.Identifier.Sanitize.
module _ (sanitize : List String → String) where
  abbrev pub ident : String → String
  ident name = sanitize (name ∷ [])

  abbrev pub qualified_ident : String → String → String
  qualified_ident schema name = sanitize (schema ∷ name ∷ [])

  abbrev pub event_table : AppConfig → String
  event_table cfg = qualified_ident cfg.pg_schema cfg.event_table

  abbrev pub create_schema_sql : AppConfig → InitStatement
  create_schema_sql cfg =
      statement ("CREATE SCHEMA IF NOT EXISTS " ∷ ident cfg.pg_schema ∷ ";" ∷ [])

  abbrev column_line : String × String → String
  column_line (name, type) = format (ident name ∷ " " ∷ type ∷ [])

  abbrev pub create_event_table_sql : AppConfig → InitStatement
  create_event_table_sql cfg = statement (
      "CREATE TABLE IF NOT EXISTS "
      ∷ event_table cfg
      ∷ " (\n    "
      ∷ join_with ",\n    " (map column_line (event_columns cfg))
      ∷ "\n);"
      ∷ [])

  abbrev pub event_table_storage_sql : AppConfig → InitStatement
  event_table_storage_sql cfg = record {
    comment =
        "-- The outbox churns every row (insert + delete), so autovacuum must run far more eagerly than the defaults.";
    sql = format (
        "ALTER TABLE "
        ∷ event_table cfg
        ∷ " SET (\n    autovacuum_vacuum_threshold = 1000,\n"
        ∷ "    autovacuum_vacuum_scale_factor = 0.01,\n"
        ∷ "    autovacuum_analyze_threshold = 1000,\n"
        ∷ "    autovacuum_analyze_scale_factor = 0.02\n);"
        ∷ []);
  }

  abbrev pub create_dlq_table_sql : AppConfig → InitStatement
  create_dlq_table_sql cfg = statement (
      "CREATE TABLE IF NOT EXISTS "
      ∷ qualified_ident cfg.pg_schema cfg.dlq_table
      ∷ " (\n    "
      ∷ ident "id"
      ∷ " bigint GENERATED BY DEFAULT AS IDENTITY PRIMARY KEY,\n    "
      ∷ ident "event"
      ∷ " jsonb NOT NULL\n);"
      ∷ [])

  abbrev pub notify_function : AppConfig → String
  notify_function cfg = qualified_ident cfg.pg_schema "outboxer_notify"

  abbrev pub notify_function_statement : AppConfig → InitStatement
  notify_function_statement cfg = statement (
      "CREATE OR REPLACE FUNCTION "
      ∷ notify_function cfg
      ∷ "() RETURNS trigger AS $$\nBEGIN\n"
      ∷ "  PERFORM pg_notify(TG_ARGV[0], '');\n  RETURN NULL;\nEND;\n$$ LANGUAGE plpgsql;"
      ∷ [])

  abbrev pub notify_trigger_statements : Runtime → AppConfig → List InitStatement
  notify_trigger_statements rt cfg =
      statement ("DROP TRIGGER IF EXISTS outboxer_notify ON " ∷ event_table cfg ∷ ";" ∷ [])
      ∷ statement (
          "CREATE TRIGGER outboxer_notify\nAFTER INSERT ON "
          ∷ event_table cfg
          ∷ "\nFOR EACH STATEMENT\nEXECUTE FUNCTION "
          ∷ notify_function cfg
          ∷ "("
          ∷ sql_string_literal (rt.from_bytes cfg.notify_channel)
          ∷ ");"
          ∷ [])
      ∷ []

  abbrev role_password : AppConfig → Bool → String
  role_password cfg redact =
      if redact
      then "NULL"
      else if is_empty cfg.pg_password
      then "NULL"
      else sql_string_literal cfg.pg_password

  -- `tag` is `$outboxer_`, the random text, and `$`.
  unfoldable pub run_role_statement : String → AppConfig → Bool → InitStatement
  unfolding sql_string_literal
  run_role_statement tag cfg redact = record {
    comment =
        if redact
        then "-- Configure authentication for the run role separately before starting Outboxer."
        else "";
    sql = format (
        "DO "
        ∷ tag
        ∷ " BEGIN\n  IF NOT EXISTS (SELECT FROM pg_roles WHERE rolname = "
        ∷ sql_string_literal cfg.pg_user
        ∷ ") THEN\n    CREATE ROLE "
        ∷ ident cfg.pg_user
        ∷ " LOGIN PASSWORD "
        ∷ role_password cfg redact
        ∷ ";\n  END IF;\nEND "
        ∷ tag
        ∷ ";"
        ∷ []);
  }

  abbrev pub run_role_grant_statements : AppConfig → List InitStatement
  run_role_grant_statements cfg =
      statement
        ("GRANT USAGE ON SCHEMA " ∷ ident cfg.pg_schema ∷ " TO " ∷ ident cfg.pg_user ∷ ";" ∷ [])
      ∷ statement
          ("GRANT SELECT, DELETE ON " ∷ event_table cfg ∷ " TO " ∷ ident cfg.pg_user ∷ ";" ∷ [])
      ∷ statement (
          "GRANT UPDATE ("
          ∷ ident cfg.event_id
          ∷ ") ON "
          ∷ event_table cfg
          ∷ " TO "
          ∷ ident cfg.pg_user
          ∷ ";"
          ∷ [])
      ∷ (if is_empty cfg.dlq_table
          then []
          else statement (
              "GRANT INSERT ON "
              ∷ qualified_ident cfg.pg_schema cfg.dlq_table
              ∷ " TO "
              ∷ ident cfg.pg_user
              ∷ ";"
              ∷ [])
            ∷ [])

  abbrev pub producer_grants : AppConfig → List String → List InitStatement
  producer_grants cfg [] = []
  producer_grants cfg (role ∷ roles) =
      statement ("GRANT USAGE ON SCHEMA " ∷ ident cfg.pg_schema ∷ " TO " ∷ ident role ∷ ";" ∷ [])
      ∷ statement ("GRANT SELECT, INSERT ON " ∷ event_table cfg ∷ " TO " ∷ ident role ∷ ";" ∷ [])
      ∷ producer_grants cfg roles

  abbrev manages_roles : AppConfig → Bool
  manages_roles cfg = not (is_empty cfg.pg_init_user)

  unfoldable pub build_init_statements : Runtime → String → AppConfig → Bool → List InitStatement
  unfolding run_role_statement event_columns
  build_init_statements rt tag cfg redact =
      (if manages_roles cfg then run_role_statement tag cfg redact ∷ [] else [])
      ++ (create_schema_sql cfg ∷ create_event_table_sql cfg ∷ event_table_storage_sql cfg ∷ [])
      ++ (if is_empty cfg.dlq_table then [] else create_dlq_table_sql cfg ∷ [])
      ++ (notify_function_statement cfg ∷ notify_trigger_statements rt cfg)
      ++ (if manages_roles cfg
          then run_role_grant_statements cfg ++ producer_grants cfg cfg.pg_producer_roles
          else [])

abbrev commented : InitStatement → String
commented s = if is_empty s.comment then s.sql else format (s.comment ∷ "\n" ∷ s.sql ∷ [])

-- renderInitScript
unfoldable pub render_init_script : List InitStatement → String
render_init_script stmts = format (join_with "\n\n" (map commented stmts) ∷ "\n" ∷ [])
