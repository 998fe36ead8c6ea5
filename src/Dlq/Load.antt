-- ===== src/Dlq/Load.antt =====
-- How the dead letter table's metadata are read and checked: loadDLQTableMetadata and
-- checkDLQWorks of internal/outboxer/dlq.go. The catalogue query is text for the database.
use outboxer.Prelude.{
  String, Bool, false, Option, none, some, List, [], ◌∷◌, ◌++◌, if◌then◌else◌, is_empty,
}
use outboxer.Value.{Result, ok, err, ◌>>=◌}
use outboxer.Config.{AppConfig}
use outboxer.Dlq.{DlqColumnMetadata, DlqTableMetadata, DlqTableError, validate_dlq_table_metadata}

-- A row of the catalogue query: the table's kind, its INSERT privilege, and a column.
abbrev pub MetadataRow : Type 0
MetadataRow = String × Bool × DlqColumnMetadata

-- What the table check fails with: an error of the query, or what is wrong with the table.
pub data DlqCheckError : Type 0 where
  not_loaded : String → DlqCheckError
  bad_table : DlqTableError → DlqCheckError

abbrev with_row : DlqTableMetadata → Result MetadataRow → Result DlqTableMetadata
with_row metadata (err problem) = err problem
with_row metadata (ok (relkind, can_insert, column)) = ok (record {
  relkind = relkind;
  can_insert_table = can_insert;
  columns = metadata.columns ++ (column ∷ []);
})

abbrev at_end : DlqTableMetadata → Option String → Result DlqTableMetadata
at_end metadata none = ok metadata
at_end metadata (some problem) = err problem

-- The loop over the rows, each scanned or not, with the error of the rows at the end.
unfoldable pub load_rows :
    DlqTableMetadata → List (Result MetadataRow) → Option String → Result DlqTableMetadata
load_rows metadata [] rows_err = at_end metadata rows_err
load_rows metadata (row ∷ rows) rows_err =
    with_row metadata row >>= λ metadata'. load_rows metadata' rows rows_err

-- The query fails, or gives rows.
unfoldable pub load_dlq_table_metadata :
    Option String → List (Result MetadataRow) → Option String → Result DlqTableMetadata
unfolding load_rows
load_dlq_table_metadata (some problem) rows rows_err = err problem
load_dlq_table_metadata none rows rows_err =
    load_rows (record { relkind = ""; can_insert_table = false; columns = [] }) rows rows_err

abbrev checked : Option DlqTableError → Option DlqCheckError
checked none = none
checked (some problem) = some (bad_table problem)

abbrev table_check : Result DlqTableMetadata → Option DlqCheckError
table_check (err problem) = some (not_loaded problem)
table_check (ok metadata) = checked (validate_dlq_table_metadata metadata)

unfoldable pub check_dlq_works : AppConfig → Result DlqTableMetadata → Option DlqCheckError
unfolding validate_dlq_table_metadata
check_dlq_works cfg loaded = if is_empty cfg.dlq_table then none else table_check loaded
