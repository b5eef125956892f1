-- ===== src/Clickhouse/SystemHandler.antt =====
-- internal/proxy/clickhouse/system.go: SystemHandler, which answers queries of system tables with names of
-- columns and rows of values, and FormatJSON.
use agentx_proxy.Prelude.{
  ℕ, true, Option, none, some, List, [], ◌∷◌, ◌++◌, Bytes, codes, length, drop, ◌==◌, if◌then◌else◌,
  ok, err, Outcome, panicked, Action, return, ◌>>=◌,
}
use agentx_proxy.Prelude.Maps.{insert}
use agentx_proxy.Pgwire.Backend.{Value, text, signed, boolean, render}
use agentx_proxy.Session.{scan_texts}
use agentx_proxy.Clickhouse.{ChServices, mysql_to_ch_type, first_text}

unfoldable pub tables_columns : List Bytes
tables_columns =
    codes "database"
    ∷ codes "name"
    ∷ codes "uuid"
    ∷ codes "engine"
    ∷ codes "engine_full"
    ∷ codes "sorting_key"
    ∷ codes "primary_key"
    ∷ codes "partition_key"
    ∷ codes "sampling_key"
    ∷ codes "storage_policy"
    ∷ codes "total_rows"
    ∷ codes "total_bytes"
    ∷ codes "lifetime_rows"
    ∷ codes "lifetime_bytes"
    ∷ codes "parts"
    ∷ codes "active_parts"
    ∷ codes "marks"
    ∷ []

unfoldable pub columns_columns : List Bytes
columns_columns =
    codes "database"
    ∷ codes "table"
    ∷ codes "name"
    ∷ codes "type"
    ∷ codes "position"
    ∷ codes "default_expression"
    ∷ codes "comment"
    ∷ codes "codec_expression"
    ∷ codes "default_type"
    ∷ []

unfoldable pub parts_columns : List Bytes
parts_columns =
    codes "database"
    ∷ codes "table"
    ∷ codes "partition_id"
    ∷ codes "name"
    ∷ codes "active"
    ∷ codes "marks"
    ∷ codes "rows"
    ∷ codes "bytes_on_disk"
    ∷ codes "modification_time"
    ∷ codes "remove_time"
    ∷ []

unfoldable pub processes_columns : List Bytes
processes_columns =
    codes "query_id"
    ∷ codes "address"
    ∷ codes "user"
    ∷ codes "initial_user"
    ∷ codes "query"
    ∷ codes "elapsed"
    ∷ codes "is_cancelled"
    ∷ codes "read_rows"
    ∷ codes "written_rows"
    ∷ []

unfoldable pub metrics_columns : List Bytes
metrics_columns = codes "metric" ∷ codes "value" ∷ codes "description" ∷ []

abbrev pub tables_query : Bytes
tables_query =
    codes
      "\n\t\tSELECT table_name, table_name, '', 'MergeTree', 'MergeTree()', '', '', '', '', '',\n\t\t\t0, 0, 0, 0, 0, 0, 0\n\t\tFROM information_schema.tables\n\t\tWHERE table_schema = DATABASE() AND table_type = 'BASE TABLE'\n\t"

abbrev pub columns_query : Bytes
columns_query =
    codes
      "\n\t\tSELECT table_name, column_name, column_type, ordinal_position\n\t\tFROM information_schema.columns\n\t\tWHERE table_schema = DATABASE()\n\t\tORDER BY table_name, ordinal_position\n\t"

abbrev pub parts_query : Bytes
parts_query =
    codes
      "\n\t\tSELECT table_name\n\t\tFROM information_schema.tables\n\t\tWHERE table_schema = DATABASE() AND table_type = 'BASE TABLE'\n\t"

-- A row is left out where it does not have as many values as there are columns; its first value is taken
-- by the name of the database.
unfoldable pub tables_row : List Value → List (List Value)
unfolding tables_columns
tables_row row =
    if length row == length tables_columns then (text (codes "default") ∷ drop 1 row) ∷ [] else []

-- The row of a column, from its table, name, type and position.
unfoldable pub scanned_column :
    Option Bytes → Option Bytes → Option Bytes → Option ℕ → List (List Value)
unfolding mysql_to_ch_type
scanned_column (some table) (some name) (some mysql_type) (some pos) =
    (text (codes "default")
      ∷ text table
      ∷ text name
      ∷ text (mysql_to_ch_type mysql_type)
      ∷ signed pos
      ∷ text []
      ∷ text []
      ∷ text []
      ∷ text []
      ∷ [])
    ∷ []
scanned_column _ _ _ _ = []

-- A row is left out where one of its values is NULL, or the last one no number; `scan_int` is the reading
-- of a value into an int.
unfoldable pub columns_row : (Value → Option ℕ) → List Value → List (List Value)
unfolding render scanned_column
columns_row scan_int (t ∷ n ∷ k ∷ p ∷ []) =
    scanned_column (render t) (render n) (render k) (scan_int p)
columns_row scan_int _ = []

unfoldable pub parts_row : List Value → List (List Value)
unfolding scan_texts
parts_row row =
    (text (codes "default")
      ∷ text (first_text (scan_texts 1 row))
      ∷ text (codes "all")
      ∷ text (codes "all_0")
      ∷ boolean true
      ∷ signed 1
      ∷ signed 0
      ∷ signed 0
      ∷ text []
      ∷ text []
      ∷ [])
    ∷ []

unfoldable pub rows_of : (List Value → List (List Value)) → List (List Value) → List (List Value)
rows_of f [] = []
rows_of f (row ∷ rows) = f row ++ rows_of f rows

-- The names of the columns, and the rows.
abbrev pub Table : Type 0
Table = List Bytes × List (List Value)

unfoldable pub metrics : List (List Value)
metrics =
    (text (codes "Query") ∷ signed 0 ∷ text (codes "Number of executing queries") ∷ [])
    ∷ (text (codes "Merge") ∷ signed 0 ∷ text (codes "Number of executing background merges") ∷ [])
    ∷ (text (codes "PartMutation") ∷ signed 0 ∷ text (codes "Number of mutations") ∷ [])
    ∷ (text (codes "ReplicatedFetch")
        ∷ signed 0
        ∷ text (codes "Number of data parts being fetched from replica")
        ∷ [])
    ∷ (text (codes "ReplicatedSend")
        ∷ signed 0
        ∷ text (codes "Number of data parts being sent to replicas")
        ∷ [])
    ∷ []

module _ (services : ChServices) where
  open services use {pool, query as query_db}

  -- `QuerySystemTables`; an error at the end of the rows is not looked at.
  unfoldable pub query_system_tables : Action pool.Db Table
  unfolding rows_of tables_row tables_columns
  query_system_tables =
      query_db tables_query >>= (λ r. return (tables_columns, rows_of tables_row r.rows))

  -- `QuerySystemColumns`
  unfoldable pub query_system_columns : (Value → Option ℕ) → Action pool.Db Table
  unfolding rows_of columns_row columns_columns
  query_system_columns scan_int =
      query_db columns_query
      >>= (λ r. return (columns_columns, rows_of (columns_row scan_int) r.rows))

  -- `QuerySystemParts`
  unfoldable pub query_system_parts : Action pool.Db Table
  unfolding rows_of parts_row parts_columns
  query_system_parts =
      query_db parts_query >>= (λ r. return (parts_columns, rows_of parts_row r.rows))

-- `QuerySystemProcesses` and `QuerySystemMetrics`
unfoldable pub query_system_processes : Table
unfolding processes_columns
query_system_processes = (processes_columns, [])

unfoldable pub query_system_metrics : Table
unfolding metrics_columns metrics
query_system_metrics = (metrics_columns, metrics)

-- The values of a row under the names of the columns; a name that comes again has the later value.
unfoldable pub row_object : List (Bytes × Value) → List Bytes → List Value → List (Bytes × Value)
unfolding insert
row_object m [] row = m
row_object m (c ∷ columns) [] = m
row_object m (c ∷ columns) (v ∷ row) = row_object (insert c v m) columns row

-- json.Marshal of a map and of the raw messages, where `none` is the slice that no row was appended to.
module _ (marshal : List (Bytes × Value) → Outcome Bytes)
    (marshal_raw : Option (List Bytes) → Outcome Bytes) where
  abbrev appended : Option (List Bytes) → Bytes → Option (List Bytes)
  appended none x = some (x ∷ [])
  appended (some xs) x = some (xs ++ x ∷ [])

  unfoldable pub format_rows : Option (List Bytes) → List Bytes → List (List Value) → Outcome Bytes
  unfolding row_object
  format_rows result columns [] = marshal_raw result
  format_rows result columns (row ∷ rows) =
      elim (marshal (row_object [] columns row)) as (λ _. Outcome Bytes) [
        | err e ↦ err e
        | panicked ↦ panicked
        | ok x ↦ format_rows (appended result x) columns rows
      ]

  -- `FormatJSON`
  unfoldable pub format_json : List Bytes → List (List Value) → Outcome Bytes
  unfolding format_rows
  format_json columns rows = format_rows none columns rows
