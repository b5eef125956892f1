-- ===== src/Clickhouse/Native/System.antt =====
-- internal/proxy/clickhouse/http_server.go: the system queries of the native protocol.
use agentx_proxy.Prelude.{
  ◌||◌, Option, none, some, List, [], ◌∷◌, map, Bytes, codes, if◌then◌else◌, Action, ◌>>=◌, return,
  handling,
}
use agentx_proxy.Prelude.Strings.{to_upper, trim_space, has_prefix, contains, equal, split}
use agentx_proxy.Pgwire.Backend.{Value, text, unsigned}
use agentx_proxy.Session.{scan_texts}
use agentx_proxy.Clickhouse.{
  ChServices, mysql_to_ch_type, first_text, get_table_list, exists_table, table_list_query,
}
use agentx_proxy.Clickhouse.Native.{NativeResponse}

abbrev pub string_column : Bytes → Bytes × Bytes
string_column name = (name, codes "String")

abbrev pub counter_column : Bytes → Bytes × Bytes
counter_column name = (name, codes "UInt64")

-- A response of one column of texts.
abbrev pub texts_response : Bytes → List Bytes → NativeResponse
texts_response name ts = record {
  columns = string_column name ∷ [];
  rows = map (λ t. text t ∷ []) ts;
}

unfoldable pub non_empty : List Bytes → List Bytes
unfolding equal
non_empty [] = []
non_empty (t ∷ ts) = let rest = non_empty ts in if equal t [] then rest else t ∷ rest

unfoldable pub system_tables_columns : List (Bytes × Bytes)
system_tables_columns =
    string_column (codes "database")
    ∷ string_column (codes "name")
    ∷ string_column (codes "engine")
    ∷ (codes "is_temporary", codes "UInt8")
    ∷ string_column (codes "data_paths")
    ∷ string_column (codes "metadata_path")
    ∷ (codes "metadata_modification_time", codes "DateTime64(3)")
    ∷ counter_column (codes "metadata_version")
    ∷ string_column (codes "storage_policy")
    ∷ counter_column (codes "delayed_insert_threads")
    ∷ counter_column (codes "parts")
    ∷ counter_column (codes "active_parts")
    ∷ counter_column (codes "total_marks")
    ∷ counter_column (codes "total_rows")
    ∷ counter_column (codes "total_bytes")
    ∷ []

unfoldable pub system_tables_row : Bytes → List Value
system_tables_row name =
    text (codes "default")
    ∷ text name
    ∷ text (codes "MergeTree")
    ∷ unsigned 0
    ∷ text []
    ∷ text []
    ∷ text (codes "1970-01-01 00:00:00.000")
    ∷ unsigned 0
    ∷ text []
    ∷ unsigned 0
    ∷ unsigned 0
    ∷ unsigned 0
    ∷ unsigned 0
    ∷ unsigned 0
    ∷ unsigned 0
    ∷ []

unfoldable pub system_columns_columns : List (Bytes × Bytes)
system_columns_columns =
    string_column (codes "database")
    ∷ string_column (codes "table")
    ∷ string_column (codes "name")
    ∷ string_column (codes "type")
    ∷ string_column (codes "default_expression")
    ∷ string_column (codes "comment")
    ∷ string_column (codes "codec_expression")
    ∷ string_column (codes "default_type")
    ∷ []

unfoldable pub system_columns_row : List Bytes → List Value
unfolding mysql_to_ch_type
system_columns_row (table ∷ name ∷ col_type ∷ _) =
    text (codes "default")
    ∷ text table
    ∷ text name
    ∷ text (mysql_to_ch_type col_type)
    ∷ text []
    ∷ text []
    ∷ text []
    ∷ text []
    ∷ []
system_columns_row _ = []

abbrev pub columns_query : Bytes
columns_query =
    codes
      "\n\t\tSELECT table_name, column_name, column_type\n\t\tFROM information_schema.columns\n\t\tWHERE table_schema = DATABASE()\n\t\tORDER BY table_name, ordinal_position\n\t"

module _ (services : ChServices) where
  open services use {pool, query}

  -- `getNativeSystemTables`, which is nil on an error of MySQL.
  unfoldable pub get_native_system_tables : Action pool.Db (Option NativeResponse)
  unfolding system_tables_columns system_tables_row scan_texts
  get_native_system_tables =
      handling (query table_list_query) (λ e. return none)
        (λ r. return (
          some (record {
            columns = system_tables_columns;
            rows = map (λ row. system_tables_row (first_text (scan_texts 1 row))) r.rows;
          })))

  unfoldable pub get_native_system_columns : Action pool.Db (Option NativeResponse)
  unfolding system_columns_columns system_columns_row scan_texts
  get_native_system_columns =
      handling (query columns_query) (λ e. return none)
        (λ r. return (
          some (record {
            columns = system_columns_columns;
            rows = map (λ row. system_columns_row (scan_texts 3 row)) r.rows;
          })))

  -- `nativeExistsTable`
  unfoldable pub native_exists_table : Bytes → Action pool.Db (Option NativeResponse)
  native_exists_table q = exists_table services q >>= (λ b. return (
      some (record {
        columns = (codes "result", codes "UInt8") ∷ [];
        rows = (unsigned (if b then 1 else 0) ∷ []) ∷ [];
      })))

  -- `handleSystemQueryNative`
  unfoldable pub handle_system_query_native : Bytes → Action pool.Db (Option NativeResponse)
  unfolding to_upper trim_space has_prefix contains equal split non_empty
  handle_system_query_native q =
      let upper = to_upper (trim_space q) in
      if contains upper (codes "VERSION()")
      then return (some (texts_response (codes "version()") (codes "24.8.5.115" ∷ [])))
      else if contains upper (codes "CURRENTUSER()") || contains upper (codes "CURRENT_USER()")
      then return (some (texts_response (codes "currentUser()") (codes "default" ∷ [])))
      else if contains upper (codes "DATABASE()")
      then return (some (texts_response (codes "database()") (codes "default" ∷ [])))
      else if equal upper (codes "SHOW TABLES") || equal upper (codes "SHOW TABLES FROM default")
      then get_table_list services >>= (λ tables.
        return (some (texts_response (codes "name") (non_empty (split (trim_space tables) b'\n')))))
      else if contains upper (codes "SHOW DATABASES")
      then return
          (some (texts_response (codes "name") (codes "default" ∷ codes "information_schema" ∷ [])))
      else if contains upper (codes "SYSTEM.TABLES")
      then get_native_system_tables
      else if contains upper (codes "SYSTEM.COLUMNS")
      then get_native_system_columns
      else if has_prefix upper (codes "EXISTS")
      then native_exists_table q
      else return none
