-- ===== src/Clickhouse/Http.antt =====
-- internal/proxy/clickhouse/http_server.go: the HTTP server.
pub mod Lines
use agentx_proxy.Prelude.{
  ℕ, Bool, not, ◌&&◌, ◌||◌, Option, none, some, List, [], ◌∷◌, ◌++◌, map, Bytes, codes,
  if◌then◌else◌, Error, ok, err, panicked, Outcome, Action, ◌>>=◌, return, handling,
}
use agentx_proxy.Prelude.Strings.{to_upper, trim_space, has_prefix, contains, equal, join}
use agentx_proxy.Pgwire.Backend.{Value, null, raw, format_int}
use agentx_proxy.Session.{Rows, error_text, scan_texts}
use agentx_proxy.Buffer.{WriteBuffer, enqueue}
use agentx_proxy.Clickhouse.Translator.{translate}
use agentx_proxy.Clickhouse.{
  ChServices, is_write_query, mysql_to_ch_type, sprint_value, get_table_list, exists_table,
}

-- The parameter `query` of the URL, and the body, if there is one, or the error of reading it.
pub record Request : Type 0 where
  pub query : Bytes
  pub body : Option (Outcome Bytes)

-- What is sent: the status, the content type that the handler sets, and the bytes.
pub record Response : Type 0 where
  pub status : ℕ
  pub content_type : Option Bytes
  pub body : Bytes

abbrev pub tsv_type : Bytes
tsv_type = codes "text/tab-separated-values"

-- `http.Error`.
unfoldable pub http_error : ℕ → Bytes → Response
http_error status message = record {
  status = status;
  content_type = some (codes "text/plain; charset=utf-8");
  body = message ++ codes "\n";
}

abbrev pub empty_response : Response
empty_response = record { status = 200; content_type = none; body = [] }

abbrev pub tsv_response : Bytes → Response
tsv_response body = record { status = 200; content_type = some tsv_type; body = body }

-- A cell of the answer: NULL is \N, and bytes are copied.
unfoldable pub tsv_cell : Value → Bytes
unfolding sprint_value
tsv_cell null = codes "\\N"
tsv_cell (raw s) = s
tsv_cell v = sprint_value v

unfoldable pub tsv_line : List Bytes → Bytes
unfolding join
tsv_line cells = join cells (codes "\t") ++ codes "\n"

-- The lines of the rows. `rows.Err` is not looked at: the rows end where the iteration ends.
unfoldable pub tsv_rows : List (List Value) → Bytes
unfolding tsv_line tsv_cell
tsv_rows [] = []
tsv_rows (row ∷ rows) = tsv_line (map tsv_cell row) ++ tsv_rows rows

-- The names of the columns, then the rows.
unfoldable pub tsv_table : Rows → Bytes
unfolding tsv_line tsv_rows
tsv_table r = tsv_line (map (λ c. c.0) r.columns) ++ tsv_rows r.rows

unfoldable pub system_tables_columns : List Bytes
system_tables_columns =
    codes "database"
    ∷ codes "name"
    ∷ codes "engine"
    ∷ codes "is_temporary"
    ∷ codes "data_paths"
    ∷ codes "metadata_path"
    ∷ codes "metadata_modification_time"
    ∷ codes "metadata_version"
    ∷ codes "storage_policy"
    ∷ codes "delayed_insert_threads"
    ∷ codes "parts"
    ∷ codes "active_parts"
    ∷ codes "total_marks"
    ∷ codes "total_rows"
    ∷ codes "total_bytes"
    ∷ codes "lifetime_rows"
    ∷ codes "lifetime_bytes"
    ∷ []

unfoldable pub system_columns_columns : List Bytes
system_columns_columns =
    codes "database"
    ∷ codes "table"
    ∷ codes "name"
    ∷ codes "type"
    ∷ codes "default_expression"
    ∷ codes "comment"
    ∷ codes "codec_expression"
    ∷ codes "default_type"
    ∷ []

abbrev pub system_tables_query : Bytes
system_tables_query =
    codes
      "\n\t\tSELECT table_name as name, 'MergeTree' as engine\n\t\tFROM information_schema.tables\n\t\tWHERE table_schema = DATABASE() AND table_type = 'BASE TABLE'\n\t"

abbrev pub system_columns_query : Bytes
system_columns_query =
    codes
      "\n\t\tSELECT table_name, column_name, column_type, is_nullable, column_default\n\t\tFROM information_schema.columns\n\t\tWHERE table_schema = DATABASE()\n\t\tORDER BY table_name, ordinal_position\n\t"

-- The line of a table, from its name and engine.
unfoldable pub system_table_line : List Bytes → Bytes
system_table_line (name ∷ engine ∷ _) =
    codes "default\t"
    ++ (name ++ (codes "\t" ++ (engine ++ codes "\t0\t\t\t\t\t\t0\t0\t0\t0\t0\t0\t0\t\t\t\t\n")))
system_table_line _ = []

-- The line of a column, from its table, name and type.
unfoldable pub system_column_line : List Bytes → Bytes
unfolding mysql_to_ch_type
system_column_line (table ∷ name ∷ col_type ∷ _) =
    codes "default\t"
    ++ (table
        ++ (codes "\t"
            ++ (name ++ (codes "\t" ++ (mysql_to_ch_type col_type ++ codes "\t\t\t\t\n")))))
system_column_line _ = []

-- `strings.Builder` over the lines of the rows.
unfoldable pub lines_of : (List Bytes → Bytes) → ℕ → List (List Value) → Bytes
unfolding scan_texts
lines_of line n [] = []
lines_of line n (row ∷ rows) = line (scan_texts n row) ++ lines_of line n rows

module _ (services : ChServices) where
  open services use {pool, exec, query as query_db}

  unfoldable pub get_system_tables : Action pool.Db Bytes
  unfolding tsv_line lines_of system_table_line system_tables_columns
  get_system_tables =
      handling (query_db system_tables_query) (λ e. return [])
        (λ r. return (tsv_line system_tables_columns ++ lines_of system_table_line 2 r.rows))

  unfoldable pub get_system_columns : Action pool.Db Bytes
  unfolding tsv_line lines_of system_column_line system_columns_columns
  get_system_columns =
      handling (query_db system_columns_query) (λ e. return [])
        (λ r. return (tsv_line system_columns_columns ++ lines_of system_column_line 3 r.rows))

  abbrev pub yes_or_no : Bool → Bytes
  yes_or_no b = if b then codes "1\n" else codes "0\n"

  -- `handleSystemQuery`: the empty text says that the query is not one of them.
  unfoldable pub handle_system_query : Bytes → Action pool.Db Bytes
  unfolding to_upper trim_space has_prefix contains equal
  handle_system_query q =
      let upper = to_upper (trim_space q) in
      if contains upper (codes "VERSION()")
      then return (codes "24.8.5.115\n")
      else if contains upper (codes "CURRENTUSER()") || contains upper (codes "CURRENT_USER()")
      then return (codes "default\n")
      else if contains upper (codes "DATABASE()") && not (contains upper (codes "SYSTEM"))
      then return (codes "default\n")
      else if equal upper (codes "SHOW TABLES") || equal upper (codes "SHOW TABLES FROM default")
      then get_table_list services
      else if equal upper (codes "SHOW DATABASES")
      then return (codes "default\ninformation_schema\n")
      else if contains upper (codes "SYSTEM.TABLES")
      then get_system_tables
      else if contains upper (codes "SYSTEM.COLUMNS")
      then get_system_columns
      else if has_prefix upper (codes "EXISTS")
      then exists_table services q >>= (λ b. return (yes_or_no b))
      else return []

  -- A call of the pool, in the state of the server: its write buffer and the database.
  abbrev pub on_db : {A : Type 0} → Action pool.Db A → Action (WriteBuffer × pool.Db) A
  on_db m (wb, d) = let (r, d') = m d in (r, (wb, d'))

  abbrev pub failure : Error → Action (WriteBuffer × pool.Db) Response
  failure e = return (http_error 500 (error_text e))

  -- A translated statement: inserts go to the write buffer, other writes and queries to MySQL.
  unfoldable pub run_translated : Bytes → Action (WriteBuffer × pool.Db) Response
  unfolding is_write_query to_upper has_prefix http_error
  run_translated translated =
      if is_write_query translated
      then (if has_prefix (to_upper translated) (codes "INSERT")
          then (λ s. (ok empty_response, enqueue pool translated s))
          else handling (on_db (exec translated)) failure (λ n.
            return
              (record { status = 200; content_type = none; body = format_int n ++ codes "\n" })))
      else handling (on_db (query_db translated)) failure (λ r. return (tsv_response (tsv_table r)))

  unfoldable pub answer_query : Bytes → Action (WriteBuffer × pool.Db) Response
  unfolding trim_space equal http_error
  answer_query text =
      let q = trim_space text in
      if equal q []
      then return empty_response
      else on_db (handle_system_query q) >>= (λ resp.
        if equal resp []
        then handling (λ s. (translate q, s)) failure run_translated
        else return (tsv_response resp))

  -- `handleRequest`.
  unfoldable pub handle_request : Request → Action (WriteBuffer × pool.Db) Response
  unfolding equal http_error
  handle_request r =
      if equal r.query []
      then elim r.body [
        | none ↦ answer_query []
        | some (ok body) ↦ answer_query body
        | some (err e) ↦ return (http_error 400 (error_text e))
        | some panicked ↦ (λ s. (panicked, s))
      ]
      else answer_query r.query
