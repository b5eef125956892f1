-- ===== src/Clickhouse.antt =====
-- internal/proxy/clickhouse/http_server.go and system.go: what the two ClickHouse servers share.
-- Clickhouse/Http is the HTTP server, Clickhouse/Native the server of the native protocol.
pub mod Http
pub mod Native
pub mod Dates
pub mod Aggregates
pub mod Translator
pub mod Agreement
pub mod Types
pub mod SystemHandler
pub mod SystemShapes
mod Tests
use agentx_proxy.Prelude.{
  ℕ, zero, suc, ◌-◌, Bool, true, false, ◌||◌, Option, none, some, List, [], ◌∷◌, ◌++◌, map, Bytes,
  codes, length, drop, get_elem?, leb, ◌==◌, if◌then◌else◌, Error, ok, err, Outcome, Action, return,
  handling,
}
use agentx_proxy.Prelude.Strings.{
  to_upper, trim, trim_space, has_prefix, contains, equal, join, fields,
}
use agentx_proxy.Pgwire.Backend.{
  Value, null, raw, text, signed, unsigned, boolean, render, format_uint, format_int,
}
use agentx_proxy.Session.{Rows, scan_texts}
use agentx_proxy.Buffer.{Pool, WriteBuffer}

-- What the servers use of the rest of the proxy: the pool, whose transactions are those of the write
-- buffer, with its results in full.
pub record ChServices : Type 1 where
  pub pool : Pool
  pub exec : Bytes → pool.Db → Outcome ℕ × pool.Db
  pub query : Bytes → pool.Db → Outcome Rows × pool.Db
  pub table_exists : Bytes → pool.Db → Outcome Bool × pool.Db

-- `isWriteQuery` of this package, which has TRUNCATE too.
unfoldable pub is_write_query : Bytes → Bool
unfolding to_upper trim_space has_prefix
is_write_query q =
    let upper = to_upper (trim_space q) in
    has_prefix upper (codes "INSERT")
    || (has_prefix upper (codes "UPDATE")
        || (has_prefix upper (codes "DELETE")
            || (has_prefix upper (codes "CREATE")
                || (has_prefix upper (codes "ALTER")
                    || (has_prefix upper (codes "DROP") || has_prefix upper (codes "TRUNCATE"))))))

-- `mysqlToCHType`: the cases in their order, with those that give `String` at the end left to it.
unfoldable pub type_table : List (Bytes × Bytes)
type_table =
    (codes "tinyint(1)", codes "UInt8")
    ∷ (codes "smallint", codes "Int16")
    ∷ (codes "mediumint", codes "Int24")
    ∷ (codes "bigint", codes "Int64")
    ∷ (codes "int", codes "Int32")
    ∷ (codes "integer", codes "Int32")
    ∷ (codes "decimal", codes "Decimal64(12)")
    ∷ (codes "float", codes "Float32")
    ∷ (codes "double", codes "Float64")
    ∷ (codes "datetime", codes "DateTime64(3)")
    ∷ (codes "date", codes "Date")
    ∷ (codes "json", codes "Map(LowCardinality(String), String)")
    ∷ []

unfoldable pub first_type : List (Bytes × Bytes) → Bytes → Bytes
unfolding contains
first_type [] t = codes "String"
first_type ((part, result) ∷ cases) t = if contains t part then result else first_type cases t

unfoldable pub mysql_to_ch_type : Bytes → Bytes
unfolding first_type type_table
mysql_to_ch_type = first_type type_table

-- `fmt.Sprintf("%v", v)`: a byte slice is printed as the list of its numbers.
unfoldable pub sprint_value : Value → Bytes
unfolding format_uint format_int join
sprint_value null = codes "<nil>"
sprint_value (raw s) = codes "[" ++ (join (map format_uint s) (codes " ") ++ codes "]")
sprint_value (text s) = s
sprint_value (signed n) = format_int n
sprint_value (unsigned n) = format_uint n
sprint_value (Value.float s t) = t
sprint_value (boolean true) = codes "true"
sprint_value (boolean false) = codes "false"
sprint_value (Value.time s t) = s
sprint_value (Value.other s) = s

abbrev pub first_text : List Bytes → Bytes
first_text [] = []
first_text (s ∷ ss) = s

abbrev pub table_list_query : Bytes
table_list_query =
    codes
      "\n\t\tSELECT table_name FROM information_schema.tables\n\t\tWHERE table_schema = DATABASE() AND table_type = 'BASE TABLE'\n\t"

module _ (services : ChServices) where
  open services use {pool, query, table_exists}

  -- The names of the tables, one to a line; an error gives the empty text.
  unfoldable pub get_table_list : Action pool.Db Bytes
  unfolding scan_texts join
  get_table_list =
      handling (query table_list_query) (λ e. return [])
        (λ r.
          return
            (join (map (λ row. first_text (scan_texts 1 row)) r.rows) (codes "\n") ++ codes "\n"))

  abbrev pub last_or_empty : List Bytes → Bytes
  last_or_empty [] = []
  last_or_empty (p ∷ []) = p
  last_or_empty (p ∷ q ∷ ps) = last_or_empty (q ∷ ps)

  -- `EXISTS TABLE name`: does the last word of the query name a table? Errors and shorter queries
  -- say no.
  unfoldable pub exists_table : Bytes → Action pool.Db Bool
  unfolding fields trim
  exists_table q =
      let parts = fields q in
      if leb 3 (length parts)
      then handling (table_exists (trim (λ c. c == b'`') (last_or_empty parts))) (λ e. return false)
          return
      else return false
