-- ===== src/MysqlPool.antt =====
-- internal/mysql/pool.go: the calls of the pool, over those of database/sql.
mod Tests
use agentx_proxy.Prelude.{
  ℕ, Bool, true, false, Option, none, some, List, [], ◌∷◌, ◌++◌, Bytes, codes, ltb, if◌then◌else◌,
  Error, failed, ok, err, panicked, Outcome, Action, ◌>>=◌, ◌>>◌, return, handling,
}
use agentx_proxy.Prelude.Strings.{equal_fold}
use agentx_proxy.Arrays.{Arg}
use agentx_proxy.Config.{MysqlConfig}
use agentx_proxy.Pgwire.Backend.{Value, render, format_uint}
use agentx_proxy.Session.{Rows}

-- What the pool uses of the driver: a call has arguments or none. `scan_int` is the reading of a value into
-- an int.
pub record Driver : Type 1 where
  pub Db : Type 0
  pub exec_context : Bytes → Option (List Arg) → Action Db ℕ
  pub query_context : Bytes → Option (List Arg) → Action Db Rows
  pub text_arg : Bytes → Arg
  pub scan_int : Value → Option ℕ

-- `ColumnInfo`
pub record ColumnInfo : Type 0 where
  pub name : Bytes
  pub database_type : Bytes
  pub nullable : Bool

-- The data source name of `NewPool`.
unfoldable pub data_source : MysqlConfig → Bytes
unfolding format_uint
data_source cfg =
    cfg.user
    ++ (codes ":"
        ++ (cfg.password
            ++ (codes "@tcp("
                ++ (cfg.host
                    ++ (codes ":"
                        ++ (format_uint cfg.port
                            ++ (codes ")/"
                                ++ (cfg.database
                                    ++ codes
                                        "?parseTime=true&loc=UTC&multiStatements=true&allowNativePasswords=true&sql_mode=ANSI_QUOTES"))))))))

abbrev given : List Arg → Option (List Arg)
given [] = none
given (a ∷ args) = some (a ∷ args)

abbrev scan_error : Error
scan_error = failed (codes "sql: Scan error")

-- Three texts of a row; a NULL or another number of values is an error.
unfoldable pub column_of : Option Bytes → Option Bytes → Option Bytes → Outcome ColumnInfo
unfolding equal_fold
column_of (some n) (some t) (some u) =
    ok (record { name = n; database_type = t; nullable = equal_fold u (codes "YES") })
column_of _ _ _ = err scan_error

unfoldable pub scan_column : List Value → Outcome ColumnInfo
unfolding render column_of
scan_column (n ∷ t ∷ u ∷ []) = column_of (render n) (render t) (render u)
scan_column _ = err scan_error

-- The columns of the rows, and the error of rows.Err at their end; the first row that cannot be scanned
-- ends the loop.
unfoldable pub scan_columns : Option Error → List (List Value) → Outcome (List ColumnInfo)
unfolding scan_column
scan_columns none [] = ok []
scan_columns (some e) [] = err e
scan_columns failure (row ∷ rows) =
    let rest = scan_columns failure rows in
    elim (scan_column row) as (λ _. Outcome (List ColumnInfo)) [
      | err e ↦ err e
      | panicked ↦ panicked
      | ok c ↦ elim rest as (λ _. Outcome (List ColumnInfo)) [
        | ok cs ↦ ok (c ∷ cs)
        | err e ↦ err e
        | panicked ↦ panicked
      ]
    ]

abbrev columns_of_table : Bytes
columns_of_table =
    codes
      "SELECT COLUMN_NAME, COLUMN_TYPE, IS_NULLABLE\n\t\tFROM information_schema.columns\n\t\tWHERE table_schema = DATABASE() AND table_name = ?\n\t\tORDER BY ORDINAL_POSITION"

abbrev count_of_tables : Bytes
count_of_tables =
    codes
      "SELECT COUNT(*) FROM information_schema.tables WHERE table_schema = DATABASE() AND table_name = ?"

module _ (driver : Driver) where
  open driver use {Db, exec_context, query_context, text_arg, scan_int}

  -- `Exec` and `Query`
  unfoldable pub exec : Bytes → List Arg → Action Db ℕ
  exec query args = exec_context query (given args)

  unfoldable pub query : Bytes → List Arg → Action Db Rows
  query text args = query_context text (given args)

  -- `GetTableColumns`: with an error there are no columns, but for one at the end of the rows, where the
  -- columns that were read come with it; the callers look at the error first.
  unfoldable pub get_table_columns : Bytes → Action Db (List ColumnInfo)
  unfolding scan_columns
  get_table_columns table =
      query columns_of_table (text_arg table ∷ []) >>= (λ r d. (scan_columns r.failure r.rows, d))

  -- `QueryRow` and `Scan` of an int: the first row, of one value.
  unfoldable pub scan_count : Rows → Outcome ℕ
  scan_count r = elim r.rows as (λ _. Outcome ℕ) [
    | [] ↦ elim r.failure as (λ _. Outcome ℕ) [
      | none ↦ err (failed (codes "sql: no rows in result set"))
      | some e ↦ err e
    ]
    | row ∷ rows ↦ elim row as (λ _. Outcome ℕ) [
      | [] ↦ err scan_error
      | v ∷ vs ↦ elim vs as (λ _. Outcome ℕ) [
        | w ∷ ws ↦ err scan_error
        | [] ↦ elim (scan_int v) as (λ _. Outcome ℕ) [ none ↦ err scan_error | some n ↦ ok n ]
      ]
    ]
  ]

  -- `TableExists`
  unfoldable pub table_exists : Bytes → Action Db Bool
  unfolding scan_count
  table_exists table =
      query count_of_tables (text_arg table ∷ [])
      >>= (λ r d. (scan_count r, d))
      >>= (λ n. return (ltb 0 n))
