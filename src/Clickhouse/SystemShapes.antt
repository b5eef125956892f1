-- ===== src/Clickhouse/SystemShapes.antt =====
-- The answers of the SystemHandler are tables: a row has a value for each column.
use agentx_proxy.Prelude.{
  ℕ, Option, none, some, List, [], ◌∷◌, ◌≡◌, refl, arith, length, length-drop, All, All-append,
  ◌==◌, Bool-cases, inl, inr, ok, err, panicked, Outcome, return, and_then, Bytes,
}
use agentx_proxy.Pgwire.Backend.{Value, render}
use agentx_proxy.Session.{Rows}
use agentx_proxy.Clickhouse.{ChServices}
use agentx_proxy.Clickhouse.SystemHandler.{
  Table, tables_columns, columns_columns, parts_columns, metrics_columns, metrics, tables_row,
  scanned_column, tables_query, columns_query, parts_query, columns_row, parts_row, rows_of,
  query_system_tables, query_system_columns, query_system_parts, query_system_processes,
  query_system_metrics,
}

abbrev pub IsTable : Table → Type 0
IsTable (columns, rows) = All (λ row. length row ≡ length columns) rows

abbrev pub GivesTable : Outcome Table → Type 0
GivesTable (ok t) = IsTable t
GivesTable (err e) = Unit
GivesTable panicked = Unit

abbrev Fits : List Bytes → List (List Value) → Type 0
Fits columns = All (λ row. length row ≡ length columns)

rows_of-Fits :
    (columns : List Bytes) (f : List Value → List (List Value)) (rows : List (List Value))
    → ((row : List Value) → Fits columns (f row))
    → Fits columns (rows_of f rows)
unfolding rows_of
rows_of-Fits columns f [] h = tt
rows_of-Fits columns f (row ∷ rows) h =
    All-append _ (f row) (rows_of f rows) (h row) (rows_of-Fits columns f rows h)

tables_row-Fits : (row : List Value) → Fits tables_columns (tables_row row)
unfolding tables_row
tables_row-Fits row = elim (Bool-cases (length row == length tables_columns)) [
  | inl y ↦ rw (y) (unfold tables_columns in (ground (arith, length-drop 1 row), tt))
  | inr n ↦ rw (n) tt
]

scanned_column-Fits :
    (t n k : Option Bytes) (p : Option ℕ) → Fits columns_columns (scanned_column t n k p)
unfolding scanned_column columns_columns
scanned_column-Fits (some t) (some n) (some k) (some p) = (refl, tt)
scanned_column-Fits none n k p = tt
scanned_column-Fits (some t) none k p = tt
scanned_column-Fits (some t) (some n) none p = tt
scanned_column-Fits (some t) (some n) (some k) none = tt

columns_row-Fits :
    (scan_int : Value → Option ℕ) (row : List Value)
    → Fits columns_columns (columns_row scan_int row)
columns_row-Fits scan_int [] = unfold columns_row in tt
columns_row-Fits scan_int (t ∷ []) = unfold columns_row in tt
columns_row-Fits scan_int (t ∷ n ∷ []) = unfold columns_row in tt
columns_row-Fits scan_int (t ∷ n ∷ k ∷ []) = unfold columns_row in tt
columns_row-Fits scan_int (t ∷ n ∷ k ∷ p ∷ []) =
    unfold columns_row in scanned_column-Fits (render t) (render n) (render k) (scan_int p)
columns_row-Fits scan_int (t ∷ n ∷ k ∷ p ∷ q ∷ row) = unfold columns_row in tt

parts_row-Fits : (row : List Value) → Fits parts_columns (parts_row row)
unfolding parts_row parts_columns
parts_row-Fits row = (refl, tt)

gives :
    {Db : Type 0}
    → (q : Outcome Rows × Db) (columns : List Bytes) (f : List Value → List (List Value))
    → ((row : List Value) → Fits columns (f row))
    → GivesTable (and_then q (λ r. return (columns, rows_of f r.rows))).0
gives (ok r, d) columns f h = rows_of-Fits columns f r.rows h
gives (err e, d) columns f h = tt
gives (panicked, d) columns f h = tt

-- The rows that each of the five queries gives have as many values as there are names of columns, whatever
-- MySQL answers.
pub query_system-IsTable :
    (services : ChServices) (scan_int : Value → Option ℕ) (d : services.pool.Db)
    → GivesTable (query_system_tables services d).0
      × GivesTable (query_system_columns services scan_int d).0
      × GivesTable (query_system_parts services d).0
      × IsTable query_system_processes
      × IsTable query_system_metrics
unfolding query_system_tables query_system_columns query_system_parts query_system_processes
    query_system_metrics metrics metrics_columns
query_system-IsTable services scan_int d = (
  gives (services.query tables_query d) tables_columns tables_row tables_row-Fits,
  gives (services.query columns_query d) columns_columns (columns_row scan_int)
      (columns_row-Fits scan_int),
  gives (services.query parts_query d) parts_columns parts_row parts_row-Fits,
  tt,
  (refl, (refl, (refl, (refl, (refl, tt))))),
)
