-- ===== src/Catalog/Rectangular.antt =====
-- Every answer of the catalog is a table: its rows have as many values as there are names of columns.
use agentx_proxy.Prelude.{
  ℕ, ◌+◌, ◌==◌, arith, Bool, Option, none, some, List, [], ◌∷◌, Bytes, codes, length, if◌then◌else◌,
  ok, err, panicked, failed, Outcome, Action, ◌>>=◌, and_then, return,
}
use agentx_proxy.Prelude.Strings.{to_upper, contains, equal}
use agentx_proxy.Pgwire.Backend.{Value, render}
use agentx_proxy.Arrays.{Arg}
use agentx_proxy.Session.{Rows, scan_texts}
use agentx_proxy.Catalog.{Answer, leading_number}
use agentx_proxy.Catalog.Contents.{
  pg_namespaces, pg_procs, pg_databases, pg_extensions, pg_type_columns, pg_class_columns,
  pg_attribute_columns, pg_namespace_columns, pg_index_columns, pg_proc_columns, pg_enum_columns,
  pg_constraint_columns, pg_description_columns, pg_database_columns, pg_extension_columns,
}
use agentx_proxy.Catalog.PgType.{pg_type_rows, pg_enum_rows}
use agentx_proxy.Catalog.Relations.{
  class_of, class_rows, count, pg_class_rows, attribute_row, attributes_of, attributes_for,
  pg_attribute_rows, index_row, collect_indexes, pg_index_rows, tables_query, attributes_query,
  indexes_query, count_columns_query, count_keys_query, listed_oids, table_of,
}
use agentx_proxy.Catalog.Dispatch.{handle_catalog_query, table}
use agentx_proxy.Catalog.Shapes.{
  OfWidth, Wide, Rectangular, Result, Gives, Gives-bind, map-Result, Gives-if, map-Wide,
  pg_procs-Wide, pg_type_rows-Wide, pg_enum_rows-Wide, length-scan_texts, length-attribute_row,
  length-index_row, length-class_row,
}

module _ {Db : Type 0} (query_db : Bytes → List Arg → Db → Outcome Rows × Db) where
  class_of-Gives : (oid : ℕ) (t : Bytes) → Gives (OfWidth 29) (class_of query_db oid t)
  unfolding class_of
  class_of-Gives oid t = Gives-bind (OfWidth 29) (count query_db count_columns_query t) _ (λ natts.
      Gives-bind (OfWidth 29) (count query_db count_keys_query t) _
        (λ keys d. length-class_row oid t natts (keys == 1)))

  cons-Gives :
      (n : ℕ) (p : Outcome (List Value) × Db) (m : Action Db (List (List Value)))
      → Result (OfWidth n) p.0
      → Gives (Wide n) m
      → Result (Wide n) (and_then p (λ row. m >>= (λ rest. return (row ∷ rest)))).0
  cons-Gives n (ok row, d) m h g =
      map-Result (Wide n) (Wide n) (m d) (λ rest. row ∷ rest) (g d) (λ rest w. (h, w))
  cons-Gives n (err e, d) m h g = tt
  cons-Gives n (panicked, d) m h g = tt

  class_rows-Gives :
      (oid : ℕ) (rows : List (List Value)) → Gives (Wide 29) (class_rows query_db oid rows)
  unfolding class_rows
  class_rows-Gives oid [] d = tt
  class_rows-Gives oid ([] ∷ rows) d = class_rows-Gives oid rows d
  class_rows-Gives oid ((v ∷ vs) ∷ rows) d =
      named (render v) (class_rows-Gives oid rows) (class_rows-Gives (oid + 1) rows) d
    where
      named :
          (t : Option Bytes)
          → Gives (Wide 29) (class_rows query_db oid rows)
          → Gives (Wide 29) (class_rows query_db (oid + 1) rows)
          → Gives (Wide 29) (elim t as (λ _. Action Db (List (List Value))) [
            | none ↦ class_rows query_db oid rows
            | some name ↦ do
              row ← class_of query_db oid name
              rest ← class_rows query_db (oid + 1) rows
              return (row ∷ rest)
          ])
      named none h k d = h d
      named (some name) h k d =
          cons-Gives 29 (class_of query_db oid name d) (class_rows query_db (oid + 1) rows)
            (class_of-Gives oid name d) k

  pg_class_rows-Gives : Gives (Wide 29) (pg_class_rows query_db)
  unfolding pg_class_rows
  pg_class_rows-Gives =
      Gives-bind (Wide 29) (query_db tables_query []) _ (λ r. class_rows-Gives 16384 r.rows)

  attributes_of-Gives : (oid : ℕ) (t : Bytes) → Gives (Wide 24) (attributes_of query_db oid t)
  unfolding attributes_of
  attributes_of-Gives oid t =
      Gives-if (Wide 24) (equal t []) _ _ (λ d. tt)
        (Gives-bind (Wide 24) (query_db attributes_query (some t ∷ [])) _ (λ r d.
          map-Wide 24 (λ row. attribute_row oid (scan_texts 4 row)) r.rows
            (λ row. length-attribute_row oid (scan_texts 4 row) (length-scan_texts 4 row))))

  attributes_for-Gives : (g : Option (ℕ → Bytes)) → Gives (Wide 24) (attributes_for query_db g)
  attributes_for-Gives none = λ d. tt
  attributes_for-Gives (some groups) = Gives-bind (Wide 24) _ _ (λ r.
      attributes_of-Gives (leading_number (groups 1))
        (table_of (leading_number (groups 1)) 16384 r.rows))

  pg_attribute_rows-Gives : (q : Bytes) → Gives (Wide 24) (pg_attribute_rows query_db q)
  unfolding pg_attribute_rows
  pg_attribute_rows-Gives q = attributes_for-Gives _

  pg_index_rows-Gives : Gives (Wide 20) (pg_index_rows query_db)
  unfolding pg_index_rows
  pg_index_rows-Gives = Gives-bind (Wide 20) (query_db indexes_query []) _ (λ r.
      Gives-bind (Wide 20) (listed_oids query_db) _ (λ oids d.
        map-Wide 20 (λ entry. index_row entry.1) (collect_indexes oids r.rows (30000, []))
          (λ entry. length-index_row entry.1)))

  table-Gives :
      (columns : List Bytes) (m : Action Db (List (List Value)))
      → Gives (Wide (length columns)) m
      → Gives Rectangular (table query_db columns m)
  table-Gives columns m h d =
      map-Result (Wide (length columns)) Rectangular (m d) (λ rs. some (columns, rs)) (h d)
        (λ rs w. w)

  fixed :
      (columns : List Bytes) (rs : List (List Value))
      → Wide (length columns) rs
      → Gives Rectangular (table query_db columns (return rs))
  fixed columns rs w = table-Gives columns (return rs) (λ d. w)

  or_else :
      (b : Bool) (m k : Action Db Answer)
      → Gives Rectangular m
      → Gives Rectangular k
      → Gives Rectangular (if b then m else k)
  or_else = Gives-if Rectangular

  rest :
      (sql : Bytes)
      → Gives Rectangular (
          if contains (to_upper sql) (codes "PG_CONSTRAINT")
          then table query_db pg_constraint_columns (return [])
          else if contains (to_upper sql) (codes "PG_DESCRIPTION")
          then table query_db pg_description_columns (return [])
          else if contains (to_upper sql) (codes "PG_DATABASE")
          then table query_db pg_database_columns (return pg_databases)
          else if contains (to_upper sql) (codes "PG_EXTENSION")
          then table query_db pg_extension_columns (return pg_extensions)
          else if contains (to_upper sql) (codes "INFORMATION_SCHEMA")
          then return none
          else (λ d. (err (failed (codes "unsupported catalog query")), d)))
  unfolding pg_database_columns pg_extension_columns pg_databases pg_extensions
  rest sql =
      or_else (contains (to_upper sql) (codes "PG_CONSTRAINT")) _ _
        (fixed pg_constraint_columns [] tt)
        (or_else (contains (to_upper sql) (codes "PG_DESCRIPTION")) _ _
          (fixed pg_description_columns [] tt)
          (or_else (contains (to_upper sql) (codes "PG_DATABASE")) _ _
            (fixed pg_database_columns pg_databases (search arith))
            (or_else (contains (to_upper sql) (codes "PG_EXTENSION")) _ _
              (fixed pg_extension_columns pg_extensions (search arith))
              (or_else (contains (to_upper sql) (codes "INFORMATION_SCHEMA")) _ _ (λ d. tt)
                (λ d. tt)))))

  -- Whatever MySQL answers, the rows of an answer of the catalog have as many values as there are
  -- names of columns.
  pub handle_catalog_query-Rectangular :
      (sql : Bytes) (d : Db) → Result Rectangular (handle_catalog_query query_db sql d).0
  unfolding handle_catalog_query pg_type_columns pg_class_columns pg_attribute_columns
      pg_namespace_columns pg_index_columns pg_proc_columns pg_enum_columns pg_database_columns
      pg_extension_columns pg_namespaces pg_databases pg_extensions
  handle_catalog_query-Rectangular sql =
      or_else (contains (to_upper sql) (codes "PG_TYPE")) _ _
        (fixed pg_type_columns (pg_type_rows sql) (pg_type_rows-Wide sql))
        (or_else (contains (to_upper sql) (codes "PG_CLASS")) _ _
          (table-Gives pg_class_columns (pg_class_rows query_db) pg_class_rows-Gives)
          (or_else (contains (to_upper sql) (codes "PG_ATTRIBUTE")) _ _
            (table-Gives pg_attribute_columns (pg_attribute_rows query_db sql)
              (pg_attribute_rows-Gives sql))
            (or_else (contains (to_upper sql) (codes "PG_NAMESPACE")) _ _
              (fixed pg_namespace_columns pg_namespaces (search arith))
              (or_else (contains (to_upper sql) (codes "PG_INDEX")) _ _
                (table-Gives pg_index_columns (pg_index_rows query_db) pg_index_rows-Gives)
                (or_else (contains (to_upper sql) (codes "PG_PROC")) _ _
                  (fixed pg_proc_columns pg_procs pg_procs-Wide)
                  (or_else (contains (to_upper sql) (codes "PG_ENUM")) _ _
                    (fixed pg_enum_columns (pg_enum_rows sql) (pg_enum_rows-Wide sql))
                    (rest sql)))))))
