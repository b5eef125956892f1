-- ===== src/Catalog/Dispatch.antt =====
-- internal/proxy/postgresql/catalog.go: which queries are for the catalog, which table answers them, and
-- the cache of the types of columns.
use agentx_proxy.Prelude.{
  ℕ, Bool, false, ◌||◌, Option, none, some, List, [], ◌∷◌, Bytes, codes, if◌then◌else◌, failed, ok,
  err, panicked, Outcome, Action, ◌>>=◌, return,
}
use agentx_proxy.Prelude.Strings.{to_upper, to_lower, contains, equal}
use agentx_proxy.Pgwire.Backend.{Value, render}
use agentx_proxy.Arrays.{Arg}
use agentx_proxy.Session.{Rows}
use agentx_proxy.Catalog.{Answer}
use agentx_proxy.Catalog.Contents.{
  pg_type_columns, pg_class_columns, pg_attribute_columns, pg_namespace_columns, pg_index_columns,
  pg_proc_columns, pg_enum_columns, pg_constraint_columns, pg_description_columns,
  pg_database_columns, pg_extension_columns, pg_namespaces, pg_procs, pg_databases, pg_extensions,
}
use agentx_proxy.Catalog.PgType.{pg_type_rows, pg_enum_rows}
use agentx_proxy.Catalog.Relations.{pg_class_rows, pg_attribute_rows, pg_index_rows}

unfoldable pub catalog_names : List Bytes
catalog_names =
    codes "PG_CATALOG"
    ∷ codes "PG_TYPE"
    ∷ codes "PG_CLASS"
    ∷ codes "PG_ATTRIBUTE"
    ∷ codes "PG_NAMESPACE"
    ∷ codes "PG_INDEX"
    ∷ codes "PG_PROC"
    ∷ codes "PG_ENUM"
    ∷ codes "PG_DESCRIPTION"
    ∷ codes "PG_DATABASE"
    ∷ codes "PG_CONSTRAINT"
    ∷ codes "PG_EXTENSION"
    ∷ codes "PG_AM"
    ∷ codes "PG_SETTINGS"
    ∷ codes "PG_OPCLASS"
    ∷ codes "PG_OPERATOR"
    ∷ codes "PG_SECLABEL"
    ∷ codes "PG_TRIGGER"
    ∷ codes "PG_RANGE"
    ∷ []

unfoldable pub mentions : Bytes → List Bytes → Bool
unfolding contains
mentions upper [] = false
mentions upper (n ∷ names) = contains upper n || mentions upper names

-- `IsCatalogQuery`
unfoldable pub is_catalog_query : Bytes → Bool
unfolding mentions catalog_names to_upper
is_catalog_query sql = mentions (to_upper sql) catalog_names

-- The types of MySQL with what stands for them; every other one is a text.
unfoldable pub data_types : List (Bytes × ℕ)
data_types =
    (codes "TINYINT", 21)
    ∷ (codes "SMALLINT", 21)
    ∷ (codes "INT", 23)
    ∷ (codes "INTEGER", 23)
    ∷ (codes "MEDIUMINT", 23)
    ∷ (codes "BIGINT", 20)
    ∷ (codes "FLOAT", 700)
    ∷ (codes "DOUBLE", 701)
    ∷ (codes "DATE", 1082)
    ∷ (codes "TIME", 1083)
    ∷ (codes "JSON", 1009)
    ∷ (codes "BLOB", 17)
    ∷ (codes "TINYBLOB", 17)
    ∷ (codes "MEDIUMBLOB", 17)
    ∷ (codes "LONGBLOB", 17)
    ∷ (codes "BINARY", 17)
    ∷ (codes "VARBINARY", 17)
    ∷ []

unfoldable pub oid_in : List (Bytes × ℕ) → Bytes → ℕ
unfolding equal
oid_in [] t = 25
oid_in ((name, oid) ∷ types) t = if equal name t then oid else oid_in types t

-- `mysqlDataTypeToPGOID`
unfoldable pub mysql_data_type_to_pg_oid : Bytes → ℕ
unfolding oid_in data_types to_upper
mysql_data_type_to_pg_oid dt = oid_in data_types (to_upper dt)

-- The cache, with the last entry first; the key is the table and the column in small letters.
abbrev pub Cache : Type 0
Cache = List ((Bytes × Bytes) × ℕ)

unfoldable pub cached : Bytes → Bytes → Cache → Option ℕ
unfolding equal
cached table col [] = none
cached table col (((t, c), oid) ∷ cache) =
    let rest = cached table col cache in
    if equal t table then (if equal c col then some oid else rest) else rest

module _ {Db : Type 0} (query_db : Bytes → List Arg → Db → Outcome Rows × Db) where
  -- An answer of some rows under these names.
  abbrev pub table : List Bytes → Action Db (List (List Value)) → Action Db Answer
  table columns rows = do rs ← rows; return (some (columns, rs))

  -- `HandleCatalogQuery`
  unfoldable pub handle_catalog_query : Bytes → Action Db Answer
  unfolding to_upper contains
  handle_catalog_query sql =
      let upper = to_upper sql in
      if contains upper (codes "PG_TYPE")
      then table pg_type_columns (return (pg_type_rows sql))
      else if contains upper (codes "PG_CLASS")
      then table pg_class_columns (pg_class_rows query_db)
      else if contains upper (codes "PG_ATTRIBUTE")
      then table pg_attribute_columns (pg_attribute_rows query_db sql)
      else if contains upper (codes "PG_NAMESPACE")
      then table pg_namespace_columns (return pg_namespaces)
      else if contains upper (codes "PG_INDEX")
      then table pg_index_columns (pg_index_rows query_db)
      else if contains upper (codes "PG_PROC")
      then table pg_proc_columns (return pg_procs)
      else if contains upper (codes "PG_ENUM")
      then table pg_enum_columns (return (pg_enum_rows sql))
      else if contains upper (codes "PG_CONSTRAINT")
      then table pg_constraint_columns (return [])
      else if contains upper (codes "PG_DESCRIPTION")
      then table pg_description_columns (return [])
      else if contains upper (codes "PG_DATABASE")
      then table pg_database_columns (return pg_databases)
      else if contains upper (codes "PG_EXTENSION")
      then table pg_extension_columns (return pg_extensions)
      else if contains upper (codes "INFORMATION_SCHEMA")
      then return none
      else (λ d. (err (failed (codes "unsupported catalog query")), d))

  -- The text of the one value of the first row; `none` where there is no row, it is NULL, or MySQL gives
  -- an error.
  unfoldable pub type_name : Outcome Rows → Option Bytes
  unfolding render
  type_name (ok r) = elim r.rows as (λ _. Option Bytes) [
    | [] ↦ none
    | row ∷ rows ↦ elim row as (λ _. Option Bytes) [ [] ↦ none | v ∷ vs ↦ render v ]
  ]
  type_name (err e) = none
  type_name panicked = none

  -- `GetColumnPGOID`, zero where MySQL does not say what the column is.
  unfoldable pub get_column_pg_oid : Bytes → Bytes → Cache × Db → ℕ × (Cache × Db)
  unfolding cached to_lower mysql_data_type_to_pg_oid type_name
  get_column_pg_oid table_name col_name (cache, d) =
      let t = to_lower table_name in
      let c = to_lower col_name in
      elim (cached t c cache) as (λ _. ℕ × (Cache × Db)) [
        | some oid ↦ (oid, (cache, d))
        | none ↦
            let (answer, d') =
              query_db
                (codes
                  "SELECT DATA_TYPE FROM information_schema.COLUMNS WHERE TABLE_SCHEMA = DATABASE() AND TABLE_NAME = ? AND COLUMN_NAME = ?")
                (some table_name ∷ some col_name ∷ []) d in
            elim (type_name answer) as (λ _. ℕ × (Cache × Db)) [
              | none ↦ (0, (cache, d'))
              | some dt ↦
                  let oid = mysql_data_type_to_pg_oid dt in (oid, (((t, c), oid) ∷ cache, d'))
            ]
      ]
