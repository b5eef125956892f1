-- ===== src/Catalog/Relations.antt =====
-- internal/proxy/postgresql/catalog.go: pg_class, pg_attribute and pg_index, from the tables of MySQL.
use agentx_proxy.Prelude.{
  ℕ, ◌+◌, ◌-◌, ◌^◌, Bool, true, false, Option, none, some, List, [], ◌∷◌, ◌++◌, map, Bytes, codes,
  length, ◌==◌, if◌then◌else◌, Outcome, Action, ◌>>=◌, return, handling,
}
use agentx_proxy.Prelude.Strings.{has_prefix, equal, join}
use agentx_proxy.Prelude.Maps.{lookup, insert}
use agentx_proxy.Pgwire.Backend.{Value, null, text, signed, boolean, render, format_uint}
use agentx_proxy.Arrays.{Arg}
use agentx_proxy.Session.{Rows, scan_texts}
use agentx_proxy.Regex.{find_submatch}
use agentx_proxy.Regex.Pattern.{compile}
use agentx_proxy.Catalog.{leading_number, int16}

-- The value of the row that comes first, as a number; what is no number is zero.
unfoldable pub count_in : List (List Value) → ℕ
unfolding leading_number scan_texts
count_in [] = 0
count_in (row ∷ rows) = elim (scan_texts 1 row) [ [] ↦ 0 | t ∷ ts ↦ leading_number t ]

abbrev pub tables_query : Bytes
tables_query =
    codes
      "\n\t\tSELECT table_name FROM information_schema.tables\n\t\tWHERE table_schema = DATABASE() AND table_type = 'BASE TABLE'\n\t\tORDER BY table_name\n\t"

abbrev pub attributes_query : Bytes
attributes_query =
    codes
      "\n\t\tSELECT column_name, ordinal_position, is_nullable, column_type\n\t\tFROM information_schema.columns\n\t\tWHERE table_schema = DATABASE() AND table_name = ?\n\t\tORDER BY ordinal_position\n\t"

abbrev pub indexes_query : Bytes
indexes_query =
    codes
      "\n\t\tSELECT TABLE_NAME, INDEX_NAME, NON_UNIQUE, COLUMN_NAME, SEQ_IN_INDEX\n\t\tFROM information_schema.statistics\n\t\tWHERE table_schema = DATABASE()\n\t\tORDER BY TABLE_NAME, INDEX_NAME, SEQ_IN_INDEX\n\t"

abbrev pub unordered_tables_query : Bytes
unordered_tables_query =
    codes
      "\n\t\tSELECT table_name FROM information_schema.tables\n\t\tWHERE table_schema = DATABASE() AND table_type = 'BASE TABLE'\n\t"

abbrev pub count_columns_query : Bytes
count_columns_query =
    codes
      "SELECT COUNT(*) FROM information_schema.columns WHERE table_schema = DATABASE() AND table_name = ?"

abbrev pub count_keys_query : Bytes
count_keys_query =
    codes
      "SELECT COUNT(*) FROM information_schema.table_constraints WHERE table_schema = DATABASE() AND table_name = ? AND constraint_type = 'PRIMARY KEY'"

unfoldable pub class_row : ℕ → Bytes → ℕ → Bool → List Value
class_row oid name natts has_pk =
    signed oid
    ∷ text name
    ∷ signed 2200
    ∷ signed 0
    ∷ signed 0
    ∷ signed 0
    ∷ signed 0
    ∷ signed 0
    ∷ signed 0
    ∷ signed 0
    ∷ signed 0
    ∷ signed 0
    ∷ signed 0
    ∷ boolean false
    ∷ boolean false
    ∷ text (codes "p")
    ∷ text (codes "r")
    ∷ signed natts
    ∷ signed 0
    ∷ boolean false
    ∷ boolean has_pk
    ∷ boolean false
    ∷ boolean false
    ∷ boolean false
    ∷ boolean false
    ∷ boolean false
    ∷ boolean true
    ∷ text (codes "d")
    ∷ boolean false
    ∷ []

unfoldable pub attribute_types : List (Bytes × ℕ)
attribute_types =
    (codes "int", 23)
    ∷ (codes "bigint", 20)
    ∷ (codes "smallint", 21)
    ∷ (codes "float", 701)
    ∷ (codes "double", 701)
    ∷ (codes "decimal", 1700)
    ∷ (codes "numeric", 1700)
    ∷ []

unfoldable pub by_prefix : List (Bytes × ℕ) → Bytes → Option ℕ
unfolding has_prefix
by_prefix [] t = none
by_prefix ((p, oid) ∷ cases) t = if has_prefix t p then some oid else by_prefix cases t

-- The type of an attribute, by the type of the column in MySQL.
unfoldable pub attribute_type : Bytes → ℕ
unfolding by_prefix attribute_types has_prefix equal
attribute_type t = elim (by_prefix attribute_types t) as (λ _. ℕ) [
  | some oid ↦ oid
  | none ↦
      if equal t (codes "json")
      then 114
      else if has_prefix t (codes "datetime")
      then 1114
      else if has_prefix t (codes "varchar")
      then 1043
      else if equal t (codes "tinyint(1)")
      then 16
      else 25
]

unfoldable pub attribute_row : ℕ → List Bytes → List Value
unfolding attribute_type leading_number int16 equal
attribute_row oid (name ∷ pos ∷ nullable ∷ col_type ∷ _) =
    signed oid
    ∷ text name
    ∷ signed (attribute_type col_type)
    ∷ signed (2 ^ 64 - 1)
    ∷ signed (2 ^ 64 - 1)
    ∷ signed (int16 (leading_number pos))
    ∷ signed 0
    ∷ signed (2 ^ 64 - 1)
    ∷ signed (2 ^ 64 - 1)
    ∷ boolean false
    ∷ text (codes "x")
    ∷ text (codes "i")
    ∷ boolean (equal nullable (codes "NO"))
    ∷ boolean false
    ∷ boolean false
    ∷ text []
    ∷ text []
    ∷ boolean false
    ∷ boolean true
    ∷ signed 0
    ∷ signed 0
    ∷ null
    ∷ null
    ∷ null
    ∷ []
attribute_row oid _ = []

-- The table with an OID: the tables are numbered in the order of their names.
unfoldable pub table_of : ℕ → ℕ → List (List Value) → Bytes
unfolding scan_texts
table_of oid current [] = []
table_of oid current (row ∷ rows) =
    let rest = table_of oid (current + 1) rows in
    if current == oid then elim (scan_texts 1 row) [ [] ↦ [] | t ∷ ts ↦ t ] else rest

pub record IdxInfo : Type 0 where
  pub oid : ℕ
  pub table_oid : ℕ
  pub cols : List ℕ
  pub unique : Bool
  pub primary : Bool

unfoldable pub index_row : IdxInfo → List Value
unfolding join
index_row idx =
    signed idx.oid
    ∷ signed idx.table_oid
    ∷ signed (length idx.cols)
    ∷ signed (length idx.cols)
    ∷ boolean idx.unique
    ∷ boolean idx.primary
    ∷ boolean false
    ∷ boolean true
    ∷ boolean false
    ∷ boolean true
    ∷ boolean false
    ∷ boolean true
    ∷ boolean true
    ∷ boolean false
    ∷ text (join (map format_uint idx.cols) (codes " "))
    ∷ null
    ∷ null
    ∷ null
    ∷ null
    ∷ null
    ∷ []

-- The OIDs of the tables, from the names that MySQL gives.
unfoldable pub table_oids : ℕ → List (Bytes × ℕ) → List (List Value) → List (Bytes × ℕ)
unfolding scan_texts insert
table_oids current oids [] = oids
table_oids current oids (row ∷ rows) =
    table_oids (current + 1)
      (insert (elim (scan_texts 1 row) as (λ _. Bytes) [ [] ↦ [] | t ∷ ts ↦ t ]) current oids) rows

-- The entry of an index with one more column.
unfoldable pub add_column : ℕ → ℕ → Bool → Bool → ℕ → Option IdxInfo → IdxInfo
add_column oid table_oid unique primary seq none = record {
  oid = oid;
  table_oid = table_oid;
  cols = seq ∷ [];
  unique = unique;
  primary = primary;
}
add_column oid table_oid unique primary seq (some idx) = record idx { cols = idx.cols ++ seq ∷ [] }

abbrev or_zero_oid : Option ℕ → ℕ
or_zero_oid none = 0
or_zero_oid (some oid) = oid

unfoldable pub add_index_row :
    List (Bytes × ℕ) → List Bytes → ℕ × List (Bytes × IdxInfo) → ℕ × List (Bytes × IdxInfo)
unfolding lookup insert leading_number equal add_column
add_index_row oids (table ∷ index ∷ non_unique ∷ col ∷ seq ∷ _) (next, indexes) =
    let key = table ++ (codes "." ++ index) in
    let was = lookup key indexes in
    (
      elim was as (λ _. ℕ) [ none ↦ next + 1 | some idx ↦ next ],
      insert key
          (add_column next (or_zero_oid (lookup table oids)) (leading_number non_unique == 0)
            (equal index (codes "PRIMARY")) (leading_number seq) was)
          indexes,
    )
add_index_row oids _ s = s

-- The indexes, in the order in which they first come; Go lists them in any order.
unfoldable pub collect_indexes :
    List (Bytes × ℕ) → List (List Value) → ℕ × List (Bytes × IdxInfo) → List (Bytes × IdxInfo)
unfolding add_index_row scan_texts
collect_indexes oids [] (next, indexes) = indexes
collect_indexes oids (row ∷ rows) s =
    collect_indexes oids rows (add_index_row oids (scan_texts 5 row) s)

module _ {Db : Type 0} (query_db : Bytes → List Arg → Db → Outcome Rows × Db) where
  -- A count that MySQL gives; zero if it gives an error.
  abbrev pub count : Bytes → Bytes → Action Db ℕ
  count q name =
      handling (query_db q (some name ∷ [])) (λ e. return 0) (λ r. return (count_in r.rows))

  -- The row of a table.
  unfoldable pub class_of : ℕ → Bytes → Action Db (List Value)
  unfolding count_in class_row
  class_of oid name = do
    natts ← count count_columns_query name
    keys ← count count_keys_query name
    return (class_row oid name natts (keys == 1))

  -- The rows of the tables, numbered from `oid`. A name that is NULL is passed over.
  unfoldable pub class_rows : ℕ → List (List Value) → Action Db (List (List Value))
  unfolding render
  class_rows oid [] = return []
  class_rows oid ([] ∷ rows) = class_rows oid rows
  class_rows oid ((v ∷ vs) ∷ rows) = elim (render v) as (λ _. Action Db (List (List Value))) [
    | none ↦ class_rows oid rows
    | some name ↦ do row ← class_of oid name; rest ← class_rows (oid + 1) rows; return (row ∷ rest)
  ]

  -- The rows of `handlePGClass`.
  unfoldable pub pg_class_rows : Action Db (List (List Value))
  unfolding class_rows
  pg_class_rows = do r ← query_db tables_query []; class_rows 16384 r.rows

  unfoldable pub attributes_of : ℕ → Bytes → Action Db (List (List Value))
  unfolding attribute_row scan_texts equal
  attributes_of oid table = if equal table [] then return [] else (do
    r ← query_db attributes_query (some table ∷ [])
    return (map (λ row. attribute_row oid (scan_texts 4 row)) r.rows))

  abbrev pub attributes_for : Option (ℕ → Bytes) → Action Db (List (List Value))
  attributes_for none = return []
  attributes_for (some groups) = do
    r ← query_db tables_query []
    attributes_of (leading_number (groups 1)) (table_of (leading_number (groups 1)) 16384 r.rows)

  -- The rows of `handlePGAttribute`.
  unfoldable pub pg_attribute_rows : Bytes → Action Db (List (List Value))
  unfolding attributes_of table_of find_submatch compile leading_number
  pg_attribute_rows query =
      attributes_for (find_submatch (compile (codes "(?i)attrelid\\s*=\\s*(\\d+)")) query)

  abbrev pub listed_oids : Action Db (List (Bytes × ℕ))
  listed_oids =
      handling (query_db unordered_tables_query []) (λ e. return [])
        (λ t. return (table_oids 16384 [] t.rows))

  -- The rows of `handlePGIndex`.
  unfoldable pub pg_index_rows : Action Db (List (List Value))
  unfolding collect_indexes table_oids index_row
  pg_index_rows = do
    r ← query_db indexes_query []
    oids ← listed_oids
    return (map (λ entry. index_row entry.1) (collect_indexes oids r.rows (30000, [])))
