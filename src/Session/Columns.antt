-- ===== src/Session/Columns.antt =====
-- internal/proxy/postgresql/server.go: the lists of columns in the text of a query. The tests are on
-- ASCII characters, so that a scan of characters is one of bytes.
use agentx_proxy.Prelude.{
  ℕ, ◌+◌, ◌-◌, ◌*◌, ◌%◌, ◌^◌, Bool, true, false, ◌&&◌, ◌||◌, Option, none, some, List, [], ◌∷◌,
  ◌++◌, map, Bytes, codes, length, take, drop, replicate, ltb, leb, ◌==◌, if◌then◌else◌, max,
  Outcome, ok, panicked,
}
use agentx_proxy.Prelude.Strings.{
  to_upper, trim, trim_space, has_prefix, equal, index, last_index, split,
}
use agentx_proxy.Prelude.Maps.{lookup}

-- The depth of parentheses, an `int`, which a closing one takes below zero.
unfoldable pub deeper : ℕ → ℕ
deeper depth = (depth + 1) % 2 ^ 64

unfoldable pub shallower : ℕ → ℕ
shallower depth = (depth + (2 ^ 64 - 1)) % 2 ^ 64

unfoldable pub depth_after : ℕ → ℕ → ℕ
unfolding deeper shallower
depth_after c depth =
    if c == b'(' then deeper depth else if c == b')' then shallower depth else depth

-- The parts between the commas outside parentheses; `cur` is the part that is being read.
unfoldable pub split_top : ℕ → Bytes → Bytes → List Bytes
unfolding depth_after
split_top depth cur [] = cur ∷ []
split_top depth cur (c ∷ s) = elim (c == b',' && depth == 0) [
  | true ↦ cur ∷ split_top depth [] s
  | false ↦ split_top (depth_after c depth) (cur ++ c ∷ []) s
]

unfoldable pub drop_empty_last : List Bytes → List Bytes
drop_empty_last [] = []
drop_empty_last (p ∷ []) = if equal p [] then [] else p ∷ []
drop_empty_last (p ∷ q ∷ ps) = p ∷ drop_empty_last (q ∷ ps)

-- `splitColumnList`, which leaves out a last part that is empty.
unfoldable pub split_column_list : Bytes → List Bytes
unfolding split_top drop_empty_last
split_column_list s = drop_empty_last (split_top 0 [] s)

abbrev is_gap : ℕ → Bool
is_gap c = c == b' ' || (c == b'\n' || c == b'\t')

-- FROM and a blank after it, with at least that blank to come.
abbrev from_here : Bytes → Bool
from_here s =
    has_prefix s (codes "FROM ") || (has_prefix s (codes "FROM\n") || has_prefix s (codes "FROM\t"))

-- `findTopLevelFrom`, from the index `i` on, where the byte before is `prev`; at the start that is
-- taken for a blank.
unfoldable pub find_from : ℕ → ℕ → ℕ → Bytes → Option ℕ
unfolding depth_after has_prefix
find_from depth prev i [] = none
find_from depth prev i (c ∷ s) =
    let rest = find_from (depth_after c depth) c (i + 1) s in
    if ltb 4 (length (c ∷ s))
    then (if depth == 0 && (is_gap prev && from_here (c ∷ s)) then some i else rest)
    else none

unfoldable pub find_top_level_from : Bytes → Option ℕ
unfolding find_from
find_top_level_from upper = find_from 0 b' ' 0 upper

-- `extractColumnName`: the alias, or what comes after the last dot.
unfoldable pub extract_column_name : Bytes → Bytes
unfolding trim_space to_upper last_index
extract_column_name expr =
    let e = trim_space expr in
    elim (last_index (to_upper e) (codes " AS ")) [
      | some i ↦ trim_space (drop (i + 4) e)
      | none ↦ elim (last_index e (codes ".")) [ some i ↦ drop (i + 1) e | none ↦ e ]
    ]

-- The columns of the text between SELECT and FROM; the star stands for all of them.
unfoldable pub select_list : Bytes → Option (List Bytes)
unfolding equal split_top extract_column_name
select_list part =
    if equal part (codes "*") then none else some (map extract_column_name (split_top 0 [] part))

-- `parseSelectColumns`
unfoldable pub parse_select_columns : Bytes → Option (List Bytes)
unfolding to_upper trim_space index find_top_level_from select_list
parse_select_columns query = elim (index (to_upper query) (codes "SELECT ")) [
  | none ↦ none
  | some i ↦
      let after = drop (i + 7) query in
      elim (find_top_level_from (to_upper after)) [
        | none ↦ none
        | some j ↦ select_list (trim_space (take j after))
      ]
]

-- One column of a RETURNING clause: without schema, quotes and alias.
unfoldable pub returning_column : Bytes → Bytes
unfolding trim trim_space to_upper last_index index
returning_column part =
    let p = trim_space part in
    let base : Bytes = elim (last_index p (codes ".")) [ some i ↦ drop (i + 1) p | none ↦ p ] in
    let bare = trim (λ c. c == b'"' || c == b'`') base in
    elim (index (to_upper bare) (codes " AS ")) [ some i ↦ take i bare | none ↦ bare ]

-- `parseReturningColumns`
unfoldable pub parse_returning_columns : Bytes → List Bytes
unfolding split returning_column
parse_returning_columns cols = map returning_column (split cols b',')

-- The columns of a RETURNING clause, where there is one.
abbrev pub returned : Option Bytes → Option (List Bytes)
returned none = none
returned (some cols) = some (parse_returning_columns cols)

abbrev pub is_digit : ℕ → Bool
is_digit c = leb b'0' c && leb c b'9'

-- A dollar sign with a digit after it.
abbrev starts_param : ℕ → Bytes → Bool
starts_param c [] = false
starts_param c (d ∷ s) = c == b'$' && is_digit d

-- `\$\d+` replaced by NULL; `inside` says that the digits of a parameter are being passed.
unfoldable pub substitute_params : Bool → Bytes → Bytes
substitute_params inside [] = []
substitute_params true (c ∷ s) = elim (is_digit c) [
  | true ↦ substitute_params true s
  | false ↦ elim (starts_param c s) [
    | true ↦ codes "NULL" ++ substitute_params true s
    | false ↦ c ∷ substitute_params false s
  ]
]
substitute_params false (c ∷ s) = elim (starts_param c s) [
  | true ↦ codes "NULL" ++ substitute_params true s
  | false ↦ c ∷ substitute_params false s
]

-- What `Sscanf` makes of digits: zero where the number is too large for an `int`.
abbrev pub scanned : ℕ → ℕ
scanned n = if ltb n (2 ^ 63) then n else 0

-- The highest number of a match of `\$(\d+)`; `some n` is the number that is being read.
unfoldable pub highest_param : ℕ → Option ℕ → Bytes → ℕ
highest_param best none [] = best
highest_param best (some n) [] = max best (scanned n)
highest_param best none (c ∷ s) = elim (starts_param c s) [
  | true ↦ highest_param best (some 0) s
  | false ↦ highest_param best none s
]
highest_param best (some n) (c ∷ s) = elim (is_digit c) [
  | true ↦ highest_param best (some (n * 10 + (c - b'0'))) s
  | false ↦ elim (starts_param c s) [
    | true ↦ highest_param (max best (scanned n)) (some 0) s
    | false ↦ highest_param (max best (scanned n)) none s
  ]
]

-- `make([]uint32, n)`, which panics above the longest slice, with what it is filled with.
unfoldable pub make_oids : ℕ → ℕ → List ℕ → Outcome (List ℕ)
make_oids max_oids n oids = if ltb max_oids n then panicked else ok oids

-- `countParams`: the type 0 for each of the parameters.
unfoldable pub count_params : ℕ → Bytes → Outcome (List ℕ)
unfolding highest_param make_oids
count_params max_oids query =
    let n = highest_param 0 none query in make_oids max_oids n (replicate n 0)

-- `catalogColumnOIDs`
unfoldable pub catalog_column_oids : List (Bytes × ℕ)
catalog_column_oids =
    (codes "oid", 23)
    ∷ (codes "typnamespace", 23)
    ∷ (codes "typrelid", 23)
    ∷ (codes "typelem", 23)
    ∷ (codes "typarray", 23)
    ∷ (codes "typbasetype", 23)
    ∷ (codes "typtypmod", 23)
    ∷ (codes "typndims", 23)
    ∷ (codes "typcollation", 23)
    ∷ (codes "relnamespace", 23)
    ∷ (codes "reltype", 23)
    ∷ (codes "reloftype", 23)
    ∷ (codes "relowner", 23)
    ∷ (codes "relam", 23)
    ∷ (codes "relfilenode", 23)
    ∷ (codes "reltablespace", 23)
    ∷ (codes "relpages", 23)
    ∷ (codes "reltuples", 701)
    ∷ (codes "relallvisible", 23)
    ∷ (codes "reltoastrelid", 23)
    ∷ (codes "relnatts", 23)
    ∷ (codes "relchecks", 23)
    ∷ (codes "attrelid", 23)
    ∷ (codes "atttypid", 23)
    ∷ (codes "indexrelid", 23)
    ∷ (codes "indrelid", 23)
    ∷ (codes "indnatts", 23)
    ∷ (codes "indnkeyatts", 23)
    ∷ (codes "pronamespace", 23)
    ∷ (codes "proowner", 23)
    ∷ (codes "prolang", 23)
    ∷ (codes "provariadic", 23)
    ∷ (codes "pronargs", 21)
    ∷ (codes "pronargdefaults", 21)
    ∷ (codes "prorettype", 23)
    ∷ (codes "enumtypid", 23)
    ∷ (codes "connamespace", 23)
    ∷ (codes "conrelid", 23)
    ∷ (codes "contypid", 23)
    ∷ (codes "conindid", 23)
    ∷ (codes "confrelid", 23)
    ∷ (codes "datdba", 23)
    ∷ (codes "extowner", 23)
    ∷ (codes "extnamespace", 23)
    ∷ (codes "typnotnull", 16)
    ∷ (codes "relhasindex", 16)
    ∷ (codes "relisshared", 16)
    ∷ (codes "relhaspkey", 16)
    ∷ (codes "attnotnull", 16)
    ∷ (codes "atthasdef", 16)
    ∷ (codes "indisunique", 16)
    ∷ (codes "indisprimary", 16)
    ∷ (codes "typname", 25)
    ∷ (codes "typtype", 25)
    ∷ (codes "typcategory", 25)
    ∷ (codes "typinput", 25)
    ∷ (codes "typoutput", 25)
    ∷ (codes "typalign", 25)
    ∷ (codes "typstorage", 25)
    ∷ (codes "relname", 25)
    ∷ (codes "relkind", 25)
    ∷ (codes "relpersistence", 25)
    ∷ (codes "attname", 25)
    ∷ (codes "attstorage", 25)
    ∷ (codes "attalign", 25)
    ∷ (codes "indkey", 25)
    ∷ (codes "nspname", 25)
    ∷ (codes "conname", 25)
    ∷ (codes "contype", 25)
    ∷ (codes "proname", 25)
    ∷ (codes "prokind", 25)
    ∷ (codes "enumlabel", 25)
    ∷ (codes "datname", 25)
    ∷ (codes "extname", 25)
    ∷ (codes "extversion", 25)
    ∷ (codes "procost", 701)
    ∷ (codes "prorows", 701)
    ∷ (codes "enumsortorder", 701)
    ∷ []

-- The type of a column of the catalog, zero where the table has none.
unfoldable pub catalog_oid : Bytes → ℕ
unfolding lookup catalog_column_oids
catalog_oid name = elim (lookup name catalog_column_oids) [ none ↦ 0 | some oid ↦ oid ]
