-- ===== src/Clickhouse/Translator.antt =====
-- internal/proxy/clickhouse/translator.go: the rewriting of ClickHouse SQL into that of MySQL, by patterns
-- and the texts that take the place of their matches.
pub mod Plain
mod Tests
use agentx_proxy.Prelude.{
  ℕ, Bool, true, false, not, ◌&&◌, List, [], ◌∷◌, ◌++◌, map, Bytes, codes, if◌then◌else◌, Outcome,
  ok,
}
use agentx_proxy.Prelude.Strings.{to_lower, trim_space, has_prefix, equal, split, join}
use agentx_proxy.Regex.Replace.{replace_in_turn, replace_groups}
use agentx_proxy.Clickhouse.Dates.{
  translate_final, translate_limit_1_by, translate_map_access, translate_map_functions,
  translate_array_functions, translate_ch_date_functions,
}
use agentx_proxy.Clickhouse.Aggregates.{translate_ch_aggregate_functions}

unfoldable pub translate_tuple_rules : List (Bytes × Bytes)
translate_tuple_rules = (codes "(?i)\\btuple\\s*\\(([^)]+)\\)", codes "JSON_OBJECT($1)") ∷ []

-- `translateTuple`
unfoldable pub translate_tuple : Bytes → Bytes
unfolding replace_in_turn translate_tuple_rules
translate_tuple s = replace_in_turn translate_tuple_rules s

unfoldable pub overlaps : (ℕ → Bytes) → Bytes
overlaps g = codes "JSON_OVERLAPS(" ++ (g 1 ++ (codes ", '[" ++ (g 2 ++ codes "]')")))

unfoldable pub contains_all : (ℕ → Bytes) → Bytes
unfolding split join trim_space
contains_all g =
    codes "("
    ++ (join
          (map (λ e. codes "JSON_CONTAINS(" ++ (g 1 ++ (codes ", " ++ (trim_space e ++ codes ")"))))
            (split (g 2) b','))
          (codes " AND ")
        ++ codes ")")

unfoldable pub has_rules : List (Bytes × Bytes)
has_rules =
    (codes "(?i)\\bhas\\s*\\(([\\w.]+),\\s*([^)]+)\\)", codes "JSON_CONTAINS($1, $2)")
    ∷ (codes "(?i)\\bempty\\s*\\(([\\w.]+)\\)", codes "(JSON_LENGTH($1) = 0)")
    ∷ (codes "(?i)\\bnotEmpty\\s*\\(([\\w.]+)\\)", codes "(JSON_LENGTH($1) > 0)")
    ∷ []

abbrev pub has_any_pattern : Bytes
has_any_pattern = codes "(?i)hasAny\\s*\\(([\\w.]+),\\s*\\[([^\\]]*)\\]\\)"

abbrev pub has_all_pattern : Bytes
has_all_pattern = codes "(?i)hasAll\\s*\\(([\\w.]+),\\s*\\[([^\\]]*)\\]\\)"

-- `translateHasFunctions`
unfoldable pub translate_has_functions : Bytes → Bytes
translate_has_functions s =
    let any = replace_groups has_any_pattern overlaps s in
    let all = replace_groups has_all_pattern contains_all any in replace_in_turn has_rules all

unfoldable pub translate_ch_parameters_rules : List (Bytes × Bytes)
translate_ch_parameters_rules =
    (codes "\\{(\\w+):\\s*\\w+(?:\\([^)]*\\))?(?:\\?)?\\}", codes "?") ∷ []

-- `translateCHParameters`
unfoldable pub translate_ch_parameters : Bytes → Bytes
unfolding replace_in_turn translate_ch_parameters_rules
translate_ch_parameters s = replace_in_turn translate_ch_parameters_rules s

unfoldable pub translate_cast_rules : List (Bytes × Bytes)
translate_cast_rules =
    (codes "(?i)CAST\\((.+?)\\s+AS\\s+DateTime64\\(\\d+\\)\\)", codes "CAST($1 AS DATETIME(3))")
    ∷ (codes "(\\w+|'[^']*')::DateTime64\\(\\d+\\)", codes "CAST($1 AS DATETIME(3))")
    ∷ (codes "(\\w+)::String", codes "$1")
    ∷ (codes "(\\w+)::Float64", codes "CAST($1 AS DECIMAL(65,12))")
    ∷ (codes "(.+?)::Decimal64\\(\\d+\\)", codes "CAST($1 AS DECIMAL(65,12))")
    ∷ []

-- `translateCast`
unfoldable pub translate_cast : Bytes → Bytes
unfolding replace_in_turn translate_cast_rules
translate_cast s = replace_in_turn translate_cast_rules s

unfoldable pub translate_to_unix_timestamp_64_rules : List (Bytes × Bytes)
translate_to_unix_timestamp_64_rules =
    (codes "(?i)toUnixTimestamp64Nano\\s*\\(([^)]+)\\)", codes "(UNIX_TIMESTAMP($1) * 1000000000)")
    ∷ []

-- `translateToUnixTimestamp64`
unfoldable pub translate_to_unix_timestamp_64 : Bytes → Bytes
unfolding replace_in_turn translate_to_unix_timestamp_64_rules
translate_to_unix_timestamp_64 s = replace_in_turn translate_to_unix_timestamp_64_rules s

-- `mysqlReservedWords`
unfoldable pub mysql_reserved_words : List Bytes
mysql_reserved_words =
    codes "release"
    ∷ codes "system"
    ∷ codes "groups"
    ∷ codes "status"
    ∷ codes "key"
    ∷ codes "value"
    ∷ codes "order"
    ∷ codes "group"
    ∷ codes "select"
    ∷ codes "from"
    ∷ codes "where"
    ∷ codes "having"
    ∷ codes "limit"
    ∷ codes "offset"
    ∷ codes "as"
    ∷ codes "on"
    ∷ codes "set"
    ∷ codes "into"
    ∷ codes "values"
    ∷ codes "update"
    ∷ codes "delete"
    ∷ codes "create"
    ∷ codes "drop"
    ∷ codes "alter"
    ∷ codes "index"
    ∷ codes "table"
    ∷ codes "column"
    ∷ codes "default"
    ∷ codes "null"
    ∷ codes "primary"
    ∷ codes "unique"
    ∷ codes "foreign"
    ∷ codes "references"
    ∷ codes "check"
    ∷ codes "constraint"
    ∷ codes "between"
    ∷ codes "like"
    ∷ codes "in"
    ∷ codes "is"
    ∷ codes "not"
    ∷ codes "and"
    ∷ codes "or"
    ∷ codes "exists"
    ∷ codes "case"
    ∷ codes "when"
    ∷ codes "then"
    ∷ codes "else"
    ∷ codes "end"
    ∷ codes "join"
    ∷ codes "inner"
    ∷ codes "left"
    ∷ codes "right"
    ∷ codes "outer"
    ∷ codes "cross"
    ∷ codes "natural"
    ∷ codes "using"
    ∷ codes "union"
    ∷ codes "all"
    ∷ codes "any"
    ∷ codes "some"
    ∷ codes "asc"
    ∷ codes "desc"
    ∷ codes "with"
    ∷ codes "recursive"
    ∷ codes "distinct"
    ∷ codes "if"
    ∷ codes "true"
    ∷ codes "false"
    ∷ codes "read"
    ∷ codes "write"
    ∷ codes "lock"
    ∷ codes "unlock"
    ∷ codes "action"
    ∷ codes "cascade"
    ∷ codes "restrict"
    ∷ codes "begin"
    ∷ codes "commit"
    ∷ codes "rollback"
    ∷ codes "database"
    ∷ codes "schema"
    ∷ codes "user"
    ∷ codes "grant"
    ∷ codes "revoke"
    ∷ codes "flush"
    ∷ codes "process"
    ∷ codes "rows"
    ∷ codes "row_count"
    ∷ []

unfoldable pub is_one_of : List Bytes → Bytes → Bool
unfolding equal
is_one_of [] s = false
is_one_of (w ∷ words) s = let rest = is_one_of words s in if equal w s then true else rest

unfoldable pub quote_reserved : Bytes → Bytes
unfolding trim_space to_lower has_prefix is_one_of mysql_reserved_words
quote_reserved text =
    let col = trim_space text in
    if is_one_of mysql_reserved_words (to_lower col) && not (has_prefix col (codes "`"))
    then codes "`" ++ (col ++ codes "`")
    else col

unfoldable pub quote_columns : (ℕ → Bytes) → Bytes
unfolding split join quote_reserved
quote_columns g = g 1 ++ (join (map quote_reserved (split (g 2) b',')) (codes ", ") ++ g 3)

abbrev pub insert_columns_pattern : Bytes
insert_columns_pattern = codes "(?i)(INSERT\\s+INTO\\s+\\w+\\s*\\()([^)]+)(\\))"

-- `translateReservedWords`
unfoldable pub translate_reserved_words : Bytes → Bytes
unfolding replace_groups quote_columns
translate_reserved_words s = replace_groups insert_columns_pattern quote_columns s

-- `Translate`; `translateInterval` and `translateTTL` change nothing.
unfoldable pub translate : Bytes → Outcome Bytes
translate sql =
    let maps =
      translate_map_functions (translate_map_access (translate_limit_1_by (translate_final sql))) in
    let arrays = translate_array_functions maps in
    let dates = translate_ch_date_functions arrays in
    let aggregates = translate_ch_aggregate_functions dates in
    let has = translate_has_functions (translate_tuple aggregates) in
    let casts = translate_cast (translate_ch_parameters has) in
    ok (translate_reserved_words (translate_to_unix_timestamp_64 casts))
