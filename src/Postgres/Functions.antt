-- ===== src/Postgres/Functions.antt =====
-- internal/proxy/postgresql/translator.go: the functions of PostgreSQL that MySQL has under another name
-- or writes in another way.
use agentx_proxy.Prelude.{ℕ, List, [], ◌∷◌, ◌++◌, Bytes, codes, if◌then◌else◌}
use agentx_proxy.Prelude.Strings.{to_lower, equal}
use agentx_proxy.Regex.Replace.{replace_in_turn, replace_groups, replace_function}

abbrev between : Bytes → Bytes → Bytes → Bytes
between before text after = before ++ (text ++ after)

-- The text for a unit and a column.
unfoldable pub truncated : Bytes → Bytes → Bytes
unfolding equal
truncated unit col =
    if equal unit (codes "second")
    then between (codes "DATE_FORMAT(") col (codes ", '%Y-%m-%d %H:%i:%s')")
    else if equal unit (codes "minute")
    then between (codes "DATE_FORMAT(") col (codes ", '%Y-%m-%d %H:%i:00')")
    else if equal unit (codes "hour")
    then between (codes "DATE_FORMAT(") col (codes ", '%Y-%m-%d %H:00:00')")
    else if equal unit (codes "day")
    then between (codes "DATE(") col (codes ")")
    else if equal unit (codes "week")
    then between (codes "DATE_SUB(") col
        (between (codes ", INTERVAL WEEKDAY(") col (codes ") DAY)"))
    else if equal unit (codes "month")
    then between (codes "DATE_FORMAT(") col (codes ", '%Y-%m-01')")
    else if equal unit (codes "quarter")
    then between (codes "MAKEDATE(YEAR(") col
        (between (codes "), 1) + INTERVAL (QUARTER(") col (codes ")-1)*3 MONTH"))
    else if equal unit (codes "year")
    then between (codes "MAKEDATE(YEAR(") col (codes "), 1)")
    else between (codes "DATE(") col (codes ")")

unfoldable pub date_trunc_call : (ℕ → Bytes) → Bytes
unfolding truncated to_lower
date_trunc_call g = truncated (to_lower (g 1)) (g 2)

abbrev pub date_trunc_pattern : Bytes
date_trunc_pattern = codes "(?i)date_trunc\\s*\\(\\s*'(\\w+)'\\s*,\\s*([^)]+)\\s*\\)"

-- `translateDateTrunc`
unfoldable pub translate_date_trunc : Bytes → Bytes
unfolding replace_groups date_trunc_call
translate_date_trunc s = replace_groups date_trunc_pattern date_trunc_call s

unfoldable pub translate_extract_epoch_rules : List (Bytes × Bytes)
translate_extract_epoch_rules =
    (codes "(?i)EXTRACT\\s*\\(\\s*EPOCH\\s+FROM\\s+([^)]+)\\s*\\)", codes "UNIX_TIMESTAMP($1)") ∷ []

-- `translateExtractEpoch`
unfoldable pub translate_extract_epoch : Bytes → Bytes
unfolding replace_in_turn translate_extract_epoch_rules
translate_extract_epoch s = replace_in_turn translate_extract_epoch_rules s

unfoldable pub translate_interval_arith_rules : List (Bytes × Bytes)
translate_interval_arith_rules =
    (codes "INTERVAL\\s+'(\\d+)'\\s+(\\w+)", codes "INTERVAL $1 $2") ∷ []

-- `translateIntervalArith`
unfoldable pub translate_interval_arith : Bytes → Bytes
unfolding replace_in_turn translate_interval_arith_rules
translate_interval_arith s = replace_in_turn translate_interval_arith_rules s

unfoldable pub translate_jsonb_functions_rules : List (Bytes × Bytes)
translate_jsonb_functions_rules =
    (codes "(?i)jsonb_set\\s*\\(", codes "JSON_SET(")
    ∷ (codes "(?i)jsonb_agg\\s*\\(", codes "JSON_ARRAYAGG(")
    ∷ (codes "(?i)jsonb_object_agg\\s*\\(", codes "JSON_OBJECTAGG(")
    ∷ (codes "(?i)jsonb_build_object\\s*\\(", codes "JSON_OBJECT(")
    ∷ (codes "(?i)jsonb_build_array\\s*\\(", codes "JSON_ARRAY(")
    ∷ (codes "(?i)jsonb_array_length\\s*\\(", codes "JSON_LENGTH(")
    ∷ (codes "(?i)jsonb_typeof\\s*\\(", codes "JSON_TYPE(")
    ∷ (
      codes "(?i)jsonb_array_elements\\s*\\(([^)]+)\\)",
      codes "JSON_TABLE($1, '$[*]' COLUMNS (value TEXT PATH '$'))",
    )
    ∷ (codes "(\\w+)\\s*->>\\s*'([^']+)'", codes "JSON_UNQUOTE(JSON_EXTRACT($1, '$.$2'))")
    ∷ (codes "(\\w+)\\s*->\\s*'([^']+)'", codes "JSON_EXTRACT($1, '$.$2')")
    ∷ []

-- `translateJSONBFunctions`
unfoldable pub translate_jsonb_functions : Bytes → Bytes
unfolding replace_in_turn translate_jsonb_functions_rules
translate_jsonb_functions s = replace_in_turn translate_jsonb_functions_rules s

unfoldable pub translate_array_functions_rules : List (Bytes × Bytes)
translate_array_functions_rules =
    (codes "(?i)'([^']*)'\\s*=\\s*ANY\\s*\\((\\w+)\\)", codes "JSON_CONTAINS($2, '\"$1\"')")
    ∷ (codes "(?i)(\\w+)\\s*&&\\s*(\\$\\d+)", codes "JSON_OVERLAPS($1, $2)")
    ∷ (codes "(?i)cardinality\\s*\\(([^)]+)\\)", codes "JSON_LENGTH($1)")
    ∷ (
      codes "(?i)unnest\\s*\\(([^)]+)\\)",
      codes "JSON_TABLE($1, '$[*]' COLUMNS (value TEXT PATH '$'))",
    )
    ∷ []

-- `translateArrayFunctions`
unfoldable pub translate_array_functions : Bytes → Bytes
unfolding replace_in_turn translate_array_functions_rules
translate_array_functions s = replace_in_turn translate_array_functions_rules s

unfoldable pub like_rules : List (Bytes × Bytes)
like_rules =
    (codes "(?i)plainto_tsquery\\s*\\([^,]*,\\s*'([^']+)'\\)", codes "'%$1%'")
    ∷ (codes "(?i)to_tsvector\\s*\\([^,]*,\\s*([^(),]+)\\)", codes "$1")
    ∷ (codes "(\\w+)\\s*@@\\s+'%([^']+)%'", codes "$1 LIKE '%$2%'")
    ∷ []

unfoldable pub match_against_rules : List (Bytes × Bytes)
match_against_rules =
    (codes "(?i)plainto_tsquery\\s*\\([^,]*,\\s*'([^']+)'\\)", codes "'$1'")
    ∷ (
      codes "(?i)to_tsvector\\s*\\([^,]*,\\s*([^(),]+)\\)\\s*@@\\s*'([^']+)'",
      codes "MATCH($1) AGAINST('$2' IN BOOLEAN MODE)",
    )
    ∷ []

-- `translateToTsVector`; `mode` is the translator's fulltextMode.
unfoldable pub translate_to_ts_vector : Bytes → Bytes → Bytes
unfolding replace_in_turn like_rules match_against_rules equal
translate_to_ts_vector mode s =
    if equal mode (codes "like")
    then replace_in_turn like_rules s
    else replace_in_turn match_against_rules s

unfoldable pub group_concat : (ℕ → Bytes) → Bytes
group_concat g =
    between (codes "GROUP_CONCAT(") (g 1) (between (codes " SEPARATOR '") (g 2) (codes "')"))

abbrev pub string_agg_pattern : Bytes
string_agg_pattern =
    codes "(?i)string_agg\\s*\\(([^,]+),\\s*'([^']*)'\\s*(?:ORDER\\s+BY\\s+[^)]+)?\\)"

-- `translateStringAgg`
unfoldable pub translate_string_agg : Bytes → Bytes
unfolding replace_groups group_concat
translate_string_agg s = replace_groups string_agg_pattern group_concat s

abbrev pub make_interval_pattern : Bytes
make_interval_pattern = codes "(?i)make_interval\\s*\\(([^)]+)\\)"

-- `translateCoalesceInterval`
unfoldable pub translate_coalesce_interval : Bytes → Bytes
unfolding replace_function
translate_coalesce_interval s =
    replace_function make_interval_pattern (λ m. codes "INTERVAL 0 SECOND") s
