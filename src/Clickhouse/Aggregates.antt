-- ===== src/Clickhouse/Aggregates.antt =====
-- internal/proxy/clickhouse/translator.go: the aggregate functions.
use agentx_proxy.Prelude.{ℕ, List, [], ◌∷◌, ◌++◌, Bytes, codes}
use agentx_proxy.Regex.Replace.{replace_in_turn, replace_groups}

unfoldable pub aggregate_rules : List (Bytes × Bytes)
aggregate_rules =
    (codes "(?i)countIf\\s*\\(([^)]+)\\)", codes "COUNT(CASE WHEN $1 THEN 1 END)")
    ∷ (codes "(?i)count_if\\s*\\(([^)]+)\\)", codes "COUNT(CASE WHEN $1 THEN 1 END)")
    ∷ (codes "(?i)sumIf\\s*\\(([^,]+),\\s*([^)]+)\\)", codes "SUM(CASE WHEN $2 THEN $1 END)")
    ∷ (codes "(?i)avgIf\\s*\\(([^,]+),\\s*([^)]+)\\)", codes "AVG(CASE WHEN $2 THEN $1 END)")
    ∷ (codes "(?i)minIf\\s*\\(([^,]+),\\s*([^)]+)\\)", codes "MIN(CASE WHEN $2 THEN $1 END)")
    ∷ (codes "(?i)maxIf\\s*\\(([^,]+),\\s*([^)]+)\\)", codes "MAX(CASE WHEN $2 THEN $1 END)")
    ∷ (codes "(?i)groupUniqArrayArray\\s*\\(([^)]+)\\)", codes "JSON_ARRAYAGG(DISTINCT $1)")
    ∷ (codes "(?i)groupArray\\s*\\(([^)]+)\\)", codes "JSON_ARRAYAGG($1)")
    ∷ (codes "(?i)groupUniqArray\\s*\\(([^)]+)\\)", codes "JSON_ARRAYAGG(DISTINCT $1)")
    ∷ (codes "(?i)anyLast\\s*\\(([^)]+)\\)", codes "MAX($1)")
    ∷ (codes "(?i)\\bany\\s*\\(([^)]+)\\)", codes "ANY_VALUE($1)")
    ∷ (codes "(?i)uniq\\s*\\(([^)]+)\\)", codes "COUNT(DISTINCT $1)")
    ∷ (codes "(?i)uniqCombined\\s*\\(([^)]+)\\)", codes "COUNT(DISTINCT $1)")
    ∷ (codes "(?i)uniqExact\\s*\\(([^)]+)\\)", codes "COUNT(DISTINCT $1)")
    ∷ (
      codes "(?i)topK\\s*\\((\\d+)\\)\\s*\\(([^)]+)\\)",
      codes "SUBSTRING_INDEX(GROUP_CONCAT(DISTINCT $2 ORDER BY $2 DESC), ',', $1)",
    )
    ∷ (codes "(?i)histogram\\s*\\((\\d+)\\)\\s*\\(([^)]+)\\)", codes "HISTOGRAM($2)")
    ∷ []

unfoldable pub call_of : (ℕ → Bytes) → Bytes
call_of g = g 1 ++ (codes "(" ++ (g 2 ++ codes ")"))

unfoldable pub arg_max_state_rules : List (Bytes × Bytes)
arg_max_state_rules =
    (
      codes "(?i)argMaxState\\s*\\(([^,]+),\\s*([^)]+)\\)",
      codes "SUBSTRING_INDEX(GROUP_CONCAT(CONCAT($1, '|', $2) ORDER BY $2 DESC), '|', 1)",
    )
    ∷ []

unfoldable pub arg_max : (ℕ → Bytes) → Bytes
arg_max g =
    codes "SUBSTRING_INDEX(GROUP_CONCAT(CONCAT("
    ++ (g 1
        ++ (codes ", '|', " ++ (g 2 ++ (codes ") ORDER BY " ++ (g 2 ++ codes " DESC), '|', 1)")))))

unfoldable pub merge_rules : List (Bytes × Bytes)
merge_rules =
    (codes "(?i)sumMap\\s*\\(([^)]+)\\)", codes "$1")
    ∷ (codes "(?i)maxMap\\s*\\(([^)]+)\\)", codes "$1")
    ∷ (codes "(?i)(\\w+)Merge\\s*\\(([^)]+)\\)", codes "$1($2)")
    ∷ (codes "(?i)(\\w+)MergeState\\s*\\(([^)]+)\\)", codes "$1($2)")
    ∷ []

abbrev pub simple_aggregate_pattern : Bytes
simple_aggregate_pattern = codes "(?i)SimpleAggregateFunction\\((\\w+),\\s*([^)]+)\\)"

abbrev pub aggregate_pattern : Bytes
aggregate_pattern = codes "(?i)AggregateFunction\\((\\w+),\\s*([^)]+)\\)"

abbrev pub arg_max_pattern : Bytes
arg_max_pattern = codes "(?i)argMax\\s*\\(([^,]+),\\s*([^)]+)\\)"

-- `translateCHAggregateFunctions`
unfoldable pub translate_ch_aggregate_functions : Bytes → Bytes
translate_ch_aggregate_functions s =
    let aggregates = replace_in_turn aggregate_rules s in
    let simple = replace_groups simple_aggregate_pattern call_of aggregates in
    let functions = replace_groups aggregate_pattern call_of simple in
    let states = replace_in_turn arg_max_state_rules functions in
    let maxima = replace_groups arg_max_pattern arg_max states in replace_in_turn merge_rules maxima
