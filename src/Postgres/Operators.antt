-- ===== src/Postgres/Operators.antt =====
-- internal/proxy/postgresql/translator.go: casts, operators and tests of PostgreSQL, by patterns and the
-- texts that take the place of their matches.
use agentx_proxy.Prelude.{
  ℕ, ◌-◌, List, [], ◌∷◌, ◌++◌, map, Bytes, codes, if◌then◌else◌, take, length,
}
use agentx_proxy.Prelude.Strings.{to_upper, trim_space, has_prefix, has_suffix, split, join}
use agentx_proxy.Regex.Replace.{replace_in_turn, replace_pattern, replace_groups, replace_function}

unfoldable pub translate_type_casts_rules : List (Bytes × Bytes)
translate_type_casts_rules =
    (codes "::(\"([^\"]+)\"|'([^']+)')", codes "")
    ∷ (codes "::(\\w+)", codes "")
    ∷ (
      codes
          "CAST\\(([^)]+)\\s+AS\\s+(?:text|varchar[^)]*|integer|int|bigint|boolean|timestamp[^)]*|date|numeric[^)]*|uuid)\\)",
      codes "$1",
    )
    ∷ []

-- `translateTypeCasts`
unfoldable pub translate_type_casts : Bytes → Bytes
unfolding replace_in_turn translate_type_casts_rules
translate_type_casts s = replace_in_turn translate_type_casts_rules s

unfoldable pub translate_ilike_rules : List (Bytes × Bytes)
translate_ilike_rules =
    (codes "(?i)\\bNOT\\s+ILIKE\\b", codes "NOT LIKE COLLATE utf8mb4_general_ci")
    ∷ (codes "(?i)\\bILIKE\\b", codes "LIKE COLLATE utf8mb4_general_ci")
    ∷ []

-- `translateILIKE`
unfoldable pub translate_ilike : Bytes → Bytes
unfolding replace_in_turn translate_ilike_rules
translate_ilike s = replace_in_turn translate_ilike_rules s

unfoldable pub translate_limit_null_rules : List (Bytes × Bytes)
translate_limit_null_rules = (codes "(?i)\\s+LIMIT\\s+NULL\\s*$", codes "") ∷ []

-- `translateLimitNull`
unfoldable pub translate_limit_null : Bytes → Bytes
unfolding replace_in_turn translate_limit_null_rules
translate_limit_null s = replace_in_turn translate_limit_null_rules s

unfoldable pub translate_equals_null_rules : List (Bytes × Bytes)
translate_equals_null_rules =
    (codes "(?i)(\\w[\\w.`]*\\s*)=\\s*NULL\\b", codes "${1}IS NULL")
    ∷ (codes "(?i)(\\w[\\w.`]*\\s*)!=\\s*NULL\\b", codes "${1}IS NOT NULL")
    ∷ []

-- `translateEqualsNull`
unfoldable pub translate_equals_null : Bytes → Bytes
unfolding replace_in_turn translate_equals_null_rules
translate_equals_null s = replace_in_turn translate_equals_null_rules s

unfoldable pub translate_any_rules : List (Bytes × Bytes)
translate_any_rules =
    (codes "(?i)(\\w[\\w.\"`]*)\\s*=\\s*ANY\\s*\\(\\s*NULL\\s*\\)", codes "1=0")
    ∷ (codes "(?i)(\\w[\\w.\"`]*)\\s*=\\s*ANY\\s*\\(\\s*\\$(\\d+)\\s*\\)", codes "${1} = ${2}")
    ∷ []

-- `translateAny`
unfoldable pub translate_any : Bytes → Bytes
unfolding replace_in_turn translate_any_rules
translate_any s = replace_in_turn translate_any_rules s

abbrev pub final_pattern : Bytes
final_pattern = codes "(?i)\\bFINAL\\b"

-- `translateFinalKeyword`
unfoldable pub translate_final_keyword : Bytes → Bytes
unfolding replace_pattern
translate_final_keyword s = replace_pattern final_pattern (codes "") s

unfoldable pub translate_map_access_rules : List (Bytes × Bytes)
translate_map_access_rules =
    (codes "(\\w+)\\['([^']+)'\\]", codes "JSON_UNQUOTE(JSON_EXTRACT($1, '$.$2'))")
    ∷ (codes "(\\w+)\\[\"([^\"]+)\"\\]", codes "JSON_UNQUOTE(JSON_EXTRACT($1, '$.$2'))")
    ∷ []

-- `translateMapAccess`
unfoldable pub translate_map_access : Bytes → Bytes
unfolding replace_in_turn translate_map_access_rules
translate_map_access s = replace_in_turn translate_map_access_rules s

abbrev pub dollar_pattern : Bytes
dollar_pattern = codes "\\$\\d+"

-- `translateDollarParams`
unfoldable pub translate_dollar_params : Bytes → Bytes
unfolding replace_pattern
translate_dollar_params s = replace_pattern dollar_pattern (codes "?") s

abbrev pub not_rules : List (Bytes × Bytes)
not_rules = (codes "(?i)!!\\s*(\\w+)", codes "NOT $1") ∷ []

-- A truth value, with the text before it.
unfoldable pub truth_number : Bytes → Bytes
unfolding has_suffix to_upper
truth_number s =
    if has_suffix (to_upper s) (codes "TRUE")
    then take (length s - 4) s ++ codes "1"
    else take (length s - 5) s ++ codes "0"

abbrev pub truth_pattern : Bytes
truth_pattern = codes "(?i)(?:=\\s*|IS\\s+)(true|false)\\b"

-- `translateBoolOperators`
unfoldable pub translate_bool_operators : Bytes → Bytes
unfolding replace_in_turn replace_function truth_number
translate_bool_operators s =
    replace_function truth_pattern truth_number (replace_in_turn not_rules s)

-- The elements of an array, each between quotes; one that has a quote already is left with its spaces.
unfoldable pub quote_array_element : Bytes → Bytes
unfolding trim_space has_prefix
quote_array_element text =
    let p = trim_space text in
    if has_prefix p (codes "'") then text else codes "'" ++ (p ++ codes "'")

unfoldable pub json_call : Bytes → (ℕ → Bytes) → Bytes
unfolding join split quote_array_element
json_call name g =
    name
    ++ (codes "("
        ++ (g 1
            ++ (codes ", '["
                ++ (join (map quote_array_element (split (g 2) b',')) (codes ",") ++ codes "]')"))))

abbrev pub overlap_pattern : Bytes
overlap_pattern = codes "(?i)(\\w+)\\s*&&\\s*ARRAY\\[([^\\]]*)\\]"

abbrev pub containment_pattern : Bytes
containment_pattern = codes "(?i)(\\w+)\\s*@>\\s*ARRAY\\[([^\\]]*)\\]"

-- `translateAnyArray`
unfoldable pub translate_any_array : Bytes → Bytes
unfolding replace_groups json_call
translate_any_array s =
    replace_groups containment_pattern (json_call (codes "JSON_CONTAINS"))
      (replace_groups overlap_pattern (json_call (codes "JSON_OVERLAPS")) s)
