-- ===== src/Clickhouse/Dates.antt =====
-- internal/proxy/clickhouse/translator.go: maps, arrays and dates.
use agentx_proxy.Prelude.{ℕ, List, [], ◌∷◌, ◌++◌, Bytes, codes, if◌then◌else◌}
use agentx_proxy.Prelude.Strings.{to_upper, trim_space, equal, replace_all}
use agentx_proxy.Regex.Replace.{replace_in_turn, replace_groups}

unfoldable pub translate_final_rules : List (Bytes × Bytes)
translate_final_rules = (codes "(?i)\\bFINAL\\b", codes "") ∷ []

-- `translateFinal`
unfoldable pub translate_final : Bytes → Bytes
unfolding replace_in_turn translate_final_rules
translate_final s = replace_in_turn translate_final_rules s

unfoldable pub translate_limit_1_by_rules : List (Bytes × Bytes)
translate_limit_1_by_rules = (codes "(?i)\\s*\\bLIMIT\\s+\\d+\\s+BY\\s+[\\w\\s,.`]+", codes "") ∷ []

-- `translateLimit1By`
unfoldable pub translate_limit_1_by : Bytes → Bytes
translate_limit_1_by s = trim_space (replace_in_turn translate_limit_1_by_rules s)

unfoldable pub translate_map_access_rules : List (Bytes × Bytes)
translate_map_access_rules =
    (codes "(\\w+)\\['([^']+)'?\\]", codes "JSON_UNQUOTE(JSON_EXTRACT($1, '$.$2'))")
    ∷ (codes "(\\w+)\\[\"([^\"]+)\"?\\]", codes "JSON_UNQUOTE(JSON_EXTRACT($1, '$.$2'))")
    ∷ []

-- `translateMapAccess`
unfoldable pub translate_map_access : Bytes → Bytes
unfolding replace_in_turn translate_map_access_rules
translate_map_access s = replace_in_turn translate_map_access_rules s

unfoldable pub translate_map_functions_rules : List (Bytes × Bytes)
translate_map_functions_rules =
    (codes "(?i)mapKeys\\s*\\(([^)]+)\\)", codes "JSON_KEYS($1)")
    ∷ (codes "(?i)mapValues\\s*\\(([^)]+)\\)", codes "JSON_EXTRACT($1, '$[*]')")
    ∷ (
      codes "(?i)mapContains\\s*\\(([^,]+),\\s*'([^']+)'\\)",
      codes "JSON_CONTAINS_PATH($1, 'one', '$.$2')",
    )
    ∷ []

-- `translateMapFunctions`
unfoldable pub translate_map_functions : Bytes → Bytes
unfolding replace_in_turn translate_map_functions_rules
translate_map_functions s = replace_in_turn translate_map_functions_rules s

unfoldable pub array_rules : List (Bytes × Bytes)
array_rules =
    (
      codes "(?i)arrayJoin\\s*\\((\\w+)\\)",
      codes "JSON_TABLE($1, '$[*]' COLUMNS (value TEXT PATH '$'))",
    )
    ∷ (
      codes "(?i)arraySum\\s*\\(([^)]+)\\)",
      codes
          "(SELECT SUM(CAST(value AS DECIMAL(65,12))) FROM JSON_TABLE($1, '$[*]' COLUMNS (value TEXT PATH '$')))",
    )
    ∷ (codes "(?i)arrayFilter\\s*\\([^,]+,\\s*(\\w+)\\)", codes "JSON_EXTRACT($1, '$[*]')")
    ∷ (
      codes "(?i)indexOf\\s*\\((\\w+),\\s*([^)]+)\\)",
      codes
          "(SELECT jt.idx FROM JSON_TABLE($1, '$[*]' COLUMNS (idx FOR ORDINALITY, val TEXT PATH '$')) jt WHERE jt.val = $2 LIMIT 1)",
    )
    ∷ (
      codes "(?i)arrayElement\\s*\\((\\w+),\\s*(\\d+)\\)",
      codes "JSON_UNQUOTE(JSON_EXTRACT($1, concat('$[', $2 - 1, ']')))",
    )
    ∷ []

-- An empty array between quotes is kept, any other gets quotes.
abbrev pub placeholder : Bytes
placeholder = 0 ∷ (codes "EMPTY_ARRAY" ++ 0 ∷ [])

unfoldable pub quote_empty_arrays : Bytes → Bytes
quote_empty_arrays s =
    replace_all (replace_all (replace_all s (codes "'[]'") placeholder) (codes "[]") (codes "'[]'"))
      placeholder (codes "'[]'")

-- `translateArrayFunctions`; the array literals at the end are left as they are.
unfoldable pub translate_array_functions : Bytes → Bytes
translate_array_functions s = quote_empty_arrays (replace_in_turn array_rules s)

unfoldable pub start_of_rules : List (Bytes × Bytes)
start_of_rules =
    (codes "(?i)toUnixTimestamp64Milli\\s*\\(([^)]+)\\)", codes "(UNIX_TIMESTAMP($1) * 1000)")
    ∷ (codes "(?i)toUnixTimestamp\\s*\\(([^)]+)\\)", codes "UNIX_TIMESTAMP($1)")
    ∷ (codes "(?i)\\btoDate\\s*\\(([^)]+)\\)", codes "DATE($1)")
    ∷ (codes "(?i)toStartOfHour\\s*\\(([^)]+)\\)", codes "DATE_FORMAT($1, '%Y-%m-%d %H:00:00')")
    ∷ (codes "(?i)toStartOf(?:Day|Date)\\s*\\(([^)]+)\\)", codes "DATE($1)")
    ∷ (codes "(?i)toStartOfMonth\\s*\\(([^)]+)\\)", codes "DATE_FORMAT($1, '%Y-%m-01')")
    ∷ (codes "(?i)toStartOfYear\\s*\\(([^)]+)\\)", codes "MAKEDATE(YEAR($1), 1)")
    ∷ (codes "(?i)toStartOfMinute\\s*\\(([^)]+)\\)", codes "DATE_FORMAT($1, '%Y-%m-%d %H:%i:00')")
    ∷ (
      codes "(?i)toStartOfFiveMinutes\\s*\\(([^)]+)\\)",
      codes
          "DATE_FORMAT($1, CONCAT(DATE_FORMAT($1, '%Y-%m-%d %H:'), LPAD(FLOOR(MINUTE($1)/5)*5, 2, '0'), ':00'))",
    )
    ∷ []

abbrev pub interval_pattern : Bytes
interval_pattern = codes "(?i)toStartOfInterval\\s*\\(([^,]+),\\s*INTERVAL\\s+(\\d+)\\s+(\\w+)\\)"

unfoldable pub start_of_interval : (ℕ → Bytes) → Bytes
unfolding to_upper
start_of_interval g =
    codes "DATE_SUB("
    ++ (g 1
        ++ (codes ", INTERVAL (TIMESTAMPDIFF("
            ++ (to_upper (g 3)
                ++ (codes ", '1970-01-01', "
                    ++ (g 1
                        ++ (codes ") % "
                            ++ (g 2 ++ (codes ") " ++ (to_upper (g 3) ++ codes ")")))))))))

unfoldable pub relative_rules : List (Bytes × Bytes)
relative_rules =
    (codes "(?i)toRelativeSecondNum\\s*\\(([^)]+)\\)", codes "UNIX_TIMESTAMP($1)")
    ∷ (codes "(?i)toRelativeMinuteNum\\s*\\(([^)]+)\\)", codes "UNIX_TIMESTAMP($1) / 60")
    ∷ (codes "(?i)toRelativeHourNum\\s*\\(([^)]+)\\)", codes "UNIX_TIMESTAMP($1) / 3600")
    ∷ (codes "(?i)toRelativeDayNum\\s*\\(([^)]+)\\)", codes "UNIX_TIMESTAMP($1) / 86400")
    ∷ []

unfoldable pub date_difference : (ℕ → Bytes) → Bytes
unfolding to_upper equal
date_difference g =
    let unit = to_upper (g 1) in
    if equal unit (codes "MILLISECOND")
    then codes "TIMESTAMPDIFF(MICROSECOND, " ++ (g 2 ++ (codes ", " ++ (g 3 ++ codes ") / 1000")))
    else codes "TIMESTAMPDIFF("
      ++ (unit ++ (codes ", " ++ (g 2 ++ (codes ", " ++ (g 3 ++ codes ")")))))

unfoldable pub today_rules : List (Bytes × Bytes)
today_rules =
    (codes "(?i)\\btoday\\s*\\(\\)", codes "CURDATE()")
    ∷ (codes "(?i)\\byesterday\\s*\\(\\)", codes "CURDATE() - INTERVAL 1 DAY")
    ∷ []

abbrev pub date_diff_pattern : Bytes
date_diff_pattern = codes "(?i)dateDiff\\s*\\(\\s*'(\\w+)'\\s*,\\s*([^,]+)\\s*,\\s*([^)]+)\\s*\\)"

abbrev pub date_underscore_diff_pattern : Bytes
date_underscore_diff_pattern =
    codes "(?i)date_diff\\s*\\(\\s*'(\\w+)'\\s*,\\s*([^,]+)\\s*,\\s*([^)]+)\\s*\\)"

-- `translateCHDateFunctions`
unfoldable pub translate_ch_date_functions : Bytes → Bytes
translate_ch_date_functions s =
    let starts = replace_in_turn start_of_rules s in
    let intervals = replace_groups interval_pattern start_of_interval starts in
    let relatives = replace_in_turn relative_rules intervals in
    let differences = replace_groups date_diff_pattern date_difference relatives in
    let underscored = replace_groups date_underscore_diff_pattern date_difference differences in
    replace_in_turn today_rules underscored
