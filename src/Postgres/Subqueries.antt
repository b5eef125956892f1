-- ===== src/Postgres/Subqueries.antt =====
-- internal/proxy/postgresql/translator.go: what becomes a query of its own, for series, LIMIT BY and LATERAL.
use agentx_proxy.Prelude.{
  ℕ, zero, suc, ◌+◌, ◌-◌, Option, none, some, List, [], ◌∷◌, ◌++◌, Bytes, codes, drop,
}
use agentx_proxy.Prelude.Strings.{trim_space, index, join}
use agentx_proxy.Pgwire.Backend.{format_uint}
use agentx_proxy.Regex.{Regex, find_submatch, group, match_at}
use agentx_proxy.Regex.Pattern.{compile}
use agentx_proxy.Regex.Replace.{replace_pattern, texts_of}
use agentx_proxy.Regex.Split.{cut_pattern}
use agentx_proxy.Postgres.Statements.{replace_first}

abbrev texts : List Bytes → Bytes
texts ts = join ts []

abbrev step_text : Bytes → Bytes
step_text [] = codes "1"
step_text (c ∷ s) = trim_space (c ∷ s)

unfoldable pub series_query : ℕ → (ℕ → Bytes) → Bytes
unfolding trim_space format_uint join
series_query draw g =
    let name = codes "gs_" ++ format_uint draw in
    let step = step_text (g 3) in
    texts (
      codes "(WITH RECURSIVE "
      ∷ name
      ∷ codes "(n) AS (SELECT "
      ∷ trim_space (g 1)
      ∷ codes " UNION ALL SELECT n + "
      ∷ step
      ∷ codes " FROM "
      ∷ name
      ∷ codes " WHERE n + "
      ∷ step
      ∷ codes " <= "
      ∷ trim_space (g 2)
      ∷ codes ") SELECT n FROM "
      ∷ name
      ∷ codes ")"
      ∷ [])

abbrev pub series_pattern : Bytes
series_pattern =
    codes "(?i)GENERATE_SERIES\\s*\\(\\s*([^,]+)\\s*,\\s*([^,]+)\\s*(?:,\\s*([^)]+)\\s*)?\\)"

-- ReplaceAllStringFunc with a function that draws a number for each match that it finds again: `i` of
-- them are drawn.
unfoldable pub replace_series : (ℕ → ℕ) → ℕ → Regex → ℕ → Option ℕ → ℕ → Bytes → Bytes
unfolding match_at series_query find_submatch
replace_series draws i r skip before passed [] = []
replace_series draws i r (suc skip) before passed (c ∷ s) =
    replace_series draws i r skip (some c) (passed + 1) s
replace_series draws i r zero before passed (c ∷ s) =
    elim (match_at (group 0 r)
        (record { before = before; passed = passed; rest = c ∷ s; groups = [] }) some)
      as (λ _. Bytes) [
        | none ↦ c ∷ replace_series draws i r 0 (some c) (passed + 1) s
        | some t ↦ elim (find_submatch r (texts_of t 0)) as (λ _. Bytes) [
          | none ↦
              texts_of t 0
              ++ replace_series draws i r (t.passed - (passed + 1)) (some c) (passed + 1) s
          | some g ↦
              series_query (draws i) g
              ++ replace_series draws (i + 1) r (t.passed - (passed + 1)) (some c) (passed + 1) s
        ]
      ]

-- `translateGenerateSeries`
unfoldable pub translate_generate_series : (ℕ → ℕ) → Bytes → Bytes
unfolding replace_series compile
translate_generate_series draws s = replace_series draws 0 (compile series_pattern) 0 none 0 s

abbrev pub limit_by_pattern : Bytes
limit_by_pattern = codes "(?i)\\s+LIMIT\\s+(\\d+)\\s+BY\\s+(.+?)\\s*$"

abbrev pub limit_by_any_pattern : Bytes
limit_by_any_pattern = codes "(?i)\\s+LIMIT\\s+\\d+\\s+BY\\s+[^\\s;]+"

-- `translateLimit1By`
unfoldable pub translate_limit_1_by : Bytes → Bytes
unfolding find_submatch compile replace_pattern trim_space join
translate_limit_1_by sql = elim (find_submatch (compile limit_by_pattern) sql) as (λ _. Bytes) [
  | none ↦ replace_pattern limit_by_any_pattern [] sql
  | some g ↦ texts (
      codes "SELECT * FROM (SELECT t.*, ROW_NUMBER() OVER (PARTITION BY "
      ∷ trim_space (g 2)
      ∷ codes ") AS _rn FROM ("
      ∷ replace_pattern limit_by_pattern [] sql
      ∷ codes ") t) _sq WHERE _rn <= "
      ∷ g 1
      ∷ [])
]

abbrev pub keyword_pattern : Bytes
keyword_pattern =
    codes
      "(?i)\\s+(LEFT|RIGHT|INNER|CROSS|JOIN|WHERE|GROUP\\s+BY|ORDER\\s+BY|HAVING|LIMIT|UNION)\\b"

-- What follows the condition of a join: the text behind the keyword that ends it.
unfoldable pub trailing_text : Bytes → Option Bytes → Bytes
unfolding index
trailing_text remainder none = []
trailing_text remainder (some part) = elim (index remainder part) as (λ _. Bytes) [
  | none ↦ []
  | some i ↦ drop i remainder
]

abbrev join_word : Bytes → Bytes
join_word [] = codes "JOIN "
join_word (c ∷ s) = codes "LEFT JOIN "

abbrev pub lateral_pattern : Bytes
lateral_pattern = codes "(?i)(LEFT\\s+)?JOIN\\s+LATERAL\\s+\\((.+?)\\)\\s+(\\w+)\\s+ON\\s+(.+)"

-- `translateLateralJoin`
unfoldable pub translate_lateral_join : Bytes → Bytes
unfolding find_submatch compile cut_pattern trailing_text trim_space replace_first join
translate_lateral_join sql = elim (find_submatch (compile lateral_pattern) sql) as (λ _. Bytes) [
  | none ↦ sql
  | some g ↦
      let (on_clause, part) = cut_pattern keyword_pattern (g 4) in
      replace_first sql (g 0) (
        texts (
          join_word (g 1)
          ∷ codes "("
          ∷ g 2
          ∷ codes " ORDER BY 1 LIMIT 1) AS "
          ∷ g 3
          ∷ codes " ON "
          ∷ trim_space on_clause
          ∷ trailing_text (g 4) part
          ∷ []))
]
