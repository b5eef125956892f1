-- ===== src/Postgres/Statements.antt =====
-- internal/proxy/postgresql/translator.go: the rewriting of whole statements. The numbers of rand.IntN come
-- with the call: one for the table of a RETURNING, and one for each series.
use agentx_proxy.Prelude.{
  ℕ, ◌+◌, Bool, true, false, not, ◌&&◌, ◌||◌, Option, none, some, List, [], ◌∷◌, ◌++◌, map, Bytes,
  codes, if◌then◌else◌, take, drop, length,
}
use agentx_proxy.Prelude.Strings.{
  to_lower, to_upper, trim_space, has_prefix, has_suffix, contains, index, split, join, equal_fold,
}
use agentx_proxy.Pgwire.Backend.{format_uint}
use agentx_proxy.Regex.{find_submatch}
use agentx_proxy.Regex.Pattern.{compile}
use agentx_proxy.Regex.Replace.{replace_pattern, replace_function}
use agentx_proxy.Regex.Split.{split_pattern, matches}

abbrev texts : List Bytes → Bytes
texts ts = join ts []

-- `Replace(s, old, new, 1)`
unfoldable pub replace_first : Bytes → Bytes → Bytes → Bytes
unfolding index
replace_first s old new = elim (index s old) as (λ _. Bytes) [
  | none ↦ s
  | some i ↦ take i s ++ (new ++ drop (i + length old) s)
]

abbrev pub union_pattern : Bytes
union_pattern = codes "(?i)\\b(UNION\\s+ALL|UNION)\\b"

-- One SELECT of a union, in parentheses where it has a LIMIT or an ORDER BY; never the last one.
unfoldable pub union_part : Bool → Bytes → Bytes
unfolding to_upper contains has_prefix
union_part is_last part =
    let upper = to_upper part in
    let limited = contains upper (codes " LIMIT ") || contains upper (codes " ORDER BY ") in
    if limited && not is_last && has_prefix upper (codes "SELECT")
    then codes "(" ++ (part ++ codes ")")
    else part

abbrev separator_text : Option Bytes → Bytes
separator_text none = []
separator_text (some sep) = codes " " ++ (sep ++ codes " ")

abbrev pub is_nil : List Bytes → Bool
is_nil [] = true
is_nil (p ∷ ps) = false

abbrev first_of : List Bytes → Option Bytes
first_of [] = none
first_of (p ∷ ps) = some p

-- The parts with the separators between them; `sep` is the one before the first part.
unfoldable pub union_parts : Option Bytes → List Bytes → List Bytes → Bytes
unfolding union_part trim_space
union_parts sep [] seps = []
union_parts sep (p ∷ ps) seps =
    let part = trim_space p in
    let rest = union_parts (first_of seps) ps (drop 1 seps) in
    elim part as (λ _. Bytes) [
      | [] ↦ rest
      | c ∷ cs ↦ separator_text sep ++ (union_part (is_nil ps) part ++ rest)
    ]

-- `translateUnionLimit`
unfoldable pub translate_union_limit : Bytes → Bytes
unfolding to_upper contains split_pattern union_parts
translate_union_limit sql =
    let (parts, seps) = split_pattern union_pattern sql in
    if not (contains (to_upper sql) (codes "UNION")) || is_nil (drop 1 parts)
    then sql
    else union_parts none parts seps

-- `parseColumns`
unfoldable pub parse_columns : Bytes → List Bytes
unfolding split trim_space
parse_columns cols = map trim_space (split cols b',')

-- `wrapReturningSelect`
abbrev pub wrap_returning_select : Bytes → Bytes → Bytes
wrap_returning_select main returning = main

unfoldable pub names_id : List Bytes → Bool
unfolding equal_fold has_suffix to_lower
names_id [] = false
names_id (c ∷ d ∷ cols) = false
names_id (c ∷ []) = equal_fold c (codes "id") || has_suffix (to_lower c) (codes "_id")

-- The statements that keep the identity of the inserted row in a table of their own.
unfoldable pub insert_returning_id : ℕ → Bytes → Bytes
unfolding format_uint join
insert_returning_id draw main =
    let table = codes "_ret_" ++ format_uint draw in
    texts (
      codes "CREATE TEMPORARY TABLE IF NOT EXISTS "
      ∷ table
      ∷ codes " (id VARCHAR(36)); "
      ∷ main
      ∷ codes "; INSERT INTO "
      ∷ table
      ∷ codes " VALUES (LAST_INSERT_ID()); SELECT id FROM "
      ∷ table
      ∷ codes "; DROP TEMPORARY TABLE "
      ∷ table
      ∷ [])

abbrev pub returning_pattern : Bytes
returning_pattern = codes "(?i)^(\\s*(?:INSERT|UPDATE|DELETE)\\b.+?)\\s+RETURNING\\s+(.+)$"

-- `translateReturning`
unfoldable pub translate_returning : ℕ → Bytes → Bytes
unfolding find_submatch compile to_upper trim_space has_prefix parse_columns names_id
    insert_returning_id
translate_returning draw sql =
    elim (find_submatch (compile returning_pattern) sql) as (λ _. Bytes) [
      | none ↦ sql
      | some g ↦
          if has_prefix (to_upper (trim_space (g 1))) (codes "INSERT")
            && names_id (parse_columns (g 2))
          then insert_returning_id draw (g 1)
          else wrap_returning_select (g 1) (g 2)
    ]

abbrev pub on_duplicate_pattern : Bytes
on_duplicate_pattern =
    codes "(?i)\\s*ON\\s+CONFLICT\\s*\\(([^)]+)\\)\\s*DO\\s+UPDATE\\s+SET\\s+(.+)"

abbrev pub nothing_pattern : Bytes
nothing_pattern = codes "(?i)\\s*ON\\s+CONFLICT\\b.+?DO\\s+NOTHING"

-- A name with a point in it, which may be a column of the row that was not inserted.
unfoldable pub excluded_column : Bytes → Bytes
unfolding split equal_fold
excluded_column m = elim (split m b'.') as (λ _. Bytes) [
  | [] ↦ m
  | p ∷ ps ↦ elim ps as (λ _. Bytes) [
    | [] ↦ m
    | q ∷ qs ↦
        if is_nil qs && equal_fold p (codes "excluded")
        then codes "VALUES(" ++ (q ++ codes ")")
        else m
  ]
]

unfoldable pub on_conflict_nothing : Bytes → Bytes
unfolding matches replace_first replace_pattern
on_conflict_nothing sql =
    if matches nothing_pattern sql
    then replace_pattern nothing_pattern []
        (replace_first sql (codes "INSERT ") (codes "INSERT IGNORE "))
    else sql

-- `translateOnConflict`: the update clause is a template of the replacement.
unfoldable pub translate_on_conflict : Bytes → Bytes
unfolding to_upper contains find_submatch compile replace_function excluded_column replace_pattern
    on_conflict_nothing
translate_on_conflict sql =
    if not (contains (to_upper sql) (codes "ON CONFLICT"))
    then sql
    else elim (find_submatch (compile on_duplicate_pattern) sql) as (λ _. Bytes) [
      | none ↦ on_conflict_nothing sql
      | some g ↦
          replace_pattern on_duplicate_pattern
            (codes " ON DUPLICATE KEY UPDATE "
              ++ replace_function (codes "(?i)(\\w+)\\.(\\w+)") excluded_column (g 2))
            sql
    ]
