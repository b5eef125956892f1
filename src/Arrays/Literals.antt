-- ===== src/Arrays/Literals.antt =====
-- internal/proxy/postgresql/array.go: the elements of an array literal of PostgreSQL. A rune is a
-- byte here: the bytes that the scanner tests are ASCII, and it copies the others.
use agentx_proxy.Prelude.{
  ℕ, ◌-◌, Bool, true, false, not, ◌&&◌, List, [], ◌∷◌, ◌++◌, Bytes, codes, length, take, drop, leb,
  ◌==◌, if◌then◌else◌, Outcome, ok, err, failed, Option, none, some, ◌||◌,
}
use agentx_proxy.Prelude.Strings.{trim_space, has_prefix, has_suffix, replace_all, equal, join}

-- What the loop carries: the elements, the text of the next one, and the two marks.
pub record Scanner : Type 0 where
  pub elements : List Bytes
  pub current : Bytes
  pub in_quotes : Bool
  pub escaped : Bool

abbrev pub is_quoted : Bytes → Bool
is_quoted elem =
    leb 2 (length elem) && (has_prefix elem (codes "\"") && has_suffix elem (codes "\""))

-- Without the quotes around it, and with doubled quotes made single.
unfoldable pub unquote : Bytes → Bytes
unfolding replace_all has_prefix has_suffix
unquote elem =
    if is_quoted elem
    then replace_all (take (length elem - 2) (drop 1 elem)) (codes "\"\"") (codes "\"")
    else elem

-- The element that `current` holds is appended, unless there is nothing in it.
unfoldable pub finish_element : List Bytes → Bytes → List Bytes
unfolding trim_space unquote
finish_element elements current = elim current [
  | [] ↦ elements
  | c ∷ s ↦ elements ++ unquote (trim_space (c ∷ s)) ∷ []
]

-- One round of the loop.
unfoldable pub scan_char : ℕ → Scanner → Scanner
unfolding finish_element
scan_char ch s =
    let copied : Scanner = record s { current = s.current ++ ch ∷ [] } in
    if s.escaped
    then record copied { escaped = false }
    else if ch == b'\\'
    then record s { escaped = true }
    else if ch == b'"'
    then record copied { in_quotes = not s.in_quotes }
    else if ch == b',' && not s.in_quotes
    then record s { elements = finish_element s.elements s.current; current = [] }
    else copied

unfoldable pub scan_chars : Bytes → Scanner → Scanner
unfolding scan_char
scan_chars [] s = s
scan_chars (ch ∷ inner) s = scan_chars inner (scan_char ch s)

-- `parsePGArrayElements`.
unfoldable pub parse_pg_array_elements : Bytes → List Bytes
unfolding scan_chars finish_element
parse_pg_array_elements inner =
    let s =
      scan_chars inner
        (record { elements = []; current = []; in_quotes = false; escaped = false }) in
    finish_element s.elements s.current

module _ (marshal : List Bytes → Outcome Bytes) (quote : Bytes → Bytes) where
  -- `ToMySQL`, over `json.Marshal` of a list of strings and the verb %q.
  unfoldable pub to_mysql : Bytes → Outcome Bytes
  unfolding trim_space has_prefix has_suffix parse_pg_array_elements equal
  to_mysql text =
      let pg_array = trim_space text in
      let inner = take (length pg_array - 2) (drop 1 pg_array) in
      if has_prefix pg_array (codes "{") && has_suffix pg_array (codes "}")
      then (if equal inner [] then ok (codes "[]") else marshal (parse_pg_array_elements inner))
      else if has_prefix pg_array (codes "[")
      then ok pg_array
      else ok (codes "[" ++ (quote pg_array ++ codes "]"))

-- json.Unmarshal into a list of strings: what it leaves of the elements, and whether it succeeds. Into a
-- list of any values: the texts that the verb %v makes of them.
module _ (unmarshal : Bytes → List Bytes × Bool)
    (unmarshal_values : Bytes → Option (List Bytes)) where
  abbrev braced : List Bytes → Bytes
  braced elements = codes "{" ++ (join elements (codes ",") ++ codes "}")

  -- `ToPG`: the values of an array that has others than strings come behind what the first reading left.
  unfoldable pub to_pg : Bytes → Bytes → Outcome Bytes
  unfolding trim_space equal join
  to_pg mode text =
      let json = trim_space text in
      let (elements, read) = unmarshal json in
      if equal json (codes "[]") || equal json []
      then ok (codes "{}")
      else if equal mode (codes "delimited")
      then (if read then ok (join elements (codes ",")) else err (failed (codes "json")))
      else if read
      then ok (braced elements)
      else elim (unmarshal_values json) as (λ _. Outcome Bytes) [
        | none ↦ ok json
        | some values ↦ ok (braced (elements ++ values))
      ]

-- `TranslateQueryInPlace`
abbrev pub translate_query_in_place : Bytes → Bytes
translate_query_in_place sql = sql
