-- ===== src/Postgres/Quotes.antt =====
-- internal/proxy/postgresql/translator.go: double-quoted names, which become names in backticks.
pub mod Pieces
use agentx_proxy.Prelude.{
  ℕ, ◌+◌, Bool, true, false, Option, none, some, List, [], ◌∷◌, ◌++◌, Bytes, codes, take, drop,
  ◌==◌, if◌then◌else◌,
}
use agentx_proxy.Prelude.Strings.{trim, equal, last_index, replace_all}

-- Where the scan stands: outside of quotes, in a text between single quotes, behind a quote or a
-- backslash in it, or in a name, of which the bytes so far are kept.
pub data Quoting : Type 0 where
  outside in_string after_quote escaped : Quoting
  in_name : Bytes → Quoting

-- A name without the schema public.
unfoldable pub strip_public : Bytes → Bytes
unfolding last_index trim equal
strip_public name = elim (last_index name (codes ".")) as (λ _. Bytes) [
  | none ↦ name
  | some i ↦
      if equal (trim (λ c. c == b'`') (take i name)) (codes "public")
      then drop (i + 1) name
      else name
]

unfoldable pub backticked : Bytes → Bytes
unfolding strip_public
backticked name = b'`' ∷ (strip_public name ++ b'`' ∷ [])

abbrev outside_step : ℕ → Bytes × Quoting
outside_step c =
    if c == b'\''
    then (c ∷ [], in_string)
    else if c == b'"'
    then ([], in_name [])
    else (c ∷ [], outside)

unfoldable pub quote_step : Quoting → ℕ → Bytes × Quoting
unfolding backticked
quote_step outside c = outside_step c
quote_step in_string c =
    if c == b'\''
    then (c ∷ [], after_quote)
    else if c == b'\\'
    then (c ∷ [], escaped)
    else (c ∷ [], in_string)
quote_step after_quote c = if c == b'\'' then (c ∷ [], in_string) else outside_step c
quote_step escaped c = (c ∷ [], in_string)
quote_step (in_name name) c =
    if c == b'"' then (backticked name, outside) else ([], in_name (name ++ c ∷ []))

-- A name that is not closed ends with the text.
unfoldable pub scan_quotes : Quoting → Bytes → Bytes
unfolding quote_step backticked
scan_quotes (in_name name) [] = backticked name
scan_quotes outside [] = []
scan_quotes in_string [] = []
scan_quotes after_quote [] = []
scan_quotes escaped [] = []
scan_quotes q (c ∷ s) = let (out, q') = quote_step q c in out ++ scan_quotes q' s

-- `translateDoubleQuotes`
unfoldable pub translate_double_quotes : Bytes → Bytes
unfolding scan_quotes replace_all
translate_double_quotes s = replace_all (scan_quotes outside s) (codes "`public`.") []
