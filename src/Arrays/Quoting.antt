-- ===== src/Arrays/Quoting.antt =====
-- Array literals as PostgreSQL writes them are taken apart into their elements.
use mathlib.Core.List.{reverse, reverse-append, reverse-reverse}
use agentx_proxy.Prelude.{
  ◌-◌, ◌≡◌, refl, sym, ap, ◌∙◌, true, false, ◌||◌, List, [], ◌∷◌, ◌++◌, map, arith, Bytes, codes,
  length, length-append, take, drop, take-append, append_assoc, append-nil, ◌==◌, if◌then◌else◌,
  All,
}
use agentx_proxy.Prelude.Strings.{
  trim_space, trim, trim_left, trim_right, is_space, has_prefix, has_suffix, contains, replace_all,
  join,
}
use agentx_proxy.Prelude.Absent.{replace_all-absent}
use agentx_proxy.Arrays.Literals.{
  Scanner, is_quoted, unquote, finish_element, scan_char, scan_chars, parse_pg_array_elements,
}

-- Backslashes and quotes get a backslash before them.
unfoldable pub escape : Bytes → Bytes
escape [] = []
escape (c ∷ s) =
    let rest = escape s in if c == b'\\' || c == b'"' then b'\\' ∷ c ∷ rest else c ∷ rest

unfoldable pub quoted_element : Bytes → Bytes
unfolding escape
quoted_element e = b'"' ∷ escape e ++ b'"' ∷ []

-- A text in which nothing is found stays as it is.
replace_all_absent : (s old new : Bytes) → contains s old ≡ false → replace_all s old new ≡ s
unfolding contains
replace_all_absent s old new h = replace_all-absent s old new (ground (arith, h))

-- Inside quotes the escaped text of an element is copied without its backslashes.
scan_chars-escape :
    (e rest : Bytes) (es : List Bytes) (cur : Bytes)
    → scan_chars
        (escape e ++ rest)
        (record { elements = es; current = cur; in_quotes = true; escaped = false })
      ≡ scan_chars rest
          (record { elements = es; current = cur ++ e; in_quotes = true; escaped = false })
unfolding escape scan_chars scan_char
scan_chars-escape [] rest es cur = rw append-nil
scan_chars-escape (c ∷ e) rest es cur =
    ground (arith, scan_chars-escape e rest es (cur ++ c ∷ []), append_assoc cur (c ∷ []) e)

-- A text between quotes.
abbrev between : Bytes → Bytes
between e = (b'"' ∷ e) ++ b'"' ∷ []

reverse-between : (e : Bytes) → reverse (between e) ≡ b'"' ∷ reverse (b'"' ∷ e)
reverse-between e = reverse-append (b'"' ∷ e) (b'"' ∷ [])

trim_space-between : (e : Bytes) → trim_space (between e) ≡ between e
unfolding trim_space trim trim_left trim_right is_space
trim_space-between e =
    ap (λ r. reverse (trim_left is_space r)) (reverse-between e)
    ∙ ap reverse (sym (reverse-between e))
    ∙ reverse-reverse (between e)

is_quoted-between : (e : Bytes) → is_quoted (between e) ≡ true
unfolding has_prefix has_suffix
is_quoted-between e = rw (reverse-between e) (ground (arith, length-append (b'"' ∷ e) (b'"' ∷ [])))

inside : (e : Bytes) → take (length (between e) - 2) (drop 1 (between e)) ≡ e
inside e =
    let size : length (between e) - 2 ≡ length e = omega (arith, length-append e (b'"' ∷ [])) in
    rw size (take-append e (b'"' ∷ []))

unquote-between :
    (e : Bytes) → contains e (codes "\"\"") ≡ false → unquote (trim_space (between e)) ≡ e
unfolding unquote
unquote-between e h =
    rw (trim_space-between e, is_quoted-between e, inside e)
      (replace_all_absent e (codes "\"\"") (codes "\"") h)

finish_element-between :
    (es : List Bytes) (e : Bytes)
    → contains e (codes "\"\"") ≡ false
    → finish_element es (between e) ≡ es ++ e ∷ []
unfolding finish_element
finish_element-between es e h = ap (λ t. es ++ t ∷ []) (unquote-between e h)

abbrev at_start : List Bytes → Scanner
at_start es = record { elements = es; current = []; in_quotes = false; escaped = false }

abbrev after_element : List Bytes → Bytes → Scanner
after_element es cur = record { elements = es; current = cur; in_quotes = false; escaped = false }

scan_chars-quoted_element :
    (e rest : Bytes) (es : List Bytes)
    → scan_chars (quoted_element e ++ rest) (at_start es)
      ≡ scan_chars rest (after_element es (between e))
unfolding quoted_element scan_chars scan_char
scan_chars-quoted_element e rest es =
    ap
      (λ t.
        scan_chars t
          (record { elements = es; current = b'"' ∷ []; in_quotes = true; escaped = false }))
      (append_assoc (escape e) (b'"' ∷ []) rest)
    ∙ scan_chars-escape e (b'"' ∷ rest) es (b'"' ∷ [])

abbrev finished : Scanner → List Bytes
finished s = finish_element s.elements s.current

-- The comma behind an element ends it.
scan_chars-comma :
    (e rest : Bytes) (es : List Bytes)
    → contains e (codes "\"\"") ≡ false
    → scan_chars ((quoted_element e ++ codes ",") ++ rest) (at_start es)
      ≡ scan_chars rest (at_start (es ++ e ∷ []))
unfolding scan_chars scan_char
scan_chars-comma e rest es h =
    ap (λ t. scan_chars t (at_start es)) (append_assoc (quoted_element e) (codes ",") rest)
    ∙ scan_chars-quoted_element e (b',' ∷ rest) es
    ∙ ap (λ t. scan_chars rest (at_start t)) (finish_element-between es e h)

scan_chars-join :
    (e : Bytes) (rest : List Bytes) (es : List Bytes)
    → All (λ t. contains t (codes "\"\"") ≡ false) (e ∷ rest)
    → finished (scan_chars (join (map quoted_element (e ∷ rest)) (codes ",")) (at_start es))
      ≡ es ++ e ∷ rest
unfolding join scan_chars
scan_chars-join e [] es (h, _) =
    ap finished (rw append-nil at (scan_chars-quoted_element e [] es))
    ∙ finish_element-between es e h
scan_chars-join e (f ∷ rest) es (h, hs) =
    ap finished (scan_chars-comma e (join (map quoted_element (f ∷ rest)) (codes ",")) es h)
    ∙ scan_chars-join f rest (es ++ e ∷ []) hs
    ∙ append_assoc es (e ∷ []) (f ∷ rest)

-- The inside of an array literal in which every element is quoted and escaped, the elements with a
-- comma between them, is taken apart into the same elements, if none of them has two quotes in a
-- row: commas, blanks, braces, backslashes and single quotes in them are kept.
pub parse_pg_array_elements-join :
    (es : List Bytes)
    → All (λ t. contains t (codes "\"\"") ≡ false) es
    → parse_pg_array_elements (join (map quoted_element es) (codes ",")) ≡ es
unfolding parse_pg_array_elements scan_chars join finish_element
parse_pg_array_elements-join [] h = refl
parse_pg_array_elements-join (e ∷ es) h = scan_chars-join e es [] h
