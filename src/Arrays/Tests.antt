-- ===== src/Arrays/Tests.antt =====
-- Array literals with awkward elements, and the theorem on them.
use agentx_proxy.Prelude.{ok, true, false, none, some, ◌≡◌, refl, List, [], ◌∷◌, map, Bytes, codes}
use agentx_proxy.Prelude.Strings.{
  contains, index, index_from, has_prefix, has_suffix, join, trim_space, replace_all,
}
use agentx_proxy.Arrays.Literals.{
  to_pg, parse_pg_array_elements, unquote, finish_element, scan_chars,
}
use agentx_proxy.Arrays.Quoting.{quoted_element, parse_pg_array_elements-join}

-- Two quotes in a row are taken for one.
doubled : parse_pg_array_elements (codes "\"a\\\"\\\"b\"") ≡ codes "a\"b" ∷ []
unfolding parse_pg_array_elements scan_chars finish_element unquote has_prefix has_suffix trim_space
    replace_all
doubled = refl

abbrev awkward : List Bytes
awkward = codes "a,b" ∷ codes " c\"\\d " ∷ [] ∷ []

parse_pg_array_elements-join_example :
    parse_pg_array_elements (join (map quoted_element awkward) (codes ",")) ≡ awkward
unfolding contains index index_from has_prefix
parse_pg_array_elements-join_example =
    parse_pg_array_elements-join awkward (refl, (refl, (refl, tt)))

-- A comma in an element is not told from the commas between the elements.
commas_lost :
    to_pg
      (λ j. (codes "a,b" ∷ codes "c" ∷ [], true))
      (λ j. none)
      (codes "json")
      (codes "[\"a,b\",\"c\"]")
    ≡ ok (codes "{a,b,c}")
unfolding to_pg
commas_lost = refl

-- The first reading of an array of numbers leaves an empty text for each of them.
numbers_doubled :
    to_pg
      (λ j. ([] ∷ [] ∷ [], false))
      (λ j. some (codes "1" ∷ codes "2" ∷ []))
      (codes "json")
      (codes "[1,2]")
    ≡ ok (codes "{,,1,2}")
unfolding to_pg
numbers_doubled = refl
