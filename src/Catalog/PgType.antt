-- ===== src/Catalog/PgType.antt =====
-- internal/proxy/postgresql/catalog.go: pg_type and pg_enum, with the conditions that are looked for in
-- the text of the query.
use agentx_proxy.Prelude.{
  ℕ, Bool, false, ◌||◌, Option, none, some, List, [], ◌∷◌, Bytes, codes, ◌==◌, if◌then◌else◌,
}
use agentx_proxy.Prelude.Strings.{to_upper, contains, equal, split, trim, trim_space}
use agentx_proxy.Pgwire.Backend.{Value, text, signed}
use agentx_proxy.Regex.{find_submatch}
use agentx_proxy.Regex.Pattern.{compile}
use agentx_proxy.Catalog.{keep, leading_number}
use agentx_proxy.Catalog.Contents.{pg_types, pg_enums}

-- A condition on the number in the first or the second column, or on the text in the second.
unfoldable pub first_number : (ℕ → Bool) → List Value → Bool
first_number p (signed n ∷ row) = p n
first_number p _ = false

unfoldable pub second_number : (ℕ → Bool) → List Value → Bool
second_number p (v ∷ signed n ∷ row) = p n
second_number p _ = false

unfoldable pub second_text : (Bytes → Bool) → List Value → Bool
second_text p (v ∷ text t ∷ row) = p t
second_text p _ = false

abbrev any : {A : Type 0} → (A → Bool) → List A → Bool
any p [] = false
any p (x ∷ xs) = p x || any p xs

-- The types for the first group of a match, none without one.
unfoldable pub types_for : (Bytes → List Value → Bool) → Option (ℕ → Bytes) → List (List Value)
unfolding keep pg_types
types_for p none = []
types_for p (some groups) = keep (p (groups 1)) pg_types

unfoldable pub types_of_oid : Bytes → List (List Value)
unfolding find_submatch compile first_number leading_number
types_of_oid query =
    types_for (λ t. first_number (λ n. n == leading_number t))
      (find_submatch (compile (codes "(?i)oid\\s*(?:=|IN\\s*\\()?\\s*(\\d+)")) query)

unfoldable pub types_of_oids : Bytes → List (List Value)
unfolding find_submatch compile first_number leading_number split trim_space
types_of_oids query =
    types_for
      (λ t. first_number (λ n. any (λ s. n == leading_number (trim_space s)) (split t b',')))
      (find_submatch (compile (codes "(?i)oid\\s+IN\\s*\\(([^)]+)\\)")) query)

unfoldable pub types_of_name : Bytes → List (List Value)
unfolding find_submatch compile second_text equal
types_of_name query =
    types_for (λ t. second_text (λ n. equal n t))
      (find_submatch (compile (codes "(?i)typname\\s*=\\s*'([^']+)'")) query)

unfoldable pub types_of_names : Bytes → List (List Value)
unfolding find_submatch compile second_text split trim trim_space equal
types_of_names query =
    types_for
      (λ t.
        second_text
          (λ n. any (λ s. equal n (trim (λ c. c == b'\'') (trim_space s))) (split t b',')))
      (find_submatch (compile (codes "(?i)typname\\s+IN\\s*\\(([^)]+)\\)")) query)

-- The first of the lists that has a row.
unfoldable pub first_filled : List (List (List Value)) → List (List Value)
first_filled [] = []
first_filled ([] ∷ more) = first_filled more
first_filled ((row ∷ rows) ∷ more) = row ∷ rows

-- The rows of `handlePGType`.
unfoldable pub pg_type_rows : Bytes → List (List Value)
unfolding to_upper contains first_filled types_of_oid types_of_oids types_of_name types_of_names
    pg_types
pg_type_rows query =
    if contains (to_upper query) (codes "WHERE")
    then first_filled
        (types_of_oid query ∷ types_of_oids query ∷ types_of_name query ∷ types_of_names query ∷ [])
    else pg_types

unfoldable pub enums_for : Option (ℕ → Bytes) → List (List Value)
unfolding keep second_number leading_number pg_enums
enums_for none = pg_enums
enums_for (some groups) = keep (second_number (λ n. n == leading_number (groups 1))) pg_enums

-- The rows of `handlePGEnum`.
unfoldable pub pg_enum_rows : Bytes → List (List Value)
unfolding find_submatch compile
pg_enum_rows query =
    enums_for (find_submatch (compile (codes "(?i)enumtypid\\s*=\\s*(\\d+)")) query)
