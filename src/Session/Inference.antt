-- ===== src/Session/Inference.antt =====
-- internal/proxy/postgresql/server.go: the types of the parameters of an INSERT, by its columns.
use agentx_proxy.Prelude.{
  ℕ, zero, suc, ◌+◌, ◌*◌, ◌-◌, true, false, Option, none, some, List, [], ◌∷◌, Bytes, length, max,
  ◌==◌, if◌then◌else◌, Outcome, ok,
}
use agentx_proxy.Prelude.Strings.{trim, trim_space}
use agentx_proxy.Session.Clauses.{insert_parts}
use agentx_proxy.Session.{Services}
use agentx_proxy.Session.Columns.{make_oids, split_column_list, is_digit, scanned}

-- The number of a text of digits alone, from the value of those before.
unfoldable pub digits_value : ℕ → Bytes → Option ℕ
digits_value n [] = some n
digits_value n (c ∷ s) = elim (is_digit c) [
  | true ↦ digits_value (n * 10 + (c - b'0')) s
  | false ↦ none
]

-- A match of `^\$(\d+)$`.
unfoldable pub whole_param : Bytes → Option ℕ
unfolding digits_value
whole_param [] = none
whole_param (c ∷ []) = none
whole_param (c ∷ d ∷ s) = elim (c == b'$') [ true ↦ digits_value 0 (d ∷ s) | false ↦ none ]

-- The map from the numbers of parameters to types: the last entry for a number counts, which is the
-- first in the list.
unfoldable pub type_of : List (ℕ × ℕ) → ℕ → ℕ
type_of [] i = 0
type_of ((j, oid) ∷ types) i = if j == i then oid else type_of types i

unfoldable pub highest : List (ℕ × ℕ) → ℕ
highest [] = 0
highest ((j, oid) ∷ types) = max j (highest types)

-- The types of `n` parameters from the `i`-th on.
unfoldable pub types_from : ℕ → ℕ → List (ℕ × ℕ) → List ℕ
unfolding type_of
types_from zero i types = []
types_from (suc n) i types = type_of types i ∷ types_from n (i + 1) types

module _ (services : Services) where
  open services use {Db, column_oid, max_oids}

  -- One value of the INSERT: only a parameter that stands alone, and whose column has a type, counts.
  unfoldable pub infer_value : Bytes → Bytes → Option ℕ → List (ℕ × ℕ) → Db → List (ℕ × ℕ) × Db
  unfolding trim trim_space
  infer_value table col none types db = (types, db)
  infer_value table col (some i) types db =
      let (oid, db') = column_oid table (trim (λ c. c == b'"') (trim_space col)) db in
      ((if oid == 0 then types else (scanned i, oid) ∷ types), db')

  unfoldable pub infer_values :
      Bytes → List Bytes → List Bytes → List (ℕ × ℕ) → Db → List (ℕ × ℕ) × Db
  unfolding infer_value whole_param trim_space
  infer_values table [] vals types db = (types, db)
  infer_values table (col ∷ cols) [] types db = (types, db)
  infer_values table (col ∷ cols) (v ∷ vals) types db =
      let (types', db') = infer_value table col (whole_param (trim_space v)) types db in
      infer_values table cols vals types' db'

  -- `inferInsertParamTypes`; no types are an empty list.
  unfoldable pub infer_types : Bytes → Db → Outcome (List ℕ) × Db
  unfolding split_column_list infer_values types_from highest trim make_oids
  infer_types query db = elim (insert_parts query) as (λ _. Outcome (List ℕ) × Db) [
    | none ↦ (ok [], db)
    | some (table, (cols, vals)) ↦
        let names = split_column_list cols in
        let values = split_column_list vals in
        if length names == length values
        then (let (types, db') = infer_values (trim (λ c. c == b'"') table) names values [] db in
            (make_oids max_oids (highest types) (types_from (highest types) 1 types), db'))
        else (ok [], db)
  ]
