-- ===== src/Catalog/Numbering.antt =====
-- The numbers that pg_class gives to the tables are those that pg_attribute knows them by.
use agentx_proxy.Prelude.{
  zero, suc, length, codes, get_elem?, ap, ℕ, ◌+◌, ◌≤◌, ◌<◌, ◌≡◌, refl, ◌∙◌, arith, Option, none,
  some, List, [], ◌∷◌, Bytes, All, ok, err, panicked, Outcome, Action, ◌>>=◌, and_then, return,
}
use std.Path.{subst}
use agentx_proxy.Pgwire.Backend.{Value, text, signed, render}
use agentx_proxy.Arrays.{Arg}
use agentx_proxy.Session.{Rows, scan_texts}
use agentx_proxy.Regex.{find_submatch}
use agentx_proxy.Regex.Pattern.{compile}
use agentx_proxy.Catalog.{leading_number}
use agentx_proxy.Catalog.Relations.{
  tables_query, pg_class_rows, pg_attribute_rows, attributes_of, class_row, class_of, class_rows,
  count, table_of, count_columns_query, count_keys_query,
}
use agentx_proxy.Catalog.Shapes.{Result, Gives, Gives-bind, map-Result}

abbrev pub HasText : Option Bytes → Type 0
HasText none = ⊥
HasText (some t) = Unit {0}

-- A row with a name in it.
abbrev pub Named : List Value → Type 0
Named [] = ⊥
Named (v ∷ vs) = HasText (render v)

-- A row of pg_class with the number and the name of a table of the list, which is numbered from
-- `current` on.
abbrev pub Resolved : ℕ → List (List Value) → List Value → Type 0
Resolved current tables (signed oid ∷ text name ∷ row) =
    (current ≤ oid) × (table_of oid current tables ≡ name)
Resolved current tables _ = ⊥

later_table :
    (oid current : ℕ) (row : List Value) (rows : List (List Value))
    → current < oid
    → table_of oid current (row ∷ rows) ≡ table_of oid (current + 1) rows
unfolding table_of
later_table oid current row rows h = ground arith

here_table :
    (oid : ℕ) (v : Value) (vs : List Value) (rows : List (List Value)) (t : Bytes)
    → render v ≡ some t
    → table_of oid oid ((v ∷ vs) ∷ rows) ≡ t
unfolding table_of scan_texts
here_table oid v vs rows t h = rw h (ground arith)

later_row :
    (current : ℕ) (row : List Value) (rows : List (List Value)) (r : List Value)
    → Resolved (current + 1) rows r
    → Resolved current (row ∷ rows) r
later_row current row rows (signed oid ∷ text name ∷ r) h =
    (omega (arith, h.0), later_table oid current row rows (omega (arith, h.0)) ∙ h.1)
later_row current row rows _ h = absurd h

later_rows :
    (current : ℕ) (row : List Value) (rows rs : List (List Value))
    → All (Resolved (current + 1) rows) rs
    → All (Resolved current (row ∷ rows)) rs
later_rows current row rows [] h = tt
later_rows current row rows (r ∷ rs) h =
    (later_row current row rows r h.0, later_rows current row rows rs h.1)

-- A row for each table, with a number under which the table is found.
abbrev pub Numbered : ℕ → List (List Value) → List (List Value) → Type 0
Numbered current tables rows = All (Resolved current tables) rows × (length rows ≡ length tables)

Resolved-elem :
    (current i : ℕ) (tables rows : List (List Value)) (row : List Value)
    → All (Resolved current tables) rows
    → get_elem? rows i ≡ some row
    → Resolved current tables row
Resolved-elem current i tables [] row h e = cc
Resolved-elem current zero tables (r ∷ rows) row h e =
    subst (Resolved current tables) (let same : r ≡ row = cc in same) h.0
Resolved-elem current (suc i) tables (r ∷ rows) row h e =
    Resolved-elem current i tables rows row h.1 e

module _ {Db : Type 0} (query_db : Bytes → List Arg → Db → Outcome Rows × Db) where
  -- A row that pg_class makes has this number and this name.
  abbrev RowOf : ℕ → Bytes → List Value → Type 0
  RowOf oid name (signed o ∷ text t ∷ row) = (o ≡ oid) × (t ≡ name)
  RowOf oid name _ = ⊥

  class_of-RowOf : (oid : ℕ) (t : Bytes) → Gives (RowOf oid t) (class_of query_db oid t)
  unfolding class_of class_row
  class_of-RowOf oid t = Gives-bind (RowOf oid t) (count query_db count_columns_query t) _ (λ natts.
      Gives-bind (RowOf oid t) (count query_db count_keys_query t) _ (λ keys d. (refl, refl)))

  Resolved-row :
      (current : ℕ) (v : Value) (vs : List Value) (rows : List (List Value)) (t : Bytes)
      (r : List Value)
      → render v ≡ some t
      → RowOf current t r
      → Resolved current ((v ∷ vs) ∷ rows) r
  Resolved-row current v vs rows t (signed o ∷ text name ∷ r) e h =
      (omega (arith, h.0), rw (h.0, h.1) (here_table current v vs rows t e))
  Resolved-row current v vs rows t _ e h = absurd h

  cons-Resolved :
      (current : ℕ) (v : Value) (vs : List Value) (rows : List (List Value)) (t : Bytes)
      (p : Outcome (List Value) × Db) (m : Action Db (List (List Value)))
      → render v ≡ some t
      → Result (RowOf current t) p.0
      → Gives (Numbered (current + 1) rows) m
      → Result
          (Numbered current ((v ∷ vs) ∷ rows))
          (and_then p (λ row. m >>= (λ rest. return (row ∷ rest)))).0
  cons-Resolved current v vs rows t (ok row, d) m e h g =
      map-Result (Numbered (current + 1) rows) (Numbered current ((v ∷ vs) ∷ rows)) (m d)
        (λ rest. row ∷ rest) (g d)
        (λ rest w. (
          (Resolved-row current v vs rows t row e h, later_rows current (v ∷ vs) rows rest w.0),
          ap suc w.1,
        ))
  cons-Resolved current v vs rows t (err x, d) m e h g = tt
  cons-Resolved current v vs rows t (panicked, d) m e h g = tt

  class_rows-Numbered :
      (current : ℕ) (tables : List (List Value)) (d : Db)
      → All Named tables
      → Result (Numbered current tables) (class_rows query_db current tables d).0
  unfolding class_rows
  class_rows-Numbered current [] d h = (tt, refl)
  class_rows-Numbered current ([] ∷ rows) d h = absurd h.0
  class_rows-Numbered current ((v ∷ vs) ∷ rows) d h =
      named (render v) refl h.0 (λ s. class_rows-Numbered (current + 1) rows s h.1)
    where
      named :
          (t : Option Bytes)
          → render v ≡ t
          → HasText t
          → Gives (Numbered (current + 1) rows) (class_rows query_db (current + 1) rows)
          → Result
              (Numbered current ((v ∷ vs) ∷ rows))
              ((elim t as (λ _. Action Db (List (List Value))) [
                | none ↦ class_rows query_db current rows
                | some name ↦ do
                  row ← class_of query_db current name
                  rest ← class_rows query_db (current + 1) rows
                  return (row ∷ rest)
              ])
                d).0
      named none e x g = absurd x
      named (some name) e x g =
          cons-Resolved current v vs rows name (class_of query_db current name d)
            (class_rows query_db (current + 1) rows) e (class_of-RowOf current name d) g

  pg_class_rows-Numbered :
      (r : Rows) (d d' : Db) (rows : List (List Value))
      → query_db tables_query [] d ≡ (ok r, d)
      → All Named r.rows
      → pg_class_rows query_db d ≡ (ok rows, d')
      → Numbered 16384 r.rows rows
  unfolding pg_class_rows
  pg_class_rows-Numbered r d d' rows lists h e =
      subst (λ p. Result (Numbered 16384 r.rows) p.0) (rw lists at e)
        (class_rows-Numbered 16384 r.rows d h)

  -- Where MySQL lists the same tables at any time, each of them with a name, pg_class has a row for each of
  -- them, and a query on the attributes of the number in one of the rows gets the attributes of the table
  -- with the name in that row.
  pub pg_attribute_rows-pg_class_rows :
      (r : Rows) (d d' e : Db) (rows : List (List Value)) (i oid : ℕ) (name : Bytes)
      (row : List Value) (query : Bytes) (groups : ℕ → Bytes)
      → ((s : Db) → query_db tables_query [] s ≡ (ok r, s))
      → All Named r.rows
      → pg_class_rows query_db d ≡ (ok rows, d')
      → get_elem? rows i ≡ some (signed oid ∷ text name ∷ row)
      → find_submatch (compile (codes "(?i)attrelid\\s*=\\s*(\\d+)")) query ≡ some groups
      → leading_number (groups 1) ≡ oid
      → (length rows ≡ length r.rows)
        × (pg_attribute_rows query_db query e ≡ attributes_of query_db oid name e)
  unfolding pg_attribute_rows
  pg_attribute_rows-pg_class_rows r d d' e rows i oid name row query groups lists h made at_i found
        number =
      let n = pg_class_rows-Numbered r d d' rows (lists d) h made in
      let resolved = Resolved-elem 16384 i r.rows rows (signed oid ∷ text name ∷ row) n.0 at_i in
      (n.1, rw (found, lists e, number, resolved.1))
