-- ===== src/Session/Described.antt =====
-- Describe keeps the tables of the connection in order: it stores types, and marks names.
use agentx_proxy.Prelude.{
  ℕ, Bool, false, Option, none, some, List, [], ◌∷◌, Bytes, codes, err, Outcome, Action, failed,
  return, ◌==◌, ◌>>◌, ◌||◌, ◌&&◌,
}
use agentx_proxy.Prelude.Maps.{lookup}
use agentx_proxy.Pgwire.{Target, parse_target}
use agentx_proxy.Pgwire.Backend.{
  FieldDescription, send_parameter_description, send_no_data, send_row_description,
}
use agentx_proxy.Session.Columns.{returned, substitute_params, count_params}
use agentx_proxy.Session.Clauses.{returning_clause, written_table}
use agentx_proxy.Session.{
  Services, ConnState, send, fail, attempt, column, variable_size, starts, normalize_query,
}
use agentx_proxy.Prelude.Strings.{equal, contains, to_upper}
use agentx_proxy.Session.Queries.{describe_columns}
use agentx_proxy.Session.Extended.{not_found, at_address, is_prisma_startup}
use agentx_proxy.Session.Describe.{
  is_shared, limited, synthetic_query, mark_described, store_types, infer, or_no_data,
  pg_type_columns, describe_select_columns, describe_returning_columns, describe_result, announce,
  describe_statement, describe_target, handle_describe, resolve_types, known_types,
}
use agentx_proxy.Session.Frame.{
  Keeps, Keeps-return, Keeps-lift, translate_query-Keeps, Keeps-send, Keeps-ask, Keeps-bind,
  Keeps-if,
}
use agentx_proxy.Session.Linked.{
  Tables-types, KeepsLinked, KeepsLinked-Keeps, KeepsLinked-bind, KeepsLinked-attempt,
  KeepsLinked-if,
}
use agentx_proxy.Session.Tables.{linked_send, linked_choice, linked_at}

module _ (services : Services) where
  open services use {Db, query as query_db}

  describe_select_columns-Keeps : (q : Bytes) → Keeps (describe_select_columns services q)
  unfolding describe_select_columns pg_type_columns
  describe_select_columns-Keeps q = Keeps-if _ (Keeps-send _) (
      Keeps-bind (translate_query-Keeps services q) (λ t.
        Keeps-bind (Keeps-ask (query_db (limited t) []))
          (λ r. Keeps-send (send_row_description (describe_columns false r.columns)))))

  describe_returning_columns-Keeps : (q : Bytes) → Keeps (describe_returning_columns services q)
  unfolding describe_returning_columns
  describe_returning_columns-Keeps q = go (returned (returning_clause q)) (written_table q)
    where
      go :
          (o : Option (List Bytes)) (t : Option Bytes)
          → Keeps (elim o as (λ _. Action (ConnState Db) (Unit {0})) [
            | none ↦ fail (failed (codes "no RETURNING clause found"))
            | some cols ↦ elim t as (λ _. Action (ConnState Db) (Unit {0})) [
              | none ↦ fail (failed (codes "could not extract table name"))
              | some table ↦ describe_select_columns services (synthetic_query cols table)
            ]
          ])
      go none t = Keeps-lift (err _)
      go (some cols) none = Keeps-lift (err _)
      go (some cols) (some table) = describe_select_columns-Keeps (synthetic_query cols table)

  linked_mark : (name : Bytes) → KeepsLinked (mark_described services name)
  linked_mark name = record { kept = λ base s l. l }

  no_data-Linked : KeepsLinked {Db = Db} (attempt (send send_no_data) (λ _. return tt) return)
  no_data-Linked =
      KeepsLinked-attempt (linked_send send_no_data) (λ _. KeepsLinked-Keeps (Keeps-return tt))
        (λ u. KeepsLinked-Keeps (Keeps-return u))

  or_no_data-Linked :
      {m : Action (ConnState Db) (Unit {0})} (name : Bytes)
      → Keeps m
      → KeepsLinked (or_no_data services m name)
  or_no_data-Linked name h =
      KeepsLinked-attempt (KeepsLinked-Keeps h) (λ _. no_data-Linked) (λ _. linked_mark name)

  marked :
      (columns : List FieldDescription) (name : Bytes)
      → KeepsLinked (send (send_row_description columns) >> mark_described services name)
  marked columns name =
      KeepsLinked-bind (linked_send (send_row_description columns)) (λ _. linked_mark name)

  describe_result-Linked : (name q : Bytes) → KeepsLinked (describe_result services name q)
  unfolding describe_result
  describe_result-Linked name q =
      let nq = normalize_query q in
      let uq = to_upper q in
      KeepsLinked-if (equal nq (codes "select version()") || starts 14 (codes "select version") nq)
        (marked (column (codes "version") 25 variable_size ∷ []) name)
        (KeepsLinked-if (is_prisma_startup nq)
          (marked
            (column (codes "exists") 25 variable_size
              ∷ column (codes "version") 25 variable_size
              ∷ column (codes "numeric_version") 25 variable_size
              ∷ [])
            name)
          (KeepsLinked-if (starts 6 (codes "select") nq)
            (or_no_data-Linked name (describe_select_columns-Keeps (substitute_params false q)))
            (KeepsLinked-if
              (contains uq (codes "RETURNING")
                && (contains uq (codes "INSERT INTO") || contains uq (codes "UPDATE")))
              (or_no_data-Linked name (describe_returning_columns-Keeps q)) no_data-Linked)))

  store_types-Linked : (a : ℕ) (oids : List ℕ) → KeepsLinked (store_types services a oids)
  store_types-Linked a oids = record { kept = λ base s l. Tables-types a oids l }

  announce-Linked :
      (shared : Bool) (a : ℕ) (oids : List ℕ) → KeepsLinked (announce services shared a oids)
  announce-Linked shared a oids =
      KeepsLinked-bind
        (KeepsLinked-bind
          (KeepsLinked-if shared (store_types-Linked a oids) (KeepsLinked-Keeps (Keeps-return tt)))
          (λ _. linked_send (send_parameter_description oids)))
        (λ _. store_types-Linked a oids)

  describe_statement-Linked :
      (name : Bytes) (a : ℕ) → KeepsLinked (describe_statement services name a)
  unfolding describe_statement
  describe_statement-Linked name a =
      linked_at (λ s. at_address s.heap a)
        (λ stmt.
          KeepsLinked-bind
            (KeepsLinked-Keeps (Keeps-lift (known_types (count_params services.max_oids) stmt)))
            (λ known.
              KeepsLinked-bind
                (KeepsLinked-if (contains (to_upper stmt.query) (codes "INSERT INTO"))
                  (KeepsLinked-Keeps (Keeps-ask (infer services stmt.query)))
                  (KeepsLinked-Keeps (Keeps-return [])))
                (λ inferred.
                  KeepsLinked-bind
                    (announce-Linked (is_shared stmt) a (resolve_types known inferred))
                    (λ _. describe_result-Linked name stmt.query))))

  describe_target-Linked : (msg : Target) → KeepsLinked (describe_target services msg)
  unfolding describe_target
  describe_target-Linked msg =
      linked_choice (λ _. msg.kind == b'S')
        (linked_at (λ s. lookup msg.name s.prepared_statements) go) no_data-Linked
    where
      go :
          (o : Option ℕ)
          → KeepsLinked (λ s. elim o as (λ _. Outcome (Unit {0}) × ConnState Db) [
            | none ↦ (err (not_found (codes "prepared statement") msg.name), s)
            | some address ↦ describe_statement services msg.name address s
          ])
      go none = record { kept = λ base s l. l }
      go (some a) = describe_statement-Linked msg.name a

  pub handle_describe-Linked : (body : Bytes) → KeepsLinked (handle_describe services body)
  unfolding handle_describe
  handle_describe-Linked body =
      KeepsLinked-bind (KeepsLinked-Keeps (Keeps-lift (parse_target body))) describe_target-Linked
