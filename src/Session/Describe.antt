-- ===== src/Session/Describe.antt =====
-- `handleDescribe`: the parameter types of a prepared statement and the columns of its result.
use agentx_proxy.Prelude.{
  ℕ, zero, suc, Bool, true, false, not, ◌&&◌, ◌||◌, none, some, List, [], ◌∷◌, ◌++◌, map, Bytes,
  codes, ◌==◌, if◌then◌else◌, failed, ok, err, panicked, Outcome, Action, ◌>>=◌, ◌>>◌, return,
}
use agentx_proxy.Prelude.Strings.{contains, equal, to_upper, join}
use agentx_proxy.Prelude.Maps.{lookup, insert}
use agentx_proxy.Pgwire.{Target, parse_target}
use agentx_proxy.Pgwire.Backend.{send_row_description, send_parameter_description, send_no_data}
use agentx_proxy.Session.Columns.{returned, substitute_params, count_params}
use agentx_proxy.Session.Inference.{infer_types}
use agentx_proxy.Session.Clauses.{returning_clause, written_table}
use agentx_proxy.Session.{
  translate_query, Services, Stmt, ConnState, send, ask, attempt, fail, lift, normalize_query,
  starts, column, variable_size,
}
use agentx_proxy.Session.Queries.{describe_columns}
use agentx_proxy.Session.Extended.{not_found, at_address, is_prisma_startup, quoted_columns}

-- `if i < len(paramOIDs) && paramOIDs[i] == 0 { paramOIDs[i] = oid }`
unfoldable pub fill_types : List ℕ → List ℕ → List ℕ
fill_types [] inferred = []
fill_types (p ∷ ps) [] = p ∷ ps
fill_types (p ∷ ps) (i ∷ is) = (if p == 0 then i else p) ∷ fill_types ps is

-- The types that are left unknown become text.
unfoldable pub default_types : List ℕ → List ℕ
default_types = map (λ oid. if oid == 0 then 25 else oid)

abbrev pub is_unknown_one : List ℕ → Bool
is_unknown_one (zero ∷ []) = true
is_unknown_one _ = false

abbrev pub is_nil : List ℕ → Bool
is_nil [] = true
is_nil (n ∷ ns) = false

abbrev pub set_stmt : List Stmt → ℕ → Stmt → List Stmt
set_stmt [] i v = []
set_stmt (s ∷ ss) zero v = v ∷ ss
set_stmt (s ∷ ss) (suc i) v = s ∷ set_stmt ss i v

unfoldable pub limited : Bytes → Bytes
limited translated =
    if contains (to_upper translated) (codes " LIMIT ")
    then translated
    else translated ++ codes " LIMIT 0"

unfoldable pub synthetic_query : List Bytes → Bytes → Bytes
synthetic_query cols table =
    codes "SELECT "
    ++ (join (quoted_columns cols) (codes ", ")
        ++ (codes " FROM `" ++ (table ++ codes "` LIMIT 0")))

-- The types that the client gave; if it gave none, as many unknown ones as the query has
-- parameters. A single unknown type in a query of `pg_type` by its `oid` is an OID.
unfoldable pub known_types : (Bytes → Outcome (List ℕ)) → Stmt → Outcome (List ℕ)
known_types count stmt =
    elim (if is_nil stmt.param_oids then count stmt.query else ok stmt.param_oids) [
      | panicked ↦ panicked
      | err e ↦ err e
      | ok counted ↦
          if is_unknown_one counted
            && (contains (to_upper stmt.query) (codes "PG_TYPE")
                && contains (to_upper stmt.query) (codes ".OID"))
          then ok (26 ∷ [])
          else ok counted
    ]

-- Do the types announced stand in the slice of the statement itself?
unfoldable pub is_shared : Stmt → Bool
is_shared stmt =
    not (is_nil stmt.param_oids)
    && not (
        is_unknown_one stmt.param_oids
        && (contains (to_upper stmt.query) (codes "PG_TYPE")
            && contains (to_upper stmt.query) (codes ".OID")))

unfoldable pub resolve_types : List ℕ → List ℕ → List ℕ
unfolding fill_types default_types
resolve_types known inferred = default_types (fill_types known inferred)

module _ (services : Services) where
  open services use {Db, query as query_db, max_oids}

  unfoldable pub pg_type_columns : Action (ConnState Db) (Unit {0})
  pg_type_columns = send (
      send_row_description (
        column (codes "typname") 19 64
        ∷ column (codes "typtype") 18 1
        ∷ column (codes "typelem") 26 4
        ∷ column (codes "typbasetype") 26 4
        ∷ column (codes "typrelid") 26 4
        ∷ []))

  unfoldable pub describe_select_columns : Bytes → Action (ConnState Db) (Unit {0})
  describe_select_columns query =
      if contains (to_upper query) (codes "PG_TYPE") && contains (to_upper query) (codes "TYPTYPE")
      then pg_type_columns
      else (do
        translated ← translate_query services query
        result ← ask (query_db (limited translated) [])
        send (send_row_description (describe_columns false result.columns)))

  unfoldable pub describe_returning_columns : Bytes → Action (ConnState Db) (Unit {0})
  describe_returning_columns query = elim (returned (returning_clause query)) [
    | none ↦ fail (failed (codes "no RETURNING clause found"))
    | some cols ↦ elim (written_table query) [
      | none ↦ fail (failed (codes "could not extract table name"))
      | some table ↦ describe_select_columns (synthetic_query cols table)
    ]
  ]

  abbrev pub mark_described : Bytes → Action (ConnState Db) (Unit {0})
  mark_described name s =
      (ok tt, record s { described_portals = insert name true s.described_portals })

  abbrev pub store_types : ℕ → List ℕ → Action (ConnState Db) (Unit {0})
  store_types address oids s =
      let stmt = at_address s.heap address in
      (ok tt, record s { heap = set_stmt s.heap address (record stmt { param_oids = oids }) })

  abbrev pub infer : Bytes → Db → Outcome (List ℕ) × Db
  infer query db = infer_types services query db

  -- A failure of the attempt is answered by NoData, whose own error is dropped.
  abbrev pub or_no_data :
      Action (ConnState Db) (Unit {0}) → Bytes → Action (ConnState Db) (Unit {0})
  or_no_data m name =
      attempt m (λ _. attempt (send send_no_data) (λ _. return tt) return)
        (λ _. mark_described name)

  unfoldable pub describe_result : Bytes → Bytes → Action (ConnState Db) (Unit {0})
  describe_result name query =
      let nq = normalize_query query in
      let uq = to_upper query in
      if equal nq (codes "select version()") || starts 14 (codes "select version") nq
      then send (send_row_description (column (codes "version") 25 variable_size ∷ []))
        >> mark_described name
      else if is_prisma_startup nq
      then send (
          send_row_description (
            column (codes "exists") 25 variable_size
            ∷ column (codes "version") 25 variable_size
            ∷ column (codes "numeric_version") 25 variable_size
            ∷ []))
        >> mark_described name
      else if starts 6 (codes "select") nq
      then or_no_data (describe_select_columns (substitute_params false query)) name
      else if contains uq (codes "RETURNING")
          && (contains uq (codes "INSERT INTO") || contains uq (codes "UPDATE"))
      then or_no_data (describe_returning_columns query) name
      else attempt (send send_no_data) (λ _. return tt) return

  -- The loops write to the statement's own slice, unless it has been replaced by a new one.
  abbrev pub announce : Bool → ℕ → List ℕ → Action (ConnState Db) (Unit {0})
  announce shared address oids =
      (if shared then store_types address oids else return tt)
      >> send (send_parameter_description oids)
      >> store_types address oids

  unfoldable pub describe_statement : Bytes → ℕ → Action (ConnState Db) (Unit {0})
  describe_statement name address s =
      let stmt = at_address s.heap address in
      (do
        known ← lift (known_types (count_params max_oids) stmt)
        inferred ←
            if contains (to_upper stmt.query) (codes "INSERT INTO")
            then ask (infer stmt.query)
            else return []
        announce (is_shared stmt) address (resolve_types known inferred)
        describe_result name stmt.query)
        s

  unfoldable pub describe_target : Target → Action (ConnState Db) (Unit {0})
  describe_target msg s =
      if msg.kind == b'S'
      then elim (lookup msg.name s.prepared_statements) [
        | none ↦ (err (not_found (codes "prepared statement") msg.name), s)
        | some address ↦ describe_statement msg.name address s
      ]
      else attempt (send send_no_data) (λ _. return tt) return s

  unfoldable pub handle_describe : Bytes → Action (ConnState Db) (Unit {0})
  handle_describe body = do msg ← lift (parse_target body); describe_target msg
