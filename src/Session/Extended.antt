-- ===== src/Session/Extended.antt =====
-- The extended query protocol: Parse, Bind, Execute and Close.
use agentx_proxy.Prelude.{
  ℕ, Bool, true, false, ◌&&◌, ◌||◌, Option, none, some, List, [], ◌∷◌, ◌++◌, map, ◌+◌, ◌*◌, ◌^◌,
  Bytes, codes, length, get_elem?, ◌==◌, if◌then◌else◌, Error, failed, ok, err, Action, ◌>>=◌, ◌>>◌,
  return,
}
use agentx_proxy.Prelude.Strings.{contains, equal, to_upper, to_lower, replace_all, join}
use agentx_proxy.Prelude.Maps.{lookup, insert, delete}
use agentx_proxy.Pgwire.{
  Parse, Bind, Execute, Target, parse_parse, parse_bind, parse_execute, parse_target,
}
use agentx_proxy.Pgwire.Backend.{
  Value, raw, text, boolean, Conversions, format_uint, send_row_description, send_data_row,
  send_command_complete, send_parse_complete, send_bind_complete, send_close_complete, head_or_zero,
}
use agentx_proxy.Session.Columns.{returned}
use agentx_proxy.Session.Clauses.{returning_clause, written_table}
use agentx_proxy.Catalog.Dispatch.{is_catalog_query}
use agentx_proxy.Session.{
  translate_query, Services, Stmt, Portal, ConnState, send, ask, attempt, fail, lift, error_text,
  normalize_query, starts, is_write_query, column, variable_size,
}
use agentx_proxy.Session.Queries.{
  wrap, execute_mysql_query, execute_catalog_query, execute_parameterized, convert_params,
}

-- `fmt.Errorf("<what> %q not found", name)` for a name that needs no escape.
unfoldable pub not_found : Bytes → Bytes → Error
not_found what name = failed (what ++ (codes " \"" ++ (name ++ codes "\" not found")))

-- The statement at an address; every address of a connection is on its heap.
abbrev pub at_address : List Stmt → ℕ → Stmt
at_address heap a = elim (get_elem? heap a) [
  | some stmt ↦ stmt
  | none ↦ record { name = []; query = []; param_oids = [] }
]

unfoldable pub from_big_endian : Bytes → ℕ
from_big_endian [] = 0
from_big_endian (b ∷ bs) = b * 256 ^ length bs + from_big_endian bs

-- The text of a parameter in a catalog query: every parameter is read in the first one's format.
unfoldable pub catalog_literal : List ℕ → Option Bytes → Bytes
unfolding from_big_endian format_uint replace_all
catalog_literal formats none = codes "NULL"
catalog_literal formats (some s) =
    let n = length s in
    if head_or_zero formats == 1 && (n == 4 || (n == 2 || n == 8))
    then format_uint (from_big_endian s)
    else codes "'" ++ (replace_all s (codes "'") (codes "''") ++ codes "'")

-- The loop from the last parameter to the first; `i` is the number of the first one of the list.
unfoldable pub substitute : List ℕ → ℕ → List (Option Bytes) → Bytes → Bytes
unfolding catalog_literal replace_all format_uint
substitute formats i [] query = query
substitute formats i (p ∷ ps) query =
    replace_all (substitute formats (i + 1) ps query) (codes "$" ++ format_uint i)
      (catalog_literal formats p)

abbrev pub version_text : Bytes
version_text = codes "PostgreSQL 14.0 on x86_64-pc-linux-gnu, compiled by gcc, 64-bit"

-- Is the schema that the first parameter names one of the two that exist?
unfoldable pub schema_exists : List (Option Bytes) → Bool
schema_exists [] = true
schema_exists (none ∷ ps) = true
schema_exists (some s ∷ ps) =
    equal (to_lower s) (codes "public") || equal (to_lower s) (codes "pg_catalog")

-- A value of the row that is read back after a write, as text.
unfoldable pub returned_value : Value → Value
returned_value (raw s) = text s
returned_value (Value.float s t) = text t
returned_value (Value.time s t) = text t
returned_value (Value.boolean true) = text (codes "true")
returned_value (Value.boolean false) = text (codes "false")
returned_value v = v

unfoldable pub quoted_columns : List Bytes → List Bytes
quoted_columns = map (λ c. codes "`" ++ (c ++ codes "`"))

unfoldable pub read_back_query : List Bytes → Bytes → Bytes
unfolding quoted_columns
read_back_query cols table =
    codes "SELECT "
    ++ (join (quoted_columns cols) (codes ", ")
        ++ (codes " FROM `" ++ (table ++ codes "` WHERE `id` = ?")))

unfoldable pub is_prisma_startup : Bytes → Bool
is_prisma_startup nq =
    contains nq (codes "pg_namespace")
    && (contains nq (codes "version()") && contains nq (codes "current_setting"))

module _ (services : Services) (conv : Conversions) where
  open services use {Db, exec, query as query_db}

  abbrev pub store_statement : Parse → Action (ConnState Db) (Unit {0})
  store_statement msg s =
      let stmt : Stmt = record {
        name = msg.name;
        query = msg.query;
        param_oids = msg.parameter_oids;
      } in
      (
        ok tt,
        record s {
          heap = s.heap ++ stmt ∷ [];
          prepared_statements = insert msg.name (length s.heap) s.prepared_statements;
        },
      )

  unfoldable pub handle_parse : Bytes → Action (ConnState Db) (Unit {0})
  handle_parse body = do
    msg ← lift (parse_parse body)
    store_statement msg
    send send_parse_complete

  abbrev pub was_described : Bytes → ConnState Db → Bool
  was_described name s = elim (lookup name s.described_portals) [ some d ↦ d | none ↦ false ]

  abbrev pub store_portal : Bind → ℕ → Action (ConnState Db) (Unit {0})
  store_portal msg stmt s =
      let p : Portal = record {
        name = msg.portal;
        stmt = stmt;
        params = msg.parameters;
        format_codes = msg.parameter_format_codes;
        result_format_codes = msg.result_format_codes;
        described = was_described msg.prepared_statement s;
      } in
      (ok tt, record s { portals = insert msg.portal p s.portals })

  unfoldable pub bind_statement : Bind → Action (ConnState Db) (Unit {0})
  bind_statement msg s = elim (lookup msg.prepared_statement s.prepared_statements) [
    | none ↦ (err (not_found (codes "prepared statement") msg.prepared_statement), s)
    | some stmt ↦ (store_portal msg stmt >> send send_bind_complete) s
  ]

  unfoldable pub handle_bind : Bytes → Action (ConnState Db) (Unit {0})
  handle_bind body = do msg ← lift (parse_bind body); bind_statement msg

  abbrev pub forget : Target → Action (ConnState Db) (Unit {0})
  forget msg s =
      if msg.kind == b'S'
      then (ok tt, record s { prepared_statements = delete msg.name s.prepared_statements })
      else (ok tt, record s { portals = delete msg.name s.portals })

  unfoldable pub handle_close : Bytes → Action (ConnState Db) (Unit {0})
  handle_close body = do msg ← lift (parse_target body); forget msg; send send_close_complete

  abbrev pub unless : Bool → Action (ConnState Db) (Unit {0}) → Action (ConnState Db) (Unit {0})
  unless true m = return tt
  unless false m = m

  unfoldable pub prepared_advisory_lock : Portal → Action (ConnState Db) (Unit {0})
  prepared_advisory_lock p = do
    unless p.described (send (send_row_description (column (codes "pg_advisory_lock") 16 1 ∷ [])))
    send (send_data_row conv (boolean true ∷ []) [] [])
    send (send_command_complete (codes "SELECT 1"))

  unfoldable pub handle_prisma_startup_query : Portal → Action (ConnState Db) (Unit {0})
  handle_prisma_startup_query p = do
    unless p.described (
        send (
          send_row_description (
            column (codes "exists") 25 variable_size
            ∷ column (codes "version") 25 variable_size
            ∷ column (codes "numeric_version") 25 variable_size
            ∷ [])))
    send (
        send_data_row conv
          (text (if schema_exists p.params then codes "true" else codes "false")
            ∷ text version_text
            ∷ text (codes "140000")
            ∷ [])
          [] [])
    send (send_command_complete (codes "SELECT 1"))

  -- `fmt.Errorf("<what>: %w", err)` around a call.
  abbrev pub labelled : Bytes → Action (ConnState Db) (Unit {0}) → Action (ConnState Db) (Unit {0})
  labelled what m = attempt m (λ e. fail (failed (what ++ (codes ": " ++ error_text e)))) return

  unfoldable pub prepared_version : Portal → Action (ConnState Db) (Unit {0})
  prepared_version p = do
    unless p.described (
        labelled (codes "send row desc")
          (send (send_row_description (column (codes "version") 25 variable_size ∷ []))))
    labelled (codes "send data row") (send (send_data_row conv (text version_text ∷ []) [] []))
    labelled (codes "send command complete") (send (send_command_complete (codes "SELECT 1")))

  unfoldable pub send_returned : List (List Value) → Action (ConnState Db) (Unit {0})
  send_returned [] = return tt
  send_returned (r ∷ rs) =
      send (send_data_row conv (map returned_value r) [] []) >> send_returned rs

  abbrev pub inserted : Action (ConnState Db) (Unit {0})
  inserted = send (send_command_complete (codes "INSERT 0 1"))

  -- Step 3: the row whose id is the first parameter is selected and sent.
  unfoldable pub read_back :
      List Bytes → Bytes → List (Option Bytes) → Action (ConnState Db) (Unit {0})
  read_back cols table [] = inserted
  read_back cols table (p ∷ ps) =
      let id_val = elim p as (λ _. Bytes) [ none ↦ [] | some s ↦ s ] in
      attempt (ask (query_db (read_back_query cols table) (some id_val ∷ []))) (λ _. inserted)
        (λ result. send_returned result.rows >> inserted)

  unfoldable pub after_write : Bytes → Portal → Action (ConnState Db) (Unit {0})
  after_write orig_query p = elim (returned (returning_clause orig_query)) [
    | none ↦ inserted
    | some cols ↦ elim (written_table orig_query) [
      | none ↦ inserted
      | some table ↦ read_back cols table p.params
    ]
  ]

  unfoldable pub execute_write_returning :
      Bytes → Bytes → Portal → List ℕ → Action (ConnState Db) (Unit {0})
  execute_write_returning translated orig_query p oids = do
    args ← lift (convert_params services conv (head_or_zero p.format_codes) p.params oids)
    attempt (ask (exec translated args))
        (λ e. fail (wrap (codes "exec parameterized") translated e)) (λ _. after_write orig_query p)

  unfoldable pub execute_translated :
      Bytes → Bytes → Portal → List ℕ → Action (ConnState Db) (Unit {0})
  execute_translated translated query p oids =
      if contains (to_upper query) (codes "RETURNING") && is_write_query translated
      then execute_write_returning translated query p oids
      else elim p.params [
        | [] ↦ execute_mysql_query services conv translated (some p)
        | q ∷ qs ↦ execute_parameterized services conv translated p oids
      ]

  unfoldable pub execute_prepared : Stmt → Portal → Action (ConnState Db) (Unit {0})
  execute_prepared stmt p =
      let query = stmt.query in
      let nq = normalize_query query in
      if contains nq (codes "pg_advisory_lock") || contains nq (codes "pg_advisory_unlock")
      then prepared_advisory_lock p
      else if is_prisma_startup nq
      then handle_prisma_startup_query p
      else if equal nq (codes "select version()") || starts 14 (codes "select version") nq
      then prepared_version p
      else if is_catalog_query query
      then execute_catalog_query services conv (substitute p.format_codes 1 p.params query)
          p.described
      else attempt (translate_query services query)
          (λ e. fail (failed (codes "translate: " ++ error_text e)))
          (λ translated. execute_translated translated query p stmt.param_oids)

  unfoldable pub execute_portal : Execute → Action (ConnState Db) (Unit {0})
  execute_portal msg s = elim (lookup msg.portal s.portals) [
    | none ↦ (err (not_found (codes "portal") msg.portal), s)
    | some p ↦ execute_prepared (at_address s.heap p.stmt) p s
  ]

  unfoldable pub handle_execute : Bytes → Action (ConnState Db) (Unit {0})
  handle_execute body = do msg ← lift (parse_execute body); execute_portal msg
