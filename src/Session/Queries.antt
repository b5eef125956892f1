-- ===== src/Session/Queries.antt =====
-- Queries that are run on MySQL or answered from the catalog, and the rows sent back.
use agentx_proxy.Prelude.{
  ℕ, ◌+◌, Bool, false, ◌&&◌, Option, none, some, List, [], ◌∷◌, ◌++◌, map, Bytes, codes, length,
  drop, get_elem?, ◌==◌, if◌then◌else◌, Error, failed, ok, err, panicked, Outcome, Action, ◌>>=◌,
  ◌>>◌, return,
}
use agentx_proxy.Prelude.Strings.{equal, to_lower}
use agentx_proxy.Prelude.Maps.{lookup}
use agentx_proxy.Pgwire.Backend.{
  Value, null, text, FieldDescription, Conversions, format_int, send_row_description, send_data_row,
  send_command_complete, head_or_zero,
}
use agentx_proxy.Arrays.{Arg, convert_pg_param}
use agentx_proxy.Session.Columns.{catalog_oid, parse_select_columns}
use agentx_proxy.Catalog.Dispatch.{handle_catalog_query}
use agentx_proxy.Session.{
  Rows, Services, Portal, ConnState, send, ask, attempt, fail, lift, error_text, normalize_query,
  is_write_query, get_command_tag, can_binary_encode, mysql_type_to_pg_oid, column, variable_size,
}

-- `fmt.Errorf("<what>: %w (query: %s)", err, query)`
unfoldable pub wrap : Bytes → Bytes → Error → Error
unfolding error_text
wrap what query e =
    failed (what ++ (codes ": " ++ (error_text e ++ (codes " (query: " ++ (query ++ codes ")")))))

unfoldable pub describe_column : Bool → Bytes × Bytes → FieldDescription
unfolding mysql_type_to_pg_oid can_binary_encode column
describe_column binary (name, mysql_type) =
    let c = column name (mysql_type_to_pg_oid mysql_type) variable_size in
    if binary && can_binary_encode c.type_oid then record c { format_code = 1 } else c

unfoldable pub describe_columns : Bool → List (Bytes × Bytes) → List FieldDescription
unfolding describe_column
describe_columns binary cs = map (describe_column binary) cs

abbrev pub type_oids : List FieldDescription → List ℕ
type_oids = map (λ c. c.type_oid)

abbrev pub declared_formats : List FieldDescription → List ℕ
declared_formats = map (λ c. c.format_code)

-- `len(codes) > 0 && codes[0] == 1`
abbrev pub wants_binary : List ℕ → Bool
wants_binary [] = false
wants_binary (c ∷ cs) = c == 1

-- `fmt.Sprintf("SELECT %d", n)`
unfoldable pub select_tag : ℕ → Bytes
unfolding format_int
select_tag n = codes "SELECT " ++ format_int n

module _ (services : Services) (conv : Conversions) where
  open services use {Db, exec, query as query_db}

  -- The loop over the rows of a result, with the formats and types that each row is sent in.
  unfoldable pub send_rows : List (List Value) → List ℕ → List ℕ → Action (ConnState Db) (Unit {0})
  send_rows [] formats oids = return tt
  send_rows (r ∷ rs) formats oids =
      send (send_data_row conv r formats oids) >> send_rows rs formats oids

  unfoldable pub finish_result : ℕ → Option Error → Action (ConnState Db) (Unit {0})
  finish_result count none = send (send_command_complete (select_tag count))
  finish_result count (some e) = fail e

  -- The answer to a query: the description unless it is skipped, the rows, then the tag.
  unfoldable pub send_result :
      Bool
      → List FieldDescription
      → List ℕ
      → List ℕ
      → List (List Value)
      → Option Error
      → Action (ConnState Db) (Unit {0})
  send_result skip columns formats oids rows failure = do
    if skip then return tt else send (send_row_description columns)
    send_rows rows formats oids
    finish_result (length rows) failure

  unfoldable pub execute_write : Bytes → Bytes → List Arg → Action (ConnState Db) (Unit {0})
  execute_write what query args =
      attempt (ask (exec query args)) (λ e. fail (wrap what query e))
        (λ affected. send (send_command_complete (get_command_tag query affected)))

  -- In the extended protocol the columns take the format that the portal asks for.
  unfoldable pub answer_query : Rows → Option Portal → Action (ConnState Db) (Unit {0})
  answer_query result none =
      let columns = describe_columns false result.columns in
      send_result false columns (declared_formats columns) [] result.rows result.failure
  answer_query result (some p) =
      let columns = describe_columns (wants_binary p.result_format_codes) result.columns in
      send_result p.described columns (declared_formats columns) (type_oids columns) result.rows
        result.failure

  unfoldable pub execute_mysql_query : Bytes → Option Portal → Action (ConnState Db) (Unit {0})
  execute_mysql_query query portal =
      if is_write_query query
      then execute_write (codes "exec") query []
      else attempt (ask (query_db query [])) (λ e. fail (wrap (codes "query") query e))
          (λ result. answer_query result portal)

  -- The arguments of a portal. Every parameter is read in the first parameter's format.
  unfoldable pub convert_params : ℕ → List (Option Bytes) → List ℕ → Outcome (List Arg)
  convert_params format [] oids = ok []
  convert_params format (p ∷ ps) oids = elim (convert_pg_param p format (head_or_zero oids)) [
    | ok a ↦ elim (convert_params format ps (drop 1 oids)) [
      | ok as' ↦ ok (a ∷ as')
      | err e ↦ err e
      | panicked ↦ panicked
    ]
    | err e ↦ err e
    | panicked ↦ panicked
  ]

  unfoldable pub run_parameterized : Bytes → Portal → List Arg → Action (ConnState Db) (Unit {0})
  run_parameterized query p args =
      if is_write_query query
      then execute_write (codes "exec parameterized") query args
      else attempt (ask (query_db query args))
          (λ _. execute_write (codes "exec parameterized") query args)
          (λ result.
            let binary = wants_binary p.result_format_codes in
            let columns = describe_columns binary result.columns in
            send_result p.described columns (if binary then p.result_format_codes else [])
              (type_oids columns) result.rows result.failure)

  unfoldable pub execute_parameterized : Bytes → Portal → List ℕ → Action (ConnState Db) (Unit {0})
  execute_parameterized query p oids = do
    args ← lift (convert_params (head_or_zero p.format_codes) p.params oids)
    run_parameterized query p args

  -- The position of a column, by its lower-case name: the last one of that name.
  unfoldable pub position : Bytes → ℕ → List Bytes → Option ℕ
  position name i [] = none
  position name i (c ∷ cs) = elim (position name (i + 1) cs) [
    | some j ↦ some j
    | none ↦ if equal c name then some i else none
  ]

  unfoldable pub pick_value : List Value → Option ℕ → Value
  pick_value row none = null
  pick_value row (some i) = elim (get_elem? row i) [ none ↦ null | some v ↦ v ]

  unfoldable pub catalog_columns : List Bytes → List FieldDescription
  catalog_columns =
      map (λ c. column c (if catalog_oid c == 0 then 25 else catalog_oid c) variable_size)

  -- With a list of columns, each row is cut down to them; a column that is not there is NULL.
  unfoldable pub answer_catalog :
      Bool → List Bytes → List (List Value) → Option (List Bytes) → Action (ConnState Db) (Unit {0})
  answer_catalog described all rows none =
      send_result described (catalog_columns all) [] [] rows none
  answer_catalog described all rows (some selected) =
      let names = map to_lower selected in
      let indices = map (λ n. position n 0 all) names in
      send_result described (catalog_columns names) [] []
        (map (λ row. map (pick_value row) indices) rows) none

  unfoldable pub send_catalog :
      Bytes → Bool → List Bytes → List (List Value) → Action (ConnState Db) (Unit {0})
  send_catalog query described all rows =
      answer_catalog described all rows (parse_select_columns query)

  unfoldable pub catalog_answer :
      Bytes → Bool → Option (List Bytes × List (List Value)) → Action (ConnState Db) (Unit {0})
  catalog_answer query described none = execute_mysql_query query none
  catalog_answer query described (some (all, rows)) = send_catalog query described all rows

  unfoldable pub execute_catalog_query : Bytes → Bool → Action (ConnState Db) (Unit {0})
  execute_catalog_query query described = do
    answer ← ask (handle_catalog_query query_db query)
    catalog_answer query described answer

  unfoldable pub show_responses : List (Bytes × Bytes)
  show_responses =
      (codes "show server_version", codes "14.0 (AgentX Proxy)")
      ∷ (codes "show server_version_num", codes "140000")
      ∷ (codes "show standard_conforming_strings", codes "on")
      ∷ (codes "show timezone", codes "UTC")
      ∷ (codes "show datestyle", codes "ISO, MDY")
      ∷ (codes "show transaction isolation level", codes "read committed")
      ∷ []

  abbrev pub drop_error : Action (ConnState Db) (Unit {0}) → Action (ConnState Db) (Unit {0})
  drop_error m = attempt m (λ _. return tt) return

  -- The errors of the two messages before the tag are dropped.
  unfoldable pub answer_show : Bytes → Bytes → Option Bytes → Action (ConnState Db) (Unit {0})
  answer_show query q (some response) =
      drop_error (send (send_row_description (column (drop 5 q) 25 variable_size ∷ [])))
      >> drop_error (send (send_data_row conv (text response ∷ []) [] []))
      >> send (send_command_complete (codes "SHOW 1"))
  answer_show query q none = execute_mysql_query query none

  unfoldable pub handle_show_command : Bytes → Action (ConnState Db) (Unit {0})
  handle_show_command query =
      let q = normalize_query query in answer_show query q (lookup q show_responses)
