-- ===== src/Session/Simple.antt =====
-- The simple query protocol: `executeQuery` and `handleSimpleQuery`.
use agentx_proxy.Prelude.{
  Bool, true, false, ◌&&◌, ◌||◌, none, [], ◌∷◌, ◌++◌, Bytes, codes, length, take, leb,
  if◌then◌else◌, failed, ok, Action, ◌>>=◌, ◌>>◌, return,
}
use agentx_proxy.Prelude.Strings.{has_prefix, contains, equal, equal_fold}
use agentx_proxy.Pgwire.{parse_query}
use agentx_proxy.Pgwire.Backend.{
  text, boolean, Conversions, send_row_description, send_data_row, send_command_complete,
  send_empty_query_response, send_ready_for_query,
}
use agentx_proxy.Catalog.Dispatch.{is_catalog_query}
use agentx_proxy.Session.{
  translate_query, Services, ConnState, send, ask, attempt, fail, lift, error_text, normalize_query,
  starts, transaction_status, column, variable_size,
}
use agentx_proxy.Session.Queries.{
  drop_error, execute_mysql_query, execute_catalog_query, handle_show_command,
}

-- What `executeQuery` does with a query, by its normalized text `q` in the order of its tests.
pub data Command : Type 0 where
  empty create_schema do_block advisory_lock : Command
  begin commit rollback savepoint release rollback_to : Command
  ignored_set deallocate set show_isolation show : Command
  other : Command

unfoldable pub classify : Bytes → Command
classify q =
    if equal q [] || has_prefix q (codes "--")
    then empty
    else if has_prefix q (codes "create schema")
    then create_schema
    else if has_prefix q (codes "do")
    then do_block
    else if contains q (codes "pg_advisory_lock") || contains q (codes "pg_advisory_unlock")
    then advisory_lock
    else if equal q (codes "begin")
    then begin
    else if equal q (codes "commit") || (equal q (codes "commit work") || equal q (codes "end"))
    then commit
    else if equal q (codes "rollback") || equal q (codes "rollback work")
    then rollback
    else if starts 9 (codes "savepoint") q
    then savepoint
    else if starts 17 (codes "release savepoint") q
    then release
    else if starts 22 (codes "rollback to savepoint") q
    then rollback_to
    else if equal q (codes "set session character set to 'utf8'")
        || (equal q (codes "set client_encoding to 'utf8'")
            || starts 18 (codes "set session_replica") q)
    then ignored_set
    else if starts 11 (codes "deallocate ") q
    then deallocate
    else if starts 4 (codes "set ") q
    then set
    else if equal q (codes "show transaction isolation level")
    then show_isolation
    else if starts 5 (codes "show ") q
    then show
    else other

module _ (services : Services) (conv : Conversions) where
  open services use {Db, exec}

  abbrev pub complete : Bytes → Action (ConnState Db) (Unit {0})
  complete tag = send (send_command_complete tag)

  -- The flags of the connection.
  abbrev pub set_flags : Bool → Bool → Action (ConnState Db) (Unit {0})
  set_flags open_tx bad s = (ok tt, record s { in_transaction = open_tx; transaction_failed = bad })

  abbrev pub set_failed : Bool → Action (ConnState Db) (Unit {0})
  set_failed bad s = (ok tt, record s { transaction_failed = bad })

  unfoldable pub do_begin : Action (ConnState Db) (Unit {0})
  do_begin s =
      if s.in_transaction
      then (ok tt, s)
      else (set_flags true false
            >> attempt (ask (exec (codes "BEGIN") [])) (λ e. set_failed true >> fail e)
                (λ _. complete (codes "BEGIN")))
          s

  unfoldable pub do_commit : Action (ConnState Db) (Unit {0})
  do_commit s =
      if s.in_transaction
      then attempt (ask (exec (codes "COMMIT") [])) (λ e. set_flags false false >> fail e)
          (λ _ t. (set_flags false t.transaction_failed >> complete (codes "COMMIT")) t) s
      else (ok tt, s)

  unfoldable pub do_rollback : Action (ConnState Db) (Unit {0})
  do_rollback s =
      if s.in_transaction
      then attempt (ask (exec (codes "ROLLBACK") [])) (λ e. set_flags false false >> fail e)
          (λ _. set_flags false false >> complete (codes "ROLLBACK")) s
      else (ok tt, s)

  -- A savepoint command is run as it was written; an error marks the transaction as failed.
  unfoldable pub run_command : Bytes → Bytes → Action (ConnState Db) (Unit {0})
  run_command query tag =
      attempt (ask (exec query [])) (λ e. set_failed true >> fail e) (λ _. complete tag)

  unfoldable pub do_savepoint : Bytes → Action (ConnState Db) (Unit {0})
  do_savepoint query s =
      (set_flags true s.transaction_failed >> run_command query (codes "SAVEPOINT")) s

  unfoldable pub do_set : Bytes → Bytes → Action (ConnState Db) (Unit {0})
  do_set q query =
      if contains q (codes "isolation level")
      then complete (codes "SET")
      else attempt (ask (exec query [])) (λ e. complete (codes "SET")) (λ _. complete (codes "SET"))

  unfoldable pub send_advisory_lock : Action (ConnState Db) (Unit {0})
  send_advisory_lock = do
    send (send_row_description (column (codes "pg_advisory_lock") 16 1 ∷ []))
    send (send_data_row conv (boolean true ∷ []) [] [])
    complete (codes "SELECT 1")

  -- The rest of `executeQuery`: the catalog, `SELECT version()`, and what is translated.
  unfoldable pub execute_other : Bytes → Bytes → Action (ConnState Db) (Unit {0})
  execute_other q query =
      if is_catalog_query query
      then execute_catalog_query services conv query false
      else if equal q (codes "select version()")
          || (leb 15 (length query) && equal_fold (take 14 query) (codes "select version"))
      then drop_error services conv
          (send (send_row_description (column (codes "version") 25 variable_size ∷ [])))
        >> drop_error services conv
            (send (send_data_row conv (text (codes "14.0 (AgentX Proxy)") ∷ []) [] []))
        >> complete (codes "SELECT 1")
      else attempt (translate_query services query)
          (λ e. fail (failed (codes "translate: " ++ error_text e)))
          (λ translated. execute_mysql_query services conv translated none)

  unfoldable pub execute_command : Command → Bytes → Bytes → Action (ConnState Db) (Unit {0})
  execute_command empty q query = send send_empty_query_response
  execute_command create_schema q query = complete (codes "CREATE SCHEMA")
  execute_command do_block q query = complete (codes "DO")
  execute_command advisory_lock q query = send_advisory_lock
  execute_command begin q query = do_begin
  execute_command commit q query = do_commit
  execute_command rollback q query = do_rollback
  execute_command savepoint q query = do_savepoint query
  execute_command release q query = run_command query (codes "RELEASE")
  execute_command rollback_to q query = run_command query (codes "ROLLBACK TO SAVEPOINT")
  execute_command ignored_set q query = complete (codes "SET")
  execute_command deallocate q query = complete (codes "DEALLOCATE")
  execute_command set q query = do_set q query
  execute_command show_isolation q query = complete (codes "SHOW")
  execute_command show q query = handle_show_command services conv q
  execute_command other q query = execute_other q query

  unfoldable pub execute_query : Bytes → Action (ConnState Db) (Unit {0})
  execute_query query = let q = normalize_query query in execute_command (classify q) q query

  unfoldable pub send_status : Action (ConnState Db) (Unit {0})
  send_status s = send (send_ready_for_query (transaction_status s)) s

  -- No ReadyForQuery follows a DEALLOCATE.
  unfoldable pub handle_simple_query : Bytes → Action (ConnState Db) (Unit {0})
  handle_simple_query body = do
    query ← lift (parse_query body)
    execute_query query
    if starts 11 (codes "deallocate ") (normalize_query query) then return tt else send_status
