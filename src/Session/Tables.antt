-- ===== src/Session/Tables.antt =====
-- Every message, and so the loop over the messages, keeps the tables of the connection in order.
use agentx_proxy.Prelude.{
  List, ℕ, Bool, true, false, ◌≡◌, refl, Option, none, some, [], Bytes, Error, codes, err, Outcome,
  Action, ◌>>◌, ◌==◌, if◌then◌else◌,
}
use agentx_proxy.Prelude.Maps.{lookup}
use agentx_proxy.Streams.{Sink}
use agentx_proxy.Pgwire.{Bind, Target, parse_query, parse_parse, parse_bind, parse_target}
use agentx_proxy.Pgwire.Backend.{
  Conversions, send_bind_complete, send_parse_complete, send_close_complete, send_command_complete,
  send_ready_for_query,
}
use agentx_proxy.Session.{
  Stmt, Services, ConnState, send, ask, fail, attempt, transaction_status, normalize_query,
}
use agentx_proxy.Session.Simple.{
  Command, classify, empty, create_schema, do_block, advisory_lock, ignored_set, deallocate, set,
  show_isolation, show, other, begin, commit, rollback, savepoint, release, rollback_to, set_flags,
  set_failed, complete, do_begin, do_commit, do_rollback, run_command, do_savepoint,
  execute_command, execute_query, handle_simple_query, send_status,
}
use agentx_proxy.Session.Extended.{
  not_found, store_statement, handle_parse, store_portal, bind_statement, handle_bind, forget,
  handle_close,
}
use agentx_proxy.Session.Frame.{Keeps-return, Keeps-lift, Keeps-send, Keeps-ask}
use agentx_proxy.Session.Transactions.{execute_command-Keeps}
use agentx_proxy.Session.Linked.{
  Linked, Tables-insert, Tables-portal, Tables-delete, Tables-delete_portal, KeepsLinked,
  KeepsLinked-Keeps, KeepsLinked-bind, KeepsLinked-attempt, KeepsLinked-if,
}

module _ {Db : Type 0} where
  pub linked_send : (m : Action Sink (Unit {0})) → KeepsLinked {Db = Db} (send m)
  linked_send m = KeepsLinked-Keeps (Keeps-send m)

  pub linked_fail : (e : Error) → KeepsLinked {Db = Db} (fail {A = Unit {0}} e)
  linked_fail e = record { kept = λ base s l. l }

  pub linked_choice :
      (b : ConnState Db → Bool) {m k : Action (ConnState Db) (Unit {0})}
      → KeepsLinked m
      → KeepsLinked k
      → KeepsLinked (λ s. if b s then m s else k s)
  linked_choice b {m} {k} hm hk = record {
    kept = λ base s l. go base (m s) (k s) (b s) (hm.kept base s l) (hk.kept base s l);
  }
    where
      go :
          (base : List Stmt) (p q : Outcome (Unit {0}) × ConnState Db) (c : Bool)
          → Linked base p.1
          → Linked base q.1
          → Linked base (if c then p else q).1
      go base p q true hp hq = hp
      go base p q false hp hq = hq

  -- A call that looks at the state first.
  pub linked_at :
      {B : Type 0} (get : ConnState Db → B) {f : B → Action (ConnState Db) (Unit {0})}
      → ((b : B) → KeepsLinked (f b))
      → KeepsLinked (λ s. f (get s) s)
  linked_at get h = record { kept = λ base s l. (h (get s)).kept base s l }

module _ (services : Services) (conv : Conversions) where
  open services use {Db, exec}

  linked_flags : (b c : Bool) → KeepsLinked (set_flags services conv b c)
  linked_flags b c = record { kept = λ base s l. l }

  linked_failed : (b : Bool) → KeepsLinked (set_failed services conv b)
  linked_failed b = record { kept = λ base s l. l }

  linked_complete : (tag : Bytes) → KeepsLinked (complete services conv tag)
  linked_complete tag = linked_send (send_command_complete tag)

  -- A transaction command: a statement on MySQL, and the flags by its result.
  linked_mysql :
      (query : Bytes) {g : Error → Action (ConnState Db) (Unit {0})}
      {f : ℕ → Action (ConnState Db) (Unit {0})}
      → ((e : Error) → KeepsLinked (g e))
      → ((n : ℕ) → KeepsLinked (f n))
      → KeepsLinked (attempt (ask (exec query [])) g f)
  linked_mysql query = KeepsLinked-attempt (KeepsLinked-Keeps (Keeps-ask (exec query [])))

  refused :
      (b c : Bool) (e : Error) → KeepsLinked {A = Unit {0}} (set_flags services conv b c >> fail e)
  refused b c e = KeepsLinked-bind (linked_flags b c) (λ _. linked_fail e)

  refused_failed :
      (e : Error) → KeepsLinked {A = Unit {0}} (set_failed services conv true >> fail e)
  refused_failed e = KeepsLinked-bind (linked_failed true) (λ _. linked_fail e)

  accepted :
      (b c : Bool) (tag : Bytes)
      → KeepsLinked (set_flags services conv b c >> complete services conv tag)
  accepted b c tag = KeepsLinked-bind (linked_flags b c) (λ _. linked_complete tag)

  do_begin-Linked : KeepsLinked (do_begin services conv)
  unfolding do_begin
  do_begin-Linked =
      linked_choice (λ s. s.in_transaction) (KeepsLinked-Keeps (Keeps-return tt))
        (KeepsLinked-bind (linked_flags true false)
          (λ _. linked_mysql (codes "BEGIN") refused_failed (λ _. linked_complete (codes "BEGIN"))))

  do_commit-Linked : KeepsLinked (do_commit services conv)
  unfolding do_commit
  do_commit-Linked =
      linked_choice (λ s. s.in_transaction)
        (linked_mysql (codes "COMMIT") (refused false false)
          (λ _. linked_at (λ t. t.transaction_failed) (λ c. accepted false c (codes "COMMIT"))))
        (KeepsLinked-Keeps (Keeps-return tt))

  do_rollback-Linked : KeepsLinked (do_rollback services conv)
  unfolding do_rollback
  do_rollback-Linked =
      linked_choice (λ s. s.in_transaction)
        (linked_mysql (codes "ROLLBACK") (refused false false)
          (λ _. accepted false false (codes "ROLLBACK")))
        (KeepsLinked-Keeps (Keeps-return tt))

  run_command-Linked : (query tag : Bytes) → KeepsLinked (run_command services conv query tag)
  unfolding run_command
  run_command-Linked query tag = linked_mysql query refused_failed (λ _. linked_complete tag)

  do_savepoint-Linked : (query : Bytes) → KeepsLinked (do_savepoint services conv query)
  unfolding do_savepoint
  do_savepoint-Linked query =
      linked_at (λ s. s.transaction_failed)
        (λ c.
          KeepsLinked-bind (linked_flags true c)
            (λ _. run_command-Linked query (codes "SAVEPOINT")))

  execute_command-Linked :
      (c : Command) (q query : Bytes) → KeepsLinked (execute_command services conv c q query)
  unfolding execute_command
  execute_command-Linked begin q query = do_begin-Linked
  execute_command-Linked commit q query = do_commit-Linked
  execute_command-Linked rollback q query = do_rollback-Linked
  execute_command-Linked savepoint q query = do_savepoint-Linked query
  execute_command-Linked release q query = run_command-Linked query (codes "RELEASE")
  execute_command-Linked rollback_to q query =
      run_command-Linked query (codes "ROLLBACK TO SAVEPOINT")
  execute_command-Linked empty q query =
      KeepsLinked-Keeps (execute_command-Keeps services conv empty q query refl)
  execute_command-Linked create_schema q query =
      KeepsLinked-Keeps (execute_command-Keeps services conv create_schema q query refl)
  execute_command-Linked do_block q query =
      KeepsLinked-Keeps (execute_command-Keeps services conv do_block q query refl)
  execute_command-Linked advisory_lock q query =
      KeepsLinked-Keeps (execute_command-Keeps services conv advisory_lock q query refl)
  execute_command-Linked ignored_set q query =
      KeepsLinked-Keeps (execute_command-Keeps services conv ignored_set q query refl)
  execute_command-Linked deallocate q query =
      KeepsLinked-Keeps (execute_command-Keeps services conv deallocate q query refl)
  execute_command-Linked set q query =
      KeepsLinked-Keeps (execute_command-Keeps services conv set q query refl)
  execute_command-Linked show_isolation q query =
      KeepsLinked-Keeps (execute_command-Keeps services conv show_isolation q query refl)
  execute_command-Linked show q query =
      KeepsLinked-Keeps (execute_command-Keeps services conv show q query refl)
  execute_command-Linked other q query =
      KeepsLinked-Keeps (execute_command-Keeps services conv other q query refl)

  pub send_status-Linked : KeepsLinked (send_status services conv)
  unfolding send_status
  send_status-Linked =
      linked_at (λ s. transaction_status s) (λ b. linked_send (send_ready_for_query b))

  pub handle_simple_query-Linked :
      (body : Bytes) → KeepsLinked (handle_simple_query services conv body)
  unfolding handle_simple_query execute_query
  handle_simple_query-Linked body =
      KeepsLinked-bind (KeepsLinked-Keeps (Keeps-lift (parse_query body))) (λ query.
        KeepsLinked-bind
          (execute_command-Linked (classify (normalize_query query)) (normalize_query query) query)
          (λ _. KeepsLinked-if _ (KeepsLinked-Keeps (Keeps-return tt)) send_status-Linked))

  pub handle_parse-Linked : (body : Bytes) → KeepsLinked (handle_parse services conv body)
  unfolding handle_parse
  handle_parse-Linked body =
      KeepsLinked-bind (KeepsLinked-Keeps (Keeps-lift (parse_parse body))) (λ msg.
        KeepsLinked-bind {m = store_statement services conv msg}
          (record { kept = λ base s l. Tables-insert _ l }) (λ _. linked_send send_parse_complete))

  bind_statement-Linked : (msg : Bind) → KeepsLinked (bind_statement services conv msg)
  unfolding bind_statement
  bind_statement-Linked msg = record {
    kept = λ base s l. go base s (lookup msg.prepared_statement s.prepared_statements) refl l;
  }
    where
      go :
          (base : List Stmt) (s : ConnState Db) (o : Option ℕ)
          → lookup msg.prepared_statement s.prepared_statements ≡ o
          → Linked base s
          → Linked base
              (elim o as (λ _. Outcome (Unit {0}) × ConnState Db) [
                | none ↦ (err (not_found (codes "prepared statement") msg.prepared_statement), s)
                | some stmt ↦ (store_portal services conv msg stmt >> send send_bind_complete) s
              ]).1
      go base s none e l = l
      go base s (some a) e l =
          (linked_send send_bind_complete).kept base _ (Tables-portal _ (l.bound _ a e) l)

  pub handle_bind-Linked : (body : Bytes) → KeepsLinked (handle_bind services conv body)
  unfolding handle_bind
  handle_bind-Linked body =
      KeepsLinked-bind (KeepsLinked-Keeps (Keeps-lift (parse_bind body))) bind_statement-Linked

  forget-Linked : (msg : Target) → KeepsLinked (forget services conv msg)
  forget-Linked msg =
      linked_choice (λ _. msg.kind == b'S') (record { kept = λ base s l. Tables-delete msg.name l })
        (record { kept = λ base s l. Tables-delete_portal msg.name l })

  pub handle_close-Linked : (body : Bytes) → KeepsLinked (handle_close services conv body)
  unfolding handle_close
  handle_close-Linked body =
      KeepsLinked-bind (KeepsLinked-Keeps (Keeps-lift (parse_target body)))
        (λ msg. KeepsLinked-bind (forget-Linked msg) (λ _. linked_send send_close_complete))
