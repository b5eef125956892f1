-- ===== src/Session/Transactions.antt =====
-- The transaction state of a connection under the commands of the simple protocol.
use agentx_proxy.Prelude.{
  ℕ, ◌≤◌, Bool, true, false, none, [], ◌≡◌, ◌≢◌, arith, Bytes, codes, length, take, ok, err,
  panicked, Bool-cases, inl, inr, length-take, ap,
}
use agentx_proxy.Prelude.Maps.{equal→eq}
use agentx_proxy.Pgwire.Backend.{Conversions}
use agentx_proxy.Session.{
  Services, ConnState, send, ask, starts, transaction_status, normalize_query,
}
use agentx_proxy.Session.Simple.{
  Command, empty, create_schema, do_block, advisory_lock, begin, commit, rollback, savepoint,
  release, rollback_to, ignored_set, deallocate, set, show_isolation, show, other, classify,
  do_begin, do_commit, do_rollback, do_set, send_advisory_lock, execute_other, execute_command,
  execute_query,
}
use agentx_proxy.Session.Frame.{
  SameSession, Keeps, Keeps-lift, Keeps-send, Keeps-ask, Keeps-bind, Keeps-attempt, Keeps-if,
  translate_query-Keeps,
}
use agentx_proxy.Session.Answers.{
  execute_mysql_query-Keeps, execute_catalog_query-Keeps, drop_error-Keeps,
  handle_show_command-Keeps,
}

-- The commands that open, close or mark a transaction.
abbrev pub is_transactional : Command → Bool
is_transactional begin = true
is_transactional commit = true
is_transactional rollback = true
is_transactional savepoint = true
is_transactional release = true
is_transactional rollback_to = true
is_transactional _ = false

-- A text of `n` bytes or fewer is not equal to a longer one.
short_text : (q lit : Bytes) (n : ℕ) → length lit ≢ n → starts n lit q ≡ false
short_text q lit n h = elim (Bool-cases (starts n lit q)) [
  | inr e ↦ e
  | inl e ↦ absurd (h (size e))
]
  where
    size : starts n lit q ≡ true → length lit ≡ n
    size e =
        let same : take n q ≡ lit = equal→eq (take n q) lit (ground arith) in
        let long : n ≤ length q = ground arith in
        omega (arith, ap (length {0}) same, length-take n q)

-- No text of a query is recognized as a ROLLBACK TO SAVEPOINT: 22 bytes are compared with 21.
pub classify-ne-rollback_to : (q : Bytes) → classify q ≢ rollback_to
unfolding classify
classify-ne-rollback_to q e =
    ground (arith, short_text q (codes "rollback to savepoint") 22 (omega arith))

module _ (services : Services) (conv : Conversions) where
  open services use {Db, exec}

  execute_other-Keeps : (q query : Bytes) → Keeps (execute_other services conv q query)
  unfolding execute_other
  execute_other-Keeps q query = Keeps-if _ (execute_catalog_query-Keeps services conv query false) (
      Keeps-if _
        (Keeps-bind
          (Keeps-bind (drop_error-Keeps services conv (Keeps-send _))
            (λ _. drop_error-Keeps services conv (Keeps-send _)))
          (λ _. Keeps-send _))
        (Keeps-attempt (translate_query-Keeps services query) (λ e. Keeps-lift (err _))
          (λ t. execute_mysql_query-Keeps services conv t none)))

  do_set-Keeps : (q query : Bytes) → Keeps (do_set services conv q query)
  unfolding do_set
  do_set-Keeps q query =
      Keeps-if _ (Keeps-send _)
        (Keeps-attempt (Keeps-ask _) (λ e. Keeps-send _) (λ n. Keeps-send _))

  send_advisory_lock-Keeps : Keeps (send_advisory_lock services conv)
  unfolding send_advisory_lock
  send_advisory_lock-Keeps =
      Keeps-bind (Keeps-send _) (λ _. Keeps-bind (Keeps-send _) (λ _. Keeps-send _))

  pub execute_command-Keeps :
      (c : Command) (q query : Bytes)
      → is_transactional c ≡ false
      → Keeps (execute_command services conv c q query)
  unfolding execute_command
  execute_command-Keeps empty q query h = Keeps-send _
  execute_command-Keeps create_schema q query h = Keeps-send _
  execute_command-Keeps do_block q query h = Keeps-send _
  execute_command-Keeps advisory_lock q query h = send_advisory_lock-Keeps
  execute_command-Keeps ignored_set q query h = Keeps-send _
  execute_command-Keeps deallocate q query h = Keeps-send _
  execute_command-Keeps set q query h = do_set-Keeps q query
  execute_command-Keeps show_isolation q query h = Keeps-send _
  execute_command-Keeps show q query h = handle_show_command-Keeps services conv q
  execute_command-Keeps other q query h = execute_other-Keeps q query
  execute_command-Keeps begin q query h = cc
  execute_command-Keeps commit q query h = cc
  execute_command-Keeps rollback q query h = cc
  execute_command-Keeps savepoint q query h = cc
  execute_command-Keeps release q query h = cc
  execute_command-Keeps rollback_to q query h = cc

  -- A query that is none of the transaction commands leaves the flags, the statements and the
  -- portals as they are, whatever MySQL answers and also where a write fails.
  pub execute_query-SameSession :
      (query : Bytes) (s : ConnState Db)
      → is_transactional (classify (normalize_query query)) ≡ false
      → SameSession s (execute_query services conv query s).1
  unfolding execute_query
  execute_query-SameSession query s h =
      (execute_command-Keeps (classify (normalize_query query)) (normalize_query query) query
          h).kept
        s

  -- ROLLBACK ends a transaction: the connection is idle afterwards, also where MySQL refuses it or
  -- the answer cannot be written.
  pub do_rollback-idle :
      (s : ConnState Db)
      → s.in_transaction ≡ true
      → (exec (codes "ROLLBACK") [] s.db).0 ≢ panicked
      → ((do_rollback services conv s).1.in_transaction ≡ false)
        × ((do_rollback services conv s).1.transaction_failed ≡ false)
  unfolding do_rollback ask send
  do_rollback-idle s h e = ground arith

  -- COMMIT ends a transaction, but where MySQL accepts it the failure mark stays: a connection with
  -- the mark goes on reporting a failed transaction while it is in none.
  pub do_commit_keeps_mark :
      (s : ConnState Db) (n : ℕ)
      → s.in_transaction ≡ true
      → s.transaction_failed ≡ true
      → (exec (codes "COMMIT") [] s.db).0 ≡ ok n
      → ((do_commit services conv s).1.in_transaction ≡ false)
        × (transaction_status (do_commit services conv s).1 ≡ b'E')
  unfolding do_commit transaction_status ask send
  do_commit_keeps_mark s n h f e = ground arith

  -- BEGIN outside a transaction opens one; it is marked as failed exactly where MySQL refuses it.
  pub do_begin_flags :
      (s : ConnState Db)
      → s.in_transaction ≡ false
      → (exec (codes "BEGIN") [] s.db).0 ≢ panicked
      → ((do_begin services conv s).1.in_transaction ≡ true)
        × ((do_begin services conv s).1.transaction_failed ≡ elim (exec (codes "BEGIN") [] s.db).0 [
          | ok n ↦ false
          | err x ↦ true
          | panicked ↦ false
        ])
  unfolding do_begin ask send
  do_begin_flags s h e = ground arith

  -- BEGIN inside a transaction does nothing: no statement is run, and no answer is sent.
  pub do_begin_nested :
      (s : ConnState Db) → s.in_transaction ≡ true → do_begin services conv s ≡ (ok tt, s)
  unfolding do_begin
  do_begin_nested s h = rw h
