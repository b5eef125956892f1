-- ===== src/Session/Portals.antt =====
-- `executePreparedStatement`: what running a portal leaves of the session.
use agentx_proxy.Prelude.{
  ℕ, Bool, true, false, none, some, List, [], ◌∷◌, Option, Bytes, codes, err, Error, Outcome,
  return, Action,
}
use agentx_proxy.Prelude.Maps.{lookup}
use agentx_proxy.Pgwire.{Execute}
use agentx_proxy.Pgwire.Backend.{Conversions, Value}
use agentx_proxy.Session.Columns.{returned}
use agentx_proxy.Session.Clauses.{returning_clause, written_table}
use agentx_proxy.Session.{Services, Stmt, Portal, ConnState, send, attempt, fail}
use agentx_proxy.Streams.{Sink}
use agentx_proxy.Session.Extended.{
  at_address, not_found, unless, prepared_advisory_lock, handle_prisma_startup_query,
  prepared_version, send_returned, inserted, read_back, after_write, execute_write_returning,
  execute_translated, execute_prepared, execute_portal, handle_execute,
}
use agentx_proxy.Session.Queries.{execute_mysql_query, execute_parameterized}
use agentx_proxy.Session.Frame.{
  SameSession, Keeps, Keeps-return, Keeps-lift, Keeps-send, Keeps-ask, Keeps-bind, Keeps-attempt,
  Keeps-if, translate_query-Keeps,
}
use agentx_proxy.Session.Answers.{
  execute_mysql_query-Keeps, execute_parameterized-Keeps, execute_catalog_query-Keeps,
}

module _ (services : Services) (conv : Conversions) where
  open services use {Db}

  unless-Keeps :
      (b : Bool) {m : Action (ConnState Db) (Unit {0})} → Keeps m → Keeps (unless services conv b m)
  unless-Keeps true h = Keeps-return tt
  unless-Keeps false h = h

  -- A message whose error is labelled.
  labelled-Keeps :
      (m : Action Sink (Unit {0})) (g : Error → Error)
      → Keeps {Db = Db} (attempt (send m) (λ e. fail (g e)) return)
  labelled-Keeps m g = Keeps-attempt (Keeps-send m) (λ e. Keeps-lift (err _)) (λ u. Keeps-return u)

  prepared_advisory_lock-Keeps : (p : Portal) → Keeps (prepared_advisory_lock services conv p)
  unfolding prepared_advisory_lock
  prepared_advisory_lock-Keeps p =
      Keeps-bind (unless-Keeps p.described (Keeps-send _))
        (λ _. Keeps-bind (Keeps-send _) (λ _. Keeps-send _))

  handle_prisma_startup_query-Keeps :
      (p : Portal) → Keeps (handle_prisma_startup_query services conv p)
  unfolding handle_prisma_startup_query
  handle_prisma_startup_query-Keeps p =
      Keeps-bind (unless-Keeps p.described (Keeps-send _))
        (λ _. Keeps-bind (Keeps-send _) (λ _. Keeps-send _))

  prepared_version-Keeps : (p : Portal) → Keeps (prepared_version services conv p)
  unfolding prepared_version
  prepared_version-Keeps p =
      Keeps-bind (unless-Keeps p.described (labelled-Keeps _ _))
        (λ _. Keeps-bind (labelled-Keeps _ _) (λ _. labelled-Keeps _ _))

  send_returned-Keeps : (rs : List (List Value)) → Keeps (send_returned services conv rs)
  unfolding send_returned
  send_returned-Keeps [] = Keeps-return tt
  send_returned-Keeps (r ∷ rs) = Keeps-bind (Keeps-send _) (λ _. send_returned-Keeps rs)

  read_back-Keeps :
      (cols : List Bytes) (table : Bytes) (ps : List (Option Bytes))
      → Keeps (read_back services conv cols table ps)
  unfolding read_back
  read_back-Keeps cols table [] = Keeps-send _
  read_back-Keeps cols table (p ∷ ps) =
      Keeps-attempt (Keeps-ask _) (λ _. Keeps-send _)
        (λ r. Keeps-bind (send_returned-Keeps r.rows) (λ _. Keeps-send _))

  after_write-Keeps : (q : Bytes) (p : Portal) → Keeps (after_write services conv q p)
  unfolding after_write
  after_write-Keeps q p = go (returned (returning_clause q)) (written_table q)
    where
      go :
          (o : Option (List Bytes)) (t : Option Bytes)
          → Keeps (elim o as (λ _. Action (ConnState Db) (Unit {0})) [
            | none ↦ inserted services conv
            | some cols ↦ elim t as (λ _. Action (ConnState Db) (Unit {0})) [
              | none ↦ inserted services conv
              | some table ↦ read_back services conv cols table p.params
            ]
          ])
      go none t = Keeps-send _
      go (some cols) none = Keeps-send _
      go (some cols) (some table) = read_back-Keeps cols table p.params

  execute_write_returning-Keeps :
      (t q : Bytes) (p : Portal) (oids : List ℕ)
      → Keeps (execute_write_returning services conv t q p oids)
  unfolding execute_write_returning
  execute_write_returning-Keeps t q p oids =
      Keeps-bind (Keeps-lift _)
        (λ args. Keeps-attempt (Keeps-ask _) (λ e. Keeps-lift (err _)) (λ _. after_write-Keeps q p))

  execute_translated-Keeps :
      (t q : Bytes) (p : Portal) (oids : List ℕ)
      → Keeps (execute_translated services conv t q p oids)
  unfolding execute_translated
  execute_translated-Keeps t q p oids =
      Keeps-if _ (execute_write_returning-Keeps t q p oids) (go p.params)
    where
      go :
          (ps : List (Option Bytes))
          → Keeps (elim ps as (λ _. Action (ConnState Db) (Unit {0})) [
            | [] ↦ execute_mysql_query services conv t (some p)
            | r ∷ rs ↦ execute_parameterized services conv t p oids
          ])
      go [] = execute_mysql_query-Keeps services conv t (some p)
      go (r ∷ rs) = execute_parameterized-Keeps services conv t p oids

  execute_prepared-Keeps : (s : Stmt) (p : Portal) → Keeps (execute_prepared services conv s p)
  unfolding execute_prepared
  execute_prepared-Keeps s p = Keeps-if _ (prepared_advisory_lock-Keeps p) (
      Keeps-if _ (handle_prisma_startup_query-Keeps p) (
        Keeps-if _ (prepared_version-Keeps p) (
          Keeps-if _ (execute_catalog_query-Keeps services conv _ _) (
            Keeps-attempt (translate_query-Keeps services s.query) (λ e. Keeps-lift (err _))
              (λ t. execute_translated-Keeps t s.query p s.param_oids)))))

  execute_portal-Keeps : (msg : Execute) → Keeps (execute_portal services conv msg)
  unfolding execute_portal
  execute_portal-Keeps msg = record { kept = λ s. go s (lookup msg.portal s.portals) }
    where
      go :
          (s : ConnState Db) (o : Option Portal)
          → SameSession s
              (elim o as (λ _. Outcome (Unit {0}) × ConnState Db) [
                | none ↦ (err (not_found (codes "portal") msg.portal), s)
                | some p ↦ execute_prepared services conv (at_address s.heap p.stmt) p s
              ]).1
      go s none = (Keeps-return tt).kept s
      go s (some p) = (execute_prepared-Keeps (at_address s.heap p.stmt) p).kept s

  pub handle_execute-Keeps : (body : Bytes) → Keeps (handle_execute services conv body)
  unfolding handle_execute
  handle_execute-Keeps body = Keeps-bind (Keeps-lift _) (λ msg. execute_portal-Keeps msg)

  -- An Execute message changes nothing of the session but the output and the database: not the
  -- transaction flags, not the statements, not the portals, whether it succeeds or fails.
  pub handle_execute-SameSession :
      (body : Bytes) (s : ConnState Db) → SameSession s (handle_execute services conv body s).1
  handle_execute-SameSession body s = (handle_execute-Keeps body).kept s
