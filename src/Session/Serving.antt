-- ===== src/Session/Serving.antt =====
-- The loop over the messages: the tables of a connection stay in order for as long as it lives.
use agentx_proxy.Prelude.{
  ℕ, zero, suc, Option, none, some, List, Bytes, ok, err, panicked, Outcome, or_zero,
}
use agentx_proxy.Pgwire.{read_message}
use agentx_proxy.Pgwire.Backend.{Conversions, send_error_response}
use agentx_proxy.Session.{Stmt, Services, ConnState, send}
use agentx_proxy.Session.Simple.{send_status}
use agentx_proxy.Prelude.{Ending}
use agentx_proxy.Session.Loop.{
  error_report, handle_message, after_report, after_message, resume, advance, serve,
}
use agentx_proxy.Session.Frame.{Keeps-return}
use agentx_proxy.Session.Portals.{handle_execute-Keeps}
use agentx_proxy.Session.Linked.{Linked, KeepsLinked, KeepsLinked-Keeps, KeepsLinked-if}
use agentx_proxy.Session.Tables.{
  linked_send, send_status-Linked, handle_simple_query-Linked, handle_parse-Linked,
  handle_bind-Linked, handle_close-Linked,
}
use agentx_proxy.Session.Described.{handle_describe-Linked}

module _ (services : Services) (conv : Conversions) where
  open services use {Db}

  handle_message-Linked : (t : ℕ) (body : Bytes) → KeepsLinked (handle_message services conv t body)
  unfolding handle_message
  handle_message-Linked t body = KeepsLinked-if _ (handle_simple_query-Linked services conv body) (
      KeepsLinked-if _ (handle_parse-Linked services conv body) (
        KeepsLinked-if _ (handle_bind-Linked services conv body) (
          KeepsLinked-if _ (KeepsLinked-Keeps (handle_execute-Keeps services conv body)) (
            KeepsLinked-if _ (handle_describe-Linked services body) (
              KeepsLinked-if _ (send_status-Linked services conv) (
                KeepsLinked-if _ (handle_close-Linked services conv body)
                  (KeepsLinked-Keeps (Keeps-return tt))))))))

module _ (services : Services) (conv : Conversions) (base : List Stmt) where
  open services use {Db}

  after_report-Linked :
      (p : Outcome (Unit {0}) × ConnState Db)
      → Linked base p.1
      → Linked base (after_report services conv p).1
  after_report-Linked (ok u, s) l =
      go (send_status services conv s) ((send_status-Linked services conv).kept base s l)
    where
      go : (q : Outcome (Unit {0}) × ConnState Db) → Linked base q.1 → Linked base (or_zero tt q).1
      go (ok u, t) k = k
      go (err e, t) k = k
      go (panicked, t) k = k
  after_report-Linked (err e, s) l = l
  after_report-Linked (panicked, s) l = l

  after_message-Linked :
      (p : Outcome (Unit {0}) × ConnState Db)
      → Linked base p.1
      → Linked base (after_message services conv p).1
  unfolding after_message
  after_message-Linked (ok u, s) l = l
  after_message-Linked (err e, s) l =
      after_report-Linked (send (send_error_response (error_report services conv e)) s)
        ((linked_send _).kept base s l)
  after_message-Linked (panicked, s) l = l

  resume-Linked :
      (loop : Bytes → ConnState Db → Ending × ConnState Db)
      → ((rest : Bytes) (t : ConnState Db) → Linked base t → Linked base (loop rest t).1)
      → (rest : Bytes) (p : Option Ending × ConnState Db) → Linked base p.1
      → Linked base (resume services conv loop rest p).1
  resume-Linked loop h rest (none, t) k = h rest t k
  resume-Linked loop h rest (some e, t) k = k

  advance-Linked :
      (loop : Bytes → ConnState Db → Ending × ConnState Db)
      → ((rest : Bytes) (t : ConnState Db) → Linked base t → Linked base (loop rest t).1)
      → (s : ConnState Db) (r : Outcome (ℕ × Bytes) × Bytes) → Linked base s
      → Linked base (advance services conv loop s r).1
  advance-Linked loop h s (ok (t, body), rest) l =
      resume-Linked loop h rest
        (after_message services conv (handle_message services conv t body s))
        (after_message-Linked (handle_message services conv t body s)
          ((handle_message-Linked services conv t body).kept base s l))
  advance-Linked loop h s (err e, rest) l = l
  advance-Linked loop h s (panicked, rest) l = l

  -- However a connection goes on from tables in order, they are in order when the loop over its
  -- messages ends: every name stands for a statement or a portal of that name, every portal for a
  -- prepared statement, and the text of a statement that was prepared at an earlier time is unchanged.
  pub serve-Linked :
      (fuel : ℕ) (input : Bytes) (s : ConnState Db)
      → Linked base s
      → Linked base (serve services conv fuel input s).1
  unfolding serve
  serve-Linked zero input s l = l
  serve-Linked (suc n) input s l =
      advance-Linked (serve services conv n) (λ rest t. serve-Linked n rest t) s
        (read_message input) l
