-- ===== src/Session/Loop.antt =====
-- `handleMessage`, and the loop of `handleConn` over the messages. The handshake before the loop is
-- not modelled: the loop starts in any state of a connection.
use agentx_proxy.Prelude.{
  Ending, closed, crashed, stuck, ℕ, zero, suc, Option, none, some, List, [], ◌∷◌, Bytes, codes,
  ◌==◌, if◌then◌else◌, Error, ok, err, panicked, Outcome, Action, return, ignoring,
}
use agentx_proxy.Pgwire.{read_message}
use agentx_proxy.Pgwire.Backend.{Conversions, send_error_response}
use agentx_proxy.Session.{Services, ConnState, send, error_text}
use agentx_proxy.Session.Simple.{handle_simple_query, send_status}
use agentx_proxy.Session.Extended.{handle_parse, handle_bind, handle_execute, handle_close}
use agentx_proxy.Session.Describe.{handle_describe}

module _ (services : Services) (conv : Conversions) where
  open services use {Db}

  -- Flush, Terminate, Password and unknown messages change nothing.
  unfoldable pub handle_message : ℕ → Bytes → Action (ConnState Db) (Unit {0})
  handle_message msg_type body =
      if msg_type == b'Q'
      then handle_simple_query services conv body
      else if msg_type == b'P'
      then handle_parse services conv body
      else if msg_type == b'B'
      then handle_bind services conv body
      else if msg_type == b'E'
      then handle_execute services conv body
      else if msg_type == b'D'
      then handle_describe services body
      else if msg_type == b'S'
      then send_status services conv
      else if msg_type == b'C'
      then handle_close services conv body
      else return tt

  -- The three fields of the map, in one of the orders in which Go may walk it.
  unfoldable pub error_report : Error → List (ℕ × Bytes)
  unfolding error_text
  error_report e = (b'S', codes "ERROR") ∷ (b'C', codes "XX000") ∷ (b'M', error_text e) ∷ []

  abbrev pub after_report : Outcome (Unit {0}) × ConnState Db → Option Ending × ConnState Db
  after_report (ok u, s) = (none, (ignoring tt (send_status services conv) s).1)
  after_report (err e, s) = (some closed, s)
  after_report (panicked, s) = (some crashed, s)

  -- What the loop does with the result of a message: `none` goes on with the next one. An error is
  -- reported, with a ReadyForQuery behind it.
  unfoldable pub after_message : Outcome (Unit {0}) × ConnState Db → Option Ending × ConnState Db
  after_message (ok u, s) = (none, s)
  after_message (err e, s) = after_report (send (send_error_response (error_report e)) s)
  after_message (panicked, s) = (some crashed, s)

  abbrev pub resume :
      (Bytes → ConnState Db → Ending × ConnState Db)
      → Bytes
      → Option Ending × ConnState Db
      → Ending × ConnState Db
  resume loop rest (none, s) = loop rest s
  resume loop rest (some e, s) = (e, s)

  abbrev pub advance :
      (Bytes → ConnState Db → Ending × ConnState Db)
      → ConnState Db
      → Outcome (ℕ × Bytes) × Bytes
      → Ending × ConnState Db
  advance loop s (ok (t, body), rest) = resume loop rest (after_message (handle_message t body s))
  advance loop s (err e, rest) = (closed, s)
  advance loop s (panicked, rest) = (crashed, s)

  -- The loop, on what the client sends. Every message takes five bytes or more.
  unfoldable pub serve : ℕ → Bytes → ConnState Db → Ending × ConnState Db
  serve zero input s = (stuck, s)
  serve (suc fuel) input s = advance (serve fuel) s (read_message input)
