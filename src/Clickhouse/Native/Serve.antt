-- ===== src/Clickhouse/Native/Serve.antt =====
-- internal/proxy/clickhouse/http_server.go: a connection of the native protocol.
use agentx_proxy.Prelude.{
  ℕ, zero, suc, Bool, true, false, ignoring, none, some, List, [], ◌∷◌, Bytes, codes, ◌==◌,
  if◌then◌else◌, Error, ok, err, panicked, Outcome, Action, ◌>>=◌, return, handling, Ending, closed,
  crashed, stuck,
}
use agentx_proxy.Prelude.Strings.{to_upper, trim_space, has_prefix, equal}
use agentx_proxy.Streams.{Sink, write_byte, read_byte}
use agentx_proxy.Chproto.{read_fixed_uint32}
use agentx_proxy.Session.{error_text}
use agentx_proxy.Buffer.{WriteBuffer, enqueue}
use agentx_proxy.Clickhouse.Translator.{translate}
use agentx_proxy.Clickhouse.{ChServices, is_write_query}
use agentx_proxy.Clickhouse.Native.{
  send_all, send_empty_block, send_native_progress, send_native_complete, send_native_error,
  send_native_response, send_native_data, hello, greeting, read_hello_rest, read_query, skip_block,
}
use agentx_proxy.Clickhouse.Native.System.{handle_system_query_native}

-- A connection: the bytes to come, what was sent, and the state of the server, its write buffer and
-- the database.
pub record ChConn (Db : Type 0) : Type 0 where
  pub input : Bytes
  pub out : Sink
  pub server : WriteBuffer × Db

module _ {Db : Type 0} where
  -- A read of the connection.
  abbrev pub reading : {A : Type 0} → Action Bytes A → Action (ChConn Db) A
  reading m s = let (r, rest) = m s.input in (r, record s { input = rest })

  abbrev pub writing : {A : Type 0} → Action Sink A → Action (ChConn Db) A
  writing m s = let (r, w) = m s.out in (r, record s { out = w })

  -- A packet is sent; that it could not be is not looked at.
  abbrev pub sending : List (Action Sink (Unit {0})) → Action (ChConn Db) (Unit {0})
  sending packet s = (ok tt, record s { out = send_all packet s.out })

  abbrev pub on_server : {A : Type 0} → Action (WriteBuffer × Db) A → Action (ChConn Db) A
  on_server m s = let (r, t) = m s.server in (r, record s { server = t })

  abbrev pub on_db : {A : Type 0} → Action Db A → Action (ChConn Db) A
  on_db m s = let (r, d) = m s.server.1 in (r, record s { server = (s.server.0, d) })

module _ (services : ChServices) (max_alloc : ℕ) where
  open services use {pool, exec, query as query_db}

  abbrev pub send_failure : Error → Action (ChConn pool.Db) (Unit {0})
  send_failure e = sending (send_native_error (error_text e))

  unfoldable pub run_translated : Bytes → Action (ChConn pool.Db) (Unit {0})
  unfolding is_write_query to_upper has_prefix
  run_translated translated =
      if is_write_query translated
      then (if has_prefix (to_upper translated) (codes "INSERT")
          then on_server (λ t. (ok tt, enqueue pool translated t))
            >>= (λ _. sending send_native_progress)
          else handling (on_db (exec translated)) send_failure
              (λ n. sending (send_native_complete n)))
      else handling (on_db (query_db translated)) send_failure (λ r. sending (send_native_data r))

  unfoldable pub answer_query : Bytes → Action (ChConn pool.Db) (Unit {0})
  unfolding equal trim_space
  answer_query text =
      let q = trim_space text in
      if equal q []
      then sending send_empty_block
      else on_db (handle_system_query_native services q) >>= (λ resp.
        elim resp as (λ _. Action (ChConn pool.Db) (Unit {0})) [
          | some r ↦ sending (send_native_response r)
          | none ↦ handling (λ s. (translate q, s)) send_failure run_translated
        ])

  -- `handleCHQuery`
  unfoldable pub handle_ch_query : Action (ChConn pool.Db) (Unit {0})
  handle_ch_query = do text ← reading (read_query max_alloc); answer_query text

  -- `handleReHandshake`
  unfoldable pub handle_re_handshake : Action (ChConn pool.Db) (Unit {0})
  handle_re_handshake = do
    _ ← reading (ignoring 0 read_fixed_uint32)
    _ ← reading (read_hello_rest max_alloc)
    sending hello

  -- The packets after the handshake; `false` ends the connection.
  unfoldable pub handle_packet : ℕ → Action (ChConn pool.Db) Bool
  handle_packet packet_type =
      if packet_type == 1
      then handle_ch_query >>= (λ _. return true)
      else if packet_type == 2
      then reading (skip_block max_alloc) >>= (λ _. return true)
      else if packet_type == 3
      then return false
      else if packet_type == 4
      then sending (write_byte 4 ∷ []) >>= (λ _. return true)
      else if packet_type == 0
      then handle_re_handshake >>= (λ _. return true)
      else return true

  -- What the loop does with the result of a packet.
  abbrev pub advance :
      (ChConn pool.Db → Ending × ChConn pool.Db)
      → Outcome Bool × ChConn pool.Db
      → Ending × ChConn pool.Db
  advance loop (ok true, s) = loop s
  advance loop (ok false, s) = (closed, s)
  advance loop (err e, s) = (closed, s)
  advance loop (panicked, s) = (crashed, s)

  unfoldable pub serve : ℕ → ChConn pool.Db → Ending × ChConn pool.Db
  serve zero s = (stuck, s)
  serve (suc fuel) s = advance (serve fuel) ((reading read_byte >>= handle_packet) s)

  -- `handleConn`: the handshake, of which only the first field has to be there and the answer has to
  -- be written, and the packets.
  unfoldable pub handle_conn : ℕ → ChConn pool.Db → Ending × ChConn pool.Db
  handle_conn fuel s = advance (serve fuel) (
      (do
        _ ← reading read_fixed_uint32
        _ ← reading (read_hello_rest max_alloc)
        _ ← writing greeting
        return true)
        s)
