-- ===== src/Session/Handshake.antt =====
-- internal/proxy/postgresql/server.go: the handshake at the start of handleConn, which gives the
-- parameters of the connection. Its errors close the connection.
use agentx_proxy.Prelude.{
  ℕ, ◌-◌, ◌*◌, ◌+◌, ◌^◌, List, [], ◌∷◌, Bytes, codes, length, take, drop, ltb, ◌==◌, if◌then◌else◌,
  failed, err, Action, ◌>>=◌, ◌>>◌, return, ignoring,
}
use agentx_proxy.Prelude.Strings.{split}
use agentx_proxy.Prelude.Maps.{insert}
use agentx_proxy.Streams.{Sink, read_full, write_byte}
use agentx_proxy.Pgwire.{take_uint32}
use agentx_proxy.Pgwire.Backend.{
  authentication_ok, send_parameter_status, send_backend_key_data, send_ready_for_query,
}

-- The connection: the bytes to come, and what is written.
abbrev pub Wire : Type 0
Wire = Bytes × Sink

abbrev from_client : {A : Type 0} → Action Bytes A → Action Wire A
from_client m (input, w) = let (r, rest) = m input in (r, (rest, w))

abbrev to_client : Action Sink (Unit {0}) → Action Wire (Unit {0})
to_client m (input, w) = let (r, w') = m w in (r, (input, w'))

-- A write whose error is not looked at.
abbrev told : Action Sink (Unit {0}) → Action Wire (Unit {0})
told m = ignoring tt (to_client m)

-- `binary.BigEndian.Uint32(buf[from:])`
unfoldable pub uint32_at : ℕ → Bytes → Action Wire ℕ
unfolding take_uint32
uint32_at from buf s = ((take_uint32 (drop from buf)).0, s)

-- A request for TLS is denied, and the startup message read after it.
unfoldable pub startup_header : Action Wire Bytes
unfolding uint32_at read_full
startup_header = do
  buf ← from_client (read_full 8)
  code ← uint32_at 4 buf
  if code == 1234 * 2 ^ 16 + 5679
      then told (write_byte b'N') >> from_client (read_full 8)
      else return buf

abbrev without_last : Bytes → Bytes
without_last s = take (length s - 1) s

-- Names and values in turn; a name without a value is left out.
unfoldable pub paired : List Bytes → List (Bytes × Bytes) → List (Bytes × Bytes)
unfolding insert
paired [] params = params
paired (k ∷ []) params = params
paired (k ∷ v ∷ parts) params = paired parts (insert k v params)

unfoldable pub startup_params : Bytes → List (Bytes × Bytes)
unfolding paired split
startup_params remaining =
    if ltb 1 (length remaining) then paired (split (without_last remaining) 0) [] else []

-- The parameters that every client is told, in the order of the source; Go sends them in any order.
unfoldable pub status_params : List (Bytes × Bytes)
status_params =
    (codes "server_version", codes "14.0 (AgentX Proxy)")
    ∷ (codes "server_encoding", codes "UTF8")
    ∷ (codes "client_encoding", codes "UTF8")
    ∷ (codes "application_name", codes "agentx-proxy")
    ∷ (codes "DateStyle", codes "ISO, MDY")
    ∷ (codes "IntervalStyle", codes "postgres")
    ∷ (codes "TimeZone", codes "UTC")
    ∷ (codes "integer_datetimes", codes "on")
    ∷ (codes "standard_conforming_strings", codes "on")
    ∷ []

unfoldable pub tell_params :
    List (Bytes × Bytes) → List (Bytes × Bytes) → Action Wire (List (Bytes × Bytes))
unfolding send_parameter_status insert
tell_params [] params = return params
tell_params ((k, v) ∷ rest) params =
    told (send_parameter_status k v) >> tell_params rest (insert k v params)

-- The handshake, for the numbers that the connection was given.
unfoldable pub handshake : ℕ → ℕ → Action Wire (List (Bytes × Bytes))
unfolding startup_header startup_params tell_params status_params uint32_at read_full
    authentication_ok send_backend_key_data send_ready_for_query
handshake pid secret = do
  buf ← startup_header
  len ← uint32_at 0 buf
  if ltb len 8 then (λ s. (err (failed (codes "invalid startup length")), s)) else (do
    remaining ← from_client (read_full (len - 8))
    _ ← to_client authentication_ok
    params ← tell_params status_params (startup_params remaining)
    _ ← told (send_backend_key_data pid secret)
    _ ← told (send_ready_for_query b'I')
    return params)
