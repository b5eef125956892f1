-- ===== src/Pgwire/Backend/Startup.antt =====
-- pkg/pgwire/writer.go: the messages of a client's startup, which the proxy itself does not send.
use agentx_proxy.Prelude.{
  ℕ, ◌+◌, ◌%◌, ◌^◌, ◌≤◌, ◌≡◌, [], ◌++◌, append_assoc, arith, Bytes, length, ok, Action, ◌>>◌,
}
use agentx_proxy.Streams.{Sink, write_bytes}
use agentx_proxy.Streams.Writes.{write_bytes-append, write_bytes_all}
use agentx_proxy.Streams.Reads.{read_full-append}
use agentx_proxy.Pgwire.{big_endian32, read_startup_message, startup_of, startup_pairs}
use agentx_proxy.Pgwire.Frontend.{read_uint32-big_endian32}
use agentx_proxy.Pgwire.Backend.{write_message}

unfoldable write_message_no_type : Bytes → Action Sink (Unit {0})
write_message_no_type body =
    write_bytes (big_endian32 ((length body + 4) % 2 ^ 32)) >> write_bytes body

unfoldable send_startup_message : ℕ → Action Sink (Unit {0})
unfolding write_message_no_type
send_startup_message version = write_message_no_type (big_endian32 version)

unfoldable send_authentication_cleartext_password : Action Sink (Unit {0})
unfolding write_message
send_authentication_cleartext_password = write_message b'R' (big_endian32 3)

-- The startup message of any version is the eight bytes of its length and of the version.
send_startup_message-bytes :
    (version : ℕ) (w : Sink)
    → send_startup_message version w ≡ write_bytes (big_endian32 8 ++ big_endian32 version) w
unfolding send_startup_message write_message_no_type big_endian32 write_bytes
send_startup_message-bytes version w = write_bytes-append (big_endian32 8) (big_endian32 version) w

read_back :
    (version : ℕ) (rest : Bytes)
    → read_startup_message ((big_endian32 8 ++ big_endian32 version) ++ rest) ≡ (ok [], rest)
unfolding read_startup_message startup_of startup_pairs big_endian32
read_back version rest = rw (
  append_assoc,
  read_uint32-big_endian32 8 (big_endian32 version ++ rest) (omega arith),
  read_full-append (big_endian32 version) rest,
)

-- The proxy reads the startup message of `SendStartupMessage` as one without parameters, and
-- leaves what follows it on the connection.
read_startup_message-send_startup_message :
    (version room : ℕ) (rest : Bytes)
    → 8 ≤ room
    → (read_startup_message
          ((send_startup_message version (record { written = []; room = room })).1.written ++ rest)
        ≡ (ok [], rest))
read_startup_message-send_startup_message version room rest h =
    let enough : length (big_endian32 8 ++ big_endian32 version) ≤ room =
      unfold big_endian32 in h in
    rw
      (
        send_startup_message-bytes version (record { written = []; room = room }),
        write_bytes_all (big_endian32 8 ++ big_endian32 version) room enough,
      )
      (read_back version rest)
