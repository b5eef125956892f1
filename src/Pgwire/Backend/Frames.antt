-- ===== src/Pgwire/Backend/Frames.antt =====
-- Every message of the writer is one frame on the wire.
use agentx_proxy.Prelude.{
  ℕ, ◌+◌, ◌%◌, ◌^◌, ◌<◌, ◌≤◌, ◌≡◌, refl, ◌∙◌, [], ◌∷◌, ◌++◌, arith, Bytes, length, ok,
}
use mathlib.Core.Path.{fun_ext}
use agentx_proxy.Streams.{Sink, write_bytes}
use agentx_proxy.Streams.Writes.{offer, write_bytes-append, write_bytes-offer, write_bytes_all}
use agentx_proxy.Pgwire.{read_message, big_endian32}
use agentx_proxy.Pgwire.Frontend.{frame, read_message-frame}
use agentx_proxy.Pgwire.Backend.{write_message}

pub write_message-bytes :
    (t : ℕ) (body : Bytes) (w : Sink)
    → length body + 4 < 2 ^ 32
    → write_message t body w ≡ write_bytes (frame t body) w
unfolding write_message frame
write_message-bytes t body w h =
    let small : (length body + 4) % 2 ^ 32 ≡ length body + 4 = omega arith in
    rw (small, fun_ext (write_bytes-append (big_endian32 (length body + 4)) body))
      (write_bytes-append (t ∷ []) (big_endian32 (length body + 4) ++ body) w)

-- `writeMessage` offers the frame to the connection: all of it is written, or as much as there is
-- room for and an error is returned.
pub write_message-offer :
    (t : ℕ) (body : Bytes) (w : Sink)
    → length body + 4 < 2 ^ 32
    → write_message t body w ≡ offer (frame t body) w
write_message-offer t body w h = write_message-bytes t body w h ∙ write_bytes-offer (frame t body) w

length-frame : (t : ℕ) (body : Bytes) → length (frame t body) ≡ length body + 5
unfolding frame big_endian32
length-frame t body = omega arith

-- The message that `writeMessage` puts on a connection is the one that `ReadMessage` takes off it.
pub read_message-write_message :
    (t room : ℕ) (body rest : Bytes)
    → length body + 4 < 2 ^ 32
    → length body + 5 ≤ room
    → ((write_message t body (record { written = []; room = room })).0 ≡ ok tt)
      × (read_message
            ((write_message t body (record { written = []; room = room })).1.written ++ rest)
          ≡ (ok (t, body), rest))
read_message-write_message t room body rest h enough =
    let len : length (frame t body) ≤ room = omega (arith, length-frame t body) in
    rw (write_message-bytes t body _ h, write_bytes_all _ room len)
      (refl, read_message-frame t body rest h)
