-- ===== src/Chproto/Fixed.antt =====
-- The integers of fixed width, and `WriteVarInt` against its encoding.
use agentx_proxy.Prelude.{
  ℕ, zero, suc, ◌/◌, ◌^◌, ◌<◌, ◌≤◌, ◌≡◌, refl, ap, ◌∙◌, [], ◌++◌, arith, Bytes, length, ok,
}
use native.Mathlib.Nat.{pow-suc}
use agentx_proxy.Streams.{Sink, read_bytes, write_bytes}
use agentx_proxy.Streams.Writes.{offer, write_bytes-offer, write_bytes_all}
use agentx_proxy.Streams.Reads.{read_bytes-append}
use agentx_proxy.Chproto.{
  write_varint, read_varint, from_little_endian, to_little_endian, read_fixed_uint32,
  read_fixed_uint64, write_fixed_uint32, write_fixed_uint64,
}
use agentx_proxy.Chproto.Encode.{encoding, encoding_shape, write_varint-bytes}
use agentx_proxy.Chproto.Decode.{read_varint-encoding}

-- `WriteVarInt` offers its encoding to the writer: all of it is written, or as much as there is
-- room for and an error is returned.
pub write_varint-offer : (v : ℕ) (w : Sink) → v < 2 ^ 64 → write_varint v w ≡ offer (encoding v) w
write_varint-offer v w h = write_varint-bytes v w h ∙ write_bytes-offer (encoding v) w

-- What `WriteVarInt` writes where there is room for ten bytes is read back by `ReadVarInt`.
pub read_varint-write_varint :
    (v room : ℕ) (rest : Bytes)
    → v < 2 ^ 64
    → 10 ≤ room
    → ((write_varint v (record { written = []; room = room })).0 ≡ ok tt)
      × (read_varint ((write_varint v (record { written = []; room = room })).1.written ++ rest)
          ≡ (ok v, rest))
read_varint-write_varint v room rest h enough =
    let len : length (encoding v) ≤ room = omega (arith, encoding_shape v h) in
    rw (write_varint-bytes v _ h, write_bytes_all _ room len) (refl, read_varint-encoding v rest h)

length-to_little_endian : (n v : ℕ) → length (to_little_endian n v) ≡ n
unfolding to_little_endian
length-to_little_endian zero v = refl
length-to_little_endian (suc n) v = ap suc (length-to_little_endian n (v / 256))

from-to_little_endian : (n v : ℕ) → v < 256 ^ n → from_little_endian (to_little_endian n v) ≡ v
unfolding to_little_endian from_little_endian
from-to_little_endian zero v h = omega arith
from-to_little_endian (suc n) v h =
    omega (arith, from-to_little_endian n (v / 256) (omega (arith, pow-suc 256 n)))

read-to_little_endian :
    (n v : ℕ) (rest : Bytes)
    → read_bytes n (to_little_endian n v ++ rest) ≡ (ok (to_little_endian n v), rest)
read-to_little_endian n v rest =
    rw length-to_little_endian at (read_bytes-append (to_little_endian n v) rest)

write_uint32-bytes :
    (v : ℕ) (w : Sink) → write_fixed_uint32 v w ≡ write_bytes (to_little_endian 4 v) w
unfolding write_fixed_uint32
write_uint32-bytes v w = refl

write_uint64-bytes :
    (v : ℕ) (w : Sink) → write_fixed_uint64 v w ≡ write_bytes (to_little_endian 8 v) w
unfolding write_fixed_uint64
write_uint64-bytes v w = refl

read_uint32-to_little_endian :
    (v : ℕ) (rest : Bytes)
    → v < 2 ^ 32
    → read_fixed_uint32 (to_little_endian 4 v ++ rest) ≡ (ok v, rest)
unfolding read_fixed_uint32
read_uint32-to_little_endian v rest h =
    ground (arith, read-to_little_endian 4 v rest, from-to_little_endian 4 v)

read_uint64-to_little_endian :
    (v : ℕ) (rest : Bytes)
    → v < 2 ^ 64
    → read_fixed_uint64 (to_little_endian 8 v ++ rest) ≡ (ok v, rest)
unfolding read_fixed_uint64
read_uint64-to_little_endian v rest h =
    ground (arith, read-to_little_endian 8 v rest, from-to_little_endian 8 v)

-- A uint32 is written in four bytes and read back from them.
pub read-write_fixed_uint32 :
    (v room : ℕ) (rest : Bytes)
    → v < 2 ^ 32
    → 4 ≤ room
    → ((write_fixed_uint32 v (record { written = []; room = room })).0 ≡ ok tt)
      × (read_fixed_uint32
            ((write_fixed_uint32 v (record { written = []; room = room })).1.written ++ rest)
          ≡ (ok v, rest))
read-write_fixed_uint32 v room rest h enough =
    let len : length (to_little_endian 4 v) ≤ room = omega (arith, length-to_little_endian 4 v) in
    rw (write_uint32-bytes, write_bytes_all _ room len)
      (refl, read_uint32-to_little_endian v rest h)

-- A uint64 is written in eight bytes and read back from them.
pub read-write_fixed_uint64 :
    (v room : ℕ) (rest : Bytes)
    → v < 2 ^ 64
    → 8 ≤ room
    → ((write_fixed_uint64 v (record { written = []; room = room })).0 ≡ ok tt)
      × (read_fixed_uint64
            ((write_fixed_uint64 v (record { written = []; room = room })).1.written ++ rest)
          ≡ (ok v, rest))
read-write_fixed_uint64 v room rest h enough =
    let len : length (to_little_endian 8 v) ≤ room = omega (arith, length-to_little_endian 8 v) in
    rw (write_uint64-bytes, write_bytes_all _ room len)
      (refl, read_uint64-to_little_endian v rest h)
