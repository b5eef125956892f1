-- ===== src/Chproto.antt =====
-- pkg/chproto/varint.go: the encodings of the ClickHouse native protocol. A reader is the list of
-- the bytes that are still to come, a writer the bytes written and the room that is left in it.
pub mod Encode
pub mod Decode
pub mod Padded
pub mod Truncated
pub mod Text
pub mod Fixed
mod Tests
use mathlib.Core.Logic.{dite}
use mathlib.Core.WellFounded.{Acc}
use native.Mathlib.Decide.{dec_lt}
use agentx_proxy.Prelude.{
  ℕ, zero, suc, ◌+◌, ◌*◌, ◌/◌, ◌%◌, ◌^◌, ◌≤◌, ◌<◌, bit_and, bit_or, Bool, List, [], ◌∷◌, ◌++◌,
  arith, Bytes, length, ltb, if◌then◌else◌, Error, eof, unexpected_eof, write_failed, ok, err,
  panicked, Action, ◌>>=◌, ◌>>◌, return,
}
use agentx_proxy.Prelude.Order.{lt_wf}
use agentx_proxy.Streams.{Sink, write_byte, read_byte, read_bytes, write_bytes}

-- The loop of `ReadVarInt`; the first argument is the number of rounds left.
pub read_varint_loop : ℕ → ℕ → ℕ → Action Bytes ℕ
read_varint_loop zero result shift s = (err unexpected_eof, s)
read_varint_loop (suc n) result shift [] = (err eof, [])
read_varint_loop (suc n) result shift (b ∷ s) =
    let result' = bit_or result (bit_and b 0x7f * 2 ^ shift % 2 ^ 64) in
    let more = read_varint_loop n result' (shift + 7) s in
    if ltb b 0x80 then (ok result', s) else more

unfoldable pub read_varint : Action Bytes ℕ
unfolding read_varint_loop
read_varint = read_varint_loop 10 0 0

pub shift_shrinks : (v : ℕ) → 0x7f < v → v / 128 < v
shift_shrinks v h = omega arith

-- `for v >= 0x80 { … }`: each round divides `v` by 128.
pub write_varint_loop : (v : ℕ) → Acc ◌<◌ v → Action Sink (Unit {0})
write_varint_loop v (Acc.intro _ smaller) w =
    dite (dec_lt 0x7f v)
      (λ more.
        let rest = write_varint_loop (v / 128) (smaller _ (shift_shrinks v more)) in
        (write_byte (bit_or (v % 256) 0x80) >> rest) w)
      (λ _. write_byte (v % 256) w)

unfoldable pub write_varint : ℕ → Action Sink (Unit {0})
unfolding write_varint_loop lt_wf dec_lt write_byte
write_varint v = write_varint_loop v (lt_wf.apply v)

-- `make([]byte, length)` panics above `max_alloc`, the longest slice that Go's run time can make.
unfoldable pub read_string : ℕ → Action Bytes Bytes
unfolding read_varint read_bytes
read_string max_alloc = do
  len ← read_varint
  if ltb max_alloc len then (λ s. (panicked, s)) else read_bytes len

unfoldable pub write_string : Bytes → Action Sink (Unit {0})
unfolding write_varint write_bytes
write_string s = write_varint (length s) >> write_bytes s

-- `binary.LittleEndian.Uint32` and `Uint64`: the first byte is the lowest.
unfoldable pub from_little_endian : Bytes → ℕ
from_little_endian [] = 0
from_little_endian (b ∷ bs) = b + 256 * from_little_endian bs

-- `binary.LittleEndian.PutUint32` and `PutUint64`, with the number of bytes.
unfoldable pub to_little_endian : ℕ → ℕ → Bytes
to_little_endian zero v = []
to_little_endian (suc n) v = (v % 256) ∷ to_little_endian n (v / 256)

unfoldable pub read_fixed_uint32 : Action Bytes ℕ
unfolding read_bytes from_little_endian
read_fixed_uint32 = do buf ← read_bytes 4; return (from_little_endian buf)

unfoldable pub read_fixed_uint64 : Action Bytes ℕ
unfolding read_bytes from_little_endian
read_fixed_uint64 = do buf ← read_bytes 8; return (from_little_endian buf)

unfoldable pub write_fixed_uint32 : ℕ → Action Sink (Unit {0})
unfolding write_bytes to_little_endian
write_fixed_uint32 v = write_bytes (to_little_endian 4 v)

unfoldable pub write_fixed_uint64 : ℕ → Action Sink (Unit {0})
unfolding write_bytes to_little_endian
write_fixed_uint64 v = write_bytes (to_little_endian 8 v)
