-- ===== src/Chproto/Tests.antt =====
-- Concrete runs of the codecs, and their theorems at concrete inputs.
use agentx_proxy.Prelude.{
  ℕ, ◌+◌, ◌≤◌, ◌≡◌, ◌≢◌, refl, [], ◌∷◌, ◌++◌, arith, Bytes, codes, length, eof, unexpected_eof, ok,
  err, panicked,
}
use agentx_proxy.Streams.{Sink}
use agentx_proxy.Chproto.{write_varint, read_varint, read_string, write_string}
use agentx_proxy.Chproto.Encode.{groups}
use agentx_proxy.Chproto.Text.{read_string-write_string}
use agentx_proxy.Chproto.Padded.{number_of, group_bytes, read_varint-group_bytes}
use agentx_proxy.Chproto.Truncated.{read_varint_truncated, read_varint_total}
use agentx_proxy.Chproto.Fixed.{read_varint-write_varint}

abbrev sink_of : ℕ → Sink
sink_of n = record { written = []; room = n }

write_300 : (write_varint 300 (sink_of 4)).1 ≡ record { written = 0xac ∷ 0x02 ∷ []; room = 2 }
unfolding write_varint
write_300 = refl

ten_bytes : Bytes
ten_bytes = 0x80 ∷ 0x80 ∷ 0x80 ∷ 0x80 ∷ 0x80 ∷ 0x80 ∷ 0x80 ∷ 0x80 ∷ 0x80 ∷ 0x80 ∷ 7 ∷ []

read_endless : read_varint ten_bytes ≡ (err unexpected_eof, 7 ∷ [])
unfolding read_varint ten_bytes
read_endless = refl

read_300 : read_varint (0xac ∷ 0x02 ∷ 9 ∷ []) ≡ (ok 300, 9 ∷ [])
unfolding read_varint
read_300 = refl

read_varint-write_varint_example :
    ((write_varint 300 (sink_of 16)).0 ≡ ok tt)
    × (read_varint ((write_varint 300 (sink_of 16)).1.written ++ 9 ∷ []) ≡ (ok 300, 9 ∷ []))
read_varint-write_varint_example =
    read_varint-write_varint 300 16 (9 ∷ []) (omega arith) (omega arith)

read_varint_truncated_example : read_varint (0xac ∷ []) ≡ (err eof, [])
unfolding groups
read_varint_truncated_example = read_varint_truncated 300 2 (0xac ∷ []) [] (omega arith) refl

read_varint_total_example :
    ((read_varint ten_bytes).0 ≢ panicked)
    × (length (read_varint ten_bytes).1 ≤ length ten_bytes)
    × (length ten_bytes ≤ length (read_varint ten_bytes).1 + 10)
read_varint_total_example = read_varint_total ten_bytes

read_string-write_string_example :
    ((write_string (codes "abc") (sink_of 64)).0 ≡ ok tt)
    × (read_string 1000 ((write_string (codes "abc") (sink_of 64)).1.written ++ 7 ∷ [])
        ≡ (ok (codes "abc"), 7 ∷ []))
read_string-write_string_example =
    read_string-write_string 1000 (codes "abc") (7 ∷ []) 64 (omega arith) (omega arith)
      (omega arith)

-- 300 in four groups, of which two are enough.
read_varint-group_bytes_example :
    read_varint (0xac ∷ 0x82 ∷ 0x80 ∷ 0x00 ∷ 9 ∷ []) ≡ (ok 300, 9 ∷ [])
unfolding number_of group_bytes
read_varint-group_bytes_example =
    read_varint-group_bytes (0x2c ∷ 2 ∷ 0 ∷ []) 0 (9 ∷ []) (omega arith)
      (omega arith, (omega arith, (omega arith, tt))) (omega arith) (omega arith)
