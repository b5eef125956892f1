-- ===== src/Chproto/Text.antt =====
-- `ReadString` and `WriteString`.
use agentx_proxy.Prelude.{
  ℕ, ◌+◌, ◌^◌, ◌<◌, ◌≤◌, ◌≡◌, refl, [], ◌++◌, append_assoc, arith, Bytes, length, length-append,
  ltb-false, eof, ok, err,
}
use agentx_proxy.Streams.Writes.{write_bytes_all}
use agentx_proxy.Streams.Reads.{read_bytes-append, read_bytes_short}
use agentx_proxy.Chproto.{read_string, write_string}
use agentx_proxy.Chproto.Encode.{encoding, encoding_shape, write_string-bytes}
use agentx_proxy.Chproto.Decode.{read_varint-encoding}

-- `ReadString` reads back every string from its encoding, and leaves the bytes behind it.
pub read_string-encoding :
    (max_alloc : ℕ) (s rest : Bytes)
    → length s ≤ max_alloc
    → length s < 2 ^ 64
    → read_string max_alloc (encoding (length s) ++ (s ++ rest)) ≡ (ok s, rest)
unfolding read_string
read_string-encoding max_alloc s rest fits h =
    rw (read_varint-encoding (length s) (s ++ rest) h, ltb-false max_alloc (length s) fits)
      (read_bytes-append s rest)

-- A length that the input does not hold is an error at the end of the input.
pub read_string_short :
    (max_alloc n : ℕ) (rest : Bytes)
    → n < 2 ^ 64
    → n ≤ max_alloc
    → length rest < n
    → read_string max_alloc (encoding n ++ rest) ≡ (err eof, [])
unfolding read_string
read_string_short max_alloc n rest h fits short =
    rw (read_varint-encoding n rest h, ltb-false max_alloc n fits) (read_bytes_short n rest short)

-- What `WriteString` writes where there is room for it is read back by `ReadString`.
pub read_string-write_string :
    (max_alloc : ℕ) (s rest : Bytes) (room : ℕ)
    → length s ≤ max_alloc
    → length s < 2 ^ 64
    → length s + 10 ≤ room
    → ((write_string s (record { written = []; room = room })).0 ≡ ok tt)
      × (read_string max_alloc
            ((write_string s (record { written = []; room = room })).1.written ++ rest)
          ≡ (ok s, rest))
read_string-write_string max_alloc s rest room fits h enough =
    let len : length (encoding (length s) ++ s) ≤ room =
      omega (arith, length-append (encoding (length s)) s, encoding_shape (length s) h) in
    rw (write_string-bytes s _ h, write_bytes_all _ room len, append_assoc)
      (refl, read_string-encoding max_alloc s rest fits h)
