-- ===== src/Streams.antt =====
-- The streams that the protocols are read from and written to. A reader is the list of the bytes
-- that are still to come; a writer is what was written and the room that is left in it.
pub mod Writes
pub mod Reads
pub mod Shrinks
use agentx_proxy.Prelude.{
  ℕ, zero, suc, [], ◌∷◌, ◌++◌, Bytes, length, take, drop, ltb, if◌then◌else◌, eof, unexpected_eof,
  write_failed, ok, err, Action, ◌>>=◌, ◌>>◌, return,
}

-- `room` is the number of bytes that the writer takes before it fails.
pub record Sink : Type 0 where
  pub written : Bytes
  pub room : ℕ

unfoldable pub write_byte : ℕ → Action Sink (Unit {0})
write_byte b w = elim w.room [
  | zero ↦ (err write_failed, w)
  | suc k ↦ (ok tt, record { written = w.written ++ b ∷ []; room = k })
]

-- `ReadByte` of the readers that the package is used with.
unfoldable pub read_byte : Action Bytes ℕ
read_byte [] = (err eof, [])
read_byte (b ∷ s) = (ok b, s)

-- The loop that fills `buf`; `n` bytes are still to be read.
unfoldable pub read_bytes : ℕ → Action Bytes Bytes
unfolding read_byte
read_bytes zero = return []
read_bytes (suc n) = do b ← read_byte; bs ← read_bytes n; return (b ∷ bs)

unfoldable pub write_bytes : Bytes → Action Sink (Unit {0})
unfolding write_byte
write_bytes [] = return tt
write_bytes (b ∷ bs) = write_byte b >> write_bytes bs

-- `io.ReadFull` into a buffer of `n` bytes.
unfoldable pub read_full : ℕ → Action Bytes Bytes
read_full n [] = if ltb 0 n then (err eof, []) else (ok [], [])
read_full n (b ∷ s) =
    if ltb (length (b ∷ s)) n
    then (err unexpected_eof, [])
    else (ok (take n (b ∷ s)), drop n (b ∷ s))
