-- ===== src/Streams/Reads.antt =====
-- Reading a known number of bytes.
use agentx_proxy.Prelude.{
  ℕ, zero, suc, ◌<◌, ◌≡◌, refl, [], ◌∷◌, ◌++◌, arith, Bytes, length, take-append, drop-append,
  length-append, eof, unexpected_eof, ok, err, ltb-false,
}
use agentx_proxy.Streams.{read_bytes, read_full}

pub read_bytes-append : (s rest : Bytes) → read_bytes (length s) (s ++ rest) ≡ (ok s, rest)
unfolding read_bytes
read_bytes-append [] rest = refl
read_bytes-append (b ∷ s) rest = rw (read_bytes-append s rest)

pub read_bytes_short : (n : ℕ) (s : Bytes) → length s < n → read_bytes n s ≡ (err eof, [])
unfolding read_bytes
read_bytes_short zero s h = absurd (omega arith)
read_bytes_short (suc n) [] h = refl
read_bytes_short (suc n) (b ∷ s) h = rw (read_bytes_short n s (omega arith))

pub read_full-append : (s rest : Bytes) → read_full (length s) (s ++ rest) ≡ (ok s, rest)
unfolding read_full
read_full-append [] [] = refl
read_full-append [] (b ∷ rest) = ground arith
read_full-append (b ∷ s) rest =
    rw (ltb-false (length (b ∷ (s ++ rest))) (length (b ∷ s)) (omega (arith, length-append s rest)))
      (rw (take-append s rest, drop-append s rest))

-- A buffer that the input does not fill is an error.
pub read_full_short :
    (n : ℕ) (s : Bytes)
    → length s < n
    → read_full n s ≡ (err (elim s [ [] ↦ eof | b ∷ t ↦ unexpected_eof ]), [])
unfolding read_full
read_full_short n [] h = ground arith
read_full_short n (b ∷ s) h = ground arith
