-- ===== src/Chproto/Truncated.antt =====
-- `ReadVarInt` on input that ends early, and how much it takes.
use agentx_proxy.Prelude.{
  ℕ, zero, suc, ◌+◌, ◌^◌, ◌<◌, ◌≤◌, ◌≡◌, ◌≢◌, refl, [], ◌∷◌, ◌++◌, arith, append-nil, Bool, true,
  false, if◌then◌else◌, ltb, Bytes, length, length-append, Outcome, eof, unexpected_eof, ok, err,
  panicked,
}
use agentx_proxy.Chproto.{read_varint_loop, read_varint}
use agentx_proxy.Chproto.Encode.{encoding}
use agentx_proxy.Chproto.Decode.{merge, varint_loop_takes, read_varint-encoding}

-- Behind a result, or ten bytes that all ask for more, added bytes are left unread.
loop-append_ok :
    (n result shift : ℕ) (s more : Bytes) (v : ℕ) (rest : Bytes)
    → read_varint_loop n result shift s ≡ (ok v, rest)
    → read_varint_loop n result shift (s ++ more) ≡ (ok v, rest ++ more)
unfolding read_varint_loop
loop-append_ok zero result shift s more v rest e = cc
loop-append_ok (suc n) result shift [] more v rest e = cc
loop-append_ok (suc n) result shift (b ∷ s) more v rest e =
    ground (arith, loop-append_ok n (merge result b shift) (shift + 7) s more v rest)

loop-append_long :
    (n result shift : ℕ) (s more rest : Bytes)
    → read_varint_loop n result shift s ≡ (err unexpected_eof, rest)
    → read_varint_loop n result shift (s ++ more) ≡ (err unexpected_eof, rest ++ more)
unfolding read_varint_loop
loop-append_long zero result shift s more rest e = ground arith
loop-append_long (suc n) result shift [] more rest e = cc
loop-append_long (suc n) result shift (b ∷ s) more rest e =
    ground (arith, loop-append_long n (merge result b shift) (shift + 7) s more rest)

-- The three ways in which the loop ends.
data Ends (p : Outcome ℕ × Bytes) : Type 0 where
  value : (v : ℕ) (rest : Bytes) → p ≡ (ok v, rest) → Ends p
  short : p ≡ (err eof, []) → Ends p
  long : (rest : Bytes) → p ≡ (err unexpected_eof, rest) → Ends p

loop-Ends : (n result shift : ℕ) (s : Bytes) → Ends (read_varint_loop n result shift s)
unfolding read_varint_loop
loop-Ends zero result shift s = long s refl
loop-Ends (suc n) result shift [] = short refl
loop-Ends (suc n) result shift (b ∷ s) =
    pick (ltb b 0x80) (loop-Ends n (merge result b shift) (shift + 7) s)
  where
    pick :
        (t : Bool)
        → Ends (read_varint_loop n (merge result b shift) (shift + 7) s)
        → Ends (
            if t
            then (ok (merge result b shift), s)
            else read_varint_loop n (merge result b shift) (shift + 7) s)
    pick true e = value (merge result b shift) s refl
    pick false e = e

-- On every proper prefix of an encoding `ReadVarInt` reports the end of the input.
pub read_varint_truncated :
    (v x : ℕ) (front back : Bytes)
    → v < 2 ^ 64
    → encoding v ≡ front ++ x ∷ back
    → read_varint front ≡ (err eof, [])
unfolding read_varint
read_varint_truncated v x front back h e = split (loop-Ends 10 0 0 front)
  where
    whole : read_varint (front ++ x ∷ back) ≡ (ok v, [])
    whole = rw (append-nil, e) at (read_varint-encoding v [] h)

    split : Ends (read_varint_loop 10 0 0 front) → read_varint_loop 10 0 0 front ≡ (err eof, [])
    split (value u rest p) = ground (
      arith,
      whole,
      loop-append_ok 10 0 0 front (x ∷ back) u rest p,
      length-append rest (x ∷ back),
    )
    split (short p) = p
    split (long rest p) = cc (whole, loop-append_long 10 0 0 front (x ∷ back) rest p)

-- On any bytes `ReadVarInt` returns without a panic and takes ten bytes at most.
pub read_varint_total :
    (s : Bytes)
    → ((read_varint s).0 ≢ panicked)
      × (length (read_varint s).1 ≤ length s)
      × (length s ≤ length (read_varint s).1 + 10)
unfolding read_varint
read_varint_total s = varint_loop_takes 10 0 0 s
