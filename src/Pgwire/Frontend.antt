-- ===== src/Pgwire/Frontend.antt =====
-- Reading what a client writes: fields, frames and loops over them.
use agentx_proxy.Prelude.{
  ℕ, suc, ◌+◌, ◌^◌, ◌<◌, ◌≡◌, ◌≢◌, refl, ap, some, List, [], ◌∷◌, ◌++◌, append_assoc, append-nil,
  arith, Bytes, length, drop, take-append, All, ok, Action,
}
use agentx_proxy.Prelude.Strings.{index_byte}
use agentx_proxy.Streams.{read_full}
use agentx_proxy.Streams.Reads.{read_full-append}
use agentx_proxy.Pgwire.{
  body_size, take_uint16, take_uint32, read_uint32, read_message, cut_string, repeat, big_endian16,
  big_endian32,
}

-- No byte of the text is the terminator.
abbrev pub LacksNul : Bytes → Type 0
LacksNul = All (λ c. c ≢ 0)

pub take_uint16-big_endian16 :
    (n : ℕ) (rest : Bytes) → n < 2 ^ 16 → take_uint16 (big_endian16 n ++ rest) ≡ (ok n, rest)
unfolding take_uint16 big_endian16
take_uint16-big_endian16 n rest h = ground arith

pub take_uint32-big_endian32 :
    (n : ℕ) (rest : Bytes) → n < 2 ^ 32 → take_uint32 (big_endian32 n ++ rest) ≡ (ok n, rest)
unfolding take_uint32 big_endian32
take_uint32-big_endian32 n rest h = ground arith

index_byte-append : (s rest : Bytes) → LacksNul s → index_byte (s ++ 0 ∷ rest) 0 ≡ some (length s)
unfolding index_byte
index_byte-append [] rest h = refl
index_byte-append (c ∷ s) rest (hc, hs) = ground (arith, index_byte-append s rest hs)

pub cut_string-append : (s rest : Bytes) → LacksNul s → cut_string (s ++ 0 ∷ rest) ≡ (ok s, rest)
unfolding cut_string
cut_string-append s rest h =
    rw (index_byte-append s rest h, cut_string, take-append s (0 ∷ rest), drop-suc s rest)
  where
    drop-suc : (xs ys : Bytes) → drop (suc (length xs)) (xs ++ 0 ∷ ys) ≡ ys
    drop-suc [] ys = refl
    drop-suc (x ∷ xs) ys = drop-suc xs ys

-- The encoding of a list, one element behind the other.
abbrev pub encode_all {ℓ} : {A : Type ℓ} → (A → Bytes) → List A → Bytes
encode_all enc [] = []
encode_all enc (x ∷ xs) = enc x ++ encode_all enc xs

pub repeat-encode_all {κ} :
    {A : Type 0} (m : Action Bytes A) (enc : A → Bytes) (P : A → Type κ)
    → ((a : A) (rest : Bytes) → P a → m (enc a ++ rest) ≡ (ok a, rest))
    → (xs : List A) (rest : Bytes) → All P xs
    → repeat (length xs) m (encode_all enc xs ++ rest) ≡ (ok xs, rest)
unfolding repeat
repeat-encode_all m enc P step [] rest h = refl
repeat-encode_all m enc P step (x ∷ xs) rest (hx, hxs) = rw (
  append_assoc,
  step x (encode_all enc xs ++ rest) hx,
  repeat-encode_all m enc P step xs rest hxs,
)

-- A message on the wire: the type, the length of what follows it, and the body.
unfoldable pub frame : ℕ → Bytes → Bytes
frame t body = t ∷ (big_endian32 (length body + 4) ++ body)

pub read_uint32-big_endian32 :
    (n : ℕ) (rest : Bytes) → n < 2 ^ 32 → read_uint32 (big_endian32 n ++ rest) ≡ (ok n, rest)
unfolding read_uint32
read_uint32-big_endian32 n rest h = rw (four n rest, take-four n h)
  where
    four :
        (n : ℕ) (rest : Bytes) → read_full 4 (big_endian32 n ++ rest) ≡ (ok (big_endian32 n), rest)
    four n rest = unfold big_endian32 in read_full-append (big_endian32 n) rest

    take-four : (n : ℕ) → n < 2 ^ 32 → (take_uint32 (big_endian32 n)).0 ≡ ok n
    take-four n h = ap (λ p. p.0) (rw append-nil at (take_uint32-big_endian32 n [] h))

-- `ReadMessage` reads back the type and the body of a framed message, and leaves the bytes behind it.
pub read_message-frame :
    (t : ℕ) (body rest : Bytes)
    → length body + 4 < 2 ^ 32
    → read_message (frame t body ++ rest) ≡ (ok (t, body), rest)
unfolding read_message frame
read_message-frame t body rest h =
    let len = length body + 4 in
    let size : body_size len ≡ length body = omega arith in
    rw (
      read_full-append (t ∷ []) (big_endian32 len ++ body ++ rest),
      append_assoc,
      read_uint32-big_endian32 len (body ++ rest) h,
      size,
      read_full-append body rest,
    )
