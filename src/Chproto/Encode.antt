-- ===== src/Chproto/Encode.antt =====
-- What the writers of `Chproto` put on the wire, in plain arithmetic.
use mathlib.Core.Logic.{dif_pos, dif_neg}
use mathlib.Core.Path.{fun_ext}
use mathlib.Core.WellFounded.{Acc}
use native.Mathlib.Bridge.{le_prop}
use native.Mathlib.Decide.{dec_lt}
use agentx_proxy.Prelude.{
  ℕ, zero, suc, ◌+◌, ◌/◌, ◌%◌, ◌^◌, ◌≤◌, ◌<◌, bit_or, ◌≡◌, [], ◌∷◌, ◌++◌, arith, Bytes, length, All,
  IsByte, true, false, ltb, ltb-false, if◌then◌else◌,
}
use agentx_proxy.Prelude.Bits.{set_top}
use agentx_proxy.Prelude.Order.{lt_wf}
use agentx_proxy.Streams.{Sink, write_bytes}
use agentx_proxy.Streams.Writes.{write_bytes-append, write_byte-bytes, write_byte-then}
use agentx_proxy.Chproto.{write_varint_loop, write_varint, write_string, shift_shrinks}

-- The groups of seven bits of `v`, lowest first, in at most `k + 1` bytes.
unfoldable pub groups : ℕ → ℕ → Bytes
groups zero v = v ∷ []
groups (suc k) v =
    let rest = groups k (v / 128) in if ltb v 128 then v ∷ [] else (v % 128 + 128) ∷ rest

-- The encoding of a uint64.
abbrev pub encoding : ℕ → Bytes
encoding = groups 9

set_low : (v : ℕ) → bit_or (v % 256) 0x80 ≡ v % 128 + 128
set_low v = rw (set_top (v % 256) (omega arith)) (omega arith)

varint_loop-groups :
    (k v : ℕ) (acc : Acc ◌<◌ v) (w : Sink)
    → v < 128 ^ suc k
    → write_varint_loop v acc w ≡ write_bytes (groups k v) w
unfolding write_varint_loop groups
varint_loop-groups zero v (Acc.intro _ smaller) w h =
    let e : v % 256 ≡ v = omega arith in
    rw (dif_neg (dec_lt 0x7f v) (λ p. omega arith), e) (write_byte-bytes v w)
varint_loop-groups (suc k) v (Acc.intro _ smaller) w h = elim (dec_lt 0x7f v) [
  | yes p ↦
      let rest = varint_loop-groups k (v / 128) (smaller _ (shift_shrinks v p)) in
      let e : ltb v 128 ≡ false = ltb-false v 128 p in
      rw (dif_pos (dec_lt 0x7f v) le_prop p, e, set_low v)
        (rw (fun_ext (λ u. rest u (omega arith))) (write_byte-then (v % 128 + 128) _ w))
  | no p ↦
      let e : ltb v 128 ≡ true = ground arith in
      let e' : v % 256 ≡ v = ground arith in
      rw (dif_neg (dec_lt 0x7f v) p, e, e') (write_byte-bytes v w)
]

-- `WriteVarInt` writes the encoding of a uint64, or what the writer has room for.
pub write_varint-bytes :
    (v : ℕ) (w : Sink) → v < 2 ^ 64 → write_varint v w ≡ write_bytes (encoding v) w
unfolding write_varint
write_varint-bytes v w h = varint_loop-groups 9 v (lt_wf.apply v) w (omega arith)

pub write_string-bytes :
    (s : Bytes) (w : Sink)
    → length s < 2 ^ 64
    → write_string s w ≡ write_bytes (encoding (length s) ++ s) w
unfolding write_string
write_string-bytes s w h =
    rw (write_varint-bytes (length s) w h) (write_bytes-append (encoding (length s)) s w)

groups-IsByte : (k v : ℕ) → v < 128 ^ suc k → All IsByte (groups k v)
unfolding groups
groups-IsByte zero v h = omega arith
groups-IsByte (suc k) v h = ground (arith, groups-IsByte k (v / 128) (omega arith))

length-groups : (k v : ℕ) → (1 ≤ length (groups k v)) × (length (groups k v) ≤ k + 1)
unfolding groups
length-groups zero v = omega arith
length-groups (suc k) v = ground (arith, length-groups k (v / 128))

-- The encoding of a uint64 is one to ten bytes.
pub encoding_shape :
    (v : ℕ)
    → v < 2 ^ 64
    → All IsByte (encoding v) × (1 ≤ length (encoding v)) × (length (encoding v) ≤ 10)
encoding_shape v h = let (lo, hi) = length-groups 9 v in (groups-IsByte 9 v (omega arith), lo, hi)
