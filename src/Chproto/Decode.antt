-- ===== src/Chproto/Decode.antt =====
-- `ReadVarInt` and `ReadString` on any input, well formed or not.
use agentx_proxy.Prelude.{
  ℕ, zero, suc, ◌+◌, ◌*◌, ◌/◌, ◌%◌, ◌^◌, ◌≤◌, ◌<◌, bit_and, bit_or, ◌≡◌, ◌≢◌, ap, [], ◌∷◌, ◌++◌,
  arith, Bytes, length, ok, panicked,
}
use agentx_proxy.Prelude.Bits.{low_seven, or_shifted}
use agentx_proxy.Chproto.Encode.{groups, encoding}
use native.Mathlib.Nat.{div-add-mod}
use native.Mathlib.Numerals.{towards_suc}
use agentx_proxy.Chproto.{read_varint_loop, read_varint}

-- What `result |= uint64(b&0x7F) << shift` makes of the variable.
abbrev pub merge : ℕ → ℕ → ℕ → ℕ
merge result b shift = bit_or result (bit_and b 0x7f * 2 ^ shift % 2 ^ 64)

-- `ReadVarInt` never panics, leaves a suffix of its input, and takes at most ten bytes.
pub varint_loop_takes :
    (n result shift : ℕ) (s : Bytes)
    → ((read_varint_loop n result shift s).0 ≢ panicked)
      × (length (read_varint_loop n result shift s).1 ≤ length s)
      × (length s ≤ length (read_varint_loop n result shift s).1 + n)
unfolding read_varint_loop
varint_loop_takes zero result shift s = ground arith
varint_loop_takes (suc n) result shift [] = ground arith
varint_loop_takes (suc n) result shift (b ∷ s) =
    ground (arith, varint_loop_takes n (merge result b shift) (shift + 7) s)

-- One round on a last byte, and on a byte that says that more follow.
pub last_byte :
    (n b result shift : ℕ) (rest : Bytes)
    → b < 128
    → result < 2 ^ shift
    → result + b * 2 ^ shift < 2 ^ 64
    → read_varint_loop (suc n) result shift (b ∷ rest) ≡ (ok (result + b * 2 ^ shift), rest)
unfolding read_varint_loop
last_byte n b result shift rest hb hr fits =
    ground (arith, low_seven b, or_shifted shift result b hr)

pub inner_byte :
    (n g result shift : ℕ) (rest : Bytes)
    → g < 128
    → result < 2 ^ shift
    → result + g * 2 ^ shift < 2 ^ 64
    → read_varint_loop (suc n) result shift ((g + 128) ∷ rest)
      ≡ read_varint_loop n (result + g * 2 ^ shift) (shift + 7) rest
unfolding read_varint_loop
inner_byte n g result shift rest hg hr fits =
    ground (arith, low_seven (g + 128), or_shifted shift result g hr)

pub seven_more : (s : ℕ) → 2 ^ (s + 7) ≡ 128 * 2 ^ s
seven_more s = simp towards_suc (omega arith)

-- The lowest group of `w` and the rest, both shifted by `s`.
group-split : (w s : ℕ) → w * 2 ^ s ≡ w % 128 * 2 ^ s + w / 128 * 2 ^ (s + 7)
group-split w s = omega (
  arith,
  ap (λ (t : ℕ). t * 2 ^ s) (div-add-mod w 128),
  ap (λ (t : ℕ). w / 128 * t) (seven_more s),
)

pub group_fits : (g r s : ℕ) → g < 128 → r < 2 ^ s → r + g * 2 ^ s < 2 ^ (s + 7)
group_fits g r s hg hr = grind (arith, seven_more s)

varint_loop-groups :
    (k n w result shift : ℕ) (rest : Bytes)
    → k < n
    → w < 128 ^ suc k
    → result < 2 ^ shift
    → result + w * 2 ^ shift < 2 ^ 64
    → read_varint_loop n result shift (groups k w ++ rest) ≡ (ok (result + w * 2 ^ shift), rest)
unfolding groups
varint_loop-groups k zero w result shift rest hk hw hr fits = absurd (omega arith)
varint_loop-groups zero (suc n) w result shift rest hk hw hr fits =
    last_byte n w result shift rest (omega arith) hr fits
varint_loop-groups (suc k) (suc n) w result shift rest hk hw hr fits = ground (
  arith,
  last_byte n w result shift rest,
  group-split w shift,
  group_fits (w % 128) result shift (omega arith) hr,
  inner_byte n (w % 128) result shift (groups k (w / 128) ++ rest),
  varint_loop-groups k n (w / 128) (result + w % 128 * 2 ^ shift) (shift + 7) rest (omega arith),
)

-- `ReadVarInt` reads back every uint64 from its encoding, and leaves the bytes behind it.
pub read_varint-encoding :
    (v : ℕ) (rest : Bytes) → v < 2 ^ 64 → read_varint (encoding v ++ rest) ≡ (ok v, rest)
unfolding read_varint
read_varint-encoding v rest h = let r = varint_loop-groups 9 10 v 0 0 rest in ground (arith, r)
