-- ===== src/Chproto/Padded.antt =====
-- `ReadVarInt` on encodings that need not be the shortest ones.
use agentx_proxy.Prelude.{
  ℕ, zero, suc, ◌+◌, ◌*◌, ◌^◌, ◌≤◌, ◌<◌, ◌≡◌, ap, List, [], ◌∷◌, ◌++◌, arith, All, Bytes, length,
  ok,
}
use agentx_proxy.Chproto.{read_varint}
use agentx_proxy.Chproto.Decode.{last_byte, inner_byte, seven_more, group_fits}
use agentx_proxy.Chproto.{read_varint_loop}

-- The number with these groups of seven bits, the lowest one first.
unfoldable pub number_of : List ℕ → ℕ → ℕ
number_of [] last = last
number_of (g ∷ gs) last = g + 128 * number_of gs last

-- The bytes of the groups: every one but the last says that more follow.
unfoldable pub group_bytes : List ℕ → ℕ → Bytes
group_bytes [] last = last ∷ []
group_bytes (g ∷ gs) last = (g + 128) ∷ group_bytes gs last

number_of-split : (g v s : ℕ) → (g + 128 * v) * 2 ^ s ≡ g * 2 ^ s + v * 2 ^ (s + 7)
number_of-split g v s = omega (arith, ap (λ (t : ℕ). v * t) (seven_more s))

loop-group_bytes :
    (gs : List ℕ) (n last result shift : ℕ) (rest : Bytes)
    → length gs < n
    → All (λ g. g < 128) gs
    → last < 128
    → result < 2 ^ shift
    → result + number_of gs last * 2 ^ shift < 2 ^ 64
    → read_varint_loop n result shift (group_bytes gs last ++ rest)
      ≡ (ok (result + number_of gs last * 2 ^ shift), rest)
unfolding number_of group_bytes
loop-group_bytes gs zero last result shift rest hn hg hl hr fits = absurd (omega arith)
loop-group_bytes [] (suc n) last result shift rest hn hg hl hr fits =
    last_byte n last result shift rest hl hr fits
loop-group_bytes (g ∷ gs) (suc n) last result shift rest hn (hg, hgs) hl hr fits = ground (
  arith,
  number_of-split g (number_of gs last) shift,
  group_fits g result shift hg hr,
  inner_byte n g result shift (group_bytes gs last ++ rest),
  loop-group_bytes gs n last (result + g * 2 ^ shift) (shift + 7) rest (omega arith) hgs hl,
)

-- From ten groups of seven bits at most, whose number is a uint64, `ReadVarInt` reads this number, also
-- where the groups are more than the number needs, and leaves the bytes behind them.
pub read_varint-group_bytes :
    (gs : List ℕ) (last : ℕ) (rest : Bytes)
    → length gs ≤ 9
    → All (λ g. g < 128) gs
    → last < 128
    → number_of gs last < 2 ^ 64
    → read_varint (group_bytes gs last ++ rest) ≡ (ok (number_of gs last), rest)
unfolding read_varint
read_varint-group_bytes gs last rest hn hg hl h =
    let r = loop-group_bytes gs 10 last 0 0 rest (omega arith) hg hl in ground (arith, r)
