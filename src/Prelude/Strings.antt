-- ===== src/Prelude/Strings.antt =====
-- The functions of Go's `strings` and `bytes` that the proxy calls, over bytes. Case mapping and
-- trimming are those of ASCII text: other bytes are left as they are.
use Prim.Native.Nat.{ℕ, zero, suc, ◌+◌, ◌-◌}
use mathlib.Core.Bool.{Bool, true, false, ◌&&◌, ◌||◌}
use mathlib.Core.List.{List, [], ◌∷◌, ◌++◌, map, reverse}
use mathlib.Core.Option.{Option, none, some}
use agentx_proxy.Prelude.Tests.{leb, ◌==◌, if◌then◌else◌}
use agentx_proxy.Prelude.Lists.{Bytes, length}

unfoldable pub upper_byte : ℕ → ℕ
upper_byte c = if leb b'a' c && leb c b'z' then c - 32 else c

unfoldable pub lower_byte : ℕ → ℕ
lower_byte c = if leb b'A' c && leb c b'Z' then c + 32 else c

unfoldable pub to_upper : Bytes → Bytes
unfolding upper_byte
to_upper s = map upper_byte s

unfoldable pub to_lower : Bytes → Bytes
unfolding lower_byte
to_lower s = map lower_byte s

-- Equality of two byte strings, the test `==` of Go.
unfoldable pub equal : Bytes → Bytes → Bool
equal [] [] = true
equal [] (d ∷ t) = false
equal (c ∷ s) [] = false
equal (c ∷ s) (d ∷ t) = c == d && equal s t

-- `HasPrefix(s, p)`
unfoldable pub has_prefix : Bytes → Bytes → Bool
has_prefix s [] = true
has_prefix [] (d ∷ p) = false
has_prefix (c ∷ s) (d ∷ p) = c == d && has_prefix s p

unfoldable pub has_suffix : Bytes → Bytes → Bool
unfolding has_prefix
has_suffix s p = has_prefix (reverse s) (reverse p)

-- `Index(s, p)`, where `none` is -1; `i` counts the bytes passed.
unfoldable pub index_from : ℕ → Bytes → Bytes → Option ℕ
unfolding has_prefix
index_from i [] p = if has_prefix [] p then some i else none
index_from i (c ∷ s) p =
    let rest = index_from (i + 1) s p in if has_prefix (c ∷ s) p then some i else rest

unfoldable pub index : Bytes → Bytes → Option ℕ
unfolding index_from
index s p = index_from 0 s p

unfoldable pub contains : Bytes → Bytes → Bool
unfolding index
contains s p = elim (index s p) [ none ↦ false | some i ↦ true ]

-- `IndexByte(s, c)`
unfoldable pub index_byte : Bytes → ℕ → Option ℕ
index_byte [] d = none
index_byte (c ∷ s) d =
    if c == d then some 0 else elim (index_byte s d) [ none ↦ none | some i ↦ some (suc i) ]

unfoldable pub is_space : ℕ → Bool
is_space c = c == 32 || (leb 9 c && leb c 13)

unfoldable pub trim_left : (ℕ → Bool) → Bytes → Bytes
trim_left p [] = []
trim_left p (c ∷ s) = if p c then trim_left p s else c ∷ s

unfoldable pub trim_right : (ℕ → Bool) → Bytes → Bytes
unfolding trim_left
trim_right p s = reverse (trim_left p (reverse s))

unfoldable pub trim : (ℕ → Bool) → Bytes → Bytes
unfolding trim_left trim_right
trim p s = trim_right p (trim_left p s)

unfoldable pub trim_space : Bytes → Bytes
unfolding trim is_space
trim_space s = trim is_space s

-- `Split(s, sep)` at a separator of one byte; `cur` is the part that is being read.
unfoldable pub split_from : ℕ → Bytes → Bytes → List Bytes
split_from sep cur [] = cur ∷ []
split_from sep cur (c ∷ s) = elim (c == sep) [
  | true ↦ cur ∷ split_from sep [] s
  | false ↦ split_from sep (cur ++ c ∷ []) s
]

unfoldable pub split : Bytes → ℕ → List Bytes
unfolding split_from
split s sep = split_from sep [] s

unfoldable pub join : List Bytes → Bytes → Bytes
join [] sep = []
join (p ∷ []) sep = p
join (p ∷ q ∷ ps) sep = p ++ sep ++ join (q ∷ ps) sep

-- `ReplaceAll(s, old, new)` for an `old` that is not empty; `skip` bytes of a match are to be passed.
unfoldable pub replace_from : ℕ → Bytes → Bytes → Bytes → Bytes
unfolding has_prefix
replace_from skip [] old new = []
replace_from (suc skip) (c ∷ s) old new = replace_from skip s old new
replace_from zero (c ∷ s) old new = elim (has_prefix (c ∷ s) old) [
  | true ↦ new ++ replace_from (length old - 1) s old new
  | false ↦ c ∷ replace_from 0 s old new
]

unfoldable pub replace_all : Bytes → Bytes → Bytes → Bytes
unfolding replace_from
replace_all s old new = replace_from 0 s old new

-- `Fields(s)`: the runs of bytes that are no space.
unfoldable pub fields_from : Bytes → Bytes → List Bytes
unfolding is_space
fields_from [] [] = []
fields_from (d ∷ cur) [] = (d ∷ cur) ∷ []
fields_from [] (c ∷ s) = elim (is_space c) [
  | true ↦ fields_from [] s
  | false ↦ fields_from (c ∷ []) s
]
fields_from (d ∷ cur) (c ∷ s) = elim (is_space c) [
  | true ↦ (d ∷ cur) ∷ fields_from [] s
  | false ↦ fields_from (d ∷ (cur ++ c ∷ [])) s
]

unfoldable pub fields : Bytes → List Bytes
unfolding fields_from
fields s = fields_from [] s

unfoldable pub equal_fold : Bytes → Bytes → Bool
unfolding to_lower equal
equal_fold s t = equal (to_lower s) (to_lower t)

-- `LastIndex(s, p)`; `i` counts the bytes passed.
unfoldable pub last_index_from : ℕ → Bytes → Bytes → Option ℕ
unfolding has_prefix
last_index_from i [] p = if has_prefix [] p then some i else none
last_index_from i (c ∷ s) p = elim (last_index_from (i + 1) s p) [
  | some j ↦ some j
  | none ↦ if has_prefix (c ∷ s) p then some i else none
]

unfoldable pub last_index : Bytes → Bytes → Option ℕ
unfolding last_index_from
last_index s p = last_index_from 0 s p
