-- ===== src/Regex.antt =====
-- Go's regexp over bytes, as far as the proxy uses it: the syntax of its patterns and the match that
-- Go prefers, which is the leftmost one, and among those the first in the order of the pattern.
pub mod Pattern
pub mod Replace
pub mod Split
pub mod Runs
pub mod Replaced
pub mod Unfound
mod Tests
use agentx_proxy.Prelude.{
  ℕ, zero, suc, ◌+◌, ◌-◌, Bool, true, false, ◌&&◌, ◌||◌, not, Option, none, some, List, [], ◌∷◌,
  ◌++◌, Bytes, length, take, leb, ◌==◌, if◌then◌else◌,
}
use agentx_proxy.Prelude.Strings.{lower_byte, upper_byte}

-- `star` says whether it takes as much as it can; a `group` has its number.
pub data Regex : Type 0 where
  eps at_start at_end boundary : Regex
  byte_in : (ℕ → Bool) → Regex
  seq alt : Regex → Regex → Regex
  star : Bool → Regex → Regex
  group : ℕ → Regex → Regex

-- Where a match has got to: the byte before, the number of bytes passed, those to come, and the
-- texts of the groups, the last one first.
pub record Pos : Type 0 where
  pub before : Option ℕ
  pub passed : ℕ
  pub rest : Bytes
  pub groups : List (ℕ × Bytes)

unfoldable pub is_word : ℕ → Bool
is_word c =
    leb b'0' c && leb c b'9'
    || (leb b'A' c && leb c b'Z' || (leb b'a' c && leb c b'z' || c == b'_'))

unfoldable pub word_at : Option ℕ → Bool
unfolding is_word
word_at none = false
word_at (some c) = is_word c

abbrev pub first : Bytes → Option ℕ
first [] = none
first (c ∷ s) = some c

abbrev pub after : Pos → ℕ → Bytes → Pos
after s c cs = record s { before = some c; passed = s.passed + 1; rest = cs }

-- One byte.
unfoldable pub one_byte : (ℕ → Bool) → Pos → (Pos → Option Pos) → Option Pos
one_byte p s k = elim s.rest as (λ _. Option Pos) [
  | [] ↦ none
  | c ∷ cs ↦ elim (p c) as (λ _. Option Pos) [ true ↦ k (after s c cs) | false ↦ none ]
]

abbrev pub if_none : Option Pos → (Unit {0} → Option Pos) → Option Pos
if_none (some t) other = some t
if_none none other = other tt

-- The rounds of a repetition, each of which takes a byte at least.
unfoldable pub rounds :
    (Pos → (Pos → Option Pos) → Option Pos) → Bool → ℕ → Pos → (Pos → Option Pos) → Option Pos
rounds m greedy zero s k = k s
rounds m true (suc n) s k =
    if_none
      (m s (λ t. elim (leb t.passed s.passed) as (λ _. Option Pos) [
        | true ↦ none
        | false ↦ rounds m true n t k
      ]))
      (λ _. k s)
rounds m false (suc n) s k = if_none (k s) (λ _. m s (λ t.
    elim (leb t.passed s.passed) as (λ _. Option Pos) [
      | true ↦ none
      | false ↦ rounds m false n t k
    ]))

-- A match from here on that `k` goes on from.
unfoldable pub match_at : Regex → Pos → (Pos → Option Pos) → Option Pos
unfolding one_byte rounds word_at
match_at eps s k = k s
match_at at_start s k = if s.passed == 0 then k s else none
match_at at_end s k = elim s.rest as (λ _. Option Pos) [ [] ↦ k s | c ∷ cs ↦ none ]
match_at boundary s k =
    let w = word_at s.before in
    let v = word_at (first s.rest) in if w && not v || (v && not w) then k s else none
match_at (byte_in p) s k = one_byte p s k
match_at (seq a b) s k = match_at a s (λ t. match_at b t k)
match_at (alt a b) s k = if_none (match_at a s k) (λ _. match_at b s k)
match_at (star greedy r) s k = rounds (match_at r) greedy (length s.rest) s k
match_at (group i r) s k =
    match_at r s (λ t. k (record t { groups = (i, take (t.passed - s.passed) s.rest) ∷ t.groups }))

-- The first match in what is left of a text: the group 0 is all of it.
unfoldable pub find_match : Regex → Option ℕ → ℕ → Bytes → Option Pos
unfolding match_at
find_match r before passed [] =
    match_at (group 0 r) (record { before = before; passed = passed; rest = []; groups = [] }) some
find_match r before passed (c ∷ s) =
    if_none
      (match_at (group 0 r) (record { before = before; passed = passed; rest = c ∷ s; groups = [] })
        some)
      (λ _. find_match r (some c) (passed + 1) s)

unfoldable pub group_text : ℕ → List (ℕ × Bytes) → Option Bytes
group_text i [] = none
group_text i ((j, t) ∷ groups) = if i == j then some t else group_text i groups

-- `FindStringSubmatch`: the texts of the groups, empty for those that took no part.
unfoldable pub find_submatch : Regex → Bytes → Option (ℕ → Bytes)
unfolding find_match group_text
find_submatch r s = elim (find_match r none 0 s) as (λ _. Option (ℕ → Bytes)) [
  | none ↦ none
  | some t ↦ some (λ i. elim (group_text i t.groups) as (λ _. Bytes) [ none ↦ [] | some x ↦ x ])
]
