-- ===== src/Regex/Replace.antt =====
-- Go's ReplaceAllString and ReplaceAllStringFunc. No pattern of the proxy matches the empty text, so that
-- what Go does about empty matches side by side is left out.
use agentx_proxy.Prelude.{
  ℕ, zero, suc, ◌+◌, ◌*◌, ◌-◌, true, false, ◌&&◌, ◌||◌, not, Option, none, some, List, [], ◌∷◌,
  ◌++◌, Bytes, leb, ◌==◌, if◌then◌else◌, take, drop, length,
}
use agentx_proxy.Prelude.Strings.{has_prefix}
use agentx_proxy.Regex.{Regex, group, Pos, match_at, group_text, find_submatch, is_word}
use agentx_proxy.Regex.Pattern.{compile}

-- What a dollar sign and the text after it stand for, and how many bytes of that text are read: the
-- sign itself, a group, or a name that is no number, which stands for nothing.
pub data Reference : Type 0 where
  sign : ℕ → Reference
  numbered named : ℕ → ℕ → Reference

-- The longest name: how many bytes it has.
unfoldable pub name_length : Bytes → ℕ
unfolding is_word
name_length [] = 0
name_length (c ∷ s) = let rest = name_length s in if is_word c then suc rest else 0

unfoldable pub number_of : Bytes → ℕ → Option ℕ
number_of [] n = some n
number_of (c ∷ s) n =
    let rest = number_of s (n * 10 + (c - b'0')) in
    if leb b'0' c && leb c b'9' && leb (n + 1) 100000000 then rest else none

-- A number has no zero before it.
unfoldable pub named_reference : Bytes → ℕ → Reference
unfolding number_of
named_reference name size =
    if leb 2 (length name) && has_prefix name (b'0' ∷ [])
    then named 0 size
    else elim (number_of name 0) as (λ _. Reference) [
      | none ↦ named 0 size
      | some i ↦ numbered i size
    ]

-- `extract`: the name may stand in braces.
unfoldable pub reference : Bytes → Reference
unfolding name_length named_reference has_prefix
reference [] = sign 0
reference (c ∷ s) =
    let n = name_length (c ∷ s) in
    let m = name_length s in
    if c == b'$'
    then sign 1
    else if c == b'{'
    then (if m == 0 || not (has_prefix (drop m s) (b'}' ∷ []))
        then sign 0
        else named_reference (take m s) (m + 2))
    else if n == 0
    then sign 0
    else named_reference (take n (c ∷ s)) n

unfoldable pub referred : (ℕ → Bytes) → Reference → Bytes
referred groups (sign size) = b'$' ∷ []
referred groups (named i size) = []
referred groups (numbered i size) = groups i

unfoldable pub reference_size : Reference → ℕ
reference_size (sign size) = size
reference_size (named i size) = size
reference_size (numbered i size) = size

-- The text of a template; `skip` bytes of a reference are still to be passed.
unfoldable pub expand : (ℕ → Bytes) → ℕ → Bytes → Bytes
unfolding reference referred reference_size
expand groups skip [] = []
expand groups (suc skip) (c ∷ s) = expand groups skip s
expand groups zero (c ∷ s) = elim (c == b'$') as (λ _. Bytes) [
  | true ↦ referred groups (reference s) ++ expand groups (reference_size (reference s)) s
  | false ↦ c ∷ expand groups 0 s
]

abbrev pub texts_of : Pos → ℕ → Bytes
texts_of t i = elim (group_text i t.groups) as (λ _. Bytes) [ none ↦ [] | some x ↦ x ]

-- The text with its matches replaced; `skip` bytes of a match are still to be passed.
unfoldable pub replace_matches : ((ℕ → Bytes) → Bytes) → Regex → ℕ → Option ℕ → ℕ → Bytes → Bytes
unfolding match_at group_text
replace_matches f r skip before passed [] = []
replace_matches f r (suc skip) before passed (c ∷ s) =
    replace_matches f r skip (some c) (passed + 1) s
replace_matches f r zero before passed (c ∷ s) =
    elim (match_at (group 0 r)
        (record { before = before; passed = passed; rest = c ∷ s; groups = [] }) some)
      as (λ _. Bytes) [
        | none ↦ c ∷ replace_matches f r 0 (some c) (passed + 1) s
        | some t ↦
            f (texts_of t) ++ replace_matches f r (t.passed - (passed + 1)) (some c) (passed + 1) s
      ]

-- `ReplaceAllString`, for the text of a pattern.
unfoldable pub replace_pattern : Bytes → Bytes → Bytes → Bytes
unfolding replace_matches expand compile
replace_pattern pattern template s =
    replace_matches (λ groups. expand groups 0 template) (compile pattern) 0 none 0 s

-- `ReplaceAllStringFunc` with a function that looks for the groups in the match again, and leaves it
-- alone if they are not found.
unfoldable pub replace_groups : Bytes → ((ℕ → Bytes) → Bytes) → Bytes → Bytes
unfolding replace_matches compile find_submatch
replace_groups pattern f s =
    replace_matches
      (λ groups. elim (find_submatch (compile pattern) (groups 0)) as (λ _. Bytes) [
        | none ↦ groups 0
        | some found ↦ f found
      ])
      (compile pattern) 0 none 0 s

-- `ReplaceAllStringFunc` with a function of the match alone.
unfoldable pub replace_function : Bytes → (Bytes → Bytes) → Bytes → Bytes
unfolding replace_matches compile
replace_function pattern f s = replace_matches (λ groups. f (groups 0)) (compile pattern) 0 none 0 s

-- One replacement after the other.
unfoldable pub replace_in_turn : List (Bytes × Bytes) → Bytes → Bytes
unfolding replace_pattern
replace_in_turn [] s = s
replace_in_turn ((pattern, template) ∷ rules) s =
    replace_in_turn rules (replace_pattern pattern template s)
