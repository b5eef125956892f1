-- ===== src/Regex/Split.antt =====
-- Go's Split, FindAllString and MatchString of a pattern that does not match the empty text.
use agentx_proxy.Prelude.{
  ℕ, zero, suc, ◌+◌, ◌-◌, Bool, true, false, Option, none, some, List, [], ◌∷◌, ◌++◌, Bytes, take,
  drop, length,
}
use agentx_proxy.Regex.{Regex, group, match_at, find_match, group_text}
use agentx_proxy.Regex.Pattern.{compile}
use agentx_proxy.Regex.Replace.{texts_of}

-- The texts between the matches, and the matches; `cur` is the text that is being read, and `skip` bytes
-- of a match are still to be passed.
unfoldable pub split_matches : Regex → ℕ → Bytes → Option ℕ → ℕ → Bytes → List Bytes × List Bytes
unfolding match_at group_text
split_matches r skip cur before passed [] = (cur ∷ [], [])
split_matches r (suc skip) cur before passed (c ∷ s) =
    split_matches r skip cur (some c) (passed + 1) s
split_matches r zero cur before passed (c ∷ s) =
    elim (match_at (group 0 r)
        (record { before = before; passed = passed; rest = c ∷ s; groups = [] }) some)
      as (λ _. List Bytes × List Bytes) [
        | none ↦ split_matches r 0 (cur ++ c ∷ []) (some c) (passed + 1) s
        | some t ↦
            let (parts, found) =
              split_matches r (t.passed - (passed + 1)) [] (some c) (passed + 1) s in
            (cur ∷ parts, texts_of t 0 ∷ found)
      ]

-- `Split(s, -1)` and `FindAllString(s, -1)`
unfoldable pub split_pattern : Bytes → Bytes → List Bytes × List Bytes
unfolding split_matches compile
split_pattern pattern s = split_matches (compile pattern) 0 [] none 0 s

-- `Split(s, 2)`
unfoldable pub cut_pattern : Bytes → Bytes → Bytes × Option Bytes
unfolding compile find_match group_text
cut_pattern pattern s =
    elim (find_match (compile pattern) none 0 s) as (λ _. Bytes × Option Bytes) [
      | none ↦ (s, none)
      | some t ↦ (take (t.passed - length (texts_of t 0)) s, some (drop t.passed s))
    ]

-- `MatchString`
unfoldable pub matches : Bytes → Bytes → Bool
unfolding compile find_match
matches pattern s = elim (find_match (compile pattern) none 0 s) as (λ _. Bool) [
  | none ↦ false
  | some t ↦ true
]
