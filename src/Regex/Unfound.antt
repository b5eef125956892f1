-- ===== src/Regex/Unfound.antt =====
-- What the calls of regexp do on a text in which their patterns are not found.
use agentx_proxy.Prelude.{
  ℕ, ◌+◌, Option, none, some, List, [], ◌∷◌, ◌++◌, ◌≡◌, refl, ap, ◌∙◌, Bytes, map, Bool, true,
  false, if◌then◌else◌, arith, append_assoc, append-nil,
}
use agentx_proxy.Regex.{Regex, match_at, find_match, find_submatch}
use agentx_proxy.Regex.Pattern.{compile}
use agentx_proxy.Regex.Replace.{
  replace_pattern, replace_groups, replace_function, replace_in_turn, expand,
}
use agentx_proxy.Regex.Split.{matches, split_matches, split_pattern}
use agentx_proxy.Regex.Replaced.{replace_unfound, both_none, start_of, whole}

-- No one of the patterns is found in the text.
unfoldable pub none_found : List Bytes → Bytes → Bool
none_found [] s = true
none_found (p ∷ ps) s = let rest = none_found ps s in if matches p s then false else rest

pub unfound : (p s : Bytes) → matches p s ≡ false → find_match (compile p) none 0 s ≡ none
unfolding matches
unfound p s h =
    elim (find_match (compile p) none 0 s)
        as (λ o. (elim o as (λ _. Bool) [ none ↦ false | some t ↦ true ]) ≡ false → o ≡ none) [
          | none ↦ λ _. refl
          | some t ↦ λ e. absurd cc
        ]
      h

pub none_found-cons :
    (p : Bytes) (ps : List Bytes) (s : Bytes)
    → none_found (p ∷ ps) s ≡ true
    → (matches p s ≡ false) × (none_found ps s ≡ true)
unfolding none_found
none_found-cons p ps s h = ground arith

cons-none_found :
    (p : Bytes) (ps : List Bytes) (s : Bytes)
    → matches p s ≡ false
    → none_found ps s ≡ true
    → none_found (p ∷ ps) s ≡ true
unfolding none_found
cons-none_found p ps s h t = rw (h) t

pub none_found-append :
    (ps qs : List Bytes) (s : Bytes)
    → none_found (ps ++ qs) s ≡ true
    → (none_found ps s ≡ true) × (none_found qs s ≡ true)
none_found-append [] qs s h = unfold none_found in (refl, h)
none_found-append (p ∷ ps) qs s h =
    let (here, later) = none_found-cons p (ps ++ qs) s h in
    let (a, b) = none_found-append ps qs s later in (cons-none_found p ps s here a, b)

pub replace_pattern-unfound :
    (p template s : Bytes) → matches p s ≡ false → replace_pattern p template s ≡ s
unfolding replace_pattern
replace_pattern-unfound p template s h =
    replace_unfound (λ x. expand x 0 template) (compile p) none 0 s (unfound p s h)

pub replace_groups-unfound :
    (p : Bytes) (f : (ℕ → Bytes) → Bytes) (s : Bytes)
    → matches p s ≡ false
    → replace_groups p f s ≡ s
unfolding replace_groups
replace_groups-unfound p f s h =
    replace_unfound
      (λ x. elim (find_submatch (compile p) (x 0)) as (λ _. Bytes) [
        | none ↦ x 0
        | some found ↦ f found
      ])
      (compile p) none 0 s (unfound p s h)

pub replace_function-unfound :
    (p : Bytes) (f : Bytes → Bytes) (s : Bytes) → matches p s ≡ false → replace_function p f s ≡ s
unfolding replace_function
replace_function-unfound p f s h =
    replace_unfound (λ x. f (x 0)) (compile p) none 0 s (unfound p s h)

pub find_submatch-unfound : (p s : Bytes) → matches p s ≡ false → find_submatch (compile p) s ≡ none
unfolding find_submatch
find_submatch-unfound p s h = rw (unfound p s h, find_submatch) refl

abbrev pub patterns_of : List (Bytes × Bytes) → List Bytes
patterns_of rules = map (λ (p, t). p) rules

first_of_turn :
    (p t : Bytes) (rules : List (Bytes × Bytes)) (s : Bytes)
    → matches p s ≡ false
    → replace_in_turn ((p, t) ∷ rules) s ≡ replace_in_turn rules s
first_of_turn p t rules s h =
    unfold replace_in_turn in ap (replace_in_turn rules) (replace_pattern-unfound p t s h)

pub replace_in_turn-unfound :
    (rules : List (Bytes × Bytes)) (s : Bytes)
    → none_found (patterns_of rules) s ≡ true
    → replace_in_turn rules s ≡ s
replace_in_turn-unfound [] s h = unfold replace_in_turn in refl
replace_in_turn-unfound ((p, t) ∷ rules) s h =
    let (here, later) = none_found-cons p (patterns_of rules) s h in
    first_of_turn p t rules s here ∙ replace_in_turn-unfound rules s later

split_none :
    (r : Regex) (cur : Bytes) (before : Option ℕ) (n c : ℕ) (s : Bytes)
    → match_at r (start_of before n (c ∷ s)) (λ t. some (whole n (c ∷ s) t)) ≡ none
    → split_matches r 0 cur before n (c ∷ s) ≡ split_matches r 0 (cur ++ c ∷ []) (some c) (n + 1) s
unfolding split_matches match_at
split_none r cur before n c s e = rw (e, split_matches) refl

split_unfound :
    (r : Regex) (cur : Bytes) (before : Option ℕ) (n : ℕ) (s : Bytes)
    → find_match r before n s ≡ none
    → split_matches r 0 cur before n s ≡ ((cur ++ s) ∷ [], [])
unfolding find_match
split_unfound r cur before n [] h = unfold split_matches in rw append-nil
split_unfound r cur before n (c ∷ s) h =
    let (here, later) = both_none _ _ h in
    split_none r cur before n c s here
    ∙ split_unfound r (cur ++ c ∷ []) (some c) (n + 1) s later
    ∙ rw append_assoc refl

pub split_pattern-unfound : (p s : Bytes) → matches p s ≡ false → split_pattern p s ≡ (s ∷ [], [])
unfolding split_pattern
split_pattern-unfound p s h = split_unfound (compile p) [] none 0 s (unfound p s h)
