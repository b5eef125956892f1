-- ===== src/Postgres/Unfound.antt =====
-- What the rewritings of `Translate` do to a statement in which their patterns are not found.
use agentx_proxy.Prelude.{
  sym, ◌||◌, if◌then◌else◌, ℕ, ◌+◌, Bool, true, false, Option, none, some, [], ◌∷◌, ◌≡◌, refl, ap,
  ◌∙◌, Bytes, codes, append-nil,
}
use agentx_proxy.Prelude.Strings.{index, index_from, replace_from}
use agentx_proxy.Prelude.Absent.{replace_from-absent}
use agentx_proxy.Regex.{Regex, find_match, match_at}
use agentx_proxy.Regex.Replaced.{both_none, start_of, whole}
use agentx_proxy.Regex.Pattern.{compile}
use agentx_proxy.Regex.Replace.{replace_groups, replace_function}
use agentx_proxy.Regex.Split.{matches}
use agentx_proxy.Regex.Unfound.{
  unfound, none_found, patterns_of, replace_pattern-unfound, replace_groups-unfound,
  replace_function-unfound, find_submatch-unfound, replace_in_turn-unfound, split_pattern-unfound,
}
use agentx_proxy.Postgres.Quotes.{outside, scan_quotes, translate_double_quotes}
use agentx_proxy.Postgres.Quotes.Pieces.{NoQuotes, scan-NoQuotes}
use agentx_proxy.Postgres.Operators.{
  overlap_pattern, containment_pattern, truth_pattern, not_rules, json_call, truth_number,
  translate_any_array, translate_bool_operators,
}
use agentx_proxy.Postgres.Functions.{like_rules, match_against_rules, translate_to_ts_vector}
use agentx_proxy.Postgres.Subqueries.{
  series_pattern, replace_series, translate_generate_series, limit_by_pattern, limit_by_any_pattern,
  translate_limit_1_by, lateral_pattern, translate_lateral_join,
}
use agentx_proxy.Postgres.Statements.{
  union_pattern, returning_pattern, on_duplicate_pattern, nothing_pattern, translate_union_limit,
  translate_returning, translate_on_conflict, on_conflict_nothing,
}

same_choice : (b : Bool) (s : Bytes) → (if b then s else s) ≡ s
same_choice true s = refl
same_choice false s = refl

first_choice : (b : Bool) (s t : Bytes) → (if b || true then s else t) ≡ s
first_choice true s t = refl
first_choice false s t = refl

pub translate_double_quotes-NoQuotes :
    (s : Bytes) → NoQuotes s → index s (codes "`public`.") ≡ none → translate_double_quotes s ≡ s
unfolding translate_double_quotes index_from index
translate_double_quotes-NoQuotes s q h =
    let same : scan_quotes outside s ≡ s =
      sym (ap (scan_quotes outside) (append-nil s)) ∙ scan-NoQuotes s [] q ∙ append-nil s in
    ap (λ t. replace_from 0 t (codes "`public`.") []) same
    ∙ replace_from-absent 0 s (codes "`public`.") [] h

pub translate_union_limit-unfound :
    (s : Bytes) → matches union_pattern s ≡ false → translate_union_limit s ≡ s
unfolding translate_union_limit
translate_union_limit-unfound s h =
    rw (split_pattern-unfound union_pattern s h) (first_choice _ _ _)

pub translate_returning-unfound :
    (draw : ℕ) (s : Bytes) → matches returning_pattern s ≡ false → translate_returning draw s ≡ s
unfolding translate_returning
translate_returning-unfound draw s h =
    rw (find_submatch-unfound returning_pattern s h, translate_returning) refl

pub translate_on_conflict-unfound :
    (s : Bytes)
    → matches on_duplicate_pattern s ≡ false
    → matches nothing_pattern s ≡ false
    → translate_on_conflict s ≡ s
unfolding translate_on_conflict on_conflict_nothing
translate_on_conflict-unfound s h n =
    rw (find_submatch-unfound on_duplicate_pattern s h, n) (same_choice _ s)

series_none :
    (draws : ℕ → ℕ) (i : ℕ) (r : Regex) (before : Option ℕ) (n c : ℕ) (s : Bytes)
    → match_at r (start_of before n (c ∷ s)) (λ t. some (whole n (c ∷ s) t)) ≡ none
    → replace_series draws i r 0 before n (c ∷ s)
      ≡ c ∷ replace_series draws i r 0 (some c) (n + 1) s
unfolding replace_series match_at
series_none draws i r before n c s e = rw (e, replace_series) refl

-- The series are replaced one after the other; where there is none, nothing is.
replace_series-unfound :
    (draws : ℕ → ℕ) (i : ℕ) (r : Regex) (before : Option ℕ) (n : ℕ) (s : Bytes)
    → find_match r before n s ≡ none
    → replace_series draws i r 0 before n s ≡ s
unfolding find_match
replace_series-unfound draws i r before n [] h = unfold replace_series in refl
replace_series-unfound draws i r before n (c ∷ s) h =
    let (here, later) = both_none _ _ h in
    series_none draws i r before n c s here
    ∙ ap (λ x. c ∷ x) (replace_series-unfound draws i r (some c) (n + 1) s later)

pub translate_generate_series-unfound :
    (draws : ℕ → ℕ) (s : Bytes)
    → matches series_pattern s ≡ false
    → translate_generate_series draws s ≡ s
unfolding translate_generate_series
translate_generate_series-unfound draws s h =
    replace_series-unfound draws 0 (compile series_pattern) none 0 s (unfound series_pattern s h)

pub translate_limit_1_by-unfound :
    (s : Bytes)
    → matches limit_by_pattern s ≡ false
    → matches limit_by_any_pattern s ≡ false
    → translate_limit_1_by s ≡ s
unfolding translate_limit_1_by
translate_limit_1_by-unfound s h n =
    rw (find_submatch-unfound limit_by_pattern s h, translate_limit_1_by)
      (replace_pattern-unfound limit_by_any_pattern [] s n)

pub translate_lateral_join-unfound :
    (s : Bytes) → matches lateral_pattern s ≡ false → translate_lateral_join s ≡ s
unfolding translate_lateral_join
translate_lateral_join-unfound s h =
    rw (find_submatch-unfound lateral_pattern s h, translate_lateral_join) refl

pub translate_any_array-unfound :
    (s : Bytes)
    → matches overlap_pattern s ≡ false
    → matches containment_pattern s ≡ false
    → translate_any_array s ≡ s
unfolding translate_any_array
translate_any_array-unfound s h n =
    ap (replace_groups containment_pattern (json_call (codes "JSON_CONTAINS")))
      (replace_groups-unfound overlap_pattern (json_call (codes "JSON_OVERLAPS")) s h)
    ∙ replace_groups-unfound containment_pattern (json_call (codes "JSON_CONTAINS")) s n

pub translate_bool_operators-unfound :
    (s : Bytes)
    → none_found (patterns_of not_rules) s ≡ true
    → matches truth_pattern s ≡ false
    → translate_bool_operators s ≡ s
unfolding translate_bool_operators
translate_bool_operators-unfound s h n =
    ap (replace_function truth_pattern truth_number) (replace_in_turn-unfound not_rules s h)
    ∙ replace_function-unfound truth_pattern truth_number s n

pub translate_to_ts_vector-unfound :
    (mode s : Bytes)
    → none_found (patterns_of like_rules) s ≡ true
    → none_found (patterns_of match_against_rules) s ≡ true
    → translate_to_ts_vector mode s ≡ s
unfolding translate_to_ts_vector
translate_to_ts_vector-unfound mode s h n =
    rw (replace_in_turn-unfound like_rules s h, replace_in_turn-unfound match_against_rules s n)
      (same_choice _ s)
