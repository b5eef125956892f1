-- ===== src/Postgres/Untouched.antt =====
-- A statement that has none of what `Translate` looks for.
use agentx_proxy.Prelude.{true, false, none, [], ◌≡◌, refl, Bytes, codes, ok}
use agentx_proxy.Prelude.Strings.{index}
use agentx_proxy.Regex.Split.{matches}
use agentx_proxy.Regex.Unfound.{
  none_found, patterns_of, replace_in_turn-unfound, replace_pattern-unfound, replace_groups-unfound,
  replace_function-unfound,
}
use agentx_proxy.Postgres.{Draws, translate}
use agentx_proxy.Postgres.Quotes.Pieces.{NoQuotes}
use agentx_proxy.Postgres.Operators.{
  overlap_pattern, containment_pattern, truth_pattern, not_rules, final_pattern, dollar_pattern,
  translate_final_keyword, translate_dollar_params, translate_type_casts_rules,
  translate_type_casts, translate_ilike_rules, translate_ilike, translate_limit_null_rules,
  translate_limit_null, translate_equals_null_rules, translate_equals_null, translate_any_rules,
  translate_any, translate_map_access_rules, translate_map_access,
}
use agentx_proxy.Postgres.Functions.{
  like_rules, match_against_rules, date_trunc_pattern, string_agg_pattern, make_interval_pattern,
  date_trunc_call, group_concat, translate_date_trunc, translate_string_agg,
  translate_coalesce_interval, translate_extract_epoch_rules, translate_extract_epoch,
  translate_interval_arith_rules, translate_interval_arith, translate_jsonb_functions_rules,
  translate_jsonb_functions, translate_array_functions_rules, translate_array_functions,
}
use agentx_proxy.Postgres.Statements.{
  union_pattern, returning_pattern, on_duplicate_pattern, nothing_pattern,
}
use agentx_proxy.Postgres.Subqueries.{
  series_pattern, limit_by_pattern, limit_by_any_pattern, lateral_pattern,
}
use agentx_proxy.Postgres.Unfound.{
  translate_double_quotes-NoQuotes, translate_union_limit-unfound, translate_returning-unfound,
  translate_on_conflict-unfound, translate_generate_series-unfound, translate_limit_1_by-unfound,
  translate_lateral_join-unfound, translate_any_array-unfound, translate_bool_operators-unfound,
  translate_to_ts_vector-unfound,
}

-- There is no quote in the statement, no schema public in backticks, and no match of a pattern.
pub record Untouched (s : Bytes) : Type 0 where
  pub quotes : NoQuotes s
  pub public_schema : index s (codes "`public`.") ≡ none
  pub casts : none_found (patterns_of translate_type_casts_rules) s ≡ true
  pub ilike : none_found (patterns_of translate_ilike_rules) s ≡ true
  pub limit_null : none_found (patterns_of translate_limit_null_rules) s ≡ true
  pub equals_null : none_found (patterns_of translate_equals_null_rules) s ≡ true
  pub any : none_found (patterns_of translate_any_rules) s ≡ true
  pub map_access : none_found (patterns_of translate_map_access_rules) s ≡ true
  pub epoch : none_found (patterns_of translate_extract_epoch_rules) s ≡ true
  pub intervals : none_found (patterns_of translate_interval_arith_rules) s ≡ true
  pub jsonb : none_found (patterns_of translate_jsonb_functions_rules) s ≡ true
  pub arrays : none_found (patterns_of translate_array_functions_rules) s ≡ true
  pub negations : none_found (patterns_of not_rules) s ≡ true
  pub like : none_found (patterns_of like_rules) s ≡ true
  pub match_against : none_found (patterns_of match_against_rules) s ≡ true
  pub union : matches union_pattern s ≡ false
  pub returning : matches returning_pattern s ≡ false
  pub on_duplicate : matches on_duplicate_pattern s ≡ false
  pub nothing : matches nothing_pattern s ≡ false
  pub date_trunc : matches date_trunc_pattern s ≡ false
  pub series : matches series_pattern s ≡ false
  pub limit_by : matches limit_by_pattern s ≡ false
  pub limit_by_any : matches limit_by_any_pattern s ≡ false
  pub lateral : matches lateral_pattern s ≡ false
  pub overlap : matches overlap_pattern s ≡ false
  pub containment : matches containment_pattern s ≡ false
  pub final : matches final_pattern s ≡ false
  pub params : matches dollar_pattern s ≡ false
  pub string_agg : matches string_agg_pattern s ≡ false
  pub truth : matches truth_pattern s ≡ false
  pub make_interval : matches make_interval_pattern s ≡ false

module _ (s : Bytes) (h : Untouched s) where
  translate_type_casts-unfound : translate_type_casts s ≡ s
  unfolding translate_type_casts
  translate_type_casts-unfound = replace_in_turn-unfound translate_type_casts_rules s h.casts

  translate_ilike-unfound : translate_ilike s ≡ s
  unfolding translate_ilike
  translate_ilike-unfound = replace_in_turn-unfound translate_ilike_rules s h.ilike

  translate_limit_null-unfound : translate_limit_null s ≡ s
  unfolding translate_limit_null
  translate_limit_null-unfound = replace_in_turn-unfound translate_limit_null_rules s h.limit_null

  translate_equals_null-unfound : translate_equals_null s ≡ s
  unfolding translate_equals_null
  translate_equals_null-unfound =
      replace_in_turn-unfound translate_equals_null_rules s h.equals_null

  translate_any-unfound : translate_any s ≡ s
  unfolding translate_any
  translate_any-unfound = replace_in_turn-unfound translate_any_rules s h.any

  translate_map_access-unfound : translate_map_access s ≡ s
  unfolding translate_map_access
  translate_map_access-unfound = replace_in_turn-unfound translate_map_access_rules s h.map_access

  translate_extract_epoch-unfound : translate_extract_epoch s ≡ s
  unfolding translate_extract_epoch
  translate_extract_epoch-unfound = replace_in_turn-unfound translate_extract_epoch_rules s h.epoch

  translate_interval_arith-unfound : translate_interval_arith s ≡ s
  unfolding translate_interval_arith
  translate_interval_arith-unfound =
      replace_in_turn-unfound translate_interval_arith_rules s h.intervals

  translate_jsonb_functions-unfound : translate_jsonb_functions s ≡ s
  unfolding translate_jsonb_functions
  translate_jsonb_functions-unfound =
      replace_in_turn-unfound translate_jsonb_functions_rules s h.jsonb

  translate_array_functions-unfound : translate_array_functions s ≡ s
  unfolding translate_array_functions
  translate_array_functions-unfound =
      replace_in_turn-unfound translate_array_functions_rules s h.arrays

  translate_final_keyword-unfound : translate_final_keyword s ≡ s
  unfolding translate_final_keyword
  translate_final_keyword-unfound = replace_pattern-unfound final_pattern [] s h.final

  translate_dollar_params-unfound : translate_dollar_params s ≡ s
  unfolding translate_dollar_params
  translate_dollar_params-unfound = replace_pattern-unfound dollar_pattern (codes "?") s h.params

  translate_date_trunc-unfound : translate_date_trunc s ≡ s
  unfolding translate_date_trunc
  translate_date_trunc-unfound =
      replace_groups-unfound date_trunc_pattern date_trunc_call s h.date_trunc

  translate_string_agg-unfound : translate_string_agg s ≡ s
  unfolding translate_string_agg
  translate_string_agg-unfound =
      replace_groups-unfound string_agg_pattern group_concat s h.string_agg

  translate_coalesce_interval-unfound : translate_coalesce_interval s ≡ s
  unfolding translate_coalesce_interval
  translate_coalesce_interval-unfound =
      replace_function-unfound make_interval_pattern (λ m. codes "INTERVAL 0 SECOND") s
        h.make_interval

  -- A statement without quotes and without the schema public in backticks, in which none of the patterns of
  -- the translator is found, reaches MySQL as it was written, whatever the mode and the numbers drawn.
  pub translate-Untouched : (mode : Bytes) (draws : Draws) → translate mode draws s ≡ ok s
  unfolding translate
  translate-Untouched mode draws =
      rw
        (
          translate_double_quotes-NoQuotes s h.quotes h.public_schema,
          translate_type_casts-unfound,
          translate_ilike-unfound,
          translate_limit_null-unfound,
          translate_equals_null-unfound,
          translate_union_limit-unfound s h.union,
          translate_returning-unfound draws.returning s h.returning,
          translate_on_conflict-unfound s h.on_duplicate h.nothing,
          translate_date_trunc-unfound,
          translate_extract_epoch-unfound,
          translate_interval_arith-unfound,
          translate_generate_series-unfound draws.series s h.series,
          translate_jsonb_functions-unfound,
          translate_array_functions-unfound,
          translate_limit_1_by-unfound s h.limit_by h.limit_by_any,
          translate_lateral_join-unfound s h.lateral,
          translate_to_ts_vector-unfound mode s h.like h.match_against,
          translate_any_array-unfound s h.overlap h.containment,
          translate_any-unfound,
          translate_final_keyword-unfound,
          translate_map_access-unfound,
          translate_dollar_params-unfound,
          translate_string_agg-unfound,
          translate_bool_operators-unfound s h.negations h.truth,
          translate_coalesce_interval-unfound,
        )
        refl
