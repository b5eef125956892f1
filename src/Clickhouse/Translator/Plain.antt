-- ===== src/Clickhouse/Translator/Plain.antt =====
-- A statement that has none of what `Translate` looks for.
use agentx_proxy.Prelude.{none, true, false, ◌≡◌, refl, Bytes, codes, ok}
use agentx_proxy.Prelude.Strings.{index, trim_space}
use agentx_proxy.Prelude.Absent.{replace_all-absent}
use agentx_proxy.Regex.Split.{matches}
use agentx_proxy.Regex.Unfound.{
  none_found, patterns_of, replace_in_turn-unfound, replace_groups-unfound,
}
use agentx_proxy.Clickhouse.Dates.{
  placeholder, translate_final, translate_limit_1_by, translate_map_access, translate_map_functions,
  translate_array_functions, quote_empty_arrays, translate_ch_date_functions, translate_final_rules,
  translate_map_access_rules, translate_map_functions_rules, translate_limit_1_by_rules,
  array_rules, start_of_rules, start_of_interval, relative_rules, date_difference, today_rules,
  interval_pattern, date_diff_pattern, date_underscore_diff_pattern,
}
use agentx_proxy.Clickhouse.Aggregates.{
  translate_ch_aggregate_functions, aggregate_rules, call_of, arg_max_state_rules, arg_max,
  merge_rules, simple_aggregate_pattern, aggregate_pattern, arg_max_pattern,
}
use agentx_proxy.Clickhouse.Translator.{
  translate, translate_tuple, translate_has_functions, translate_ch_parameters, translate_cast,
  translate_to_unix_timestamp_64, translate_reserved_words, translate_tuple_rules,
  translate_ch_parameters_rules, translate_cast_rules, translate_to_unix_timestamp_64_rules,
  overlaps, contains_all, has_rules, has_any_pattern, has_all_pattern, insert_columns_pattern,
  quote_columns,
}

-- There is no space around the statement, no empty array in it, and no match of a pattern.
pub record Plain (s : Bytes) : Type 0 where
  pub trimmed : trim_space s ≡ s
  pub no_quoted_array : index s (codes "'[]'") ≡ none
  pub no_array : index s (codes "[]") ≡ none
  pub no_placeholder : index s placeholder ≡ none
  pub final : none_found (patterns_of translate_final_rules) s ≡ true
  pub map_access : none_found (patterns_of translate_map_access_rules) s ≡ true
  pub map_functions : none_found (patterns_of translate_map_functions_rules) s ≡ true
  pub tuples : none_found (patterns_of translate_tuple_rules) s ≡ true
  pub parameters : none_found (patterns_of translate_ch_parameters_rules) s ≡ true
  pub casts : none_found (patterns_of translate_cast_rules) s ≡ true
  pub timestamps : none_found (patterns_of translate_to_unix_timestamp_64_rules) s ≡ true
  pub limits : none_found (patterns_of translate_limit_1_by_rules) s ≡ true
  pub arrays : none_found (patterns_of array_rules) s ≡ true
  pub starts : none_found (patterns_of start_of_rules) s ≡ true
  pub relatives : none_found (patterns_of relative_rules) s ≡ true
  pub todays : none_found (patterns_of today_rules) s ≡ true
  pub aggregates : none_found (patterns_of aggregate_rules) s ≡ true
  pub states : none_found (patterns_of arg_max_state_rules) s ≡ true
  pub merges : none_found (patterns_of merge_rules) s ≡ true
  pub has : none_found (patterns_of has_rules) s ≡ true
  pub intervals : matches interval_pattern s ≡ false
  pub differences : matches date_diff_pattern s ≡ false
  pub underscored : matches date_underscore_diff_pattern s ≡ false
  pub simple_types : matches simple_aggregate_pattern s ≡ false
  pub types : matches aggregate_pattern s ≡ false
  pub maxima : matches arg_max_pattern s ≡ false
  pub has_any : matches has_any_pattern s ≡ false
  pub has_all : matches has_all_pattern s ≡ false
  pub insert_columns : matches insert_columns_pattern s ≡ false

module _ (s : Bytes) (h : Plain s) where
  translate_final-unfound : translate_final s ≡ s
  unfolding translate_final
  translate_final-unfound = replace_in_turn-unfound translate_final_rules s h.final

  translate_map_access-unfound : translate_map_access s ≡ s
  unfolding translate_map_access
  translate_map_access-unfound = replace_in_turn-unfound translate_map_access_rules s h.map_access

  translate_map_functions-unfound : translate_map_functions s ≡ s
  unfolding translate_map_functions
  translate_map_functions-unfound =
      replace_in_turn-unfound translate_map_functions_rules s h.map_functions

  translate_tuple-unfound : translate_tuple s ≡ s
  unfolding translate_tuple
  translate_tuple-unfound = replace_in_turn-unfound translate_tuple_rules s h.tuples

  translate_ch_parameters-unfound : translate_ch_parameters s ≡ s
  unfolding translate_ch_parameters
  translate_ch_parameters-unfound =
      replace_in_turn-unfound translate_ch_parameters_rules s h.parameters

  translate_cast-unfound : translate_cast s ≡ s
  unfolding translate_cast
  translate_cast-unfound = replace_in_turn-unfound translate_cast_rules s h.casts

  translate_to_unix_timestamp_64-unfound : translate_to_unix_timestamp_64 s ≡ s
  unfolding translate_to_unix_timestamp_64
  translate_to_unix_timestamp_64-unfound =
      replace_in_turn-unfound translate_to_unix_timestamp_64_rules s h.timestamps

  translate_limit_1_by-unfound : translate_limit_1_by s ≡ s
  unfolding translate_limit_1_by
  translate_limit_1_by-unfound =
      rw (replace_in_turn-unfound translate_limit_1_by_rules s h.limits, h.trimmed) refl

  quote_empty_arrays-unfound : quote_empty_arrays s ≡ s
  unfolding quote_empty_arrays
  quote_empty_arrays-unfound =
      rw
        (
          replace_all-absent s (codes "'[]'") placeholder h.no_quoted_array,
          replace_all-absent s (codes "[]") (codes "'[]'") h.no_array,
          replace_all-absent s placeholder (codes "'[]'") h.no_placeholder,
        )
        refl

  translate_array_functions-unfound : translate_array_functions s ≡ s
  unfolding translate_array_functions
  translate_array_functions-unfound =
      rw (replace_in_turn-unfound array_rules s h.arrays, quote_empty_arrays-unfound) refl

  translate_ch_date_functions-unfound : translate_ch_date_functions s ≡ s
  unfolding translate_ch_date_functions
  translate_ch_date_functions-unfound =
      rw
        (
          replace_in_turn-unfound start_of_rules s h.starts,
          replace_groups-unfound interval_pattern start_of_interval s h.intervals,
          replace_in_turn-unfound relative_rules s h.relatives,
          replace_groups-unfound date_diff_pattern date_difference s h.differences,
          replace_groups-unfound date_underscore_diff_pattern date_difference s h.underscored,
          replace_in_turn-unfound today_rules s h.todays,
        )
        refl

  translate_ch_aggregate_functions-unfound : translate_ch_aggregate_functions s ≡ s
  unfolding translate_ch_aggregate_functions
  translate_ch_aggregate_functions-unfound =
      rw
        (
          replace_in_turn-unfound aggregate_rules s h.aggregates,
          replace_groups-unfound simple_aggregate_pattern call_of s h.simple_types,
          replace_groups-unfound aggregate_pattern call_of s h.types,
          replace_in_turn-unfound arg_max_state_rules s h.states,
          replace_groups-unfound arg_max_pattern arg_max s h.maxima,
          replace_in_turn-unfound merge_rules s h.merges,
        )
        refl

  translate_has_functions-unfound : translate_has_functions s ≡ s
  unfolding translate_has_functions
  translate_has_functions-unfound =
      rw
        (
          replace_groups-unfound has_any_pattern overlaps s h.has_any,
          replace_groups-unfound has_all_pattern contains_all s h.has_all,
          replace_in_turn-unfound has_rules s h.has,
        )
        refl

  translate_reserved_words-unfound : translate_reserved_words s ≡ s
  unfolding translate_reserved_words
  translate_reserved_words-unfound =
      replace_groups-unfound insert_columns_pattern quote_columns s h.insert_columns

  -- A statement without space around it and without an empty array, in which none of the patterns of the
  -- translator is found, reaches MySQL as it was written.
  pub translate-Plain : translate s ≡ ok s
  unfolding translate
  translate-Plain =
      rw
        (
          translate_final-unfound, translate_limit_1_by-unfound, translate_map_access-unfound,
          translate_map_functions-unfound, translate_array_functions-unfound,
          translate_ch_date_functions-unfound, translate_ch_aggregate_functions-unfound,
          translate_tuple-unfound, translate_has_functions-unfound, translate_ch_parameters-unfound,
          translate_cast-unfound, translate_to_unix_timestamp_64-unfound,
          translate_reserved_words-unfound,
        )
        refl
