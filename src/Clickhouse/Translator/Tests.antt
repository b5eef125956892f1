-- ===== src/Clickhouse/Translator/Tests.antt =====
-- Runs of the translator.
use agentx_proxy.Prelude.{◌≡◌, refl, ok, Bytes, codes}
use agentx_proxy.Prelude.Strings.{trim_space, replace_all, index}
use agentx_proxy.Regex.Replace.{replace_in_turn, replace_groups}
use agentx_proxy.Regex.Split.{matches}
use agentx_proxy.Regex.Unfound.{none_found}
use agentx_proxy.Clickhouse.Dates.{
  translate_final, translate_limit_1_by, translate_map_access, translate_map_functions,
  translate_array_functions, quote_empty_arrays, translate_ch_date_functions, translate_final_rules,
  translate_map_access_rules, translate_map_functions_rules, translate_limit_1_by_rules,
  array_rules, start_of_rules, start_of_interval, relative_rules, date_difference, today_rules,
}
use agentx_proxy.Clickhouse.Aggregates.{
  translate_ch_aggregate_functions, aggregate_rules, call_of, arg_max_state_rules, arg_max,
  merge_rules,
}
use agentx_proxy.Clickhouse.Translator.{
  translate, translate_tuple, translate_has_functions, translate_ch_parameters, translate_cast,
  translate_to_unix_timestamp_64, translate_reserved_words, translate_tuple_rules,
  translate_ch_parameters_rules, translate_cast_rules, translate_to_unix_timestamp_64_rules,
  overlaps, contains_all, has_rules,
}
use agentx_proxy.Clickhouse.Translator.Plain.{Plain, translate-Plain}

-- Runs of the translator.
count_if_translated :
    translate (codes "SELECT countIf(a > 1), uniq(b) FROM t FINAL LIMIT 1 BY id")
    ≡ ok (codes "SELECT COUNT(CASE WHEN a > 1 THEN 1 END), COUNT(DISTINCT b) FROM t")
unfolding translate translate_final translate_limit_1_by translate_map_access
    translate_map_functions translate_array_functions quote_empty_arrays translate_ch_date_functions
    translate_ch_aggregate_functions translate_tuple translate_has_functions translate_ch_parameters
    translate_cast translate_to_unix_timestamp_64 translate_reserved_words replace_in_turn
    replace_groups replace_all trim_space translate_final_rules translate_limit_1_by_rules
    array_rules start_of_rules start_of_interval relative_rules date_difference today_rules
    aggregate_rules call_of arg_max_state_rules arg_max merge_rules overlaps contains_all has_rules
count_if_translated = refl

dates_translated :
    translate (
      codes "SELECT dateDiff('millisecond', a, b), toStartOfInterval(t, INTERVAL 5 minute), m['k']")
    ≡ ok (
        codes
          "SELECT TIMESTAMPDIFF(MICROSECOND, a, b) / 1000, DATE_SUB(t, INTERVAL (TIMESTAMPDIFF(MINUTE, '1970-01-01', t) % 5) MINUTE), JSON_UNQUOTE(JSON_EXTRACT(m, '$.k'))")
unfolding translate translate_final translate_limit_1_by translate_map_access
    translate_map_functions translate_array_functions quote_empty_arrays translate_ch_date_functions
    translate_ch_aggregate_functions translate_tuple translate_has_functions translate_ch_parameters
    translate_cast translate_to_unix_timestamp_64 translate_reserved_words replace_in_turn
    replace_groups replace_all trim_space translate_final_rules translate_limit_1_by_rules
    array_rules start_of_rules start_of_interval relative_rules date_difference today_rules
    aggregate_rules call_of arg_max_state_rules arg_max merge_rules overlaps contains_all has_rules
dates_translated = refl

columns_translated :
    translate (codes "INSERT INTO t (key, id) VALUES ([], '[]')")
    ≡ ok (codes "INSERT INTO t (`key`, id) VALUES ('[]', '[]')")
unfolding translate translate_final translate_limit_1_by translate_map_access
    translate_map_functions translate_array_functions quote_empty_arrays translate_ch_date_functions
    translate_ch_aggregate_functions translate_tuple translate_has_functions translate_ch_parameters
    translate_cast translate_to_unix_timestamp_64 translate_reserved_words replace_in_turn
    replace_groups replace_all trim_space translate_final_rules translate_limit_1_by_rules
    array_rules start_of_rules start_of_interval relative_rules date_difference today_rules
    aggregate_rules call_of arg_max_state_rules arg_max merge_rules overlaps contains_all has_rules
columns_translated = refl

-- What follows LIMIT BY goes with it, and so does a word in a string.
second_limit_lost :
    translate (codes "SELECT a FROM t LIMIT 1 BY id LIMIT 10") ≡ ok (codes "SELECT a FROM t")
unfolding translate translate_final translate_limit_1_by translate_map_access
    translate_map_functions translate_array_functions quote_empty_arrays translate_ch_date_functions
    translate_ch_aggregate_functions translate_tuple translate_has_functions translate_ch_parameters
    translate_cast translate_to_unix_timestamp_64 translate_reserved_words replace_in_turn
    replace_groups replace_all trim_space translate_final_rules translate_limit_1_by_rules
    array_rules start_of_rules start_of_interval relative_rules date_difference today_rules
    aggregate_rules call_of arg_max_state_rules arg_max merge_rules overlaps contains_all has_rules
second_limit_lost = refl

final_in_string : translate (codes "SELECT 'FINAL'") ≡ ok (codes "SELECT ''")
unfolding translate translate_final translate_limit_1_by translate_map_access
    translate_map_functions translate_array_functions quote_empty_arrays translate_ch_date_functions
    translate_ch_aggregate_functions translate_tuple translate_has_functions translate_ch_parameters
    translate_cast translate_to_unix_timestamp_64 translate_reserved_words replace_in_turn
    replace_groups replace_all trim_space translate_final_rules translate_limit_1_by_rules
    array_rules start_of_rules start_of_interval relative_rules date_difference today_rules
    aggregate_rules call_of arg_max_state_rules arg_max merge_rules overlaps contains_all has_rules
final_in_string = refl

-- A plain statement, none of whose words is looked for.
abbrev plain : Bytes
plain = codes "SELECT a, b FROM t WHERE c = '1' ORDER BY a"

plain-Plain : Plain plain
unfolding trim_space index none_found matches translate_final_rules translate_map_access_rules
    translate_map_functions_rules translate_tuple_rules translate_ch_parameters_rules
    translate_cast_rules translate_to_unix_timestamp_64_rules translate_limit_1_by_rules array_rules
    start_of_rules relative_rules today_rules aggregate_rules arg_max_state_rules merge_rules
    has_rules
plain-Plain = record {
  trimmed = refl;
  no_quoted_array = refl;
  no_array = refl;
  no_placeholder = refl;
  final = refl;
  map_access = refl;
  map_functions = refl;
  tuples = refl;
  parameters = refl;
  casts = refl;
  timestamps = refl;
  limits = refl;
  arrays = refl;
  starts = refl;
  relatives = refl;
  todays = refl;
  aggregates = refl;
  states = refl;
  merges = refl;
  has = refl;
  intervals = refl;
  differences = refl;
  underscored = refl;
  simple_types = refl;
  types = refl;
  maxima = refl;
  has_any = refl;
  has_all = refl;
  insert_columns = refl;
}

translate-Plain_example : translate plain ≡ ok plain
translate-Plain_example = translate-Plain plain plain-Plain
