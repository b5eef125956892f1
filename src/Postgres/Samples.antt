-- ===== src/Postgres/Samples.antt =====
-- A statement that the translator leaves alone.
use agentx_proxy.Prelude.{refl, codes, Bytes}
use agentx_proxy.Prelude.Strings.{index}
use agentx_proxy.Regex.Split.{matches}
use agentx_proxy.Regex.Unfound.{none_found}
use agentx_proxy.Postgres.Untouched.{Untouched}
use agentx_proxy.Postgres.Quotes.Pieces.{no_quotes, no_quotes-NoQuotes}
use agentx_proxy.Postgres.Operators.{
  translate_type_casts_rules, translate_ilike_rules, translate_limit_null_rules,
  translate_equals_null_rules, translate_any_rules, translate_map_access_rules,
}
use agentx_proxy.Postgres.Functions.{
  translate_extract_epoch_rules, translate_interval_arith_rules, translate_jsonb_functions_rules,
  translate_array_functions_rules, like_rules, match_against_rules,
}

-- A plain statement, none of whose words is looked for.
abbrev pub plain : Bytes
plain = codes "SELECT a, b FROM t WHERE c = 1 ORDER BY a"

pub plain-Untouched : Untouched plain
unfolding no_quotes index none_found matches translate_type_casts_rules translate_ilike_rules
    translate_limit_null_rules translate_equals_null_rules translate_any_rules
    translate_map_access_rules translate_extract_epoch_rules translate_interval_arith_rules
    translate_jsonb_functions_rules translate_array_functions_rules like_rules match_against_rules
plain-Untouched = record {
  quotes = no_quotes-NoQuotes plain refl;
  public_schema = refl;
  casts = refl;
  ilike = refl;
  limit_null = refl;
  equals_null = refl;
  any = refl;
  map_access = refl;
  epoch = refl;
  intervals = refl;
  jsonb = refl;
  arrays = refl;
  negations = refl;
  like = refl;
  match_against = refl;
  union = refl;
  returning = refl;
  on_duplicate = refl;
  nothing = refl;
  date_trunc = refl;
  series = refl;
  limit_by = refl;
  limit_by_any = refl;
  lateral = refl;
  overlap = refl;
  containment = refl;
  final = refl;
  params = refl;
  string_agg = refl;
  truth = refl;
  make_interval = refl;
}
