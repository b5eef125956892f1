-- ===== src/Postgres.antt =====
-- internal/proxy/postgresql/translator.go: the rewriting of PostgreSQL SQL into that of MySQL.
pub mod Quotes
pub mod Operators
pub mod Functions
pub mod Statements
pub mod Subqueries
pub mod Parameters
pub mod Unfound
pub mod Untouched
pub mod Samples
mod Tests
use agentx_proxy.Prelude.{ℕ, List, [], ◌∷◌, Bytes, codes, Outcome, ok}
use agentx_proxy.Regex.Replace.{replace_in_turn}
use agentx_proxy.Postgres.Quotes.{translate_double_quotes}
use agentx_proxy.Postgres.Operators.{
  translate_type_casts, translate_ilike, translate_limit_null, translate_equals_null,
  translate_any_array, translate_any, translate_final_keyword, translate_map_access,
  translate_dollar_params, translate_bool_operators,
}
use agentx_proxy.Postgres.Functions.{
  translate_date_trunc, translate_extract_epoch, translate_interval_arith,
  translate_jsonb_functions, translate_array_functions, translate_to_ts_vector,
  translate_string_agg, translate_coalesce_interval,
}
use agentx_proxy.Postgres.Statements.{
  translate_union_limit, translate_returning, translate_on_conflict,
}
use agentx_proxy.Postgres.Subqueries.{
  translate_generate_series, translate_limit_1_by, translate_lateral_join,
}

-- The numbers that rand.IntN(100000) gives in one translation.
pub record Draws : Type 0 where
  pub returning : ℕ
  pub series : ℕ → ℕ

-- `Translate`
unfoldable pub translate : Bytes → Draws → Bytes → Outcome Bytes
translate fulltext_mode draws sql =
    let casts = translate_type_casts (translate_double_quotes sql) in
    let nulls = translate_equals_null (translate_limit_null (translate_ilike casts)) in
    let returning = translate_returning draws.returning (translate_union_limit nulls) in
    let dates = translate_date_trunc (translate_on_conflict returning) in
    let intervals = translate_interval_arith (translate_extract_epoch dates) in
    let series = translate_generate_series draws.series intervals in
    let arrays = translate_array_functions (translate_jsonb_functions series) in
    let joins = translate_lateral_join (translate_limit_1_by arrays) in
    let any = translate_any (translate_any_array (translate_to_ts_vector fulltext_mode joins)) in
    let params = translate_dollar_params (translate_map_access (translate_final_keyword any)) in
    ok (translate_coalesce_interval (translate_bool_operators (translate_string_agg params)))

unfoldable pub ddl_rules : List (Bytes × Bytes)
ddl_rules =
    (codes "(?i)\\bSERIAL\\b", codes "BIGINT AUTO_INCREMENT")
    ∷ (codes "(?i)\\bTEXT\\[\\]", codes "JSON")
    ∷ (codes "(?i)\\bVARCHAR\\s*\\(\\s*\\d+\\s*\\)\\[\\]", codes "JSON")
    ∷ (codes "(?i)\\bINT\\[\\]", codes "JSON")
    ∷ (codes "(?i)\\bINTEGER\\[\\]", codes "JSON")
    ∷ (codes "(?i)\\bJSONB\\b", codes "JSON")
    ∷ (codes "(?i)\\bUUID\\b", codes "VARCHAR(36)")
    ∷ (codes "(?i)\\bTIMESTAMP\\s*WITH\\s*TIME\\s*ZONE\\b", codes "DATETIME(3)")
    ∷ (codes "(?i)\\bTIMESTAMPTZ\\b", codes "DATETIME(3)")
    ∷ (codes "(?i)\\bBOOLEAN\\b", codes "TINYINT(1)")
    ∷ (codes "(?i)\\bGENERATED\\s+ALWAYS\\s+AS\\s+IDENTITY\\b", codes "AUTO_INCREMENT")
    ∷ (codes "(?i)\\bUSING\\s+GIN\\b", codes "")
    ∷ []

-- `TranslateDDL`
unfoldable pub translate_ddl : Bytes → Bytes
unfolding replace_in_turn ddl_rules
translate_ddl sql = replace_in_turn ddl_rules sql
