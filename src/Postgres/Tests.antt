-- ===== src/Postgres/Tests.antt =====
-- Runs of the translator, among them those of statements that it does not rewrite as it should.
use agentx_proxy.Prelude.{◌≡◌, refl, ok, codes, List, [], ◌∷◌, arith}
use agentx_proxy.Prelude.Strings.{replace_all}
use agentx_proxy.Postgres.Samples.{plain, plain-Untouched}
use agentx_proxy.Postgres.Untouched.{translate-Untouched}
use agentx_proxy.Postgres.Parameters.{mark_runs, translate_dollar_params-mark_params}
use agentx_proxy.Postgres.Quotes.Pieces.{
  Piece, bare, literal, name, byte, twice, slashed, no_quotes, no_quotes-NoQuotes, NoDouble,
  other_byte, ended, no_char, char, ArePieces, bare_piece, name_piece, literal_piece, no_piece,
  pg_text, mysql_text, translate_double_quotes-pg_text,
}
use agentx_proxy.Postgres.{translate, translate_ddl}
use agentx_proxy.Postgres.Quotes.{translate_double_quotes}
use agentx_proxy.Postgres.Operators.{
  translate_type_casts, translate_ilike, translate_limit_null, translate_equals_null,
  translate_any_array, translate_any, translate_final_keyword, translate_map_access,
  translate_dollar_params, translate_bool_operators,
}
use agentx_proxy.Postgres.Functions.{
  translate_date_trunc, translate_extract_epoch, translate_interval_arith,
  translate_jsonb_functions, translate_array_functions, translate_to_ts_vector,
  translate_string_agg, translate_coalesce_interval,
}
use agentx_proxy.Postgres.Statements.{
  translate_union_limit, translate_returning, translate_on_conflict,
}
use agentx_proxy.Postgres.Subqueries.{
  translate_generate_series, translate_limit_1_by, translate_lateral_join,
}

names_in_quotes :
    translate_double_quotes
      (codes "select \"a\", '\"it''s\\'' from \"public\".\"t\" where \"public.b\"")
    ≡ codes "select `a`, '\"it''s\\'' from `t` where `b`"
unfolding translate_double_quotes
names_in_quotes = refl

-- An assignment of NULL becomes a test for NULL.
assigned_null :
    translate_equals_null (codes "UPDATE t SET a = NULL WHERE b != NULL")
    ≡ codes "UPDATE t SET a IS NULL WHERE b IS NOT NULL"
unfolding translate_equals_null
assigned_null = refl

-- The number of a parameter becomes a number of the statement.
any_of_parameter : translate_any (codes "id = ANY($1)") ≡ codes "id = 1"
unfolding translate_any
any_of_parameter = refl

truth_values :
    translate_bool_operators (codes "a = True and b IS false and !!c")
    ≡ codes "a = 1 and b IS 0 and NOT c"
unfolding translate_bool_operators
truth_values = refl

array_tests :
    translate_any_array (codes "tags && ARRAY['x', y]") ≡ codes "JSON_OVERLAPS(tags, '['x','y']')"
unfolding translate_any_array
array_tests = refl

truncations :
    translate_date_trunc (codes "date_trunc('MONTH', at) = date_trunc('eon', at)")
    ≡ codes "DATE_FORMAT(at, '%Y-%m-01') = DATE(at)"
unfolding translate_date_trunc
truncations = refl

json_paths :
    translate_jsonb_functions (codes "a->>'b' jsonb_array_elements(x)")
    ≡ codes
        "JSON_UNQUOTE(JSON_EXTRACT(a, '$.b')) JSON_TABLE(x, '$[*]' COLUMNS (value TEXT PATH '$'))"
unfolding translate_jsonb_functions
json_paths = refl

text_search :
    translate_to_ts_vector
      (codes "like")
      (codes "to_tsvector('english', body) @@ plainto_tsquery('english', 'cat')")
    ≡ codes "body LIKE '%cat%'"
unfolding translate_to_ts_vector
text_search = refl

aggregated_text :
    translate_string_agg (codes "string_agg(a, ',' ORDER BY a)")
    ≡ codes "GROUP_CONCAT(a SEPARATOR ',')"
unfolding translate_string_agg
aggregated_text = refl

-- The parameter of the update becomes the text of the pattern's first group.
updated_parameter :
    translate_on_conflict (
      codes
        "INSERT INTO t VALUES ($1, $2) ON CONFLICT (id) DO UPDATE SET a = excluded.a, n = $1, m = $3")
    ≡ codes "INSERT INTO t VALUES ($1, $2) ON DUPLICATE KEY UPDATE a = VALUES(a), n = id, m = "
unfolding translate_on_conflict
updated_parameter = refl

ignored :
    translate_on_conflict (codes "INSERT INTO t VALUES (1) ON CONFLICT (id) DO NOTHING")
    ≡ codes "INSERT IGNORE INTO t VALUES (1)"
unfolding translate_on_conflict
ignored = refl

-- The last SELECT of a union is not put in parentheses.
limited_union :
    translate_union_limit (codes "SELECT a FROM t LIMIT 2 UNION ALL SELECT a FROM u LIMIT 2")
    ≡ codes "(SELECT a FROM t LIMIT 2) UNION ALL SELECT a FROM u LIMIT 2"
unfolding translate_union_limit
limited_union = refl

returned_id :
    translate_returning 7 (codes "INSERT INTO t (a) VALUES (1) RETURNING user_id")
    ≡ codes
        "CREATE TEMPORARY TABLE IF NOT EXISTS _ret_7 (id VARCHAR(36)); INSERT INTO t (a) VALUES (1); INSERT INTO _ret_7 VALUES (LAST_INSERT_ID()); SELECT id FROM _ret_7; DROP TEMPORARY TABLE _ret_7"
unfolding translate_returning
returned_id = refl

-- The WHERE behind the join is lost, its condition is not.
lost_keyword :
    translate_lateral_join
      (codes "SELECT * FROM a LEFT JOIN LATERAL (SELECT 1) b ON true WHERE a.x = 1")
    ≡ codes "SELECT * FROM a LEFT JOIN (SELECT 1 ORDER BY 1 LIMIT 1) AS b ON true a.x = 1"
unfolding translate_lateral_join
lost_keyword = refl

-- The end of a series reaches as far as the text has no comma.
long_series :
    translate_generate_series (λ i. 5) (codes "GENERATE_SERIES(1, 3) WHERE (n > 2)")
    ≡ codes
        "(WITH RECURSIVE gs_5(n) AS (SELECT 1 UNION ALL SELECT n + 1 FROM gs_5 WHERE n + 1 <= 3) WHERE (n > 2) SELECT n FROM gs_5)"
unfolding translate_generate_series
long_series = refl

limited_by :
    translate_limit_1_by (codes "SELECT a FROM t LIMIT 1 BY a ")
    ≡ codes
        "SELECT * FROM (SELECT t.*, ROW_NUMBER() OVER (PARTITION BY a) AS _rn FROM (SELECT a FROM t) t) _sq WHERE _rn <= 1"
unfolding translate_limit_1_by
limited_by = refl

-- The parameters keep the order of the text, not that of their numbers.
swapped_parameters :
    translate
      (codes "like")
      (record { returning = 0; series = λ i. 0 })
      (codes "SELECT $2::text, $1 FROM \"t\" WHERE a ILIKE $1 LIMIT NULL")
    ≡ ok (codes "SELECT ?, ? FROM `t` WHERE a LIKE COLLATE utf8mb4_general_ci ?")
unfolding translate translate_double_quotes translate_type_casts translate_ilike
    translate_limit_null translate_equals_null translate_union_limit translate_returning
    translate_on_conflict translate_date_trunc translate_extract_epoch translate_interval_arith
    translate_generate_series translate_jsonb_functions translate_array_functions
    translate_limit_1_by translate_lateral_join translate_to_ts_vector translate_any_array
    translate_any translate_final_keyword translate_map_access translate_dollar_params
    translate_string_agg translate_bool_operators translate_coalesce_interval
swapped_parameters = refl

defined_columns :
    translate_ddl (codes "id SERIAL, tags VARCHAR(10)[], at TIMESTAMP WITH TIME ZONE")
    ≡ codes "id BIGINT AUTO_INCREMENT, tags JSON, at DATETIME(3)"
unfolding translate_ddl
defined_columns = refl

translate-Untouched_example :
    translate (codes "like") (record { returning = 0; series = λ i. 0 }) plain ≡ ok plain
translate-Untouched_example =
    translate-Untouched plain plain-Untouched (codes "like")
      (record { returning = 0; series = λ i. 0 })

translate_dollar_params-mark_params_example :
    translate_dollar_params (codes "a = $2 and b = $10 or '$'") ≡ codes "a = ? and b = ? or '$'"
unfolding mark_runs
translate_dollar_params-mark_params_example =
    translate_dollar_params-mark_params (codes "a = $2 and b = $10 or '$'")

-- select "t"."n" with a text between them.
abbrev pieces : List Piece
pieces =
    bare (codes "select ")
    ∷ name (codes "public.t")
    ∷ literal (byte b'"' ∷ twice ∷ slashed b'\'' ∷ [])
    ∷ bare (codes " ")
    ∷ []

pieces-ArePieces : ArePieces pieces
unfolding no_quotes
pieces-ArePieces = bare_piece (no_quotes-NoQuotes (codes "select ") refl) (
    name_piece public_t (
      literal_piece (char (ground arith, ground arith) (char tt (char tt no_char)))
        (bare_piece (no_quotes-NoQuotes (codes " ") refl) no_piece)))
  where
    public_t : NoDouble (codes "public.t")
    public_t = other_byte (ground arith) (
        other_byte (ground arith) (
          other_byte (ground arith) (
            other_byte (ground arith) (
              other_byte (ground arith) (
                other_byte (ground arith)
                  (other_byte (ground arith) (other_byte (ground arith) ended)))))))

translate_double_quotes-pg_text_example :
    translate_double_quotes (codes "select \"public.t\"'\"''\\'' ") ≡ codes "select `t`'\"''\\'' "
unfolding pg_text mysql_text replace_all
translate_double_quotes-pg_text_example = translate_double_quotes-pg_text pieces pieces-ArePieces
