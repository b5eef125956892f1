-- ===== src/Catalog/Tests.antt =====
-- Runs of the catalog on a database of two tables, and the theorems on it.
use agentx_proxy.Prelude.{
  length, ◌≡◌, ◌==◌, not, refl, true, none, List, [], ◌∷◌, Bytes, codes, ok, err, failed, Outcome,
}
use agentx_proxy.Prelude.Strings.{contains}
use agentx_proxy.Pgwire.Backend.{Value, text, render}
use agentx_proxy.Arrays.{Arg}
use agentx_proxy.Session.{Rows}
use agentx_proxy.Regex.{find_submatch}
use agentx_proxy.Regex.Pattern.{compile}
use agentx_proxy.Catalog.{keep, leading_number}
use agentx_proxy.Catalog.Contents.{pg_types}
use agentx_proxy.Catalog.PgType.{types_of_oid, types_for, first_number}
use agentx_proxy.Catalog.Relations.{
  class_rows, class_of, class_row, count_in, pg_class_rows, pg_attribute_rows, attributes_of,
}
use agentx_proxy.Catalog.Dispatch.{handle_catalog_query, is_catalog_query}
use agentx_proxy.Catalog.Shapes.{Result, Rectangular}
use agentx_proxy.Catalog.Rectangular.{handle_catalog_query-Rectangular}
use agentx_proxy.Catalog.Numbering.{pg_attribute_rows-pg_class_rows}

abbrev two_tables : List (List Value)
two_tables = (text (codes "a") ∷ []) ∷ (text (codes "b") ∷ []) ∷ []

abbrev listing : Bytes → List Arg → Unit {0} → Outcome Rows × Unit {0}
listing q args d = (ok (record { columns = []; rows = two_tables; failure = none }), d)

-- Views such as pg_settings are taken for the catalog's, which does not know them.
settings_claimed : is_catalog_query (codes "select * from pg_settings") ≡ true
unfolding is_catalog_query contains
settings_claimed = refl

settings_refused :
    (handle_catalog_query listing (codes "select * from pg_settings") tt).0
    ≡ err (failed (codes "unsupported catalog query"))
unfolding handle_catalog_query contains
settings_refused = refl

only_int4 :
    keep
      (first_number (λ n. not (n == 23)))
      (types_of_oid (codes "select typname from pg_type where oid = 23"))
    ≡ []
unfolding types_of_oid types_for keep first_number leading_number pg_types find_submatch compile
only_int4 = refl

handle_catalog_query-Rectangular_example :
    Result Rectangular (handle_catalog_query listing (codes "select * from pg_class") tt).0
handle_catalog_query-Rectangular_example =
    handle_catalog_query-Rectangular listing (codes "select * from pg_class") tt

pg_attribute_rows-pg_class_rows_example :
    (length two_tables ≡ 2)
    × (pg_attribute_rows listing (codes "select * from pg_attribute where attrelid = 16385") tt
        ≡ attributes_of listing 16385 (codes "b") tt)
unfolding render pg_class_rows class_rows class_of class_row count_in leading_number find_submatch
    compile
pg_attribute_rows-pg_class_rows_example =
    pg_attribute_rows-pg_class_rows listing
      (record { columns = []; rows = two_tables; failure = none }) tt tt tt _ 1 16385 (codes "b") _
      (codes "select * from pg_attribute where attrelid = 16385") _ (λ s. refl) (tt, (tt, tt)) refl
      refl refl refl
