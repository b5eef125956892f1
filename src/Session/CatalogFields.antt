-- ===== src/Session/CatalogFields.antt =====
-- internal/proxy/postgresql/server.go: describeCatalogQuery, the fields of a catalog query before it is run.
use agentx_proxy.Prelude.{
  ◌==◌, if◌then◌else◌, Option, none, some, List, map, Bytes, Action, return, handling,
}
use agentx_proxy.Prelude.Strings.{to_lower}
use agentx_proxy.Pgwire.Backend.{FieldDescription, Value}
use agentx_proxy.Catalog.Dispatch.{handle_catalog_query}
use agentx_proxy.Session.{Services, column, variable_size}
use agentx_proxy.Session.Columns.{catalog_oid, parse_select_columns}

-- The same field, whether or not the catalog has the column.
unfoldable pub catalog_field : Bytes → FieldDescription
unfolding catalog_oid to_lower column
catalog_field col =
    let name = to_lower col in
    column name (if catalog_oid name == 0 then 25 else catalog_oid name) variable_size

unfoldable pub catalog_fields :
    Bytes → Option (List Bytes × List (List Value)) → Option (List FieldDescription)
unfolding catalog_field parse_select_columns
catalog_fields query none = none
catalog_fields query (some (all, rows)) =
    elim (parse_select_columns query) as (λ _. Option (List FieldDescription)) [
      | none ↦ some (map catalog_field all)
      | some selected ↦ some (map catalog_field selected)
    ]

module _ (services : Services) where
  open services use {Db, query as query_db}

  -- `describeCatalogQuery`
  unfoldable pub describe_catalog_query : Bytes → Action Db (Option (List FieldDescription))
  unfolding catalog_fields
  describe_catalog_query query =
      handling (handle_catalog_query query_db query) (λ e. return none)
        (λ answer. return (catalog_fields query answer))
