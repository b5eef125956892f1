-- ===== src/Session/Clauses.antt =====
-- internal/proxy/postgresql/server.go: the clauses of a query that its patterns find.
use agentx_proxy.Prelude.{ℕ, Option, none, some, Bytes, codes}
use agentx_proxy.Regex.{find_submatch}
use agentx_proxy.Regex.Pattern.{compile}

-- The first group of a match.
abbrev first_group : Option (ℕ → Bytes) → Option Bytes
first_group none = none
first_group (some groups) = some (groups 1)

-- The text after RETURNING.
unfoldable pub returning_clause : Bytes → Option Bytes
unfolding find_submatch compile
returning_clause query =
    first_group (find_submatch (compile (codes "(?i)RETURNING\\s+(.+)$")) query)

-- The table of an INSERT or UPDATE.
unfoldable pub written_table : Bytes → Option Bytes
unfolding find_submatch compile
written_table query = first_group (
    find_submatch (compile (codes "(?i)(?:INSERT\\s+INTO|UPDATE)\\s+\"?\\w*\"?\\.\"?(\\w+)\"?"))
      query)

abbrev three_groups : Option (ℕ → Bytes) → Option (Bytes × (Bytes × Bytes))
three_groups none = none
three_groups (some groups) = some (groups 1, (groups 2, groups 3))

-- The table, the columns and the values of an INSERT.
unfoldable pub insert_parts : Bytes → Option (Bytes × (Bytes × Bytes))
unfolding find_submatch compile
insert_parts query = three_groups (
    find_submatch
      (compile (
        codes
          "(?i)INSERT\\s+INTO\\s+\"?\\w*\"?\\.\"?(\\w+)\"?\\s*\\(([^)]+)\\)\\s*VALUES\\s*\\(([^)]+)\\)"))
      query)
