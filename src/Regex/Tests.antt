-- ===== src/Regex/Tests.antt =====
-- Runs of the patterns.
use agentx_proxy.Prelude.{ℕ, ◌≡◌, refl, Option, none, some, Bytes, codes, []}
use agentx_proxy.Regex.{find_submatch}
use agentx_proxy.Regex.Pattern.{compile}

abbrev groups_of : ℕ → ℕ → Option (ℕ → Bytes) → Option (Bytes × Bytes)
groups_of i j none = none
groups_of i j (some f) = some (f i, f j)

column_oid_groups :
    groups_of 0 1 (
      find_submatch
        (compile (codes "(?i)attrelid\\s*=\\s*(\\d+)"))
        (codes "select * where ATTRELID = 16384 and x"))
    ≡ some (codes "ATTRELID = 16384", codes "16384")
unfolding find_submatch compile
column_oid_groups = refl

written_table_groups :
    groups_of 0 1 (
      find_submatch
        (compile (codes "(?i)(?:INSERT\\s+INTO|UPDATE)\\s+\"?\\w*\"?\\.\"?(\\w+)\"?"))
        (codes "insert into \"public\".\"users\" (id)"))
    ≡ some (codes "insert into \"public\".\"users\"", codes "users")
unfolding find_submatch compile
written_table_groups = refl

lazy_group :
    groups_of 1 2 (find_submatch (compile (codes "^(a+?)(a*)\\b")) (codes "aaa b"))
    ≡ some (codes "a", codes "aa")
unfolding find_submatch compile
lazy_group = refl

classes :
    groups_of 0 1 (find_submatch (compile (codes "[^a-c\\s-]+([x,.`]?)$")) (codes "ab dd`"))
    ≡ some (codes "dd`", [])
unfolding find_submatch compile
classes = refl
