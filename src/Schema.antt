-- ===== src/Schema.antt =====
-- internal/mysql/schema.go: the tables that are created at the start. The texts of the statements are
-- constants, which come in as lists.
mod Tests
pub mod Created
use agentx_proxy.Prelude.{
  ℕ, Bool, true, false, Option, none, some, List, [], ◌∷◌, ◌++◌, Bytes, codes, ◌==◌, if◌then◌else◌,
  Error, failed, ok, err, panicked, Outcome, Action, ◌>>◌, return, handling,
}
use agentx_proxy.Prelude.Strings.{
  to_upper, trim, trim_space, has_prefix, contains, equal, equal_fold, fields,
}
use agentx_proxy.Session.{error_text}

unfoldable pub strip_quotes : Bytes → Bytes
unfolding trim
strip_quotes s = trim (λ c. c == b'\'') (trim (λ c. c == b'"') (trim (λ c. c == b'`') s))

-- The name among the words after TABLE: the first of them, or the fourth where that is IF.
abbrev name_in : List Bytes → Bytes
name_in [] = []
name_in (p ∷ []) = strip_quotes p
name_in (p ∷ q ∷ []) = strip_quotes p
name_in (p ∷ q ∷ r ∷ []) = strip_quotes p
name_in (p ∷ q ∷ r ∷ s ∷ words) =
    if equal_fold p (codes "IF") then strip_quotes s else strip_quotes p

-- The words after the first TABLE that a word comes after.
unfoldable pub name_after_table : List Bytes → Bytes
unfolding equal_fold strip_quotes
name_after_table [] = []
name_after_table (p ∷ []) = []
name_after_table (p ∷ q ∷ words) =
    let rest = name_after_table (q ∷ words) in
    if equal_fold p (codes "TABLE") then name_in (q ∷ words) else rest

-- `extractTableName` of this package.
unfoldable pub extract_table_name : Bytes → Bytes
unfolding to_upper trim_space has_prefix fields name_after_table
extract_table_name text =
    let ddl = trim_space text in
    if has_prefix (to_upper ddl) (codes "CREATE TABLE") then name_after_table (fields ddl) else []

module _ {Db : Type 0} (table_exists : Bytes → Action Db Bool)
    (exec : Bytes → Action Db (Unit {0})) where
  -- That something exists already is no error.
  unfoldable pub forgive : Error → Action Db (Unit {0})
  unfolding contains
  forgive e d = if contains (error_text e) (codes "already exists") then (ok tt, d) else (err e, d)

  unfoldable pub run_ddl : Bytes → Action Db (Unit {0})
  unfolding forgive
  run_ddl ddl = handling (exec ddl) forgive return

  -- A table that exists is left alone; an error of the question is passed over.
  unfoldable pub exec_named : Bytes → Bytes → Action Db (Unit {0})
  unfolding equal run_ddl
  exec_named table ddl =
      if equal table []
      then run_ddl ddl
      else handling (table_exists table) (λ e. run_ddl ddl)
          (λ b. if b then return tt else run_ddl ddl)

  -- `execDDL`
  unfoldable pub exec_ddl : Bytes → Action Db (Unit {0})
  unfolding trim_space equal extract_table_name exec_named
  exec_ddl text =
      let ddl = trim_space text in
      if equal ddl [] then return tt else exec_named (extract_table_name ddl) ddl

  -- The statements of one list, up to the first that fails.
  unfoldable pub exec_all : Bytes → List Bytes → Action Db (Unit {0})
  unfolding exec_ddl
  exec_all kind [] = return tt
  exec_all kind (ddl ∷ ddls) =
      handling (exec_ddl ddl)
        (λ e d. (
          err (failed (kind ++ (codes " DDL: " ++ (error_text e ++ (codes "\nSQL: " ++ ddl))))),
          d,
        ))
        (λ _. exec_all kind ddls)

  -- `EnsureSchema`
  unfoldable pub ensure_schema : List Bytes → List Bytes → List Bytes → Action Db (Unit {0})
  unfolding exec_all
  ensure_schema oltp olap catalog =
      exec_all (codes "OLTP") oltp
      >> exec_all (codes "OLAP") olap
      >> exec_all (codes "pg_catalog") catalog
