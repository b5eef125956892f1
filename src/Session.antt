-- ===== src/Session.antt =====
-- internal/proxy/postgresql/server.go: one connection of a PostgreSQL client. This file has the
-- state of a connection, what the handlers need of the other parts, and the small helpers.
pub mod Columns
pub mod Commas
pub mod Inference
pub mod Clauses
pub mod Queries
pub mod CatalogFields
pub mod Simple
pub mod Extended
pub mod Describe
pub mod Handshake
pub mod Loop
pub mod Frame
pub mod Answers
pub mod Transactions
pub mod Portals
pub mod Heap
pub mod Linked
pub mod Tables
pub mod Described
pub mod Serving
pub mod Endings
pub mod Plain
mod Tests
use agentx_proxy.Prelude.{
  ℕ, zero, suc, ◌-◌, ◌^◌, Bool, true, false, ◌&&◌, ◌||◌, Option, none, some, List, [], ◌∷◌, ◌++◌,
  Bytes, codes, length, take, leb, ◌==◌, if◌then◌else◌, Error, ok, err, panicked, Outcome, Action,
  and_then, get_elem?, eof, unexpected_eof, write_failed, failed,
}
use agentx_proxy.Prelude.Strings.{
  to_upper, to_lower, trim_space, has_prefix, contains, equal, equal_fold,
}
use agentx_proxy.Streams.{Sink}
use agentx_proxy.Pgwire.Backend.{Value, FieldDescription, format_int, render}
use agentx_proxy.Arrays.{Arg}
use agentx_proxy.Postgres.{Draws, translate}

-- A result set: names and MySQL types of the columns, the rows, and the error that ends the
-- iteration, if one does.
pub record Rows : Type 0 where
  pub columns : List (Bytes × Bytes)
  pub rows : List (List Value)
  pub failure : Option Error

-- `rows.Scan` into `n` strings, the error ignored: a NULL ends it, and the strings that it did not
-- reach are empty. The columns of `information_schema` are texts.
unfoldable pub scan_texts : ℕ → List Value → List Bytes
unfolding render
scan_texts zero row = []
scan_texts (suc n) [] = [] ∷ scan_texts n []
scan_texts (suc n) (v ∷ row) = elim (render v) [
  | none ↦ [] ∷ scan_texts n []
  | some s ↦ s ∷ scan_texts n row
]

-- What a connection uses of the rest of the proxy: the pool over the MySQL driver, the random numbers
-- and the mode of the SQL translator, and the type of a column of a table, which the catalog keeps. `max_oids` is the longest []uint32 that
-- make gives; it panics above that.
pub record Services : Type 1 where
  pub Db : Type 0
  pub exec : Bytes → List Arg → Db → Outcome ℕ × Db
  pub query : Bytes → List Arg → Db → Outcome Rows × Db
  pub draw : Db → Draws × Db
  pub fulltext_mode : Bytes
  pub column_oid : Bytes → Bytes → Db → ℕ × Db
  pub max_oids : ℕ

pub record Stmt : Type 0 where
  pub name : Bytes
  pub query : Bytes
  pub param_oids : List ℕ

-- `stmt` is the address of the statement: a portal and the table of statements share it.
pub record Portal : Type 0 where
  pub name : Bytes
  pub stmt : ℕ
  pub params : List (Option Bytes)
  pub format_codes : List ℕ
  pub result_format_codes : List ℕ
  pub described : Bool

-- `connState`, with the database that it works on and the statements that were ever made.
pub record ConnState (Db : Type 0) : Type 0 where
  pub in_transaction : Bool
  pub transaction_failed : Bool
  pub heap : List Stmt
  pub prepared_statements : List (Bytes × ℕ)
  pub portals : List (Bytes × Portal)
  pub described_portals : List (Bytes × Bool)
  pub out : Sink
  pub db : Db

module _ {Db : Type 0} where
  abbrev pub with_out : ConnState Db → Outcome (Unit {0}) × Sink → Outcome (Unit {0}) × ConnState Db
  with_out s (r, w) = (r, record s { out = w })

  abbrev pub with_db : {A : Type 0} → ConnState Db → Outcome A × Db → Outcome A × ConnState Db
  with_db s (r, d) = (r, record s { db = d })

  -- A call of the connection's writer.
  unfoldable pub send : Action Sink (Unit {0}) → Action (ConnState Db) (Unit {0})
  send m s = with_out s (m s.out)

  -- A call of the pool.
  unfoldable pub ask : {A : Type 0} → (Db → Outcome A × Db) → Action (ConnState Db) A
  ask m s = with_db s (m s.db)

  abbrev pub either :
      {A B : Type 0}
      → Outcome A × ConnState Db
      → (Error → Action (ConnState Db) B)
      → (A → Action (ConnState Db) B)
      → Outcome B × ConnState Db
  either (ok a, t) on_error next = next a t
  either (err e, t) on_error next = on_error e t
  either (panicked, t) on_error next = (panicked, t)

  -- A call whose error the caller handles.
  abbrev pub attempt :
      {A B : Type 0}
      → Action (ConnState Db) A
      → (Error → Action (ConnState Db) B)
      → (A → Action (ConnState Db) B)
      → Action (ConnState Db) B
  attempt m on_error next s = either (m s) on_error next

  abbrev pub fail : {A : Type 0} → Error → Action (ConnState Db) A
  fail e s = (err e, s)

  abbrev pub lift : {A : Type 0} → Outcome A → Action (ConnState Db) A
  lift r s = (r, s)

-- `err.Error()`.
unfoldable pub error_text : Error → Bytes
error_text eof = codes "EOF"
error_text unexpected_eof = codes "unexpected EOF"
error_text write_failed = codes "write failed"
error_text (failed s) = s

-- `strings.TrimRight(query, "\x00")` of a query that `ParseQuery` cut at its terminator changes
-- nothing; `normalizeQuery` drops one trailing NUL, trims and lowers.
unfoldable pub drop_last_nul : Bytes → Bytes
drop_last_nul [] = []
drop_last_nul (c ∷ []) = if c == 0 then [] else c ∷ []
drop_last_nul (c ∷ d ∷ s) = c ∷ drop_last_nul (d ∷ s)

unfoldable pub normalize_query : Bytes → Bytes
unfolding drop_last_nul to_lower trim_space
normalize_query q = to_lower (trim_space (drop_last_nul q))

-- `len(q) >= n && q[:n] == lit`
abbrev pub starts : ℕ → Bytes → Bytes → Bool
starts n lit q = leb n (length q) && equal (take n q) lit

unfoldable pub is_write_query : Bytes → Bool
unfolding to_upper trim_space has_prefix
is_write_query q =
    let upper = to_upper (trim_space q) in
    has_prefix upper (codes "INSERT")
    || (has_prefix upper (codes "UPDATE")
        || (has_prefix upper (codes "DELETE")
            || (has_prefix upper (codes "CREATE")
                || (has_prefix upper (codes "ALTER") || has_prefix upper (codes "DROP")))))

unfoldable pub get_command_tag : Bytes → ℕ → Bytes
unfolding to_upper trim_space has_prefix format_int
get_command_tag query affected =
    let upper = to_upper (trim_space query) in
    if has_prefix upper (codes "INSERT")
    then codes "INSERT " ++ format_int affected
    else if has_prefix upper (codes "UPDATE")
    then codes "UPDATE " ++ format_int affected
    else if has_prefix upper (codes "DELETE")
    then codes "DELETE " ++ format_int affected
    else if has_prefix upper (codes "CREATE")
    then codes "CREATE TABLE"
    else if has_prefix upper (codes "ALTER")
    then codes "ALTER TABLE"
    else if has_prefix upper (codes "DROP")
    then codes "DROP TABLE"
    else codes "OK"

-- `getTransactionStatus`: the bytes E, T and I.
unfoldable pub transaction_status : {Db : Type 0} → ConnState Db → ℕ
transaction_status s =
    if s.transaction_failed then b'E' else if s.in_transaction then b'T' else b'I'

unfoldable pub can_binary_encode : ℕ → Bool
can_binary_encode oid =
    oid == 16
    || (oid == 21 || (oid == 23 || (oid == 20 || (oid == 700 || (oid == 701 || oid == 1114)))))

-- `slices`: is the text one of the list?
unfoldable pub one_of : Bytes → List Bytes → Bool
unfolding equal
one_of t [] = false
one_of t (u ∷ us) = equal t u || one_of t us

unfoldable pub mysql_type_to_pg_oid : Bytes → ℕ
unfolding one_of
mysql_type_to_pg_oid t =
    if one_of t (codes "TINYINT" ∷ codes "SMALLINT" ∷ [])
    then 21
    else if one_of t (codes "INT" ∷ codes "INTEGER" ∷ codes "MEDIUMINT" ∷ [])
    then 23
    else if one_of t (codes "BIGINT" ∷ [])
    then 20
    else if one_of t (codes "FLOAT" ∷ [])
    then 700
    else if one_of t (codes "DOUBLE" ∷ [])
    then 701
    else if one_of t (codes "DATE" ∷ [])
    then 1082
    else if one_of t (codes "TIME" ∷ [])
    then 1083
    else if one_of t (codes "JSON" ∷ [])
    then 3802
    else if one_of t (
        codes "BLOB"
        ∷ codes "TINYBLOB"
        ∷ codes "MEDIUMBLOB"
        ∷ codes "LONGBLOB"
        ∷ codes "BINARY"
        ∷ codes "VARBINARY"
        ∷ [])
    then 17
    else 25

-- A column with the fields that the proxy leaves zero.
unfoldable pub column : Bytes → ℕ → ℕ → FieldDescription
column name oid size = record {
  name = name;
  table_oid = 0;
  table_attr_number = 0;
  type_oid = oid;
  type_size = size;
  type_modifier = 0;
  format_code = 0;
}

-- The size -1 of a column of variable length, as a 16-bit pattern.
abbrev pub variable_size : ℕ
variable_size = 2 ^ 16 - 1

module _ (services : Services) where
  open services use {Db, draw, fulltext_mode}

  -- `translator.Translate`, with the numbers that it draws.
  unfoldable pub translate_query : Bytes → Action (ConnState Db) Bytes
  translate_query query =
      ask (λ db. let (draws, db') = draw db in (translate fulltext_mode draws query, db'))
