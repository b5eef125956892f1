-- ===== src/Session/Tests.antt =====
-- A connection to a database that records the statements it runs, and the theorems on it.
use agentx_proxy.Prelude.{
  ℕ, arith, Bool, true, false, ◌≡◌, ◌≢◌, refl, none, List, [], ◌∷◌, ◌++◌, Bytes, codes,
  if◌then◌else◌, failed, ok, err, Outcome,
}
use agentx_proxy.Prelude.Strings.{equal, has_prefix, contains, join}
use agentx_proxy.Pgwire.Backend.{Conversions}
use agentx_proxy.Arrays.{Arg}
use agentx_proxy.Prelude.Strings.{equal_fold}
use agentx_proxy.Postgres.Samples.{plain, plain-Untouched}
use agentx_proxy.Session.Plain.{drawn, asks_version, execute_query-Untouched}
use agentx_proxy.Session.Queries.{execute_mysql_query}
use agentx_proxy.Catalog.Dispatch.{is_catalog_query}
use agentx_proxy.Session.{
  Rows, Services, Portal, ConnState, ask, send, transaction_status, normalize_query,
}
use agentx_proxy.Session.Columns.{split_column_list}
use agentx_proxy.Session.Commas.{balanced, split_column_list-join}
use agentx_proxy.Streams.{write_byte, write_bytes}
use agentx_proxy.Pgwire.{big_endian32}
use agentx_proxy.Session.Handshake.{handshake, status_params}
use agentx_proxy.Session.Simple.{
  rollback_to, classify, do_begin, do_commit, do_rollback, execute_query,
}
use agentx_proxy.Prelude.Maps.{lookup, equal→eq}
use agentx_proxy.Session.Extended.{handle_execute}
use agentx_proxy.Prelude.{stuck}
use agentx_proxy.Session.Loop.{serve}
use agentx_proxy.Session.Linked.{Linked}
use agentx_proxy.Session.Portals.{handle_execute-SameSession}
use agentx_proxy.Session.Serving.{serve-Linked}
use agentx_proxy.Session.Endings.{serve-ne-stuck}
use agentx_proxy.Session.Frame.{SameSession}
use agentx_proxy.Session.Transactions.{
  classify-ne-rollback_to, execute_query-SameSession, do_rollback-idle, do_commit_keeps_mark,
  do_begin_flags, do_begin_nested,
}

abbrev conversions : Conversions
conversions = record { float32_bits = λ s. 0; float64_bits = λ s. 0; timestamp_micros = λ s. none }

-- The database of the tests refuses one text and accepts every other.
abbrev logged : Bytes → List Arg → List Bytes → Outcome ℕ × List Bytes
logged q args d = (if equal q (codes "BAD") then err (failed (codes "syntax")) else ok 1, q ∷ d)

abbrev two_rows : Rows
two_rows = record { columns = (codes "id", codes "INT") ∷ []; rows = []; failure = none }

abbrev services : Services
services = record {
  Db = List Bytes;
  exec = logged;
  query = λ q args d. (ok two_rows, q ∷ d);
  draw = λ d. (record { returning = 0; series = λ i. 0 }, d);
  fulltext_mode = codes "like";
  column_oid = λ t c d. (25, d);
  max_oids = 1000;
}

abbrev connection : Bool → Bool → ConnState (List Bytes)
connection open_one marked = record {
  in_transaction = open_one;
  transaction_failed = marked;
  heap = [];
  prepared_statements = [];
  portals = [];
  described_portals = [];
  out = record { written = []; room = 100 };
  db = [];
}

begins : (do_begin services conversions (connection false false)).1.db ≡ codes "BEGIN" ∷ []
unfolding do_begin ask equal send
begins = refl

classify-ne-rollback_to_example : classify (codes "rollback to savepoint a") ≢ rollback_to
classify-ne-rollback_to_example = classify-ne-rollback_to (codes "rollback to savepoint a")

execute_query-SameSession_example :
    SameSession
      (connection true false)
      (execute_query services conversions (codes "SELECT 1") (connection true false)).1
unfolding classify normalize_query equal has_prefix contains
execute_query-SameSession_example =
    execute_query-SameSession services conversions (codes "SELECT 1") (connection true false) refl

do_rollback-idle_example :
    ((do_rollback services conversions (connection true true)).1.in_transaction ≡ false)
    × ((do_rollback services conversions (connection true true)).1.transaction_failed ≡ false)
unfolding equal
do_rollback-idle_example =
    do_rollback-idle services conversions (connection true true) refl (λ e. cc)

do_commit_keeps_mark_example :
    ((do_commit services conversions (connection true true)).1.in_transaction ≡ false)
    × (transaction_status (do_commit services conversions (connection true true)).1 ≡ b'E')
unfolding equal
do_commit_keeps_mark_example =
    do_commit_keeps_mark services conversions (connection true true) 1 refl refl refl

do_begin_flags_example :
    ((do_begin services conversions (connection false false)).1.in_transaction ≡ true)
    × ((do_begin services conversions (connection false false)).1.transaction_failed ≡ false)
unfolding equal
do_begin_flags_example = do_begin_flags services conversions (connection false false) refl (λ e. cc)

do_begin_nested_example :
    do_begin services conversions (connection true false) ≡ (ok tt, connection true false)
do_begin_nested_example = do_begin_nested services conversions (connection true false) refl

-- A Parse message of a statement, and an Execute of a portal that does not exist.
abbrev parse_bytes : Bytes
parse_bytes = b'P' ∷ 0 ∷ 0 ∷ 0 ∷ 10 ∷ b's' ∷ 0 ∷ b'Q' ∷ 0 ∷ 0 ∷ 0 ∷ []

tables_empty : Linked [] (connection false false)
unfolding lookup
tables_empty = record {
  grown = omega arith;
  same_text = λ a h. absurd (omega arith);
  bound = λ k a e. absurd cc;
  named = λ k a e. cc;
  portal_bound = λ k p e. absurd cc;
  portal_named = λ k p e. cc;
}

handle_execute-SameSession_example :
    SameSession
      (connection true true)
      (handle_execute services conversions (0 ∷ 0 ∷ 0 ∷ 0 ∷ 0 ∷ []) (connection true true)).1
handle_execute-SameSession_example =
    handle_execute-SameSession services conversions (0 ∷ 0 ∷ 0 ∷ 0 ∷ 0 ∷ []) (connection true true)

serve-Linked_example :
    Linked [] (serve services conversions 5 parse_bytes (connection false false)).1
serve-Linked_example =
    serve-Linked services conversions [] 5 parse_bytes (connection false false) tables_empty

serve-ne-stuck_example :
    (serve services conversions 20 parse_bytes (connection false false)).0 ≢ stuck
serve-ne-stuck_example =
    serve-ne-stuck services conversions 20 parse_bytes (connection false false) (omega arith)

-- A connection with a statement and a portal bound to it.
abbrev bound_portal : Portal
bound_portal = record {
  name = codes "p";
  stmt = 0;
  params = [];
  format_codes = [];
  result_format_codes = [];
  described = false;
}

abbrev bound_connection : ConnState (List Bytes)
bound_connection = record (connection false false) {
  heap = record { name = codes "s"; query = codes "SELECT 1"; param_oids = [] } ∷ [];
  prepared_statements = (codes "s", 0) ∷ [];
  portals = (codes "p", bound_portal) ∷ [];
}

tables_bound : Linked bound_connection.heap bound_connection
unfolding lookup
tables_bound = record {
  grown = omega arith;
  same_text = λ a h. refl;
  bound = λ k a e. ground (arith, e);
  named = λ k a e. ground (arith, e, equal→eq (codes "s") k);
  portal_bound = λ k p e. ground (arith, e);
  portal_named = λ k p e. ground (arith, e, equal→eq (codes "p") k);
}

split_column_list-join_example :
    split_column_list (codes "a,f(b,c)") ≡ codes "a" ∷ codes "f(b,c)" ∷ []
unfolding balanced equal join
split_column_list-join_example =
    split_column_list-join (codes "a") (codes "f(b,c)" ∷ [])
      ((refl, (refl, omega arith)), ((refl, (refl, omega arith)), tt))

-- A parenthesis too many puts the commas after it out of reach.
closed_too_often : split_column_list (codes "a),b,c") ≡ codes "a),b,c" ∷ []
unfolding split_column_list equal
closed_too_often = refl

-- A client that asks for TLS first.
tls_denied :
    (handshake 1 2 (
      (0 ∷ 0 ∷ 0 ∷ 8 ∷ 4 ∷ 210 ∷ 22 ∷ 47 ∷ 0 ∷ 0 ∷ 0 ∷ 16 ∷ 0 ∷ 3 ∷ 0 ∷ 0 ∷ [])
          ++ (codes "user" ++ (0 ∷ b'a' ∷ 0 ∷ 0 ∷ [])),
      record { written = []; room = 1000 },
    )).0
    ≡ ok ((codes "user", codes "a") ∷ status_params)
unfolding handshake equal write_byte write_bytes big_endian32
tls_denied = refl

execute_query-Untouched_example :
    execute_query services conversions plain (connection false false)
    ≡ execute_mysql_query services conversions plain none
        (drawn services conversions (connection false false))
unfolding classify normalize_query equal has_prefix contains is_catalog_query asks_version
    equal_fold
execute_query-Untouched_example =
    execute_query-Untouched services conversions plain (connection false false) plain-Untouched refl
      refl refl
