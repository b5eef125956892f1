-- ===== src/Buffer.antt =====
-- internal/proxy/clickhouse/buffer.go: INSERT statements are collected and run in batches. The
-- MySQL pool is a parameter: its results are success or failure, since the code only logs errors.
pub mod Batches
pub mod Rollback
pub mod Delivery
pub mod Ticks
mod Tests
use agentx_proxy.Prelude.{
  ℕ, suc, ◌+◌, Bool, true, false, not, Option, none, some, List, [], ◌∷◌, ◌++◌, map, Bytes, codes,
  length, take, drop, leb, if◌then◌else◌, Outcome, ok, panicked,
}
use agentx_proxy.Prelude.Maps.{lookup, insert}
use agentx_proxy.Prelude.Strings.{to_upper, trim_space, has_prefix, index, index_byte, join}

-- The pool and the transactions of the MySQL driver, on a database.
pub record Pool : Type 1 where
  pub Db : Type 0
  pub Tx : Type 0
  pub begin : Db → Option Tx × Db
  pub exec : Bytes → Db → Bool × Db
  pub exec_context : Tx → Bytes → Db → Bool × Db
  pub rollback : Tx → Db → Db
  pub commit : Tx → Db → Bool × Db

-- `WriteBuffer`; `stopped` says that the channel `stopCh` is closed.
pub record WriteBuffer : Type 0 where
  pub buffer : List Bytes
  pub max_size : ℕ
  pub stopped : Bool

unfoldable pub new_write_buffer : ℕ → WriteBuffer
new_write_buffer max_size = record { buffer = []; max_size = max_size; stopped = false }

module _ (pool : Pool) where
  open pool use {Db, Tx, begin, exec, exec_context, rollback, commit}

  -- Without a transaction every statement is run, whatever becomes of the others.
  unfoldable pub run_individually : List Bytes → Db → Db
  run_individually [] d = d
  run_individually (q ∷ qs) d = run_individually qs (exec q d).1

  -- In a transaction the first failure rolls back and returns.
  unfoldable pub run_in_tx : Tx → List Bytes → Db → Db
  run_in_tx tx [] d = (commit tx d).1
  run_in_tx tx (q ∷ qs) d =
      let rest = run_in_tx tx qs (exec_context tx q d).1 in
      if (exec_context tx q d).0 then rest else rollback tx (exec_context tx q d).1

  unfoldable pub run_begun : List Bytes → Option Tx × Db → Db
  unfolding run_individually run_in_tx
  run_begun queries (none, d) = run_individually queries d
  run_begun queries (some tx, d) = run_in_tx tx queries d

  -- What a flush does to the database.
  unfoldable pub run_batch : List Bytes → Db → Db
  unfolding run_begun
  run_batch queries d = run_begun queries (begin d)

  unfoldable pub flush_locked : WriteBuffer × Db → WriteBuffer × Db
  unfolding run_batch
  flush_locked (wb, d) = elim wb.buffer [
    | [] ↦ (wb, d)
    | q ∷ qs ↦ (record wb { buffer = [] }, run_batch (q ∷ qs) d)
  ]

  unfoldable pub enqueue : Bytes → WriteBuffer × Db → WriteBuffer × Db
  enqueue sql (wb, d) =
      let longer : WriteBuffer = record wb { buffer = wb.buffer ++ sql ∷ [] } in
      if leb longer.max_size (length longer.buffer) then flush_locked (longer, d) else (longer, d)

  -- A second `Close` closes a closed channel.
  unfoldable pub close : WriteBuffer × Db → Outcome (Unit {0}) × (WriteBuffer × Db)
  close (wb, d) =
      if wb.stopped
      then (panicked, (wb, d))
      else (ok tt, flush_locked (record wb { stopped = true }, d))

-- `extractTableName`.
unfoldable pub extract_table_name : Bytes → Bytes
unfolding to_upper trim_space index index_byte
extract_table_name query = elim (index (to_upper query) (codes "INTO")) [
  | none ↦ []
  | some into ↦
      let rest = trim_space (drop (into + 4) query) in
      elim (index_byte rest b'(') [
        | some i ↦ trim_space (take i rest)
        | none ↦ elim (index (to_upper rest) (codes "VALUES")) [
          | some i ↦ trim_space (take i rest)
          | none ↦ trim_space rest
        ]
      ]
]

-- `insertInfo`: the text up to VALUES, and the tuples.
pub record InsertInfo : Type 0 where
  pub prefix : Bytes
  pub values : List Bytes

unfoldable pub strip_values : Bytes → Bytes
unfolding to_upper trim_space has_prefix
strip_values values =
    let trimmed = trim_space values in
    if has_prefix (to_upper trimmed) (codes "VALUES") then trim_space (drop 6 trimmed) else trimmed

unfoldable pub add_values :
    Bytes → Bytes → Bytes → List (Bytes × InsertInfo) → List (Bytes × InsertInfo)
unfolding lookup insert strip_values
add_values table prefix values m =
    let old : InsertInfo = elim (lookup table m) [
      | none ↦ record { prefix = prefix; values = [] }
      | some info ↦ info
    ] in
    insert table (record old { values = old.values ++ strip_values values ∷ [] }) m

-- One round of the loop over the statements.
unfoldable pub add_insert : Bytes → List (Bytes × InsertInfo) → List (Bytes × InsertInfo)
unfolding to_upper has_prefix index extract_table_name add_values
add_insert q m =
    if has_prefix (to_upper q) (codes "INSERT")
    then elim (index (to_upper q) (codes "VALUES")) [
      | none ↦ m
      | some i ↦ add_values (extract_table_name q) (take (i + 6) q) (drop (i + 6) q) m
    ]
    else m

unfoldable pub group_inserts : List Bytes → List (Bytes × InsertInfo) → List (Bytes × InsertInfo)
unfolding add_insert
group_inserts [] m = m
group_inserts (q ∷ qs) m = group_inserts qs (add_insert q m)

-- The combined statement of a table.
unfoldable pub combined : InsertInfo → Bytes
unfolding join
combined info = info.prefix ++ (codes " " ++ join info.values (codes ", "))

-- `BatchInserts`; the tables come in the order of their first statement, one of the orders in which
-- Go may walk the map. No table of the map is without values.
unfoldable pub batch_inserts : List Bytes → Bytes
unfolding group_inserts combined join
batch_inserts inserts =
    join (map (λ entry. combined entry.1) (group_inserts inserts [])) (codes "; ")
