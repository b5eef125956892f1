-- ===== src/Buffer/Tests.antt =====
-- A write buffer on a database that records the statements, and the theorems on it.
use agentx_proxy.Prelude.{
  Bool, true, false, not, ◌≡◌, refl, some, List, [], ◌∷◌, arith, Bytes, codes,
}
use agentx_proxy.Prelude.Strings.{equal, to_upper, trim_space, has_prefix, index, index_byte, join}
use agentx_proxy.Prelude.Maps.{lookup, insert}
use agentx_proxy.Buffer.{
  Pool, WriteBuffer, new_write_buffer, flush_locked, enqueue, close, run_batch, run_begun,
  run_in_tx, batch_inserts, extract_table_name, group_inserts, add_insert, add_values, strip_values,
  combined,
}
use agentx_proxy.Buffer.Batches.{Batched, enqueue_all, enqueue_all-Batched}
use agentx_proxy.Buffer.Ticks.{
  Buffering, started, after_call, tick, Runs, still, then_step, enqueues, closes, LoopRuns, Handed,
  tick_hands_over,
}
use agentx_proxy.Buffer.Rollback.{Transactions, all_succeed, flush_locked_loses}

-- A transaction is the state in which it began; the statement BAD fails.
abbrev logged : Bytes → List Bytes → Bool × List Bytes
logged q d = (not (equal q (codes "BAD")), q ∷ d)

abbrev logging_pool : Pool
logging_pool = record {
  Db = List Bytes;
  Tx = List Bytes;
  begin = λ d. (some d, d);
  exec = logged;
  exec_context = λ tx q d. logged q d;
  rollback = λ tx d. tx;
  commit = λ tx d. (true, d);
}

same : (d tx : List Bytes) → some d ≡ some tx → tx ≡ d
same d tx b = cc

abbrev snapshots : Transactions logging_pool
snapshots = record {
  Began = λ tx d e. tx ≡ d;
  begin-Began = λ d tx b. same d tx b;
  exec-Began = λ tx q d e b. b;
  rollback-Began = λ tx d e b. b;
}

-- The columns of the second statement are lost: its values come under those of the first one.
merged :
    batch_inserts
      (codes "INSERT INTO t (a, b) VALUES (1, 2)" ∷ codes "INSERT INTO t (b, a) VALUES (3, 4)" ∷ [])
    ≡ codes "INSERT INTO t (a, b) VALUES (1, 2), (3, 4)"
unfolding batch_inserts group_inserts add_insert add_values strip_values combined extract_table_name
    lookup insert equal to_upper trim_space has_prefix index index_byte join
merged = refl

abbrev three : List Bytes
three = codes "A" ∷ codes "B" ∷ codes "C" ∷ []

enqueue_all-Batched_example :
    Batched logging_pool
      (new_write_buffer 2)
      []
      three
      (enqueue_all logging_pool three (new_write_buffer 2, []))
unfolding new_write_buffer
enqueue_all-Batched_example =
    enqueue_all-Batched logging_pool three (new_write_buffer 2) [] (omega arith)

abbrev half_bad : WriteBuffer
half_bad = record { buffer = codes "A" ∷ codes "BAD" ∷ []; max_size = 3; stopped = false }

flush_locked_loses_example :
    flush_locked logging_pool (half_bad, codes "old" ∷ [])
    ≡ (record half_bad { buffer = [] }, codes "old" ∷ [])
unfolding all_succeed equal
flush_locked_loses_example =
    flush_locked_loses logging_pool snapshots half_bad (codes "old" ∷ []) (codes "old" ∷ []) refl
      refl

abbrev fresh : Buffering logging_pool
fresh = started logging_pool 5 []

abbrev with_a : Buffering logging_pool
with_a = after_call logging_pool fresh (enqueue logging_pool (codes "A") (fresh.buffer, fresh.db))

abbrev shut : Buffering logging_pool
shut = after_call logging_pool with_a (close logging_pool (with_a.buffer, with_a.db)).1

abbrev with_b : Buffering logging_pool
with_b = after_call logging_pool shut (enqueue logging_pool (codes "B") (shut.buffer, shut.db))

-- A statement comes, the buffer is closed, and another one comes while the loop has not ended yet.
late_statement : Runs logging_pool fresh (codes "A" ∷ codes "B" ∷ []) with_b
unfolding new_write_buffer enqueue flush_locked close run_batch run_begun run_in_tx
late_statement =
    then_step (then_step (then_step still (enqueues (codes "A"))) (closes refl))
      (enqueues (codes "B"))

tick_hands_over_example :
    LoopRuns logging_pool with_b
    × Handed logging_pool [] (codes "A" ∷ codes "B" ∷ []) (tick logging_pool with_b)
tick_hands_over_example =
    tick_hands_over logging_pool 5 [] (codes "A" ∷ codes "B" ∷ []) with_b late_statement
