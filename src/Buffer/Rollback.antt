-- ===== src/Buffer/Rollback.antt =====
-- A flush in a transaction: all statements of the batch or none, and what a failure leaves.
use agentx_proxy.Prelude.{
  ◌<◌, arith, length, ap, ◌∙◌, Bool, true, false, ◌≡◌, Option, none, some, List, [], ◌∷◌, Bytes,
  ◌&&◌,
}
use agentx_proxy.Buffer.Batches.{flush-nonempty}
use agentx_proxy.Buffer.{Pool, WriteBuffer, run_in_tx, run_batch, run_begun, flush_locked}

-- What MySQL documents of a transaction: `Began tx d₀ d` says that `tx` began at `d₀` and has come
-- to `d`; a rollback goes back to `d₀`.
pub record Transactions (pool : Pool) : Type 1 where
  pub Began : pool.Tx → pool.Db → pool.Db → Type 0
  pub begin-Began :
      (d : pool.Db) (tx : pool.Tx) → (pool.begin d).0 ≡ some tx → Began tx d (pool.begin d).1
  pub exec-Began :
      (tx : pool.Tx) (q : Bytes) (d e : pool.Db)
      → Began tx d e
      → Began tx d (pool.exec_context tx q e).1
  pub rollback-Began : (tx : pool.Tx) (d e : pool.Db) → Began tx d e → pool.rollback tx e ≡ d

module _ (pool : Pool) where
  open pool use {Db, Tx, begin, exec_context}

  -- Does every statement succeed in the transaction?
  unfoldable pub all_succeed : Tx → List Bytes → Db → Bool
  all_succeed tx [] d = true
  all_succeed tx (q ∷ qs) d = (exec_context tx q d).0 && all_succeed tx qs (exec_context tx q d).1

  module _ (laws : Transactions pool) where
    open laws use {Began, begin-Began, exec-Began, rollback-Began}

    run_in_tx_back :
        (tx : Tx) (qs : List Bytes) (d e : Db)
        → Began tx d e
        → all_succeed tx qs e ≡ false
        → run_in_tx pool tx qs e ≡ d
    unfolding run_in_tx all_succeed
    run_in_tx_back tx [] d e b h = cc
    run_in_tx_back tx (q ∷ qs) d e b h = ground (
      arith,
      rollback-Began tx d (exec_context tx q e).1 (exec-Began tx q d e b),
      run_in_tx_back tx qs d (exec_context tx q e).1 (exec-Began tx q d e b),
    )

    run_batch_back :
        (qs : List Bytes) (d : Db) (tx : Tx)
        → (begin d).0 ≡ some tx
        → all_succeed tx qs (begin d).1 ≡ false
        → run_batch pool qs d ≡ d
    unfolding run_batch run_begun
    run_batch_back qs d tx b h =
        go (begin d).0 (begin d).1 b (run_in_tx_back tx qs d (begin d).1 (begin-Began d tx b) h)
      where
        go :
            (o : Option Tx) (e : Db)
            → o ≡ some tx
            → run_in_tx pool tx qs e ≡ d
            → run_begun pool qs (o, e) ≡ d
        go none e k r = cc
        go (some u) e k r = cc

    some_fail : (tx : Tx) (qs : List Bytes) (e : Db) → all_succeed tx qs e ≡ false → 0 < length qs
    unfolding all_succeed
    some_fail tx [] e h = cc
    some_fail tx (q ∷ qs) e h = omega arith

    -- Where one statement of a batch fails in its transaction, a flush leaves the database as it was
    -- and the buffer empty: every statement of the batch is lost.
    pub flush_locked_loses :
        (wb : WriteBuffer) (d : Db) (tx : Tx)
        → (begin d).0 ≡ some tx
        → all_succeed tx wb.buffer (begin d).1 ≡ false
        → flush_locked pool (wb, d) ≡ (record wb { buffer = [] }, d)
    flush_locked_loses wb d tx b h =
        flush-nonempty pool wb d (some_fail tx wb.buffer (begin d).1 h)
        ∙ ap (λ e. (record wb { buffer = [] }, e)) (run_batch_back wb.buffer d tx b h)
