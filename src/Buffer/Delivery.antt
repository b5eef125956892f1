-- ===== src/Buffer/Delivery.antt =====
-- What becomes of a batch at MySQL, as a relation between the database before and after.
use agentx_proxy.Prelude.{
  ◌≡◌, refl, true, false, Bool-cases, inl, inr, Option, none, some, List, [], ◌∷◌, ◌++◌, Bytes,
}
use agentx_proxy.Buffer.{Pool, run_individually, run_in_tx, run_begun, run_batch}
use agentx_proxy.Buffer.Batches.{run_batches}

module _ (pool : Pool) where
  open pool use {Db, Tx, begin, exec, exec_context, rollback, commit}

  -- Every statement is run outside of a transaction, whether or not those before it succeed.
  pub data EachRun : List Bytes → Db → Db → Type 0 where
    none_left : {d : Db} → EachRun [] d d
    one_run :
        {qs : List Bytes} {d e : Db}
        → (q : Bytes) → EachRun qs (exec q d).1 e
        → EachRun (q ∷ qs) d e

  -- The statements are run in a transaction, and all of them succeed.
  pub data Succeeded : Tx → List Bytes → Db → Db → Type 0 where
    all_done : {tx : Tx} {d : Db} → Succeeded tx [] d d
    one_done :
        {tx : Tx} {qs : List Bytes} {d e : Db}
        → (q : Bytes) → (exec_context tx q d).0 ≡ true
        → Succeeded tx qs (exec_context tx q d).1 e
        → Succeeded tx (q ∷ qs) d e

  -- A batch is run singly where no transaction begins, or in a transaction, which is committed where all
  -- statements succeed, and rolled back at the first that fails.
  pub data Delivered : List Bytes → Db → Db → Type 0 where
    singly :
        {qs : List Bytes} {d e f : Db} → begin d ≡ (none, e) → EachRun qs e f → Delivered qs d f
    committed :
        {qs : List Bytes} {d e f : Db} {tx : Tx}
        → begin d ≡ (some tx, e)
        → Succeeded tx qs e f
        → Delivered qs d (commit tx f).1
    rolled_back :
        {front : List Bytes} {d e f : Db} {tx : Tx}
        → (q : Bytes) (back : List Bytes) → begin d ≡ (some tx, e)
        → Succeeded tx front e f
        → (exec_context tx q f).0 ≡ false
        → Delivered (front ++ q ∷ back) d (rollback tx (exec_context tx q f).1)

  -- The batches are taken to MySQL one after the other.
  pub data AllDelivered : List (List Bytes) → Db → Db → Type 0 where
    no_batch : {d : Db} → AllDelivered [] d d
    next_batch :
        {b : List Bytes} {bs : List (List Bytes)} {d e f : Db}
        → Delivered b d e
        → AllDelivered bs e f
        → AllDelivered (b ∷ bs) d f

  run_individually-EachRun : (qs : List Bytes) (d : Db) → EachRun qs d (run_individually pool qs d)
  unfolding run_individually
  run_individually-EachRun [] d = none_left
  run_individually-EachRun (q ∷ qs) d = one_run q (run_individually-EachRun qs (exec q d).1)

  -- The two ways in which a transaction ends.
  data InTx (tx : Tx) (d : Db) : List Bytes → Db → Type 0 where
    to_the_end : {qs : List Bytes} {f : Db} → Succeeded tx qs d f → InTx tx d qs (commit tx f).1
    cut_off :
        {front : List Bytes} {f : Db}
        → (q : Bytes) (back : List Bytes) → Succeeded tx front d f
        → (exec_context tx q f).0 ≡ false
        → InTx tx d (front ++ q ∷ back) (rollback tx (exec_context tx q f).1)

  InTx-cons :
      (tx : Tx) (q : Bytes) (qs : List Bytes) (d f : Db)
      → (exec_context tx q d).0 ≡ true
      → InTx tx (exec_context tx q d).1 qs f
      → InTx tx d (q ∷ qs) f
  InTx-cons tx q qs d f h (to_the_end s) = to_the_end (one_done q h s)
  InTx-cons tx q qs d f h (cut_off r back s e) = cut_off r back (one_done q h s) e

  run_in_tx-InTx : (tx : Tx) (qs : List Bytes) (d : Db) → InTx tx d qs (run_in_tx pool tx qs d)
  unfolding run_in_tx
  run_in_tx-InTx tx [] d = to_the_end all_done
  run_in_tx-InTx tx (q ∷ qs) d = elim (Bool-cases (exec_context tx q d).0) [
    | inl y ↦ rw y (InTx-cons tx q qs d _ y (run_in_tx-InTx tx qs (exec_context tx q d).1))
    | inr n ↦ rw n (cut_off {front = []} q qs all_done n)
  ]

  InTx-Delivered :
      (tx : Tx) (qs : List Bytes) (d e f : Db)
      → begin d ≡ (some tx, e)
      → InTx tx e qs f
      → Delivered qs d f
  InTx-Delivered tx qs d e f b (to_the_end s) = committed b s
  InTx-Delivered tx qs d e f b (cut_off q back s n) = rolled_back q back b s n

  run_batch-Delivered : (qs : List Bytes) (d : Db) → Delivered qs d (run_batch pool qs d)
  unfolding run_batch run_begun
  run_batch-Delivered qs d = go (begin d) refl
    where
      go : (p : Option Tx × Db) → begin d ≡ p → Delivered qs d (run_begun pool qs p)
      go (none, e) b = singly b (run_individually-EachRun qs e)
      go (some tx, e) b = InTx-Delivered tx qs d e _ b (run_in_tx-InTx tx qs e)

  pub run_batches-AllDelivered :
      (bs : List (List Bytes)) (d : Db) → AllDelivered bs d (run_batches pool bs d)
  unfolding run_batches
  run_batches-AllDelivered [] d = no_batch
  run_batches-AllDelivered (b ∷ bs) d =
      next_batch (run_batch-Delivered b d) (run_batches-AllDelivered bs (run_batch pool b d))
