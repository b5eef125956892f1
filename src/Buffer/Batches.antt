-- ===== src/Buffer/Batches.antt =====
-- What a sequence of `Enqueue` does: the statements are run in full batches, in their order, and
-- the buffer keeps the rest.
use agentx_proxy.Prelude.{
  ◌+◌, ◌≤◌, ◌<◌, ◌≡◌, refl, ap, sym, ◌∙◌, List, [], ◌∷◌, ◌++◌, arith, Bytes, length, length-append,
  append_assoc, append-nil, leb, Bool-cases, inl, inr, All,
}
use agentx_proxy.Buffer.{Pool, WriteBuffer, run_batch, flush_locked, enqueue}

unfoldable pub concat : List (List Bytes) → List Bytes
concat [] = []
concat (b ∷ bs) = b ++ concat bs

module _ (pool : Pool) where
  open pool use {Db}

  unfoldable pub enqueue_all : List Bytes → WriteBuffer × Db → WriteBuffer × Db
  enqueue_all [] s = s
  enqueue_all (q ∷ qs) s = enqueue_all qs (enqueue pool q s)

  unfoldable pub run_batches : List (List Bytes) → Db → Db
  run_batches [] d = d
  run_batches (b ∷ bs) d = run_batches bs (run_batch pool b d)

  -- The state `t` comes from `wb` and `d` by the statements `qs`: `batches` of the full size were
  -- run, in order, and with what is left in the buffer they are all the statements.
  pub record Batched (wb : WriteBuffer) (d : Db) (qs : List Bytes) (t : WriteBuffer × Db)
      : Type 0 where
    pub batches : List (List Bytes)
    pub full : All (λ b. length b ≡ wb.max_size) batches
    pub all_kept : concat batches ++ t.0.buffer ≡ wb.buffer ++ qs
    pub run : t.1 ≡ run_batches batches d
    pub not_full : length t.0.buffer < wb.max_size
    pub same_size : t.0.max_size ≡ wb.max_size

  -- One `Enqueue`: the buffer grows by the statement, or what it holds is run and it is empty.
  enqueue_short :
      (q : Bytes) (wb : WriteBuffer) (d : Db)
      → length wb.buffer + 1 < wb.max_size
      → enqueue pool q (wb, d) ≡ (record wb { buffer = wb.buffer ++ q ∷ [] }, d)
  unfolding enqueue
  enqueue_short q wb d h = ground (arith, length-append wb.buffer (q ∷ []))

  pub flush-nonempty :
      (wb : WriteBuffer) (d : Db)
      → 0 < length wb.buffer
      → flush_locked pool (wb, d) ≡ (record wb { buffer = [] }, run_batch pool wb.buffer d)
  unfolding flush_locked
  flush-nonempty wb d h = go wb.buffer refl
    where
      go :
          (qs : List Bytes)
          → wb.buffer ≡ qs
          → flush_locked pool (wb, d) ≡ (record wb { buffer = [] }, run_batch pool wb.buffer d)
      go [] e = absurd (omega (arith, ap (length {0}) e))
      go (q ∷ qs) e = rw e

  enqueue_full :
      (q : Bytes) (wb : WriteBuffer) (d : Db)
      → wb.max_size ≤ length wb.buffer + 1
      → enqueue pool q (wb, d) ≡ (record wb { buffer = [] }, run_batch pool (wb.buffer ++ q ∷ []) d)
  unfolding enqueue
  enqueue_full q wb d h = ground (
    arith,
    length-append wb.buffer (q ∷ []),
    flush-nonempty (record wb { buffer = wb.buffer ++ q ∷ [] }) d,
  )

  -- The statements so far stay in the buffer.
  Batched-short :
      (q : Bytes) (qs : List Bytes) (wb : WriteBuffer) (d : Db) (t : WriteBuffer × Db)
      → Batched (record wb { buffer = wb.buffer ++ q ∷ [] }) d qs t
      → Batched wb d (q ∷ qs) t
  Batched-short q qs wb d t h = record {
    batches = h.batches;
    full = h.full;
    all_kept = h.all_kept ∙ append_assoc wb.buffer (q ∷ []) qs;
    run = h.run;
    not_full = h.not_full;
    same_size = h.same_size;
  }

  -- The statements so far are one batch.
  Batched-full :
      (q : Bytes) (qs : List Bytes) (wb : WriteBuffer) (d : Db) (t : WriteBuffer × Db)
      → length wb.buffer + 1 ≡ wb.max_size
      → Batched (record wb { buffer = [] }) (run_batch pool (wb.buffer ++ q ∷ []) d) qs t
      → Batched wb d (q ∷ qs) t
  unfolding concat run_batches
  Batched-full q qs wb d t size h = record {
    batches = (wb.buffer ++ q ∷ []) ∷ h.batches;
    full = (length-append wb.buffer (q ∷ []) ∙ size, h.full);
    all_kept = kept;
    run = h.run;
    not_full = h.not_full;
    same_size = h.same_size;
  }
    where
      kept : (wb.buffer ++ q ∷ []) ++ concat h.batches ++ t.0.buffer ≡ wb.buffer ++ q ∷ qs
      kept =
          append_assoc (wb.buffer ++ q ∷ []) (concat h.batches) t.0.buffer
          ∙ ap (λ r. (wb.buffer ++ q ∷ []) ++ r) h.all_kept
          ∙ append_assoc wb.buffer (q ∷ []) qs

  -- However many statements are enqueued, they are run in batches of exactly the maximal size, in
  -- the order in which they came, and those that are left are in the buffer, which is never full.
  pub enqueue_all-Batched :
      (qs : List Bytes) (wb : WriteBuffer) (d : Db)
      → length wb.buffer < wb.max_size
      → Batched wb d qs (enqueue_all qs (wb, d))
  unfolding enqueue_all concat run_batches
  enqueue_all-Batched [] wb d h = record {
    batches = [];
    full = tt;
    all_kept = sym (append-nil wb.buffer);
    run = refl;
    not_full = h;
    same_size = refl;
  }
  enqueue_all-Batched (q ∷ qs) wb d h =
      elim (Bool-cases (leb wb.max_size (length wb.buffer + 1)))
        as (λ _. Batched wb d (q ∷ qs) (enqueue_all qs (enqueue pool q (wb, d)))) [
          | inl y ↦ rw (enqueue_full q wb d (ground arith)) (
              Batched-full q qs wb d _ (ground arith) (
                enqueue_all-Batched qs (record wb { buffer = [] })
                  (run_batch pool (wb.buffer ++ q ∷ []) d) (ground arith)))
          | inr n ↦ rw (enqueue_short q wb d (ground arith)) (
              Batched-short q qs wb d _ (
                enqueue_all-Batched qs (record wb { buffer = wb.buffer ++ q ∷ [] }) d
                  (ground (arith, length-append wb.buffer (q ∷ [])))))
        ]
