-- ===== src/Buffer/Ticks.antt =====
-- The write buffer with its goroutine: calls of Enqueue and Close, and the rounds of `flushLoop`, in any
-- order, since each of them holds the mutex.
use agentx_proxy.Prelude.{
  Outcome, ok, panicked, ℕ, ◌≡◌, refl, ap, sym, ◌∙◌, Bool, true, false, leb, length, if◌then◌else◌,
  List, [], ◌∷◌, ◌++◌, Bytes, append_assoc, append-nil,
}
use agentx_proxy.Buffer.{
  Pool, WriteBuffer, new_write_buffer, run_batch, flush_locked, enqueue, close,
}
use agentx_proxy.Buffer.Batches.{concat, run_batches}
use agentx_proxy.Buffer.Delivery.{AllDelivered, run_batches-AllDelivered}

concat-append : (bs : List (List Bytes)) (b : List Bytes) → concat (bs ++ b ∷ []) ≡ concat bs ++ b
unfolding concat
concat-append [] b = append-nil b
concat-append (c ∷ bs) b =
    ap (λ x. c ++ x) (concat-append bs b) ∙ sym (append_assoc c (concat bs) b)

module _ (pool : Pool) where
  open pool use {Db}

  -- `looping` says that the goroutine of `flushLoop` has not returned.
  pub record Buffering : Type 0 where
    pub buffer : WriteBuffer
    pub db : Db
    pub looping : Bool

  -- `NewWriteBuffer`, with the goroutine that it starts.
  abbrev pub started : ℕ → Db → Buffering
  started max_size d = record { buffer = new_write_buffer max_size; db = d; looping = true }

  abbrev pub after_call : Buffering → WriteBuffer × Db → Buffering
  after_call s (wb, d) = record s { buffer = wb; db = d }

  -- A tick of `flushLoop`, which calls Flush.
  unfoldable pub tick : Buffering → Buffering
  tick s = after_call s (flush_locked pool (s.buffer, s.db))

  -- One call, or one round of the loop: it ends where the channel is closed, and a tick may come first.
  pub data Step : Buffering → List Bytes → Buffering → Type 0 where
    enqueues :
        {s : Buffering}
        → (q : Bytes) → Step s (q ∷ []) (after_call s (enqueue pool q (s.buffer, s.db)))
    ticks : {s : Buffering} → s.looping ≡ true → Step s [] (tick s)
    ends : {s : Buffering} → s.buffer.stopped ≡ true → Step s [] (record s { looping = false })
    closes :
        {s : Buffering}
        → s.buffer.stopped ≡ false
        → Step s [] (after_call s (close pool (s.buffer, s.db)).1)

  -- The states that are reached, with the statements that were enqueued on the way.
  pub data Runs : Buffering → List Bytes → Buffering → Type 0 where
    still : {s : Buffering} → Runs s [] s
    then_step :
        {s t u : Buffering} → {qs rs : List Bytes} → Runs s qs t → Step t rs u → Runs s (qs ++ rs) u

  -- All statements so far are in batches that were run, one after the other, or in the buffer.
  pub record Accounted (d : Db) (qs : List Bytes) (s : Buffering) : Type 0 where
    pub batches : List (List Bytes)
    pub all_kept : concat batches ++ s.buffer.buffer ≡ qs
    pub run : s.db ≡ run_batches pool batches d

  run_batches-append :
      (bs : List (List Bytes)) (b : List Bytes) (d : Db)
      → run_batches pool (bs ++ b ∷ []) d ≡ run_batch pool b (run_batches pool bs d)
  unfolding run_batches
  run_batches-append [] b d = refl
  run_batches-append (c ∷ bs) b d = run_batches-append bs b (run_batch pool c d)

  -- The batches of `Accounted`, when the buffer is empty.
  record Flushed (d : Db) (qs : List Bytes) (s : WriteBuffer × Db) : Type 0 where
    pub handed_batches : List (List Bytes)
    pub all_handed : concat handed_batches ≡ qs
    pub handed_run : s.1 ≡ run_batches pool handed_batches d
    pub empty : s.0.buffer ≡ []

  flush-Flushed :
      (b : List Bytes) (m : ℕ) (st : Bool) (e d : Db) (bs : List (List Bytes)) (qs : List Bytes)
      → concat bs ++ b ≡ qs
      → e ≡ run_batches pool bs d
      → Flushed d qs (flush_locked pool (record { buffer = b; max_size = m; stopped = st }, e))
  unfolding flush_locked
  flush-Flushed [] m st e d bs qs k r = record {
    handed_batches = bs;
    all_handed = sym (append-nil (concat bs)) ∙ k;
    handed_run = r;
    empty = refl;
  }
  flush-Flushed (q ∷ rest) m st e d bs qs k r = record {
    handed_batches = bs ++ (q ∷ rest) ∷ [];
    all_handed = concat-append bs (q ∷ rest) ∙ k;
    handed_run = ap (run_batch pool (q ∷ rest)) r ∙ sym (run_batches-append bs (q ∷ rest) d);
    empty = refl;
  }

  Flushed-Accounted :
      (d : Db) (qs : List Bytes) (s : Buffering) (t : WriteBuffer × Db)
      → Flushed d qs t
      → Accounted d qs (after_call s t)
  Flushed-Accounted d qs s t h = record {
    batches = h.handed_batches;
    all_kept =
        ap (λ x. concat h.handed_batches ++ x) h.empty
        ∙ append-nil (concat h.handed_batches)
        ∙ h.all_handed;
    run = h.handed_run;
  }

  -- What a tick or a Close does.
  tick-Flushed :
      (d : Db) (qs : List Bytes) (s : Buffering) (st : Bool)
      → Accounted d qs s
      → Flushed d qs (flush_locked pool (record s.buffer { stopped = st }, s.db))
  tick-Flushed d qs s st h =
      flush-Flushed s.buffer.buffer s.buffer.max_size st s.db d h.batches qs h.all_kept h.run

  longer-Accounted :
      (d : Db) (qs : List Bytes) (s : Buffering) (q : Bytes)
      → Accounted d qs s
      → Accounted d
          (qs ++ q ∷ [])
          (record s { buffer = record s.buffer { buffer = s.buffer.buffer ++ q ∷ [] } })
  longer-Accounted d qs s q h = record {
    batches = h.batches;
    all_kept =
        sym (append_assoc (concat h.batches) s.buffer.buffer (q ∷ []))
        ∙ ap (λ x. x ++ q ∷ []) h.all_kept;
    run = h.run;
  }

  enqueue-Accounted :
      (d : Db) (qs : List Bytes) (s : Buffering) (q : Bytes)
      → Accounted d qs s
      → Accounted d (qs ++ q ∷ []) (after_call s (enqueue pool q (s.buffer, s.db)))
  unfolding enqueue
  enqueue-Accounted d qs s q h =
      let longer : WriteBuffer = record s.buffer { buffer = s.buffer.buffer ++ q ∷ [] } in
      let grown = longer-Accounted d qs s q h in
      elim (leb longer.max_size (length longer.buffer))
        as (λ b.
          Accounted d (qs ++ q ∷ [])
            (after_call s (if b then flush_locked pool (longer, s.db) else (longer, s.db)))) [
              | true ↦ Flushed-Accounted d (qs ++ q ∷ []) s _ (
                  tick-Flushed d (qs ++ q ∷ []) (record s { buffer = longer }) s.buffer.stopped
                    grown)
              | false ↦ grown
            ]

  close-Accounted :
      (d : Db) (qs : List Bytes) (s : Buffering)
      → Accounted d qs s
      → Accounted d qs (after_call s (close pool (s.buffer, s.db)).1)
  unfolding close
  close-Accounted d qs s h =
      elim s.buffer.stopped
        as (λ b.
          let r : Outcome (Unit {0}) × (WriteBuffer × Db) =
            if b
            then (panicked, (s.buffer, s.db))
            else (ok tt, flush_locked pool (record s.buffer { stopped = true }, s.db)) in
          Accounted d qs (after_call s r.1)) [
            | true ↦ h
            | false ↦ Flushed-Accounted d qs s _ (tick-Flushed d qs s true h)
          ]

  Step-Accounted :
      {s t : Buffering}
      → {rs : List Bytes} → (d : Db) (qs : List Bytes) → Step s rs t
      → Accounted d qs s
      → Accounted d (qs ++ rs) t
  unfolding tick
  Step-Accounted {s = s} d qs (enqueues q) h = enqueue-Accounted d qs s q h
  Step-Accounted {s = s} d qs (ticks l) h =
      rw append-nil (Flushed-Accounted d qs s _ (tick-Flushed d qs s s.buffer.stopped h))
  Step-Accounted d qs (ends e) h =
      rw append-nil (record { batches = h.batches; all_kept = h.all_kept; run = h.run })
  Step-Accounted {s = s} d qs (closes e) h = rw append-nil (close-Accounted d qs s h)

  Runs-Accounted :
      {o s : Buffering}
      → {qs : List Bytes} → (d : Db) → Runs o qs s
      → Accounted d [] o
      → Accounted d qs s
  Runs-Accounted d still h = h
  Runs-Accounted d (then_step {qs = qs} r step) h = Step-Accounted d qs step (Runs-Accounted d r h)

  started-Accounted : (m : ℕ) (d : Db) → Accounted d [] (started m d)
  unfolding concat run_batches new_write_buffer
  started-Accounted m d = record { batches = []; all_kept = refl; run = refl }

  -- The loop has returned only where the buffer is closed.
  abbrev pub LoopRuns : Buffering → Type 0
  LoopRuns s = s.buffer.stopped ≡ false → s.looping ≡ true

  flush-stopped : (s : WriteBuffer × Db) → (flush_locked pool s).0.stopped ≡ s.0.stopped
  unfolding flush_locked
  flush-stopped (wb, d) = go wb.buffer wb.max_size wb.stopped
    where
      go :
          (b : List Bytes) (m : ℕ) (st : Bool)
          → (flush_locked pool (record { buffer = b; max_size = m; stopped = st }, d)).0.stopped
            ≡ st
      go [] m st = refl
      go (q ∷ qs) m st = refl

  enqueue-stopped : (q : Bytes) (s : WriteBuffer × Db) → (enqueue pool q s).0.stopped ≡ s.0.stopped
  unfolding enqueue
  enqueue-stopped q (wb, d) =
      let longer : WriteBuffer = record wb { buffer = wb.buffer ++ q ∷ [] } in
      elim (leb longer.max_size (length longer.buffer))
        as (λ b.
          (if b then flush_locked pool (longer, d) else (longer, d)).0.stopped ≡ wb.stopped) [
            | true ↦ flush-stopped (longer, d)
            | false ↦ refl
          ]

  Step-LoopRuns : {s t : Buffering} → {rs : List Bytes} → Step s rs t → LoopRuns s → LoopRuns t
  unfolding tick close
  Step-LoopRuns {s = s} (enqueues q) h e = h (sym (enqueue-stopped q (s.buffer, s.db)) ∙ e)
  Step-LoopRuns (ticks l) h e = l
  Step-LoopRuns (ends k) h e = absurd cc
  Step-LoopRuns {s = s} (closes k) h e = h k

  Runs-LoopRuns : {o s : Buffering} → {qs : List Bytes} → Runs o qs s → LoopRuns o → LoopRuns s
  Runs-LoopRuns still h = h
  Runs-LoopRuns (then_step r step) h = Step-LoopRuns step (Runs-LoopRuns r h)

  -- The buffer is empty, and `qs` is what the batches hold that were taken to MySQL from `d` on.
  pub record Handed (d : Db) (qs : List Bytes) (t : Buffering) : Type 0 where
    pub delivered_batches : List (List Bytes)
    pub all_delivered : concat delivered_batches ≡ qs
    pub delivery : AllDelivered pool delivered_batches d t.db
    pub none_kept : t.buffer.buffer ≡ []

  -- Whatever calls of Enqueue and Close and rounds of the flush loop have come since the buffer was made,
  -- in whatever order: the loop runs as long as the buffer is not closed, and its next tick leaves the
  -- buffer empty. The statements that were ever enqueued are then, each of them once and in the order in
  -- which they came, in batches that were taken to MySQL one after the other: where no transaction begins,
  -- every statement of the batch is run; in a transaction they are run up to the first that fails, at which
  -- it is rolled back, or all of them, and it is committed.
  pub tick_hands_over :
      (m : ℕ) (d : Db) (qs : List Bytes) (s : Buffering)
      → Runs (started m d) qs s
      → LoopRuns s × Handed d qs (tick s)
  unfolding tick
  tick_hands_over m d qs s r =
      let account = Runs-Accounted d r (started-Accounted m d) in
      let h = tick-Flushed d qs s s.buffer.stopped account in
      (
        Runs-LoopRuns r (λ _. refl),
        record {
          delivered_batches = h.handed_batches;
          all_delivered = h.all_handed;
          delivery = rw h.handed_run (run_batches-AllDelivered pool h.handed_batches d);
          none_kept = h.empty;
        },
      )
