-- ===== src/Session/Endings.antt =====
-- The loop over the messages comes to an end with the input.
use agentx_proxy.Prelude.{
  ℕ, zero, suc, ◌≤◌, ◌<◌, ◌≡◌, ◌≢◌, refl, ap, Option, none, some, [], ◌∷◌, arith, Bytes, length,
  eof, ok, err, panicked, Outcome, Action, return,
}
use agentx_proxy.Streams.{read_full}
use agentx_proxy.Streams.Shrinks.{Shrinks, then-Shrinks, read_full-Shrinks}
use agentx_proxy.Pgwire.{read_message, read_uint32, body_size}
use agentx_proxy.Pgwire.Backend.{Conversions, send_error_response}
use agentx_proxy.Session.{Services, ConnState, send}
use agentx_proxy.Prelude.{Ending, stuck}
use agentx_proxy.Session.Loop.{
  error_report, handle_message, after_report, after_message, resume, advance, serve,
}

read_full_one : (b : ℕ) (s : Bytes) → length (read_full 1 (b ∷ s)).1 ≤ length s
unfolding read_full
read_full_one b s = ground arith

read_uint32-Shrinks : Shrinks read_uint32
unfolding read_uint32
read_uint32-Shrinks s =
    then-Shrinks (length s) (read_full 4 s) _ (read_full-Shrinks 4 s) (λ a t. omega arith)

-- Every message takes at least its type byte off the input.
pub read_message_takes : (b : ℕ) (s : Bytes) → length (read_message (b ∷ s)).1 ≤ length s
unfolding read_message
read_message_takes b s =
    then-Shrinks (length s) (read_full 1 (b ∷ s)) _ (read_full_one b s) (λ t s1.
      then-Shrinks (length s1) (read_uint32 s1) _ (read_uint32-Shrinks s1) (λ n s2.
        then-Shrinks (length s2) (read_full (body_size n) s2) _ (read_full-Shrinks (body_size n) s2)
          (λ buf. last t buf)))
  where
    last :
        (t buf : Bytes)
        → Shrinks (elim t as (λ _. Action Bytes (ℕ × Bytes)) [
          | [] ↦ (λ s. (panicked, s))
          | c ∷ _ ↦ return (c, buf)
        ])
    last [] buf s = omega arith
    last (c ∷ cs) buf s = omega arith

read_message_eof : read_message [] ≡ (err eof, [])
unfolding read_message read_full
read_message_eof = refl

module _ (services : Services) (conv : Conversions) where
  open services use {Db}

  after_report-ne-stuck :
      (p : Outcome (Unit {0}) × ConnState Db) → (after_report services conv p).0 ≢ some stuck
  after_report-ne-stuck (ok u, s) e = ground arith
  after_report-ne-stuck (err x, s) e = ground arith
  after_report-ne-stuck (panicked, s) e = ground arith

  after_message-ne-stuck :
      (p : Outcome (Unit {0}) × ConnState Db) → (after_message services conv p).0 ≢ some stuck
  unfolding after_message
  after_message-ne-stuck (ok u, s) e = ground arith
  after_message-ne-stuck (err x, s) e =
      after_report-ne-stuck (send (send_error_response (error_report services conv x)) s) e
  after_message-ne-stuck (panicked, s) e = ground arith

  resume-ne-stuck :
      (loop : Bytes → ConnState Db → Ending × ConnState Db) (rest : Bytes)
      (p : Option Ending × ConnState Db)
      → ((t : ConnState Db) → (loop rest t).0 ≢ stuck)
      → p.0 ≢ some stuck
      → (resume services conv loop rest p).0 ≢ stuck
  resume-ne-stuck loop rest (none, t) h n q = h t q
  resume-ne-stuck loop rest (some e, t) h n q = n (ap some q)

  advance-ne-stuck :
      (loop : Bytes → ConnState Db → Ending × ConnState Db) (s : ConnState Db)
      (r : Outcome (ℕ × Bytes) × Bytes)
      → ((t : ConnState Db) → (loop r.1 t).0 ≢ stuck)
      → (advance services conv loop s r).0 ≢ stuck
  advance-ne-stuck loop s (ok (t, body), rest) h q =
      resume-ne-stuck loop rest
        (after_message services conv (handle_message services conv t body s)) h
        (after_message-ne-stuck (handle_message services conv t body s)) q
  advance-ne-stuck loop s (err e, rest) h q = ground arith
  advance-ne-stuck loop s (panicked, rest) h q = ground arith

  -- With more fuel than there are bytes to read, the loop over the messages comes to its end: the
  -- connection is closed, or the process crashes.
  pub serve-ne-stuck :
      (fuel : ℕ) (input : Bytes) (s : ConnState Db)
      → length input < fuel
      → (serve services conv fuel input s).0 ≢ stuck
  unfolding serve
  serve-ne-stuck zero input s h = absurd (omega arith)
  serve-ne-stuck (suc n) [] s h = rw (read_message_eof) (λ q. ground arith)
  serve-ne-stuck (suc n) (b ∷ input) s h =
      advance-ne-stuck (serve services conv n) s (read_message (b ∷ input)) (λ t.
        serve-ne-stuck n (read_message (b ∷ input)).1 t (omega (arith, read_message_takes b input)))
