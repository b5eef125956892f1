-- ===== src/Clickhouse/Native/Endings.antt =====
-- The loop over the packets comes to an end with the input.
use agentx_proxy.Prelude.{
  ℕ, zero, suc, ◌≤◌, ◌<◌, ◌≢◌, Bool, true, false, Option, none, some, List, [], ◌∷◌, arith, Bytes,
  length, ◌==◌, if◌then◌else◌, Error, ok, err, panicked, Outcome, Action, ◌>>=◌, and_then, return,
  ignoring, handling, codes, cases_of, Ending, stuck,
}
use agentx_proxy.Streams.{Sink, read_byte, write_byte}
use agentx_proxy.Streams.Shrinks.{Shrinks, Shrinks-ignoring}
use agentx_proxy.Chproto.{read_fixed_uint32}
use agentx_proxy.Session.{error_text}
use agentx_proxy.Buffer.{WriteBuffer, enqueue}
use agentx_proxy.Prelude.Strings.{equal, to_upper, trim_space, has_prefix}
use agentx_proxy.Clickhouse.Native.Reads.{
  read_fixed_uint32-Shrinks, read_hello_rest-Shrinks, skip_block-Shrinks, read_query-Shrinks,
}
use agentx_proxy.Clickhouse.Translator.{translate}
use agentx_proxy.Clickhouse.{ChServices, is_write_query}
use agentx_proxy.Clickhouse.Native.{
  NativeResponse, send_empty_block, send_native_progress, send_native_complete, send_native_error,
  send_native_data, read_hello_rest, read_query, skip_block, send_native_response, hello, greeting,
}
use agentx_proxy.Clickhouse.Native.System.{handle_system_query_native}
use agentx_proxy.Clickhouse.Native.Serve.{
  ChConn, reading, writing, sending, on_server, on_db, send_failure, run_translated, answer_query,
  handle_ch_query, handle_re_handshake, handle_packet, advance, serve, handle_conn,
}

-- An action of the connection that leaves no more input than it was given.
abbrev Takes : {Db A : Type 0} → Action (ChConn Db) A → Type 0
Takes {Db} m = (s : ChConn Db) → length (m s).1.input ≤ length s.input

then-Takes :
    {Db A B : Type 0} (n : ℕ) (p : Outcome A × ChConn Db) (f : A → Action (ChConn Db) B)
    → length p.1.input ≤ n
    → ((a : A) → Takes (f a))
    → length (and_then p f).1.input ≤ n
then-Takes n (ok a, s) f h hf = omega (arith, hf a s)
then-Takes n (err e, s) f h hf = h
then-Takes n (panicked, s) f h hf = h

Takes-bind :
    {Db A B : Type 0} (m : Action (ChConn Db) A) (f : A → Action (ChConn Db) B)
    → Takes m
    → ((a : A) → Takes (f a))
    → Takes (m >>= f)
Takes-bind m f hm hf s = then-Takes (length s.input) (m s) f (hm s) hf

Takes-return : {Db A : Type 0} (a : A) → Takes {Db = Db} (return a)
Takes-return a s = omega arith

Takes-if :
    {Db A : Type 0} (b : Bool) (m k : Action (ChConn Db) A)
    → Takes m
    → Takes k
    → Takes (if b then m else k)
Takes-if true m k hm hk = hm
Takes-if false m k hm hk = hk

reading-Takes : {Db A : Type 0} (m : Action Bytes A) → Shrinks m → Takes {Db = Db} (reading m)
reading-Takes m h s = h s.input

sending-Takes :
    {Db : Type 0} (packet : List (Action Sink (Unit {0}))) → Takes {Db = Db} (sending packet)
sending-Takes packet s = omega arith

on_db-Takes : {Db A : Type 0} (m : Action Db A) → Takes {Db = Db} (on_db m)
on_db-Takes m s = omega arith

on_server-Takes : {Db A : Type 0} (m : Action (WriteBuffer × Db) A) → Takes {Db = Db} (on_server m)
on_server-Takes m s = omega arith

cases-Takes :
    {Db A B : Type 0} (n : ℕ) (p : Outcome A × ChConn Db) (g : Error → Action (ChConn Db) B)
    (f : A → Action (ChConn Db) B)
    → length p.1.input ≤ n
    → ((e : Error) → Takes (g e))
    → ((a : A) → Takes (f a))
    → length (cases_of p g f).1.input ≤ n
cases-Takes n (ok a, s) g f h hg hf = omega (arith, hf a s)
cases-Takes n (err e, s) g f h hg hf = omega (arith, hg e s)
cases-Takes n (panicked, s) g f h hg hf = h

Takes-handling :
    {Db A B : Type 0} (m : Action (ChConn Db) A) (g : Error → Action (ChConn Db) B)
    (f : A → Action (ChConn Db) B)
    → Takes m
    → ((e : Error) → Takes (g e))
    → ((a : A) → Takes (f a))
    → Takes (handling m g f)
Takes-handling m g f hm hg hf s = cases-Takes (length s.input) (m s) g f (hm s) hg hf

module _ (services : ChServices) (max_alloc : ℕ) where
  open services use {pool, exec, query as query_db}

  failure-Takes : (e : Error) → Takes (send_failure services max_alloc e)
  failure-Takes e = sending-Takes (send_native_error (error_text e))

  run_translated-Takes : (t : Bytes) → Takes (run_translated services max_alloc t)
  unfolding run_translated
  run_translated-Takes t =
      Takes-if (is_write_query t) _ _
        (Takes-if (has_prefix (to_upper t) (codes "INSERT")) _ _
          (Takes-bind (on_server (λ w. (ok tt, enqueue pool t w)))
            (λ _. sending send_native_progress) (on_server-Takes (λ w. (ok tt, enqueue pool t w)))
            (λ _. sending-Takes send_native_progress))
          (Takes-handling (on_db (exec t)) _ _ (on_db-Takes (exec t)) failure-Takes
            (λ n. sending-Takes (send_native_complete n))))
        (Takes-handling (on_db (query_db t)) _ _ (on_db-Takes (query_db t)) failure-Takes
          (λ r. sending-Takes (send_native_data r)))

  response-Takes :
      (q : Bytes) (resp : Option NativeResponse)
      → Takes (elim resp as (λ _. Action (ChConn pool.Db) (Unit {0})) [
        | some r ↦ sending (send_native_response r)
        | none ↦
            handling
              (λ s. (translate q, s))
              (send_failure services max_alloc)
              (run_translated services max_alloc)
      ])
  response-Takes q (some r) = sending-Takes (send_native_response r)
  response-Takes q none =
      Takes-handling (λ s. (translate q, s)) _ _ (λ s. omega arith) failure-Takes
        run_translated-Takes

  answer_query-Takes : (text : Bytes) → Takes (answer_query services max_alloc text)
  unfolding answer_query
  answer_query-Takes text =
      Takes-if (equal (trim_space text) []) _ _ (sending-Takes send_empty_block) (
        Takes-bind (on_db (handle_system_query_native services (trim_space text))) _
          (on_db-Takes (handle_system_query_native services (trim_space text)))
          (response-Takes (trim_space text)))

  handle_ch_query-Takes : Takes (handle_ch_query services max_alloc)
  unfolding handle_ch_query
  handle_ch_query-Takes =
      Takes-bind (reading (read_query max_alloc)) _
        (reading-Takes (read_query max_alloc) (read_query-Shrinks max_alloc)) answer_query-Takes

  handle_re_handshake-Takes : Takes (handle_re_handshake services max_alloc)
  unfolding handle_re_handshake
  handle_re_handshake-Takes =
      Takes-bind (reading (ignoring 0 read_fixed_uint32)) _
        (reading-Takes (ignoring 0 read_fixed_uint32)
          (Shrinks-ignoring 0 read_fixed_uint32 read_fixed_uint32-Shrinks))
        (λ _.
          Takes-bind (reading (read_hello_rest max_alloc)) _
            (reading-Takes (read_hello_rest max_alloc) (read_hello_rest-Shrinks max_alloc))
            (λ _. sending-Takes hello))

  go_on : (m : Action (ChConn pool.Db) (Unit {0})) → Takes m → Takes (m >>= (λ _. return true))
  go_on m h = Takes-bind m _ h (λ _. Takes-return true)

  handle_packet-Takes : (t : ℕ) → Takes (handle_packet services max_alloc t)
  unfolding handle_packet
  handle_packet-Takes t =
      Takes-if (t == 1) _ _ (go_on (handle_ch_query services max_alloc) handle_ch_query-Takes) (
        Takes-if (t == 2) _ _
          (go_on (reading (skip_block max_alloc))
            (reading-Takes (skip_block max_alloc) (skip_block-Shrinks max_alloc)))
          (Takes-if (t == 3) _ _ (Takes-return false) (
            Takes-if (t == 4) _ _
              (go_on (sending (write_byte 4 ∷ [])) (sending-Takes (write_byte 4 ∷ [])))
              (Takes-if (t == 0) _ _
                (go_on (handle_re_handshake services max_alloc) handle_re_handshake-Takes)
                (Takes-return true)))))

  advance-ne-stuck :
      (loop : ChConn pool.Db → Ending × ChConn pool.Db) (p : Outcome Bool × ChConn pool.Db) (n : ℕ)
      → ((t : ChConn pool.Db) → length t.input < n → (loop t).0 ≢ stuck)
      → length p.1.input < n
      → (advance services max_alloc loop p).0 ≢ stuck
  advance-ne-stuck loop (ok true, s) n h l q = h s l q
  advance-ne-stuck loop (ok false, s) n h l q = ground arith
  advance-ne-stuck loop (err e, s) n h l q = ground arith
  advance-ne-stuck loop (panicked, s) n h l q = ground arith

  first_packet :
      (n : ℕ) (input : Bytes) (s : ChConn pool.Db)
      → ((t : ChConn pool.Db) → length t.input < n → (serve services max_alloc n t).0 ≢ stuck)
      → length input < suc n
      → (advance services max_alloc
          (serve services max_alloc n)
          ((reading read_byte >>= handle_packet services max_alloc) (record s { input = input }))).0
        ≢ stuck
  unfolding read_byte
  first_packet n [] s loops h = λ q. ground arith
  first_packet n (b ∷ rest) s loops h =
      advance-ne-stuck (serve services max_alloc n)
        (handle_packet services max_alloc b (record s { input = rest })) n loops
        (omega (arith, handle_packet-Takes b (record s { input = rest })))

  serve-ne-stuck :
      (fuel : ℕ) (s : ChConn pool.Db)
      → length s.input < fuel
      → (serve services max_alloc fuel s).0 ≢ stuck
  unfolding serve
  serve-ne-stuck zero s h = absurd (omega arith)
  serve-ne-stuck (suc n) s h = first_packet n s.input s (serve-ne-stuck n) h

  -- With more fuel than there are bytes to come, a connection of the native protocol comes to its
  -- end: it is closed, or the process crashes.
  pub handle_conn-ne-stuck :
      (fuel : ℕ) (s : ChConn pool.Db)
      → length s.input < fuel
      → (handle_conn services max_alloc fuel s).0 ≢ stuck
  unfolding handle_conn
  handle_conn-ne-stuck fuel s h =
      advance-ne-stuck (serve services max_alloc fuel) _ fuel (serve-ne-stuck fuel)
        (omega (arith, greeted s))
    where
      greeted : Takes {Db = pool.Db} (do
        _ ← reading read_fixed_uint32
        _ ← reading (read_hello_rest max_alloc)
        _ ← writing greeting
        return true)
      greeted =
          Takes-bind (reading read_fixed_uint32) _
            (reading-Takes read_fixed_uint32 read_fixed_uint32-Shrinks)
            (λ _.
              Takes-bind (reading (read_hello_rest max_alloc)) _
                (reading-Takes (read_hello_rest max_alloc) (read_hello_rest-Shrinks max_alloc))
                (λ _. Takes-bind (writing greeting) _ (λ s. omega arith) (λ _. Takes-return true)))
