-- ===== src/Servers.antt =====
-- The servers of internal/proxy/postgresql/server.go and internal/proxy/clickhouse/http_server.go as
-- listeners: the loops of Start, which number the connections, and Close. What Accept gives and whether
-- the context is done are the rounds that come in.
use agentx_proxy.Prelude.{
  ℕ, zero, suc, ◌+◌, Bool, true, false, Option, none, some, List, [], ◌∷◌, map, ◌≡◌, refl, ap,
  length, Action,
}
use agentx_proxy.Buffer.{Pool, WriteBuffer, flush_locked}

-- One round of the loop: is the context done at its start, the connection that Accept gives, if it does
-- not fail, and is the context done after a failure?
pub record Round (Conn : Type 0) : Type 0 where
  pub done : Bool
  pub accepted : Option Conn
  pub done_after : Bool

-- How the loop returns: with the error of the context, or with nil.
pub data Stop : Type 0 where
  context_error quiet : Stop

-- `k` numbers, from `n` on.
unfoldable pub count_from : ℕ → ℕ → List ℕ
count_from n zero = []
count_from n (suc k) = n ∷ count_from (n + 1) k

module _ {Conn : Type 0} where
  abbrev numbered : ℕ × Conn → List (ℕ × Conn) × Option Stop → List (ℕ × Conn) × Option Stop
  numbered c (cs, stop) = (c ∷ cs, stop)

  -- `Start`: the connections that are handed to handleConn, with their numbers, and how it returned, if it
  -- has; `count` is connCount.
  unfoldable pub start : ℕ → List (Round Conn) → List (ℕ × Conn) × Option Stop
  start count [] = ([], none)
  start count (r ∷ rounds) = elim r.done as (λ _. List (ℕ × Conn) × Option Stop) [
    | true ↦ ([], some context_error)
    | false ↦ elim r.accepted as (λ _. List (ℕ × Conn) × Option Stop) [
      | some c ↦ numbered (count + 1, c) (start (count + 1) rounds)
      | none ↦ elim r.done_after as (λ _. List (ℕ × Conn) × Option Stop) [
        | true ↦ ([], some quiet)
        | false ↦ start count rounds
      ]
    ]
  ]

  abbrev pub numbers : List (ℕ × Conn) → List ℕ
  numbers cs = map (λ (n, c). n) cs

  -- The connections are numbered one after the other, whatever failures come between them.
  pub numbers-start :
      (count : ℕ) (rounds : List (Round Conn))
      → numbers (start count rounds).0 ≡ count_from (count + 1) (length (start count rounds).0)
  unfolding start count_from
  numbers-start count [] = refl
  numbers-start count (r ∷ rounds) =
      by_round r.done r.accepted r.done_after (numbers-start count rounds)
        (numbers-start (count + 1) rounds)
    where
      by_round :
          (d : Bool) (o : Option Conn) (a : Bool)
          → numbers (start count rounds).0 ≡ count_from (count + 1) (length (start count rounds).0)
          → numbers (start (count + 1) rounds).0
            ≡ count_from (count + 1 + 1) (length (start (count + 1) rounds).0)
          → let r' : Round Conn = record { done = d; accepted = o; done_after = a } in
            numbers (start count (r' ∷ rounds)).0
            ≡ count_from (count + 1) (length (start count (r' ∷ rounds)).0)
      by_round true o a same next = refl
      by_round false (some c) a same next = ap (λ ns. (count + 1) ∷ ns) next
      by_round false none true same next = refl
      by_round false none false same next = same

-- `Close` of the ClickHouse servers: the buffer is flushed, then the listener or the HTTP server is closed.
-- The loop of the buffer goes on.
module _ (pool : Pool) (close_listener : Action (WriteBuffer × pool.Db) (Unit {0})) where
  unfoldable pub close_server : Action (WriteBuffer × pool.Db) (Unit {0})
  unfolding flush_locked
  close_server s = close_listener (flush_locked pool s)
