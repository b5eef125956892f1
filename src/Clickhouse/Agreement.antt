-- ===== src/Clickhouse/Agreement.antt =====
-- The two servers do the same with a translated statement.
use agentx_proxy.Prelude.{
  ℕ, ◌≡◌, refl, Bool-cases, inl, inr, List, Bytes, codes, Error, ok, err, panicked, Outcome, Action,
  return, cases_of,
}
use agentx_proxy.Prelude.Strings.{to_upper, has_prefix}
use agentx_proxy.Streams.{Sink}
use agentx_proxy.Clickhouse.{ChServices, is_write_query}
use agentx_proxy.Clickhouse.Http
use agentx_proxy.Clickhouse.Native.Serve

module _ (services : ChServices) (max_alloc : ℕ) where
  open services use {pool, exec, query as query_db}

  -- A call of the pool and the answer to it, on the two servers.
  agreed :
      {A : Type 0} (p : Outcome A × pool.Db) (s : Serve.ChConn pool.Db) (f : Error → Http.Response)
      (g : A → Http.Response) (e : Error → List (Action Sink (Unit {0})))
      (h : A → List (Action Sink (Unit {0})))
      → (cases_of (p.0, (s.server.0, p.1)) (λ x. return (f x)) (λ a. return (g a))).1
        ≡ (cases_of
            (p.0, record s { server = (s.server.0, p.1) })
            (λ x. Serve.sending (e x))
            (λ a. Serve.sending (h a))).1.server
  agreed (ok a, d) s f g e h = refl
  agreed (err x, d) s f g e h = refl
  agreed (panicked, d) s f g e h = refl

  -- A translated statement leaves the write buffer and the database the same, whether it came by
  -- HTTP or by the native protocol.
  pub run_translated_agree :
      (translated : Bytes) (s : Serve.ChConn pool.Db)
      → (Http.run_translated services translated s.server).1
        ≡ (Serve.run_translated services max_alloc translated s).1.server
  unfolding Http.run_translated Serve.run_translated is_write_query to_upper has_prefix
  run_translated_agree translated s = elim (Bool-cases (is_write_query translated)) [
    | inl w ↦ elim (Bool-cases (has_prefix (to_upper translated) (codes "INSERT"))) [
      | inl i ↦ rw (w, i)
      | inr n ↦ rw (w, n) (agreed (exec translated s.server.1) s _ _ _ _)
    ]
    | inr r ↦ rw r (agreed (query_db translated s.server.1) s _ _ _ _)
  ]
