-- ===== src/Session/Frame.antt =====
-- Calls that leave the session as it is: the flags, the statements and the portals.
use agentx_proxy.Prelude.{
  Bytes, Bool, true, false, ◌∙◌, ◌≡◌, refl, if◌then◌else◌, Error, ok, err, panicked, Outcome,
  Action, and_then, ◌>>=◌, return,
}
use agentx_proxy.Streams.{Sink}
use agentx_proxy.Session.{Services, ConnState, send, ask, attempt, either, lift, translate_query}

module _ {Db : Type 0} where
  -- The two states differ at most in the connection's output and the database.
  pub record SameSession (s t : ConnState Db) : Type 0 where
    pub in_transaction : t.in_transaction ≡ s.in_transaction
    pub transaction_failed : t.transaction_failed ≡ s.transaction_failed
    pub heap : t.heap ≡ s.heap
    pub prepared_statements : t.prepared_statements ≡ s.prepared_statements
    pub portals : t.portals ≡ s.portals
    pub described_portals : t.described_portals ≡ s.described_portals

  pub record Keeps {A : Type 0} (m : Action (ConnState Db) A) : Type 0 where
    pub kept : (s : ConnState Db) → SameSession s (m s).1

module _ {Db : Type 0} where
  SameSession-refl : (s : ConnState Db) → SameSession s s
  SameSession-refl s = record {
    in_transaction = refl;
    transaction_failed = refl;
    heap = refl;
    prepared_statements = refl;
    portals = refl;
    described_portals = refl;
  }

  io_only : (s : ConnState Db) (w : Sink) (d : Db) → SameSession s (record s { out = w; db = d })
  io_only s w d = record {
    in_transaction = refl;
    transaction_failed = refl;
    heap = refl;
    prepared_statements = refl;
    portals = refl;
    described_portals = refl;
  }

  SameSession-trans : {s t u : ConnState Db} → SameSession s t → SameSession t u → SameSession s u
  SameSession-trans a b = record {
    in_transaction = b.in_transaction ∙ a.in_transaction;
    transaction_failed = b.transaction_failed ∙ a.transaction_failed;
    heap = b.heap ∙ a.heap;
    prepared_statements = b.prepared_statements ∙ a.prepared_statements;
    portals = b.portals ∙ a.portals;
    described_portals = b.described_portals ∙ a.described_portals;
  }

  pub Keeps-return : {A : Type 0} (a : A) → Keeps {Db = Db} (return a)
  Keeps-return a = record { kept = SameSession-refl }

  pub Keeps-lift : {A : Type 0} (r : Outcome A) → Keeps {Db = Db} (lift r)
  Keeps-lift r = record { kept = SameSession-refl }

  pub Keeps-send : (m : Action Sink (Unit {0})) → Keeps {Db = Db} (send m)
  unfolding send
  Keeps-send m = record { kept = λ s. io_only s (m s.out).1 s.db }

  pub Keeps-ask : {A : Type 0} (m : Db → Outcome A × Db) → Keeps (ask m)
  unfolding ask
  Keeps-ask m = record { kept = λ s. io_only s s.out (m s.db).1 }

  pub Keeps-bind :
      {A B : Type 0} {m : Action (ConnState Db) A} {f : A → Action (ConnState Db) B}
      → Keeps m
      → ((a : A) → Keeps (f a))
      → Keeps (m >>= f)
  Keeps-bind {A} {B} {m} {f} hm hf = record { kept = λ s. go s (m s) (hm.kept s) }
    where
      go :
          (s : ConnState Db) (p : Outcome A × ConnState Db)
          → SameSession s p.1
          → SameSession s (and_then p f).1
      go s (ok a, t) h = SameSession-trans h ((hf a).kept t)
      go s (err e, t) h = h
      go s (panicked, t) h = h

  pub Keeps-attempt :
      {A B : Type 0} {m : Action (ConnState Db) A} {g : Error → Action (ConnState Db) B}
      {f : A → Action (ConnState Db) B}
      → Keeps m
      → ((e : Error) → Keeps (g e))
      → ((a : A) → Keeps (f a))
      → Keeps (attempt m g f)
  Keeps-attempt {A} {B} {m} {g} {f} hm hg hf = record { kept = λ s. go s (m s) (hm.kept s) }
    where
      go :
          (s : ConnState Db) (p : Outcome A × ConnState Db)
          → SameSession s p.1
          → SameSession s (either p g f).1
      go s (ok a, t) h = SameSession-trans h ((hf a).kept t)
      go s (err e, t) h = SameSession-trans h ((hg e).kept t)
      go s (panicked, t) h = h

  pub Keeps-if :
      {A : Type 0} (b : Bool) {m k : Action (ConnState Db) A}
      → Keeps m
      → Keeps k
      → Keeps (if b then m else k)
  Keeps-if true hm hk = hm
  Keeps-if false hm hk = hk

pub translate_query-Keeps :
    (services : Services) (query : Bytes) → Keeps (translate_query services query)
unfolding translate_query
translate_query-Keeps services query = Keeps-ask _
