-- ===== src/Session/Linked.antt =====
-- The tables of a connection: every name leads to a statement or a portal of that name, and every
-- portal to a statement that was once prepared.
use agentx_proxy.Prelude.{
  ℕ, ◌≤◌, ◌<◌, Bool, true, false, ◌≡◌, sym, ap, ◌∙◌, some, List, [], ◌∷◌, ◌++◌, arith, Bytes,
  length, length-append, if◌then◌else◌, Error, ok, err, panicked, Outcome, Action, ◌>>=◌, and_then,
  inl, inr,
}
use agentx_proxy.Prelude.Maps.{lookup, insert, delete, lookup-insert_cases, lookup-delete_was}
use agentx_proxy.Session.{Stmt, Portal, ConnState, attempt, either}
use agentx_proxy.Session.Extended.{at_address}
use agentx_proxy.Session.Describe.{set_stmt}
use agentx_proxy.Session.Heap.{
  at_address-append, at_address_last, length-set_stmt, name-set_stmt, query-set_stmt,
}
use agentx_proxy.Session.Frame.{SameSession, Keeps}

-- `base` is the heap at an earlier time: what its statements say is still the same.
pub record Tables (base heap : List Stmt) (prepared : List (Bytes × ℕ))
    (portals : List (Bytes × Portal)) : Type 0 where
  pub grown : length base ≤ length heap
  pub same_text : (a : ℕ) → a < length base → (at_address heap a).query ≡ (at_address base a).query
  pub bound : (k : Bytes) (a : ℕ) → lookup k prepared ≡ some a → a < length heap
  pub named : (k : Bytes) (a : ℕ) → lookup k prepared ≡ some a → (at_address heap a).name ≡ k
  pub portal_bound : (k : Bytes) (p : Portal) → lookup k portals ≡ some p → p.stmt < length heap
  pub portal_named : (k : Bytes) (p : Portal) → lookup k portals ≡ some p → p.name ≡ k

abbrev pub Linked : {Db : Type 0} → List Stmt → ConnState Db → Type 0
Linked base s = Tables base s.heap s.prepared_statements s.portals

module _ {base heap : List Stmt} {prepared : List (Bytes × ℕ)}
    {portals : List (Bytes × Portal)} where
  -- A new statement under its own name.
  pub Tables-insert :
      (stmt : Stmt)
      → Tables base heap prepared portals
      → Tables base (heap ++ stmt ∷ []) (insert stmt.name (length heap) prepared) portals
  Tables-insert stmt t = record {
    grown = omega (arith, t.grown, length-append heap (stmt ∷ []));
    same_text = λ a h. texts a h;
    bound = λ k a e. (new k a e).0;
    named = λ k a e. (new k a e).1;
    portal_bound = λ k p e. longer (t.portal_bound k p e);
    portal_named = t.portal_named;
  }
    where
      longer : {a : ℕ} → a < length heap → a < length (heap ++ stmt ∷ [])
      longer h = omega (arith, length-append heap (stmt ∷ []))

      texts :
          (a : ℕ)
          → a < length base
          → (at_address (heap ++ stmt ∷ []) a).query ≡ (at_address base a).query
      texts a h =
          ap (λ s. s.query) (at_address-append heap (stmt ∷ []) a (omega (arith, t.grown, h)))
          ∙ t.same_text a h

      last : length heap < length (heap ++ stmt ∷ [])
      last = omega (arith, length-append heap (stmt ∷ []))

      new :
          (k : Bytes) (a : ℕ)
          → lookup k (insert stmt.name (length heap) prepared) ≡ some a
          → (a < length (heap ++ stmt ∷ [])) × ((at_address (heap ++ stmt ∷ []) a).name ≡ k)
      new k a e = elim (lookup-insert_cases stmt.name k (length heap) a prepared e) [
        | inl (n, l) ↦
            (rw (sym l) last, rw (sym l) (ap (λ s. s.name) (at_address_last heap stmt) ∙ n))
        | inr old ↦ (
          longer (t.bound k a old),
          ap (λ s. s.name) (at_address-append heap (stmt ∷ []) a (t.bound k a old))
              ∙ t.named k a old,
        )
      ]

  -- A portal under its own name, to a statement of the heap.
  pub Tables-portal :
      (p : Portal)
      → p.stmt < length heap
      → Tables base heap prepared portals
      → Tables base heap prepared (insert p.name p portals)
  Tables-portal p h t = record {
    grown = t.grown;
    same_text = t.same_text;
    bound = t.bound;
    named = t.named;
    portal_bound = λ k q e. (new k q e).0;
    portal_named = λ k q e. (new k q e).1;
  }
    where
      new :
          (k : Bytes) (q : Portal)
          → lookup k (insert p.name p portals) ≡ some q
          → (q.stmt < length heap) × (q.name ≡ k)
      new k q e = elim (lookup-insert_cases p.name k p q portals e) [
        | inl (n, l) ↦ (rw (sym l) h, ap (λ r. r.name) (sym l) ∙ n)
        | inr old ↦ (t.portal_bound k q old, t.portal_named k q old)
      ]

  pub Tables-delete :
      (name : Bytes)
      → Tables base heap prepared portals
      → Tables base heap (delete name prepared) portals
  Tables-delete name t = record {
    grown = t.grown;
    same_text = t.same_text;
    bound = λ k a e. t.bound k a (lookup-delete_was name k a prepared e);
    named = λ k a e. t.named k a (lookup-delete_was name k a prepared e);
    portal_bound = t.portal_bound;
    portal_named = t.portal_named;
  }

  pub Tables-delete_portal :
      (name : Bytes)
      → Tables base heap prepared portals
      → Tables base heap prepared (delete name portals)
  Tables-delete_portal name t = record {
    grown = t.grown;
    same_text = t.same_text;
    bound = t.bound;
    named = t.named;
    portal_bound = λ k p e. t.portal_bound k p (lookup-delete_was name k p portals e);
    portal_named = λ k p e. t.portal_named k p (lookup-delete_was name k p portals e);
  }

  -- New types in a statement.
  pub Tables-types :
      (a : ℕ) (oids : List ℕ)
      → Tables base heap prepared portals
      → Tables base
          (set_stmt heap a (record (at_address heap a) { param_oids = oids }))
          prepared
          portals
  Tables-types a oids t = record {
    grown = rw length-set_stmt t.grown;
    same_text = λ b h. query-set_stmt heap a b oids ∙ t.same_text b h;
    bound = λ k b e. same (t.bound k b e);
    named = λ k b e. name-set_stmt heap a b oids ∙ t.named k b e;
    portal_bound = λ k p e. same (t.portal_bound k p e);
    portal_named = t.portal_named;
  }
    where
      same :
          {b : ℕ}
          → b < length heap
          → b < length (set_stmt heap a (record (at_address heap a) { param_oids = oids }))
      same h = rw length-set_stmt h

module _ {Db : Type 0} where
  -- A call that keeps the tables in order, whatever it returns.
  pub record KeepsLinked {A : Type 0} (m : Action (ConnState Db) A) : Type 0 where
    pub kept : (base : List Stmt) (s : ConnState Db) → Linked base s → Linked base (m s).1

  pub KeepsLinked-Keeps : {A : Type 0} {m : Action (ConnState Db) A} → Keeps m → KeepsLinked m
  KeepsLinked-Keeps {A} {m} h = record { kept = λ base s l. go base s (m s).1 (h.kept s) l }
    where
      go : (base : List Stmt) (s t : ConnState Db) → SameSession s t → Linked base s → Linked base t
      go base s t same l = rw (same.heap, same.prepared_statements, same.portals) l

  pub KeepsLinked-bind :
      {A B : Type 0} {m : Action (ConnState Db) A} {f : A → Action (ConnState Db) B}
      → KeepsLinked m
      → ((a : A) → KeepsLinked (f a))
      → KeepsLinked (m >>= f)
  KeepsLinked-bind {A} {B} {m} {f} hm hf = record {
    kept = λ base s l. go base (m s) (hm.kept base s l);
  }
    where
      go :
          (base : List Stmt) (p : Outcome A × ConnState Db)
          → Linked base p.1
          → Linked base (and_then p f).1
      go base (ok a, t) l = (hf a).kept base t l
      go base (err e, t) l = l
      go base (panicked, t) l = l

  pub KeepsLinked-attempt :
      {A B : Type 0} {m : Action (ConnState Db) A} {g : Error → Action (ConnState Db) B}
      {f : A → Action (ConnState Db) B}
      → KeepsLinked m
      → ((e : Error) → KeepsLinked (g e))
      → ((a : A) → KeepsLinked (f a))
      → KeepsLinked (attempt m g f)
  KeepsLinked-attempt {A} {B} {m} {g} {f} hm hg hf = record {
    kept = λ base s l. go base (m s) (hm.kept base s l);
  }
    where
      go :
          (base : List Stmt) (p : Outcome A × ConnState Db)
          → Linked base p.1
          → Linked base (either p g f).1
      go base (ok a, t) l = (hf a).kept base t l
      go base (err e, t) l = (hg e).kept base t l
      go base (panicked, t) l = l

  pub KeepsLinked-if :
      {A : Type 0} (b : Bool) {m k : Action (ConnState Db) A}
      → KeepsLinked m
      → KeepsLinked k
      → KeepsLinked (if b then m else k)
  KeepsLinked-if true hm hk = hm
  KeepsLinked-if false hm hk = hk
