-- ===== src/Session/Heap.antt =====
-- The heap of statements: what adding a statement and storing types change.
use agentx_proxy.Prelude.{ℕ, zero, suc, ◌<◌, ◌≡◌, refl, ap, List, [], ◌∷◌, ◌++◌, arith, length}
use agentx_proxy.Session.{Stmt}
use agentx_proxy.Session.Extended.{at_address}
use agentx_proxy.Session.Describe.{set_stmt}

pub at_address-append :
    (heap more : List Stmt) (a : ℕ)
    → a < length heap
    → at_address (heap ++ more) a ≡ at_address heap a
at_address-append [] more a h = absurd (omega arith)
at_address-append (s ∷ heap) more zero h = refl
at_address-append (s ∷ heap) more (suc a) h = at_address-append heap more a (omega arith)

pub at_address_last : (heap : List Stmt) (s : Stmt) → at_address (heap ++ s ∷ []) (length heap) ≡ s
at_address_last [] s = refl
at_address_last (t ∷ heap) s = at_address_last heap s

pub length-set_stmt :
    (heap : List Stmt) (a : ℕ) (s : Stmt) → length (set_stmt heap a s) ≡ length heap
length-set_stmt [] a s = refl
length-set_stmt (t ∷ heap) zero s = refl
length-set_stmt (t ∷ heap) (suc a) s = ap suc (length-set_stmt heap a s)

-- A cell that gets a statement of the same name and text leaves the names and texts as they are.
pub name-set_stmt :
    (heap : List Stmt) (a b : ℕ) (oids : List ℕ)
    → (at_address (set_stmt heap a (record (at_address heap a) { param_oids = oids })) b).name
      ≡ (at_address heap b).name
name-set_stmt [] a b oids = refl
name-set_stmt (t ∷ heap) zero zero oids = refl
name-set_stmt (t ∷ heap) zero (suc b) oids = refl
name-set_stmt (t ∷ heap) (suc a) zero oids = refl
name-set_stmt (t ∷ heap) (suc a) (suc b) oids = name-set_stmt heap a b oids

pub query-set_stmt :
    (heap : List Stmt) (a b : ℕ) (oids : List ℕ)
    → (at_address (set_stmt heap a (record (at_address heap a) { param_oids = oids })) b).query
      ≡ (at_address heap b).query
query-set_stmt [] a b oids = refl
query-set_stmt (t ∷ heap) zero zero oids = refl
query-set_stmt (t ∷ heap) zero (suc b) oids = refl
query-set_stmt (t ∷ heap) (suc a) zero oids = refl
query-set_stmt (t ∷ heap) (suc a) (suc b) oids = query-set_stmt heap a b oids
