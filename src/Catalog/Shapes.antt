-- ===== src/Catalog/Shapes.antt =====
-- The rows of the tables of the catalog, by how many values they have.
use agentx_proxy.Prelude.{
  ℕ, zero, suc, ◌≡◌, ◌==◌, refl, ap, arith, Bool, true, false, Option, none, some, List, [], ◌∷◌,
  map, Bytes, codes, length, All, if◌then◌else◌, ok, err, panicked, Outcome, Action, ◌>>=◌,
  and_then, return,
}
use agentx_proxy.Prelude.Strings.{to_upper, contains}
use agentx_proxy.Pgwire.Backend.{Value, render}
use agentx_proxy.Session.{scan_texts}
use agentx_proxy.Catalog.{Answer, keep, leading_number}
use agentx_proxy.Catalog.Contents.{pg_types, pg_enums, pg_procs}
use agentx_proxy.Catalog.PgType.{
  pg_type_rows, pg_enum_rows, second_number, types_for, enums_for, first_filled, types_of_oid,
  types_of_oids, types_of_name, types_of_names,
}
use agentx_proxy.Catalog.Relations.{class_row, attribute_row, index_row, IdxInfo}

abbrev pub OfWidth : ℕ → List Value → Type 0
OfWidth n row = length row ≡ n

abbrev pub Wide : ℕ → List (List Value) → Type 0
Wide n = All (OfWidth n)

abbrev pub Rectangular : Answer → Type 0
Rectangular none = Unit
Rectangular (some (columns, rows)) = Wide (length columns) rows

-- What holds of the result of a call, if there is one.
abbrev pub Result : {A : Type 0} → (A → Type 0) → Outcome A → Type 0
Result P (ok a) = P a
Result P (err e) = Unit
Result P panicked = Unit

abbrev pub Gives : {Db A : Type 0} → (A → Type 0) → Action Db A → Type 0
Gives {Db} P m = (d : Db) → Result P (m d).0

pub then-Gives :
    {Db A B : Type 0} (P : B → Type 0) (p : Outcome A × Db) (f : A → Action Db B)
    → ((a : A) → Gives P (f a))
    → Result P (and_then p f).0
then-Gives P (ok a, d) f h = h a d
then-Gives P (err e, d) f h = tt
then-Gives P (panicked, d) f h = tt

pub Gives-bind :
    {Db A B : Type 0} (P : B → Type 0) (m : Action Db A) (f : A → Action Db B)
    → ((a : A) → Gives P (f a))
    → Gives P (m >>= f)
Gives-bind P m f h d = then-Gives P (m d) f h

pub map-Result :
    {Db A B : Type 0} (P : A → Type 0) (Q : B → Type 0) (p : Outcome A × Db) (f : A → B)
    → Result P p.0
    → ((a : A) → P a → Q (f a))
    → Result Q (and_then p (λ a. return (f a))).0
map-Result P Q (ok a, d) f h g = g a h
map-Result P Q (err e, d) f h g = tt
map-Result P Q (panicked, d) f h g = tt

pub Gives-if :
    {Db A : Type 0} (P : A → Type 0) (b : Bool) (m k : Action Db A)
    → Gives P m
    → Gives P k
    → Gives P (if b then m else k)
Gives-if P true m k hm hk = hm
Gives-if P false m k hm hk = hk

pub keep-Wide :
    (n : ℕ) (p : List Value → Bool) (rows : List (List Value)) → Wide n rows → Wide n (keep p rows)
unfolding keep
keep-Wide n p [] h = tt
keep-Wide n p (row ∷ rows) h = one (p row) h.0 (keep-Wide n p rows h.1)
  where
    one :
        (b : Bool)
        → length row ≡ n
        → Wide n (keep p rows)
        → Wide n (if b then row ∷ keep p rows else keep p rows)
    one true w ws = (w, ws)
    one false w ws = ws

pub map-Wide :
    {A : Type 0} (n : ℕ) (f : A → List Value) (xs : List A)
    → ((x : A) → length (f x) ≡ n)
    → Wide n (map f xs)
map-Wide n f [] h = tt
map-Wide n f (x ∷ xs) h = (h x, map-Wide n f xs h)

pub pg_types-Wide : Wide 24 pg_types
unfolding pg_types
pg_types-Wide = search arith

pub pg_enums-Wide : Wide 4 pg_enums
unfolding pg_enums
pg_enums-Wide = search arith

pub pg_procs-Wide : Wide 29 pg_procs
unfolding pg_procs
pg_procs-Wide = search arith

pub types_for-Wide :
    (p : Bytes → List Value → Bool) (g : Option (ℕ → Bytes)) → Wide 24 (types_for p g)
unfolding types_for
types_for-Wide p none = tt
types_for-Wide p (some groups) = keep-Wide 24 (p (groups 1)) pg_types pg_types-Wide

pub first_filled-Wide :
    (n : ℕ) (xs : List (List (List Value))) → All (Wide n) xs → Wide n (first_filled xs)
unfolding first_filled
first_filled-Wide n [] h = tt
first_filled-Wide n ([] ∷ more) h = first_filled-Wide n more h.1
first_filled-Wide n ((row ∷ rows) ∷ more) h = h.0

pub types_of_oid-Wide : (query : Bytes) → Wide 24 (types_of_oid query)
unfolding types_of_oid
types_of_oid-Wide query = types_for-Wide _ _

pub types_of_oids-Wide : (query : Bytes) → Wide 24 (types_of_oids query)
unfolding types_of_oids
types_of_oids-Wide query = types_for-Wide _ _

pub types_of_name-Wide : (query : Bytes) → Wide 24 (types_of_name query)
unfolding types_of_name
types_of_name-Wide query = types_for-Wide _ _

pub types_of_names-Wide : (query : Bytes) → Wide 24 (types_of_names query)
unfolding types_of_names
types_of_names-Wide query = types_for-Wide _ _

pub pg_type_rows-Wide : (query : Bytes) → Wide 24 (pg_type_rows query)
unfolding pg_type_rows
pg_type_rows-Wide query = by_where (contains (to_upper query) (codes "WHERE"))
  where
    by_where :
        (b : Bool)
        → Wide 24 (
            if b
            then first_filled (
                types_of_oid query
                ∷ types_of_oids query
                ∷ types_of_name query
                ∷ types_of_names query
                ∷ [])
            else pg_types)
    by_where false = pg_types-Wide
    by_where true =
        first_filled-Wide 24
          (types_of_oid query
            ∷ types_of_oids query
            ∷ types_of_name query
            ∷ types_of_names query
            ∷ [])
          (
            types_of_oid-Wide query,
            (types_of_oids-Wide query, (types_of_name-Wide query, (types_of_names-Wide query, tt))),
          )

pub enums_for-Wide : (g : Option (ℕ → Bytes)) → Wide 4 (enums_for g)
unfolding enums_for
enums_for-Wide none = pg_enums-Wide
enums_for-Wide (some groups) =
    keep-Wide 4 (second_number (λ n. n == leading_number (groups 1))) pg_enums pg_enums-Wide

pub pg_enum_rows-Wide : (query : Bytes) → Wide 4 (pg_enum_rows query)
unfolding pg_enum_rows
pg_enum_rows-Wide query = enums_for-Wide _

pub length-scan_texts : (n : ℕ) (row : List Value) → length (scan_texts n row) ≡ n
unfolding scan_texts
length-scan_texts zero row = refl
length-scan_texts (suc n) [] = ap suc (length-scan_texts n [])
length-scan_texts (suc n) (v ∷ row) =
    scanned (render v) (length-scan_texts n []) (length-scan_texts n row)
  where
    scanned :
        (t : Option Bytes)
        → length (scan_texts n []) ≡ n
        → length (scan_texts n row) ≡ n
        → length (elim t as (λ _. List Bytes) [
          | none ↦ [] ∷ scan_texts n []
          | some s ↦ s ∷ scan_texts n row
        ])
          ≡ suc n
    scanned none h k = ap suc h
    scanned (some s) h k = ap suc k

pub length-attribute_row :
    (oid : ℕ) (ts : List Bytes) → length ts ≡ 4 → length (attribute_row oid ts) ≡ 24
unfolding attribute_row
length-attribute_row oid [] h = absurd (omega arith)
length-attribute_row oid (a ∷ []) h = absurd (omega arith)
length-attribute_row oid (a ∷ b ∷ []) h = absurd (omega arith)
length-attribute_row oid (a ∷ b ∷ c ∷ []) h = absurd (omega arith)
length-attribute_row oid (a ∷ b ∷ c ∷ d ∷ ts) h = refl

pub length-index_row : (idx : IdxInfo) → length (index_row idx) ≡ 20
unfolding index_row
length-index_row idx = refl

pub length-class_row : (oid : ℕ) (t : Bytes) (n : ℕ) (k : Bool) → length (class_row oid t n k) ≡ 29
unfolding class_row
length-class_row oid t n k = refl
