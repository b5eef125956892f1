-- ===== src/Schema/Tests.antt =====
-- A database that knows its tables, and the theorem on it.
use agentx_proxy.Prelude.{
  ◌≡◌, refl, if◌then◌else◌, Error, failed, err, Outcome, Bool-cases, inl, inr, Bool, true, false,
  ◌||◌, List, [], ◌∷◌, Bytes, codes, All, arith, ok, Action,
}
use agentx_proxy.Prelude.Strings.{equal, equal_fold, fields, has_prefix, to_upper, trim_space}
use agentx_proxy.Prelude.Maps.{equal_refl}
use std.Path.{subst}
use agentx_proxy.Schema.{extract_table_name, ensure_schema}
use agentx_proxy.Schema.Created.{Tables, There, ensure_schema-There}

name_of_new :
    extract_table_name (codes "create table IF NOT EXISTS `users` (id int)") ≡ codes "users"
unfolding extract_table_name
name_of_new = refl

-- Without blanks before the parenthesis the columns are taken into the name.
name_with_columns : extract_table_name (codes "CREATE TABLE users(id int)") ≡ codes "users(id"
unfolding extract_table_name
name_with_columns = refl

abbrev known : List Bytes → Bytes → Bool
known [] t = false
known (u ∷ us) t = equal u t || known us t

abbrev asks : Bytes → Action (List Bytes) Bool
asks t d = (ok (known d t), d)

abbrev without : Bytes → List Bytes → List Bytes
without t [] = []
without t (u ∷ us) = if equal u t then without t us else u ∷ without t us

-- What DROP TABLE leaves; other statements leave all tables.
abbrev dropped : List Bytes → List Bytes → List Bytes
dropped (verb ∷ noun ∷ t ∷ words) d = if equal_fold verb (codes "DROP") then without t d else d
dropped words d = d

abbrev exists_error : Error
exists_error = failed (codes "Table already exists")

-- A statement on the tables, by whether it starts with CREATE TABLE, and with CREATE.
abbrev runs_as : Bool → Bool → Bytes → Action (List Bytes) (Unit {0})
runs_as true create ddl d =
    if known d (extract_table_name ddl)
    then (err exists_error, d)
    else (ok tt, extract_table_name ddl ∷ d)
runs_as false true ddl d = (ok tt, d)
runs_as false false ddl d = (ok tt, dropped (fields ddl) d)

abbrev starts : Bytes → Bytes → Bool
starts ddl word = has_prefix (to_upper ddl) word

abbrev runs : Bytes → Action (List Bytes) (Unit {0})
runs ddl = runs_as (starts ddl (codes "CREATE TABLE")) (starts ddl (codes "CREATE")) ddl

abbrev Has : List Bytes → Bytes → Type 0
Has d t = known d t ≡ true

-- The statement creates the table whose name is found in it.
abbrev Names : Bytes → Bytes → Type 0
Names ddl t = (starts ddl (codes "CREATE TABLE") ≡ true) × (extract_table_name ddl ≡ t)

known_head : (t : Bytes) (d : List Bytes) → known (t ∷ d) t ≡ true
known_head t d = rw (equal_refl t)

-- Where a CREATE TABLE is run, whether or not the table was there before.
table_there :
    (table create : Bool) (ddl : Bytes) (d : List Bytes)
    → table ≡ true
    → known (runs_as table create ddl d).1 (extract_table_name ddl) ≡ true
table_there false create ddl d h = cc
table_there true create ddl d h = elim (Bool-cases (known d (extract_table_name ddl))) [
  | inl y ↦ rw y y
  | inr n ↦ rw n (known_head (extract_table_name ddl) d)
]

named_there :
    (ddl t : Bytes) (d d' : List Bytes) (o : Outcome (Unit {0}))
    → runs ddl d ≡ (o, d')
    → Names ddl t
    → Has d' t
named_there ddl t d d' o e n =
    subst (λ u. known d' u ≡ true) n.1
      (subst (λ p. known p.1 (extract_table_name ddl) ≡ true) e
        (table_there (starts ddl (codes "CREATE TABLE")) (starts ddl (codes "CREATE")) ddl d n.0))

create_keeps :
    (table : Bool) (ddl u : Bytes) (d : List Bytes)
    → known d u ≡ true
    → known (runs_as table true ddl d).1 u ≡ true
create_keeps true ddl u d h = elim (Bool-cases (known d (extract_table_name ddl))) [
  | inl y ↦ rw y h
  | inr n ↦ rw n (ground (arith, h))
]
create_keeps false ddl u d h = h

recorded : Tables asks runs Has Names
recorded = record {
  said = λ t d d' e. cc;
  created = λ ddl t d d' e n. named_there ddl t d d' (ok tt) e n;
  already = λ ddl t d d' x e y n. named_there ddl t d d' (err x) e n;
  asked_keeps = λ t u d h. h;
  exec_keeps = λ ddl u d c h. rw c (create_keeps (starts ddl (codes "CREATE TABLE")) ddl u d h);
}

-- A table is there already, and another one is dropped by hand.
dropped_table : (runs (codes "DROP TABLE a") (codes "a" ∷ codes "b" ∷ [])).1 ≡ codes "b" ∷ []
unfolding has_prefix to_upper fields equal_fold equal
dropped_table = refl

abbrev two_lists : Action (List Bytes) (Unit {0})
two_lists =
    ensure_schema asks runs (codes "CREATE TABLE a (x int)" ∷ [])
      (codes " create or replace view v as select 1" ∷ codes "CREATE TABLE b (y int)" ∷ []) []

first_run : (two_lists (codes "b" ∷ [])).0 ≡ ok tt
unfolding ensure_schema
first_run = refl

ensure_schema-There_example :
    All (There asks runs Has Names recorded (two_lists (codes "b" ∷ [])).1) (
      codes "CREATE TABLE a (x int)"
      ∷ codes " create or replace view v as select 1"
      ∷ codes "CREATE TABLE b (y int)"
      ∷ [])
unfolding trim_space to_upper has_prefix
ensure_schema-There_example =
    ensure_schema-There asks runs Has Names recorded (codes "CREATE TABLE a (x int)" ∷ [])
      (codes " create or replace view v as select 1" ∷ codes "CREATE TABLE b (y int)" ∷ []) []
      (codes "b" ∷ []) (refl, tt) (refl, (refl, tt)) tt first_run
