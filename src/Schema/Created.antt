-- ===== src/Schema/Created.antt =====
-- After a start that succeeds the tables are there.
use agentx_proxy.Prelude.{
  All-append, ◌≡◌, refl, ◌≢◌, Bool, true, false, Bool-cases, inl, inr, List, [], ◌∷◌, ◌++◌, Bytes,
  codes, All, if◌then◌else◌, Error, ok, err, panicked, Outcome, Action, ◌>>◌, and_then, return,
  cases_of,
}
use agentx_proxy.Prelude.Strings.{to_upper, has_prefix, trim_space, contains, equal}
use agentx_proxy.Session.{error_text}
use agentx_proxy.Schema.{
  extract_table_name, forgive, run_ddl, exec_named, exec_ddl, exec_all, ensure_schema,
}

abbrev pub Creating : Bytes → Type 0
Creating ddl = has_prefix (to_upper ddl) (codes "CREATE") ≡ true

-- What the code relies on of MySQL, where `Names ddl t` says that the statement creates the table `t`: a
-- table that is said to exist does; a statement that succeeds, or fails since something exists already,
-- leaves its table there; and neither the question nor a CREATE statement takes a table away. Of other
-- statements, such as DROP TABLE, nothing is said.
pub record Tables {Db : Type 0} (table_exists : Bytes → Action Db Bool)
    (exec : Bytes → Action Db (Unit {0})) (Has : Db → Bytes → Type 0)
    (Names : Bytes → Bytes → Type 0) : Type 0 where
  pub said : (t : Bytes) (d d' : Db) → table_exists t d ≡ (ok true, d') → Has d' t
  pub created : (ddl t : Bytes) (d d' : Db) → exec ddl d ≡ (ok tt, d') → Names ddl t → Has d' t
  pub already :
      (ddl t : Bytes) (d d' : Db) (e : Error)
      → exec ddl d ≡ (err e, d')
      → contains (error_text e) (codes "already exists") ≡ true
      → Names ddl t
      → Has d' t
  pub asked_keeps : (t u : Bytes) (d : Db) → Has d u → Has (table_exists t d).1 u
  pub exec_keeps : (ddl u : Bytes) (d : Db) → Creating ddl → Has d u → Has (exec ddl d).1 u

module _ {Db : Type 0} (table_exists : Bytes → Action Db Bool) (exec : Bytes → Action Db (Unit {0}))
    (Has : Db → Bytes → Type 0) (Names : Bytes → Bytes → Type 0)
    (tables : Tables table_exists exec Has Names) where
  abbrev Keeps : Action Db (Unit {0}) → Type 0
  Keeps m = (d : Db) (u : Bytes) → Has d u → Has (m d).1 u

  -- If the call succeeds, the table is there.
  abbrev Makes : Bytes → Action Db (Unit {0}) → Type 0
  Makes t m = (d : Db) → (m d).0 ≡ ok tt → Has (m d).1 t

  cases-Keeps :
      {A : Type 0} (u : Bytes) (p : Outcome A × Db) (g : Error → Action Db (Unit {0}))
      (f : A → Action Db (Unit {0}))
      → Has p.1 u
      → ((e : Error) → Keeps (g e))
      → ((a : A) → Keeps (f a))
      → Has (cases_of p g f).1 u
  cases-Keeps u (ok a, d) g f h hg hf = hf a d u h
  cases-Keeps u (err e, d) g f h hg hf = hg e d u h
  cases-Keeps u (panicked, d) g f h hg hf = h

  if-Keeps :
      (b : Bool) (m k : Action Db (Unit {0})) → Keeps m → Keeps k → Keeps (if b then m else k)
  if-Keeps true m k hm hk = hm
  if-Keeps false m k hm hk = hk

  forgive-Keeps : (e : Error) → Keeps (forgive table_exists exec e)
  unfolding forgive
  forgive-Keeps e d u h = elim (Bool-cases (contains (error_text e) (codes "already exists"))) [
    | inl y ↦ rw y h
    | inr n ↦ rw n h
  ]

  run_ddl-Keeps : (ddl : Bytes) → Creating ddl → Keeps (run_ddl table_exists exec ddl)
  unfolding run_ddl
  run_ddl-Keeps ddl c d u h =
      cases-Keeps u (exec ddl d) _ _ (tables.exec_keeps ddl u d c h) forgive-Keeps (λ _ d u h. h)

  exec_named-Keeps : (t ddl : Bytes) → Creating ddl → Keeps (exec_named table_exists exec t ddl)
  unfolding exec_named
  exec_named-Keeps t ddl c = if-Keeps (equal t []) _ _ (run_ddl-Keeps ddl c) (λ d u h.
      cases-Keeps u (table_exists t d) _ _ (tables.asked_keeps t u d h) (λ e. run_ddl-Keeps ddl c)
        (λ b.
          if-Keeps b (return tt) (run_ddl table_exists exec ddl) (λ d u h. h)
            (run_ddl-Keeps ddl c)))

  -- A statement of the lists, which is run without the blanks around it.
  abbrev pub CreatingTrimmed : Bytes → Type 0
  CreatingTrimmed ddl = Creating (trim_space ddl)

  exec_ddl-Keeps : (ddl : Bytes) → CreatingTrimmed ddl → Keeps (exec_ddl table_exists exec ddl)
  unfolding exec_ddl
  exec_ddl-Keeps text c =
      if-Keeps _ (return tt) _ (λ d u h. h)
        (exec_named-Keeps (extract_table_name (trim_space text)) (trim_space text) c)

  exec_all-Keeps :
      (kind : Bytes) (ddls : List Bytes)
      → All CreatingTrimmed ddls
      → Keeps (exec_all table_exists exec kind ddls)
  unfolding exec_all
  exec_all-Keeps kind [] cs d u h = h
  exec_all-Keeps kind (ddl ∷ ddls) cs d u h =
      cases-Keeps u (exec_ddl table_exists exec ddl d) _ _ (exec_ddl-Keeps ddl cs.0 d u h)
        (λ e d u h. h) (λ _. exec_all-Keeps kind ddls cs.1)

  forgive_made :
      (ddl : Bytes) (d d' : Db) (x : Error)
      → exec ddl d ≡ (err x, d')
      → Names ddl (extract_table_name ddl)
      → (forgive table_exists exec x d').0 ≡ ok tt
      → Has (forgive table_exists exec x d').1 (extract_table_name ddl)
  unfolding forgive
  forgive_made ddl d d' x e n r =
      elim (Bool-cases (contains (error_text x) (codes "already exists"))) [
        | inl y ↦ rw y (tables.already ddl (extract_table_name ddl) d d' x e y n)
        | inr f ↦ absurd cc
      ]

  run_made :
      (ddl : Bytes) (d : Db) (p : Outcome (Unit {0}) × Db)
      → exec ddl d ≡ p
      → Names ddl (extract_table_name ddl)
      → (cases_of p (forgive table_exists exec) return).0 ≡ ok tt
      → Has (cases_of p (forgive table_exists exec) return).1 (extract_table_name ddl)
  run_made ddl d (ok u, d') e n r = tables.created ddl (extract_table_name ddl) d d' e n
  run_made ddl d (err x, d') e n r = forgive_made ddl d d' x e n r
  run_made ddl d (panicked, d') e n r = absurd cc

  asked_made :
      (t : Bytes) (m : Action Db (Unit {0})) (d : Db) (p : Outcome Bool × Db)
      → table_exists t d ≡ p
      → Makes t m
      → (cases_of p (λ e. m) (λ b. if b then return tt else m)).0 ≡ ok tt
      → Has (cases_of p (λ e. m) (λ b. if b then return tt else m)).1 t
  asked_made t m d (ok true, d') e h r = tables.said t d d' e
  asked_made t m d (ok false, d') e h r = h d' r
  asked_made t m d (err x, d') e h r = h d' r
  asked_made t m d (panicked, d') e h r = absurd cc

  -- The name that is found in a statement.
  abbrev pub name_of : Bytes → Bytes
  name_of ddl = extract_table_name (trim_space ddl)

  exec_ddl-Makes :
      (ddl : Bytes)
      → equal (trim_space ddl) [] ≡ false
      → equal (name_of ddl) [] ≡ false
      → Names (trim_space ddl) (name_of ddl)
      → Makes (name_of ddl) (exec_ddl table_exists exec ddl)
  unfolding exec_ddl exec_named run_ddl
  exec_ddl-Makes ddl w n c d =
      rw (w, n)
        (asked_made (name_of ddl) (run_ddl table_exists exec (trim_space ddl)) d
          (table_exists (name_of ddl) d) refl
          (λ d' r. run_made (trim_space ddl) d' (exec (trim_space ddl) d') refl c r))

  -- The table that a statement creates is there, if its name is the one that is found in it.
  abbrev pub There : Db → Bytes → Type 0
  There d ddl =
      equal (trim_space ddl) [] ≡ false
      → equal (name_of ddl) [] ≡ false
      → Names (trim_space ddl) (name_of ddl)
      → Has d (name_of ddl)

  All-next :
      (kind ddl : Bytes) (ddls : List Bytes) (p : Outcome (Unit {0}) × Db)
      (g : Error → Action Db (Unit {0}))
      → All CreatingTrimmed ddls
      → ((e : Error) (d : Db) → (g e d).0 ≢ ok tt)
      → (p.0 ≡ ok tt → There p.1 ddl)
      → ((d : Db)
          → (exec_all table_exists exec kind ddls d).0 ≡ ok tt
          → All (There (exec_all table_exists exec kind ddls d).1) ddls)
      → (cases_of p g (λ _. exec_all table_exists exec kind ddls)).0 ≡ ok tt
      → All (There (cases_of p g (λ _. exec_all table_exists exec kind ddls)).1) (ddl ∷ ddls)
  All-next kind ddl ddls (ok tt, d) g cs f h ih r =
      ((λ w n c. exec_all-Keeps kind ddls cs d (name_of ddl) (h refl w n c)), ih d r)
  All-next kind ddl ddls (err e, d) g cs f h ih r = absurd (f e d r)
  All-next kind ddl ddls (panicked, d) g cs f h ih r = absurd cc

  exec_all-There :
      (kind : Bytes) (ddls : List Bytes) (d : Db)
      → All CreatingTrimmed ddls
      → (exec_all table_exists exec kind ddls d).0 ≡ ok tt
      → All (There (exec_all table_exists exec kind ddls d).1) ddls
  unfolding exec_all
  exec_all-There kind [] d cs r = tt
  exec_all-There kind (ddl ∷ ddls) d cs r =
      All-next kind ddl ddls (exec_ddl table_exists exec ddl d) _ cs.1 (λ e d q. absurd cc)
        (λ q w n c. exec_ddl-Makes ddl w n c d q) (λ e. exec_all-There kind ddls e cs.1) r

  There-kept :
      (m : Action Db (Unit {0})) (d : Db) (ddls : List Bytes)
      → Keeps m
      → All (There d) ddls
      → All (There (m d).1) ddls
  There-kept m d [] h a = tt
  There-kept m d (ddl ∷ ddls) h a =
      ((λ w n c. h d (name_of ddl) (a.0 w n c)), There-kept m d ddls h a.1)

  then-There :
      (p : Outcome (Unit {0}) × Db) (k : Action Db (Unit {0})) (xs ys : List Bytes)
      → (p.0 ≡ ok tt → All (There p.1) xs)
      → Keeps k
      → ((d : Db) → (k d).0 ≡ ok tt → All (There (k d).1) ys)
      → (and_then p (λ _. k)).0 ≡ ok tt
      → All (There (and_then p (λ _. k)).1) (xs ++ ys)
  then-There (ok tt, d) k xs ys h keeps g r =
      All-append (There (k d).1) xs ys (There-kept k d xs keeps (h refl)) (g d r)
  then-There (err e, d) k xs ys h keeps g r = absurd cc
  then-There (panicked, d) k xs ys h keeps g r = absurd cc

  -- Where the database keeps to its laws, all statements are CREATE statements, and EnsureSchema reports no
  -- error, every statement of the three lists in which the name of the table that it creates is found has
  -- this table in the database.
  pub ensure_schema-There :
      (oltp olap catalog : List Bytes) (d : Db)
      → All CreatingTrimmed oltp
      → All CreatingTrimmed olap
      → All CreatingTrimmed catalog
      → (ensure_schema table_exists exec oltp olap catalog d).0 ≡ ok tt
      → All
          (There (ensure_schema table_exists exec oltp olap catalog d).1)
          ((oltp ++ olap) ++ catalog)
  unfolding ensure_schema
  ensure_schema-There oltp olap catalog d in_oltp in_olap in_catalog =
      then-There
        ((exec_all table_exists exec (codes "OLTP") oltp
            >> exec_all table_exists exec (codes "OLAP") olap)
          d)
        (exec_all table_exists exec (codes "pg_catalog") catalog) (oltp ++ olap) catalog
        (then-There (exec_all table_exists exec (codes "OLTP") oltp d)
          (exec_all table_exists exec (codes "OLAP") olap) oltp olap
          (exec_all-There (codes "OLTP") oltp d in_oltp)
          (exec_all-Keeps (codes "OLAP") olap in_olap)
          (λ e. exec_all-There (codes "OLAP") olap e in_olap))
        (exec_all-Keeps (codes "pg_catalog") catalog in_catalog)
        (λ e. exec_all-There (codes "pg_catalog") catalog e in_catalog)
