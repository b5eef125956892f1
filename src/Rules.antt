-- ===== src/Rules.antt =====
-- internal/translation/rules.go: the rules of translation, which are read once.
mod Tests
use agentx_proxy.Prelude.{
  ◌≡◌, refl, Bool, true, false, Option, none, some, List, Bytes, if◌then◌else◌, Error, ok, err,
  panicked, Outcome,
}

-- `PGToMySQLConfig` and `CHToMySQLConfig`, each of which may be missing.
pub record PgToMysqlConfig : Type 0 where
  pub types : List (Bytes × Bytes)
  pub functions : List (Bytes × Bytes)
  pub operators : List (Bytes × Bytes)
  pub array_columns : Option Bytes

pub record ChToMysqlConfig : Type 0 where
  pub functions : List (Bytes × Bytes)
  pub aggregates : List (Bytes × Bytes)

pub record Config : Type 0 where
  pub pg_to_mysql : Option PgToMysqlConfig
  pub ch_to_mysql : Option ChToMysqlConfig

-- `loaded` and `loadedOnce`.
pub record Loaded : Type 0 where
  pub loaded : Option Config
  pub once : Bool

module _ (read_file : Bytes → Outcome Bytes) (unmarshal : Bytes → Outcome Config) where
  -- What the call inside `Do` leaves in `loaded` and `err`.
  unfoldable pub parse_rules : Outcome Bytes → Outcome (Option Config × Option Error)
  parse_rules (err e) = ok (none, some e)
  parse_rules panicked = panicked
  parse_rules (ok text) = elim (unmarshal text) as (λ _. Outcome (Option Config × Option Error)) [
    | ok cfg ↦ ok (some cfg, none)
    | err e ↦ ok (none, some e)
    | panicked ↦ panicked
  ]

  abbrev keep_config :
      Loaded
      → Outcome (Option Config × Option Error)
      → Outcome (Option Config × Option Error) × Loaded
  keep_config s (ok (none, e)) = (ok (s.loaded, e), record s { once = true })
  keep_config s (ok (some cfg, e)) = (ok (some cfg, e), record { loaded = some cfg; once = true })
  keep_config s (err e) = (err e, record s { once = true })
  keep_config s panicked = (panicked, record s { once = true })

  -- `Load`
  unfoldable pub load : Bytes → Loaded → Outcome (Option Config × Option Error) × Loaded
  unfolding parse_rules
  load path s =
      if s.once then (ok (s.loaded, none), s) else keep_config s (parse_rules (read_file path))

  -- `Default`
  unfoldable pub default_rules : Loaded → Option Config
  default_rules s = s.loaded

  -- `Reset`
  unfoldable pub reset : Loaded → Loaded
  reset s = record { loaded = none; once = false }

  kept_once :
      (s : Loaded) (r : Outcome (Option Config × Option Error)) → (keep_config s r).1.once ≡ true
  kept_once s (ok (none, e)) = refl
  kept_once s (ok (some cfg, e)) = refl
  kept_once s (err e) = refl
  kept_once s panicked = refl

  load_once : (path : Bytes) (s : Loaded) → (load path s).1.once ≡ true
  unfolding load
  load_once path s = spent s.once refl
    where
      spent :
          (b : Bool)
          → s.once ≡ b
          → (if b
              then (ok (s.loaded, none), s)
              else keep_config s (parse_rules (read_file path))).1.once
            ≡ true
      spent true e = e
      spent false e = kept_once s (parse_rules (read_file path))

  stays : (later : Bytes) (t : Loaded) → t.once ≡ true → load later t ≡ (ok (t.loaded, none), t)
  unfolding load
  stays later t e = rw e refl

  -- After a call of Load, whether or not it failed, every later call gives what Default gives and no
  -- error, whatever path it names, and changes nothing.
  pub load_again :
      (path later : Bytes) (s : Loaded)
      → load later (load path s).1 ≡ (ok (default_rules (load path s).1, none), (load path s).1)
  unfolding default_rules
  load_again path later s = stays later (load path s).1 (load_once path s)
