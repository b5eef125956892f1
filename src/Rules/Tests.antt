-- ===== src/Rules/Tests.antt =====
-- A rules file that cannot be read, and the theorem on it.
use agentx_proxy.Prelude.{◌≡◌, false, none, Bytes, codes, eof, ok, err, Outcome}
use agentx_proxy.Rules.{Config, Loaded, load, default_rules, load_again}

abbrev nothing_loaded : Loaded
nothing_loaded = record { loaded = none; once = false }

abbrev missing : Bytes → Outcome Bytes
missing path = err eof

abbrev empty_rules : Bytes → Outcome Config
empty_rules text = ok (record { pg_to_mysql = none; ch_to_mysql = none })

load_again_example :
    load missing empty_rules (codes "b") (load missing empty_rules (codes "a") nothing_loaded).1 ≡ (
      ok (
        default_rules missing empty_rules (load missing empty_rules (codes "a") nothing_loaded).1,
        none,
      ),
      (load missing empty_rules (codes "a") nothing_loaded).1,
    )
load_again_example = load_again missing empty_rules (codes "a") (codes "b") nothing_loaded
