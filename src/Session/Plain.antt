-- ===== src/Session/Plain.antt =====
-- A statement that has nothing for the translator, on its way to MySQL.
use agentx_proxy.Prelude.{
  Bool, false, ◌≡◌, refl, none, Bytes, codes, length, take, leb, ◌&&◌, ◌||◌, ok,
}
use agentx_proxy.Prelude.Strings.{equal, equal_fold}
use agentx_proxy.Pgwire.Backend.{Conversions}
use agentx_proxy.Catalog.Dispatch.{is_catalog_query}
use agentx_proxy.Postgres.Untouched.{Untouched, translate-Untouched}
use agentx_proxy.Session.{Services, ConnState, ask, translate_query, normalize_query}
use agentx_proxy.Session.Simple.{classify, other, execute_other, execute_command, execute_query}
use agentx_proxy.Session.Queries.{execute_mysql_query}

-- Is the text answered with the version of the server?
unfoldable pub asks_version : Bytes → Bytes → Bool
asks_version q query =
    equal q (codes "select version()")
    || (leb 15 (length query) && equal_fold (take 14 query) (codes "select version"))

module _ (services : Services) (conv : Conversions) where
  open services use {Db, draw}

  -- The state behind a translation: the numbers are drawn.
  abbrev pub drawn : ConnState Db → ConnState Db
  drawn s = record s { db = (draw s.db).1 }

  pub translate_query-Untouched :
      (query : Bytes) (s : ConnState Db)
      → Untouched query
      → translate_query services query s ≡ (ok query, drawn s)
  unfolding translate_query ask
  translate_query-Untouched query s h =
      rw (translate-Untouched query h services.fulltext_mode (draw s.db).0) refl

  execute_other-Untouched :
      (q query : Bytes) (s : ConnState Db)
      → Untouched query
      → is_catalog_query query ≡ false
      → asks_version q query ≡ false
      → execute_other services conv q query s
        ≡ execute_mysql_query services conv query none (drawn s)
  unfolding execute_other asks_version
  execute_other-Untouched q query s h c v = rw (c, v, translate_query-Untouched query s h) refl

  -- A statement that has nothing for the translator, and that the simple protocol does not answer by itself,
  -- is run on MySQL as it was written, after the translator has drawn its numbers.
  pub execute_query-Untouched :
      (query : Bytes) (s : ConnState Db)
      → Untouched query
      → classify (normalize_query query) ≡ other
      → is_catalog_query query ≡ false
      → asks_version (normalize_query query) query ≡ false
      → execute_query services conv query s ≡ execute_mysql_query services conv query none (drawn s)
  unfolding execute_query execute_command
  execute_query-Untouched query s h o c v =
      rw (o) (execute_other-Untouched (normalize_query query) query s h c v)
