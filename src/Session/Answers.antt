-- ===== src/Session/Answers.antt =====
-- The operations that only run a query and send its answer.
use agentx_proxy.Prelude.{
  ℕ, Bool, Option, none, some, List, [], ◌∷◌, Bytes, length, Error, err, Action,
}
use agentx_proxy.Pgwire.Backend.{Conversions, FieldDescription, Value, send_row_description}
use agentx_proxy.Arrays.{Arg}
use agentx_proxy.Session.{Services, ConnState, Portal, Rows, is_write_query}
use agentx_proxy.Session.Queries.{
  send_rows, finish_result, send_result, execute_write, answer_query, execute_mysql_query,
  run_parameterized, execute_parameterized, answer_catalog, send_catalog, catalog_answer,
  execute_catalog_query, drop_error, answer_show, handle_show_command,
}
use agentx_proxy.Session.Frame.{
  Keeps, Keeps-return, Keeps-lift, Keeps-send, Keeps-ask, Keeps-bind, Keeps-attempt, Keeps-if,
}

module _ (services : Services) (conv : Conversions) where
  open services use {Db}

  send_rows-Keeps :
      (rs : List (List Value)) (formats oids : List ℕ)
      → Keeps (send_rows services conv rs formats oids)
  unfolding send_rows
  send_rows-Keeps [] formats oids = Keeps-return tt
  send_rows-Keeps (r ∷ rs) formats oids =
      Keeps-bind (Keeps-send _) (λ _. send_rows-Keeps rs formats oids)

  finish_result-Keeps :
      (n : ℕ) (failure : Option Error) → Keeps (finish_result services conv n failure)
  unfolding finish_result
  finish_result-Keeps n none = Keeps-send _
  finish_result-Keeps n (some e) = Keeps-lift (err e)

  send_result-Keeps :
      (skip : Bool) (columns : List FieldDescription) (formats oids : List ℕ)
      (rows : List (List Value)) (failure : Option Error)
      → Keeps (send_result services conv skip columns formats oids rows failure)
  unfolding send_result
  send_result-Keeps skip columns formats oids rows failure =
      Keeps-bind (Keeps-if skip (Keeps-return tt) (Keeps-send (send_row_description columns))) (λ _.
        Keeps-bind (send_rows-Keeps rows formats oids)
          (λ _. finish_result-Keeps (length rows) failure))

  execute_write-Keeps :
      (what query : Bytes) (args : List Arg) → Keeps (execute_write services conv what query args)
  unfolding execute_write
  execute_write-Keeps what query args =
      Keeps-attempt (Keeps-ask _) (λ e. Keeps-lift (err _)) (λ n. Keeps-send _)

  answer_query-Keeps : (r : Rows) (p : Option Portal) → Keeps (answer_query services conv r p)
  unfolding answer_query
  answer_query-Keeps r none = send_result-Keeps _ _ _ _ _ _
  answer_query-Keeps r (some p) = send_result-Keeps _ _ _ _ _ _

  pub execute_mysql_query-Keeps :
      (query : Bytes) (p : Option Portal) → Keeps (execute_mysql_query services conv query p)
  unfolding execute_mysql_query
  execute_mysql_query-Keeps query p =
      Keeps-if (is_write_query query) (execute_write-Keeps _ query [])
        (Keeps-attempt (Keeps-ask _) (λ e. Keeps-lift (err _)) (λ r. answer_query-Keeps r p))

  run_parameterized-Keeps :
      (query : Bytes) (p : Portal) (args : List Arg)
      → Keeps (run_parameterized services conv query p args)
  unfolding run_parameterized
  run_parameterized-Keeps query p args =
      Keeps-if (is_write_query query) (execute_write-Keeps _ query args) (
        Keeps-attempt (Keeps-ask _) (λ e. execute_write-Keeps _ query args)
          (λ r. send_result-Keeps _ _ _ _ _ _))

  pub execute_parameterized-Keeps :
      (query : Bytes) (p : Portal) (oids : List ℕ)
      → Keeps (execute_parameterized services conv query p oids)
  unfolding execute_parameterized
  execute_parameterized-Keeps query p oids =
      Keeps-bind (Keeps-lift _) (λ args. run_parameterized-Keeps query p args)

  answer_catalog-Keeps :
      (d : Bool) (all : List Bytes) (rows : List (List Value)) (o : Option (List Bytes))
      → Keeps (answer_catalog services conv d all rows o)
  unfolding answer_catalog
  answer_catalog-Keeps d all rows none = send_result-Keeps _ _ _ _ _ _
  answer_catalog-Keeps d all rows (some cs) = send_result-Keeps _ _ _ _ _ _

  catalog_answer-Keeps :
      (query : Bytes) (d : Bool) (o : Option (List Bytes × List (List Value)))
      → Keeps (catalog_answer services conv query d o)
  unfolding catalog_answer send_catalog
  catalog_answer-Keeps query d none = execute_mysql_query-Keeps query none
  catalog_answer-Keeps query d (some (all, rows)) = answer_catalog-Keeps d all rows _

  pub execute_catalog_query-Keeps :
      (query : Bytes) (d : Bool) → Keeps (execute_catalog_query services conv query d)
  unfolding execute_catalog_query
  execute_catalog_query-Keeps query d =
      Keeps-bind (Keeps-ask _) (λ o. catalog_answer-Keeps query d o)

  pub drop_error-Keeps :
      {m : Action (ConnState Db) (Unit {0})} → Keeps m → Keeps (drop_error services conv m)
  drop_error-Keeps h = Keeps-attempt h (λ _. Keeps-return tt) (λ u. Keeps-return u)

  answer_show-Keeps :
      (query q : Bytes) (o : Option Bytes) → Keeps (answer_show services conv query q o)
  unfolding answer_show
  answer_show-Keeps query q none = execute_mysql_query-Keeps query none
  answer_show-Keeps query q (some r) =
      Keeps-bind
        (Keeps-bind (drop_error-Keeps (Keeps-send _)) (λ _. drop_error-Keeps (Keeps-send _)))
        (λ _. Keeps-send _)

  pub handle_show_command-Keeps : (query : Bytes) → Keeps (handle_show_command services conv query)
  unfolding handle_show_command
  handle_show_command-Keeps query = answer_show-Keeps query _ _
