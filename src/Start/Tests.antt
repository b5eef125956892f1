-- ===== src/Start/Tests.antt =====
-- Runs of main and of the loop of Start.
use agentx_proxy.Prelude.{refl, ◌≡◌, List, Bytes, true, false, none, some, [], ◌∷◌, ◌≡◌, codes}
use agentx_proxy.Config.{default_config}
use agentx_proxy.Servers.{quiet, Round, start}
use agentx_proxy.Start.{main}
use agentx_proxy.Start.Order.{Faults, writing, with_servers, in_full, Ordered, main-Ordered}

-- Neither the servers nor the pool can be closed.
abbrev none_closed : Faults
none_closed = record {
  config = false;
  pool = false;
  schema = false;
  made_postgresql = false;
  made_native = false;
  made_http = false;
  closed = λ s. true;
  closed_pool = true;
}

main-Ordered_example :
    Ordered
      (in_full true true)
      (main (writing (with_servers true true default_config) none_closed) none [])
main-Ordered_example = main-Ordered none true true default_config none_closed

abbrev rounds : List (Round Bytes)
rounds =
    record { done = false; accepted = some (codes "a"); done_after = false }
    ∷ record { done = false; accepted = none; done_after = false }
    ∷ record { done = false; accepted = some (codes "b"); done_after = false }
    ∷ record { done = false; accepted = none; done_after = true }
    ∷ []

-- A failure between two connections takes no number.
numbered_rounds : start 4 rounds ≡ ((5, codes "a") ∷ (6, codes "b") ∷ [], some quiet)
unfolding start
numbered_rounds = refl
