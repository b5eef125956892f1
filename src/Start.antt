-- ===== src/Start.antt =====
-- cmd/agentx-proxy/main.go: the start of the proxy and its end.
pub mod Order
mod Tests
use agentx_proxy.Prelude.{
  ℕ, Bool, true, false, Option, none, some, List, [], ◌∷◌, Bytes, codes, if◌then◌else◌, Outcome, ok,
  err, panicked, Action, return, ◌>>=◌, ◌>>◌, handling,
}
use agentx_proxy.Config.{Config, MysqlConfig}
use agentx_proxy.Prelude.Strings.{equal}

pub data Server : Type 0 where
  postgresql clickhouse_native clickhouse_http : Server

pub data Level : Type 0 where
  info debug warn error_level : Level

-- What main calls, on a world. `new_server` is NewServer, NewNativeServer or NewHTTPServer; `serve` starts
-- the goroutine of the server's Start; `wait_signal` returns at a signal.
pub record Machine : Type 1 where
  pub World : Type 0
  pub read_config : Bytes → Action World Config
  pub set_logger : Level → Bool → Action World (Unit {0})
  pub new_pool : MysqlConfig → Action World (Unit {0})
  pub create_schema : Config → Action World (Unit {0})
  pub new_server : Server → Config → Action World (Unit {0})
  pub serve : Server → Action World (Unit {0})
  pub wait_signal : Action World (Unit {0})
  pub cancel : Action World (Unit {0})
  pub close_server : Server → Action World (Unit {0})
  pub close_pool : Action World (Unit {0})

-- The level of the log, and whether it is written as JSON.
unfoldable pub log_level : Bytes → Level
unfolding equal
log_level level =
    if equal level (codes "debug")
    then debug
    else if equal level (codes "warn")
    then warn
    else if equal level (codes "error")
    then error_level
    else info

unfoldable pub config_path : Option Bytes → Bytes
config_path none = codes "config.yaml"
config_path (some []) = codes "config.yaml"
config_path (some (c ∷ s)) = c ∷ s

module _ (machine : Machine) where
  open machine use {
    World, read_config, set_logger, new_pool, create_schema, new_server, serve, wait_signal, cancel,
    close_server, close_pool,
  }

  -- `setupLogger`
  unfoldable pub setup_logger : Config → Action World (Unit {0})
  unfolding log_level equal
  setup_logger cfg = set_logger (log_level cfg.log.level) (equal cfg.log.format (codes "json"))

  -- An error ends the process with exit code 1, without the deferred calls.
  abbrev pub or_exit : {A : Type 0} → Action World A → (A → Action World ℕ) → Action World ℕ
  or_exit m next = handling m (λ e. return 1) next

  -- A server that is made and started; an enabled server that cannot be made ends the process.
  unfoldable pub started_if : Bool → Server → Config → Action World ℕ → Action World ℕ
  started_if false server cfg next = next
  started_if true server cfg next = or_exit (new_server server cfg) (λ _. serve server >> next)

  -- The errors of Close are not looked at.
  unfoldable pub close_if : Bool → Server → Action World (Unit {0})
  close_if true server = handling (close_server server) (λ e. return tt) return
  close_if false server = return tt

  -- Up to the signal, and from there on.
  unfoldable pub until_signal : Config → Action World ℕ
  unfolding close_if
  until_signal cfg = do
    wait_signal
    cancel
    close_if cfg.proxy.pg_to_mysql.enabled postgresql
    close_if cfg.proxy.ch_to_mysql.enabled clickhouse_native
    close_if cfg.proxy.ch_to_mysql.enabled clickhouse_http
    handling close_pool (λ e. return tt) return
    cancel
    return 0

  -- `main`; `variable` is what the environment has for CONFIG_PATH. The exit code is 0 where it returns.
  unfoldable pub main : Option Bytes → Action World ℕ
  unfolding config_path setup_logger started_if until_signal
  main variable = or_exit (read_config (config_path variable)) (λ cfg.
      setup_logger cfg
      >> or_exit (new_pool cfg.mysql) (λ _. or_exit (create_schema cfg) (λ _.
        started_if cfg.proxy.pg_to_mysql.enabled postgresql cfg (
          started_if cfg.proxy.ch_to_mysql.enabled clickhouse_native cfg
            (started_if cfg.proxy.ch_to_mysql.enabled clickhouse_http cfg (until_signal cfg))))))
