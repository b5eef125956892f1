-- ===== src/Config.antt =====
-- internal/config/config.go: the configuration, its defaults and what the environment changes of it.
-- Times are in nanoseconds, as in Go.
use agentx_proxy.Prelude.{
  ℕ, ◌*◌, ◌^◌, Bool, true, [], Bytes, codes, if◌then◌else◌, Error, ok, err, panicked, Outcome,
}
use agentx_proxy.Prelude.Strings.{equal}

pub record ListenConfig : Type 0 where
  pub postgresql : Bytes
  pub clickhouse_native : Bytes
  pub clickhouse_http : Bytes

pub record MysqlConfig : Type 0 where
  pub host : Bytes
  pub port : ℕ
  pub user : Bytes
  pub password : Bytes
  pub database : Bytes
  pub max_open_conns : ℕ
  pub max_idle_conns : ℕ
  pub conn_max_lifetime : ℕ

pub record PgToMysqlConfig : Type 0 where
  pub enabled : Bool
  pub array_column_mode : Bytes
  pub fulltext_mode : Bytes

pub record ChToMysqlConfig : Type 0 where
  pub enabled : Bool
  pub agg_mode : Bytes
  pub write_buffer_size : ℕ
  pub write_flush_interval : ℕ

pub record ProxyConfig : Type 0 where
  pub pg_to_mysql : PgToMysqlConfig
  pub ch_to_mysql : ChToMysqlConfig

pub record LogConfig : Type 0 where
  pub level : Bytes
  pub format : Bytes

pub record Config : Type 0 where
  pub listen : ListenConfig
  pub mysql : MysqlConfig
  pub proxy : ProxyConfig
  pub log : LogConfig

-- `DefaultConfig`
unfoldable pub default_config : Config
default_config = record {
  listen = record {
    postgresql = codes "0.0.0.0:5432";
    clickhouse_native = codes "0.0.0.0:9000";
    clickhouse_http = codes "0.0.0.0:8123";
  };
  mysql = record {
    host = codes "127.0.0.1";
    port = 3306;
    user = codes "langfuse";
    password = [];
    database = codes "langfuse";
    max_open_conns = 100;
    max_idle_conns = 20;
    conn_max_lifetime = 600 * 10 ^ 9;
  };
  proxy = record {
    pg_to_mysql = record {
      enabled = true;
      array_column_mode = codes "json";
      fulltext_mode = codes "match_against";
    };
    ch_to_mysql = record {
      enabled = true;
      agg_mode = codes "realtime";
      write_buffer_size = 10000;
      write_flush_interval = 10 ^ 9;
    };
  };
  log = record { level = codes "info"; format = codes "json" };
}

-- `os.Getenv`; a variable that is not set is empty.
abbrev pub Environment : Type 0
Environment = Bytes → Bytes

-- The value of a variable, or the one before where it is not set.
unfoldable pub or_env : Environment → Bytes → Bytes → Bytes
unfolding equal
or_env env name was = if equal (env name) [] then was else env name

-- The variables that replace fields; MYSQL_PORT is only looked at.
unfoldable pub override : Environment → Config → Config
unfolding or_env equal
override env cfg = record cfg {
  mysql = record cfg.mysql {
    host = or_env env (codes "MYSQL_HOST") cfg.mysql.host;
    port = if equal (env (codes "MYSQL_PORT")) [] then cfg.mysql.port else 3306;
    user = or_env env (codes "MYSQL_USER") cfg.mysql.user;
    password = or_env env (codes "MYSQL_PASSWORD") cfg.mysql.password;
    database = or_env env (codes "MYSQL_DATABASE") cfg.mysql.database;
  };
  listen = record {
    postgresql = or_env env (codes "PG_LISTEN") cfg.listen.postgresql;
    clickhouse_native = or_env env (codes "CH_NATIVE_LISTEN") cfg.listen.clickhouse_native;
    clickhouse_http = or_env env (codes "CH_HTTP_LISTEN") cfg.listen.clickhouse_http;
  };
  log = record cfg.log { level = or_env env (codes "LOG_LEVEL") cfg.log.level };
}

-- Reading the file, and what YAML makes of its text over a configuration that has values already.
module _ (read_file : Bytes → Outcome Bytes) (is_not_exist : Error → Bool)
    (unmarshal : Bytes → Config → Outcome Config) (env : Environment) where
  unfoldable pub overridden : Outcome Config → Outcome Config
  unfolding override
  overridden (ok cfg) = ok (override env cfg)
  overridden (err e) = err e
  overridden panicked = panicked

  unfoldable pub loaded_from : Outcome Bytes → Outcome Config
  unfolding overridden default_config
  loaded_from (ok text) = overridden (unmarshal text default_config)
  loaded_from (err e) = if is_not_exist e then ok default_config else err e
  loaded_from panicked = panicked

  -- `LoadConfig`
  unfoldable pub load_config : Bytes → Outcome Config
  unfolding loaded_from
  load_config path = loaded_from (read_file path)
