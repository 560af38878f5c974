-- ===== src/Settings.antt =====
-- seata-server/src/settings.rs: the settings with their defaults, and how they are loaded.
pub mod Override
use seata.Base.{ℕ, Option, none, List, [], Text, bytes, some, Result, ok, err, ◌^◌, parse_unsigned}

-- `Store`, tagged by its driver
pub record RedisStore : Type 0 where
  pub host : Text
  pub user : Text
  pub password : Text
  pub port : ℕ
  pub data_expire : Option ℕ
  pub finished_data_expire : Option ℕ
  pub redis_prefix : Option Text

pub record MysqlStore : Type 0 where
  pub host : Text
  pub user : Text
  pub password : Text
  pub port : ℕ
  pub db : Text
  pub max_open_conns : Option ℕ
  pub max_idle_conns : Option ℕ
  pub conn_max_life_time_minutes : Option ℕ

pub record PostgresStore : Type 0 where
  pub host : Text
  pub user : Text
  pub password : Text
  pub port : ℕ
  pub db : Text
  pub schema : Option Text
  pub max_open_conns : Option ℕ
  pub max_idle_conns : Option ℕ
  pub conn_max_life_time_minutes : Option ℕ

pub data Store : Type 0 where
  boltdb : Store
  redis : RedisStore → Store
  mysql : MysqlStore → Store
  postgres : PostgresStore → Store

pub record Registry : Type 0 where
  pub driver : Text
  pub endpoints : List Text
  pub namespace : Option Text
  pub instance_id : Option Text

pub record Settings : Type 0 where
  pub http_port : ℕ
  pub grpc_port : ℕ
  pub jsonrpc_port : ℕ
  pub log_level : Text
  pub admin_base_path : Text
  pub request_timeout_secs : ℕ
  pub retry_interval_secs : ℕ
  pub timeout_to_fail_secs : ℕ
  pub branch_parallelism : ℕ
  pub max_open_conns : Option ℕ
  pub max_idle_conns : Option ℕ
  pub conn_max_life_time_minutes : Option ℕ
  pub store : Store
  pub registry : Option Registry

-- `Store::default` and `Settings::default`
abbrev pub default_store : Store
default_store = boltdb

abbrev pub default_settings : Settings
default_settings = record {
  http_port = 36789;
  grpc_port = 36790;
  jsonrpc_port = 36791;
  log_level = bytes "info";
  admin_base_path = [];
  request_timeout_secs = 3;
  retry_interval_secs = 10;
  timeout_to_fail_secs = 35;
  branch_parallelism = 8;
  max_open_conns = none;
  max_idle_conns = none;
  conn_max_life_time_minutes = none;
  store = default_store;
  registry = none;
}

-- `load`. `configured` is what the `config` crate reads from the configuration files and the
-- environment, and `var k` is `std::env::var(k).ok()`.
unfoldable pub load : Result Settings → (Text → Option Text) → Result Settings
load (err e) var = err e
load (ok s) var = elim (var (bytes "SEATA_HTTP_PORT")) [
  | none ↦ ok s
  | some v ↦ elim (parse_unsigned (2 ^ 16) v) [
    | none ↦ ok s
    | some port ↦ ok (record s { http_port = port })
  ]
]

-- `settings::load().unwrap_or_default()`, as `main` calls it
unfoldable pub loaded_settings : Result Settings → (Text → Option Text) → Settings
loaded_settings configured var = elim (load configured var) [ ok s ↦ s | err e ↦ default_settings ]
