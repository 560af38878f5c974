-- ===== src/Launch/Constructors.antt =====
-- The constructors of the stores (`RedisKv::new`, `SledKv::open` and `SeaKv::…_with_pool` of
-- seata-server/src/storage), over the drivers that they call.
use seata.Base.{
  ℕ, ◌≡◌, refl, Option, none, some, Text, bytes, Io, pure, ◌>>=◌, ◌>>◌, unwrap_or, Bool-cases,
  text_eq, [], ap, ◌∙◌, inl, inr,
}
use seata.Settings.{Settings, Store, boltdb, redis, mysql}
use seata.Settings
use seata.Launch.Choice.{without_options, store_options_ignored}
use seata.Launch.{
  cfg_repo, env_repo, Backend, redis_url, mysql_dsn, postgres_dsn, sled_path, Pool, repo_backend,
}

-- `ConnectOptions` of sea-orm, as far as it is set; times in seconds.
pub record ConnectOptions : Type 0 where
  pub url : Text
  pub max_connections : ℕ
  pub min_connections : ℕ
  pub connect_timeout : ℕ
  pub idle_timeout : ℕ

pub data DbBackend : Type 0 where
  my_sql : DbBackend
  postgres : DbBackend

-- What the constructors call, in the state `O` of the outside; `H` are the handles.
pub record Drivers (O H : Type 0) : Type 0 where
  pub redis_open : Text → Io O H
  pub sled_open : Text → Io O H
  pub database_connect : ConnectOptions → Io O H
  pub execute : DbBackend → Text → H → Io O (Unit {0})

abbrev pub options_of : Text → Pool → ConnectOptions
options_of dsn pool = record {
  url = dsn;
  max_connections = unwrap_or 50 pool.max_open;
  min_connections = unwrap_or 5 pool.max_idle;
  connect_timeout = 5;
  idle_timeout = 30;
}

module _ {O H : Type 0} (drivers : Drivers O H) where
  unfoldable pub mysql_with_pool : Text → Pool → Io O H
  mysql_with_pool dsn pool = do
    db ← drivers.database_connect (options_of dsn pool)
    drivers.execute my_sql
        (bytes "CREATE TABLE IF NOT EXISTS kv (k VARBINARY(255) PRIMARY KEY, v LONGBLOB)") db
    pure db

  unfoldable pub postgres_with_pool : Text → Pool → Io O H
  postgres_with_pool dsn pool = do
    db ← drivers.database_connect (options_of dsn pool)
    drivers.execute postgres (bytes "CREATE TABLE IF NOT EXISTS kv (k bytea PRIMARY KEY, v bytea)")
        db
    pure db

  -- `RedisKv::new` and `SledKv::open`
  unfoldable pub redis_new : Text → Io O H
  redis_new url = do client ← drivers.redis_open url; pure client

  unfoldable pub sled_open_path : Text → Io O H
  sled_open_path path = do db ← drivers.sled_open path; pure db

  -- The constructor that each arm of the selections calls.
  unfoldable pub connect_backend : Backend → Io O H
  connect_backend (redis_url url) = redis_new url
  connect_backend (mysql_dsn dsn pool) = mysql_with_pool dsn pool
  connect_backend (postgres_dsn dsn pool) = postgres_with_pool dsn pool
  connect_backend (sled_path path) = sled_open_path path

-- The settings without the connections' life time.
abbrev without_life : Settings → Settings
without_life cfg = record cfg { conn_max_life_time_minutes = none }

module _ {O H : Type 0} (drivers : Drivers O H) (var : Text → Option Text) (cfg : Settings) where
  life_cfg :
      (s : Store)
      → connect_backend drivers (cfg_repo var cfg s)
        ≡ connect_backend drivers (cfg_repo var (without_life cfg) s)
  unfolding cfg_repo connect_backend mysql_with_pool postgres_with_pool
  life_cfg boltdb = refl
  life_cfg (redis r) = refl
  life_cfg (mysql s) = refl
  life_cfg (Settings.postgres s) = refl

  life_env :
      (name : Text)
      → connect_backend drivers (env_repo var cfg name)
        ≡ connect_backend drivers (env_repo var (without_life cfg) name)
  unfolding env_repo connect_backend mysql_with_pool postgres_with_pool
  life_env name = elim (Bool-cases (text_eq name (bytes "redis"))) [
    | inl is_redis ↦ rw is_redis
    | inr other ↦ elim (Bool-cases (text_eq name (bytes "mysql"))) [
      | inl is_mysql ↦ rw (other, is_mysql)
      | inr other' ↦ elim (Bool-cases (text_eq name (bytes "postgres"))) [
        | inl is_postgres ↦ rw (other, other', is_postgres)
        | inr other'' ↦ rw (other, other', other'')
      ]
    ]
  ]

  life_ignored :
      (store : Option Text)
      → connect_backend drivers (repo_backend var cfg store)
        ≡ connect_backend drivers (repo_backend var (without_life cfg) store)
  unfolding repo_backend
  life_ignored none = life_cfg cfg.store
  life_ignored (some name) = life_env name

module _ {O H : Type 0} (drivers : Drivers O H) (var : Text → Option Text) (cfg : Settings) where
  -- Settings that nothing uses: whatever opens the selected store does the same without the life
  -- time of the connections, and without the expiry times, the key prefix, the schema and the pool
  -- sizes that are set on the store itself.
  settings_ignored :
      (store : Option Text)
      → connect_backend drivers (repo_backend var cfg store)
        ≡ connect_backend drivers (
            repo_backend var
              (without_life (record cfg { store = without_options cfg.store }))
              store)
  settings_ignored store =
      ap (connect_backend drivers) (store_options_ignored var cfg store [] boltdb).0
      ∙ life_ignored drivers var (record cfg { store = without_options cfg.store }) store
