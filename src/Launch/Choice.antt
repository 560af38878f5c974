-- ===== src/Launch/Choice.antt =====
-- Which store the server opens (`main` of seata-server/src/main.rs), and what opening it twice does.
use mathlib.Core.Path.{subst}
use seata.Base.{
  ◌≡◌, ◌≢◌, refl, sym, ap, ◌∙◌, Option, none, some, Text, bytes, Io, Result, ok, ◌>>=◌, pure,
  bind_ok,
}
use seata.Settings.{Settings, Store, boltdb, redis, mysql, postgres}
use seata.Launch.{
  Backend, sled_path, env_repo, cfg_repo, repo_backend, env_barrier, cfg_barrier, barrier_backend,
  open_stores, store_url,
}

cfg_same :
    (var : Text → Option Text) (cfg : Settings) (s : Store)
    → cfg_barrier var cfg s ≡ cfg_repo var cfg s
unfolding cfg_barrier cfg_repo
cfg_same var cfg boltdb = refl
cfg_same var cfg (redis r) = refl
cfg_same var cfg (mysql r) = refl
cfg_same var cfg (postgres r) = refl

-- The two selections agree: the barrier gets the backend of the repository, with the same address
-- and pool, whatever the environment and the settings say.
pub barrier-repo_same :
    (var : Text → Option Text) (cfg : Settings) (store : Option Text)
    → barrier_backend var cfg store ≡ repo_backend var cfg store
unfolding barrier_backend repo_backend env_barrier env_repo
barrier-repo_same var cfg none = cfg_same var cfg cfg.store
barrier-repo_same var cfg (some store) = refl

-- The options that a store of the settings has of its own.
abbrev pub without_options : Store → Store
without_options boltdb = boltdb
without_options (redis r) =
    redis (record r { data_expire = none; finished_data_expire = none; redis_prefix = none })
without_options (mysql s) =
    mysql
      (record s { max_open_conns = none; max_idle_conns = none; conn_max_life_time_minutes = none })
without_options (postgres s) = postgres (record s {
  schema = none;
  max_open_conns = none;
  max_idle_conns = none;
  conn_max_life_time_minutes = none;
})

no_options :
    (var : Text → Option Text) (cfg : Settings) (s : Store)
    → cfg_repo var cfg s ≡ cfg_repo var cfg (without_options s)
unfolding cfg_repo store_url
no_options var cfg boltdb = refl
no_options var cfg (redis r) = refl
no_options var cfg (mysql r) = refl
no_options var cfg (postgres r) = refl

-- The expiry times, the key prefix, the schema and the pool sizes that are set on the store itself
-- have no effect: the backend is the same without them, and with SEATA_STORE set the whole of
-- the store's settings has none.
pub store_options_ignored :
    (var : Text → Option Text) (cfg : Settings) (store : Option Text) (name : Text) (other : Store)
    → (repo_backend var cfg store
        ≡ repo_backend var (record cfg { store = without_options cfg.store }) store)
      × (repo_backend var cfg (some name)
          ≡ repo_backend var (record cfg { store = other }) (some name))
unfolding repo_backend env_repo cfg_repo
store_options_ignored var cfg (some store) name other = (refl, refl)
store_options_ignored var cfg none name other = (no_options var cfg cfg.store, refl)

-- Where a sled database that is open cannot be opened a second time, and the selected store is a
-- sled database, the second opening fails and the server does not start.
open_stores_locked :
    {O H : Type 0} (connect : Backend → Io O H) (var : Text → Option Text) (cfg : Settings)
    (path : Text) (o : O)
    → ((p : Text) (o' : O) (h h' : H)
        → (connect (sled_path p) o').0 ≡ ok h
        → (connect (sled_path p) (connect (sled_path p) o').1).0 ≢ ok h')
    → repo_backend var cfg (var (bytes "SEATA_STORE")) ≡ sled_path path
    → (hs : H × H) → (open_stores connect var cfg o).0 ≢ ok hs
unfolding open_stores
open_stores_locked {H = H} connect var cfg path o locked is_sled hs e =
    let store = var (bytes "SEATA_STORE") in
    let b = repo_backend var cfg store in
    let b' = barrier_backend var cfg store in
    let second = λ (dyn_repo : H). connect b' >>= λ barrier. pure (dyn_repo, barrier) in
    let (h, first, rest) = bind_ok (connect b) second o hs e in
    let e' = sym (ap (λ (p : Result _ × _). p.0) rest) ∙ e in
    let (h', again, _) =
      bind_ok (connect b') (λ (barrier : H). pure (h, barrier)) (connect b o).1 hs e' in
    let same : b' ≡ sled_path path = barrier-repo_same var cfg store ∙ is_sled in
    locked path o h h' (subst (λ x. (connect x o).0 ≡ ok h) is_sled first) (
      subst (λ x. (connect x (connect (sled_path path) o).1).0 ≡ ok h') same
        (subst (λ x. (connect b' (connect x o).1).0 ≡ ok h') is_sled again))
