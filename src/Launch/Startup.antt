-- ===== src/Launch/Startup.antt =====
-- `main` of seata-server/src/main.rs as a whole: everything that it opens before it serves, in order,
-- the registration that it spawns, and what it returns at the end.
use seata.Base.{
  Bool, true, ℕ, ◌≡◌, sym, ap, ◌∙◌, Option, List, [], ◌∷◌, Text, bytes, Result, ok, Io, pure, lift,
  ◌>>=◌, ◌>>◌, bind_ok, bind_all, ◌≢◌,
}
use seata.Settings.{Settings, loaded_settings}
use seata.Saga.World.{SagaManager}
use seata.Launch.{
  Backend, redis_url, mysql_dsn, postgres_dsn, sled_path, repo_backend, barrier_backend, manager_of,
}
use seata.Launch.Constructors.{Drivers, connect_backend, sled_open_path}
use seata.Launch.Registration.{Target, target}
use seata.Launch.Choice.{barrier-repo_same}
use seata.Launch.Ending.{Ended, ending}

-- What `main` asks of prometheus and of the network, in the state `O` of the outside. `M` are the
-- metrics; `bind` gives the port of `local_addr()`.
pub record Host (O H M : Type 0) : Type 0 where
  pub drivers : Drivers O H
  pub counter : Text → Text → Io O M
  pub histogram : Text → Text → Io O M
  pub register : M → Io O (Unit {0})
  pub bind : ℕ → Io O ℕ

-- What stands when the servers begin: the stores of the repository and of the barrier, the manager,
-- the port of the HTTP listener, and where to register.
pub record Started (H : Type 0) : Type 0 where
  pub repo : H
  pub barrier : H
  pub manager : SagaManager
  pub local_port : ℕ
  pub registration : Option Target

module _ {O H M : Type 0} (host : Host O H M) where
  abbrev pub success_total : Io O M
  success_total =
      host.counter (bytes "seata_branch_success_total")
        (bytes "Number of successful branch executions")

  abbrev pub failure_total : Io O M
  failure_total =
      host.counter (bytes "seata_branch_failure_total") (bytes "Number of failed branch executions")

  abbrev pub latency_seconds : Io O M
  latency_seconds =
      host.histogram (bytes "seata_branch_latency_seconds") (bytes "Latency of branch execution")

  -- The counters and the histogram of the manager's metrics.
  unfoldable pub new_metrics : Io O (List M)
  new_metrics = do
    success ← success_total
    failure ← failure_total
    latency ← latency_seconds
    pure (success ∷ failure ∷ latency ∷ [])

  -- The three calls of `registry.register`.
  unfoldable pub register_all : List M → Io O (Unit {0})
  register_all [] = pure tt
  register_all (metric ∷ metrics) = do host.register metric; register_all metrics

module _ {O H M : Type 0} (host : Host O H M) (var : Text → Option Text) where
  -- `main` up to its `select!`; `uuid` is the instance that is drawn if one is needed.
  unfoldable pub startup : Settings → Text → Io O (Started H)
  startup cfg uuid = do
    let store = var (bytes "SEATA_STORE")
    repo ← connect_backend host.drivers (repo_backend var cfg store)
    metrics ← new_metrics host
    register_all host metrics
    barrier ← connect_backend host.drivers (barrier_backend var cfg store)
    local_port ← host.bind cfg.http_port
    pure (record {
      repo = repo;
      barrier = barrier;
      manager = manager_of cfg;
      local_port = local_port;
      registration = target var cfg uuid;
    })

  -- What `main` returns, if the `select!` ends with `ended`.
  unfoldable pub main : Result Settings → Text → Ended → Io O (Unit {0})
  main configured uuid ended = do startup (loaded_settings configured var) uuid; lift (ending ended)

-- What sled documents of its databases: one that is open is locked, and cannot be opened again. The
-- metrics have nothing to do with it.
pub record SledLocks {O H M : Type 0} (host : Host O H M) : Type 0 where
  pub locked : Text → O → Bool
  pub open_locks :
      (path : Text) (o : O) (h : H)
      → (host.drivers.sled_open path o).0 ≡ ok h
      → locked path (host.drivers.sled_open path o).1 ≡ true
  pub locked_fails :
      (path : Text) (o : O) (h : H)
      → locked path o ≡ true
      → (host.drivers.sled_open path o).0 ≢ ok h
  pub counter_keeps :
      (path name help : Text) (o : O)
      → locked path o ≡ true
      → locked path (host.counter name help o).1 ≡ true
  pub histogram_keeps :
      (path name help : Text) (o : O)
      → locked path o ≡ true
      → locked path (host.histogram name help o).1 ≡ true
  pub register_keeps :
      (path : Text) (metric : M) (o : O)
      → locked path o ≡ true
      → locked path (host.register metric o).1 ≡ true

module _ {O H M : Type 0} (host : Host O H M) (sled : SledLocks host) (path : Text) where
  -- The database is locked afterwards, whether the call has returned or not.
  abbrev pub Locks : {A : Type 0} → Result A × O → Type 0
  Locks r = sled.locked path r.1 ≡ true

  bind-Locks :
      {A B : Type 0} (m : Io O A) (f : A → Io O B) (o : O)
      → Locks (m o)
      → ((a : A) → Locks (f a (m o).1))
      → Locks ((m >>= f) o)
  bind-Locks m f o first rest = bind_all m f o Locks (λ x e. first) (λ a e. rest a)

  metrics-Locks : (o : O) → sled.locked path o ≡ true → Locks (new_metrics host o)
  unfolding new_metrics
  metrics-Locks o h =
      let o1 = (success_total host o).1 in
      let o2 = (failure_total host o1).1 in
      let first : sled.locked path o1 ≡ true = sled.counter_keeps path _ _ o h in
      let second : sled.locked path o2 ≡ true = sled.counter_keeps path _ _ o1 first in
      let third : Locks (latency_seconds host o2) = sled.histogram_keeps path _ _ o2 second in
      bind-Locks (success_total host) _ o first (λ success.
        bind-Locks (failure_total host) _ o1 second (λ failure.
          bind-Locks (latency_seconds host) (λ latency. pure (success ∷ failure ∷ latency ∷ [])) o2
            third (λ latency. third)))

  register-Locks :
      (metrics : List M) (o : O) → sled.locked path o ≡ true → Locks (register_all host metrics o)
  unfolding register_all
  register-Locks [] o h = h
  register-Locks (metric ∷ metrics) o h =
      let kept = sled.register_keeps path metric o h in
      bind-Locks (host.register metric) (λ _. register_all host metrics) o kept
        (λ u. register-Locks metrics _ kept)

  same : {A : Type 0} {r r' : Result A × O} {a : A} → r ≡ r' → r.0 ≡ ok a → r'.0 ≡ ok a
  same e h = sym (ap (λ (p : Result _ × O). p.0) e) ∙ h

  -- Nothing is returned.
  abbrev pub Fails : {A : Type 0} → Result A × O → Type 0
  Fails {A} r = (a : A) → r.0 ≢ ok a

  connect-Locks :
      (b : Backend) (o : O) (h : H)
      → b ≡ sled_path path
      → (connect_backend host.drivers b o).0 ≡ ok h
      → Locks (connect_backend host.drivers b o)
  unfolding connect_backend sled_open_path
  connect-Locks (redis_url url) o h is_sled e = absurd (cc)
  connect-Locks (mysql_dsn dsn pool) o h is_sled e = absurd (cc)
  connect-Locks (postgres_dsn dsn pool) o h is_sled e = absurd (cc)
  connect-Locks (sled_path p) o h is_sled e =
      let is_path : p ≡ path = cc in
      let (db, opened, ended) = bind_ok (host.drivers.sled_open p) pure o h e in
      ap (λ (r : Result H × O). sled.locked path r.1) ended
      ∙ rw (← is_path) (sled.open_locks p o db opened)

  connect-Fails :
      (b : Backend) (o : O)
      → b ≡ sled_path path
      → sled.locked path o ≡ true
      → Fails (connect_backend host.drivers b o)
  unfolding connect_backend sled_open_path
  connect-Fails (redis_url url) o is_sled locked h e = absurd (cc)
  connect-Fails (mysql_dsn dsn pool) o is_sled locked h e = absurd (cc)
  connect-Fails (postgres_dsn dsn pool) o is_sled locked h e = absurd (cc)
  connect-Fails (sled_path p) o is_sled locked h e =
      let is_path : p ≡ path = cc in
      let (db, opened, _) = bind_ok (host.drivers.sled_open p) pure o h e in
      sled.locked_fails path o db locked (rw (← is_path) opened)

  startup-Fails :
      (var : Text → Option Text) (cfg : Settings) (uuid : Text) (o : O)
      → repo_backend var cfg (var (bytes "SEATA_STORE")) ≡ sled_path path
      → Fails (startup host var cfg uuid o)
  unfolding startup
  startup-Fails var cfg uuid o is_sled started e =
      let store = var (bytes "SEATA_STORE") in
      let b' = barrier_backend var cfg store in
      let (repo, opened, at_metrics) =
        bind_ok (connect_backend host.drivers (repo_backend var cfg store)) _ o started e in
      let locked = connect-Locks (repo_backend var cfg store) o repo is_sled opened in
      let (metrics, made, at_register) =
        bind_ok (new_metrics host) _ _ started (same at_metrics e) in
      let (u, registered, at_barrier) =
        bind_ok (register_all host metrics) _ _ started (same at_register (same at_metrics e)) in
      let (barrier, again, _) =
        bind_ok (connect_backend host.drivers b') _ _ started
          (same at_barrier (same at_register (same at_metrics e))) in
      connect-Fails b' _ (barrier-repo_same var cfg store ∙ is_sled)
        (register-Locks metrics _ (metrics-Locks _ locked)) barrier again

  -- Where a sled database that is open cannot be opened again, and the selected store is a sled
  -- database, as it is by default, `main` does not come as far as the two servers and returns an
  -- error, whatever the settings, the environment and the network are otherwise.
  pub main_locked :
      (var : Text → Option Text) (configured : Result Settings) (uuid : Text) (ended : Ended)
      (o : O)
      → repo_backend var (loaded_settings configured var) (var (bytes "SEATA_STORE"))
        ≡ sled_path path
      → Fails (startup host var (loaded_settings configured var) uuid o)
        × Fails (main host var configured uuid ended o)
  unfolding main
  main_locked var configured uuid ended o is_sled =
      let cfg = loaded_settings configured var in
      let fails = startup-Fails var cfg uuid o is_sled in
      (
        fails,
        λ u e.
            let (started, returned, _) = bind_ok (startup host var cfg uuid) _ o u e in
            fails started returned,
      )
