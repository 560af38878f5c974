-- ===== src/Tests/LaunchExamples.antt =====
-- The theorems on the settings, the registration and the pages of a list, on concrete inputs
-- (seata-server/src/settings.rs, seata-server/src/main.rs, seata-server/src/repo.rs).
use seata.Base.{
  ℕ, suc, ◌+◌, ◌≤◌, ◌≡◌, ◌≢◌, refl, inl, inr, ◌||◌, Option, none, some, List, [], ◌∷◌, ◌++◌, Text,
  Bytes, bytes, ok, err, take, keep, text_eq, text_eq_iff, decimal, if◌then◌else◌, arith,
  Bool-cases, Bool, any, Io, text_eq_refl,
}
use seata.Domain.{aborted}
use seata.Kv.{Kv}
use seata.Repo.{has_status, list}
use seata.Repo.Pages.{page, list_pages}
use seata.Settings.{default_settings, load, loaded_settings}
use seata.Launch.Registration.{Target, ns_http, ns_grpc}
use seata.Launch.Registration.Addresses.{register_self, register_self_lem}
use seata.Launch.Etcd.{
  Client, ClientLaws, register_to_etcd, put_keys, kept_alive, shutdown, keeper, register-cleanup,
}
use seata.Launch.Ending.{Ended, http, Keeper, Process, serving_at, exited_at}
use seata.Launch.{sled_path, repo_backend, cfg_repo}
use seata.Launch.Startup.{Host, SledLocks, Fails, startup, main, main_locked}
use seata.Tests.Codec.{sample_serde, encode, from_slice}
use seata.Tests.Samples.{t}

-- A store that is a list of values, all of them under the prefix.
abbrev list_kv : Kv (List Bytes)
list_kv = record {
  get = λ k s. (ok none, s);
  put = λ k v s. (ok tt, s);
  delete = λ k s. (ok tt, s);
  scan_prefix = λ prefix n s. (ok (take n s), s);
}

abbrev rows : List Bytes
rows = encode t ∷ encode (record t { status = aborted }) ∷ []

list_pages_example :
    (list list_kv sample_serde 1 0 (some aborted) rows).0
    ≡ ok (keep (has_status (some aborted)) (page 1 0 (t ∷ record t { status = aborted } ∷ [])))
list_pages_example =
    list_pages list_kv sample_serde 1 0 (some aborted) rows rows
      (t ∷ record t { status = aborted } ∷ []) (omega arith) (omega arith) (λ n. refl)
      (unfold encode from_slice in (refl, (refl, tt)))

-- etcd as a list of entries, the newest first; leases do not end.
abbrev Entries : Type 0
Entries = List (Text × Text × ℕ)

find : Entries → Text → Option (Text × ℕ)
find [] j = none
find ((k, v, l) ∷ es) j = let rest = find es j in if text_eq k j then some (v, l) else rest

leases : Entries → ℕ
leases [] = 0
leases ((k, v, l) ∷ es) = l + leases es

without : Text → Entries → Entries
without k [] = []
without k ((k', v, l) ∷ es) =
    let rest = without k es in if text_eq k k' then rest else (k', v, l) ∷ rest

abbrev etcd : Client Entries
etcd = record {
  connect = λ endpoints e. (ok tt, e);
  lease_grant = λ ttl e. (ok (suc (leases e)), e);
  put = λ k v l e. (ok tt, (k, v, l) ∷ e);
  lease_keep_alive = λ l e. (ok tt, e);
  delete = λ k e. (ok tt, without k e);
  lease_revoke = λ l e. (ok tt, e);
}

find-fresh : (e : Entries) (j v : Text) (l : ℕ) → find e j ≡ some (v, l) → l ≤ leases e
unfolding find leases
find-fresh [] j v l h = absurd (cc)
find-fresh ((k, v', l') ∷ e) j v l h = elim (Bool-cases (text_eq k j)) [
  | inl own ↦ ground arith
  | inr other ↦ ground (arith, find-fresh e j v l)
]

find-without :
    (k : Text) (e : Entries) (j : Text)
    → find (without k e) j ≡ (if text_eq k j then none else find e j)
unfolding find without
find-without k [] j = ground arith
find-without k ((k', v, l) ∷ e) j = elim (Bool-cases (text_eq k k')) [
  | inl own ↦ ground (arith, own, find-without k e j, text_eq_iff k k')
  | inr other ↦
      ground (arith, other, find-without k e j, text_eq_iff k k', text_eq_iff k j, text_eq_iff k' j)
]

abbrev etcd_laws : ClientLaws etcd
etcd_laws = record {
  value = find;
  connect_keeps = λ endpoints e j. refl;
  grant_keeps = λ ttl e j. refl;
  grant_fresh = λ ttl lease e granted j v held.
      let is_lease : suc (leases e) ≡ lease = cc in
      absurd (omega (arith, find-fresh e j v lease held, is_lease));
  put_ok = λ k v l e done j. unfold find in refl;
  alive_keeps = λ l e j. refl;
  delete_ok = λ k e done j. find-without k e j;
  revoke_either = λ l e j. inl refl;
}

abbrev here : Target
here = record {
  endpoints = bytes "http://a:2379" ∷ [];
  ns = bytes "/seata";
  instance_id = bytes "i1";
}

abbrev others : Entries
others = (bytes "/other", bytes "x", 7) ∷ []

registered_ok : (register_self etcd default_settings 36789 here others).0 ≡ ok 8
unfolding register_self register_to_etcd put_keys leases
registered_ok = refl

register_self_lem_example :
    let e' = (register_self etcd default_settings 36789 here others).1 in
    (find e' (ns_http here) ≡ some (bytes "http://0.0.0.0:" ++ decimal 5 36789, 8))
    × (find e' (ns_grpc here) ≡ some (bytes "grpc://0.0.0.0:" ++ decimal 5 36790, 8))
    × ((j v : Text) → find others j ≢ some (v, 8))
register_self_lem_example =
    register_self_lem etcd etcd_laws default_settings 36789 here 8 others registered_ok

-- The entries once the server has registered.
abbrev registered : Entries
registered = (ns_grpc here, bytes "g", 8) ∷ (ns_http here, bytes "h", 8) ∷ others

register-cleanup_example :
    find
      (keeper etcd (ns_http here) (ns_grpc here) 8 (kept_alive ∷ shutdown ∷ []) registered)
      (bytes "/other")
    ≡ (if text_eq (ns_grpc here) (bytes "/other") || text_eq (ns_http here) (bytes "/other")
        then none
        else find others (bytes "/other"))
register-cleanup_example =
    register-cleanup etcd etcd_laws (ns_http here) (ns_grpc here) (bytes "h") (bytes "g") [] 8
      (kept_alive ∷ shutdown ∷ []) others registered (bytes "/other")
      (unfold register_to_etcd put_keys leases in refl) refl refl refl

-- The process of that server.
abbrev from_registered : Process Entries
from_registered = serving_at etcd (ns_http here) (ns_grpc here) 8 registered

abbrev exit_at : Ended → Keeper → Process Entries
exit_at x k = exited_at etcd (ns_http here) (ns_grpc here) 8 x k registered

abbrev no_var : Text → Option Text
no_var _ = none

sled_selected : repo_backend no_var default_settings none ≡ sled_path (bytes "./data/seata-sled")
unfolding repo_backend cfg_repo
sled_selected = refl

-- A host whose sled databases can be opened once. It knows the paths that are open; all else returns
-- and does nothing.
abbrev is_open : Text → List Text → Bool
is_open path o = any (λ p. text_eq p path) o

abbrev sled_open_once : Text → Io (List Text) (Unit {0})
sled_open_once path o =
    if is_open path o then (err (bytes "could not acquire lock"), o) else (ok tt, path ∷ o)

abbrev host : Host (List Text) (Unit {0}) (Unit {0})
host = record {
  drivers = record {
    redis_open = λ url o. (ok tt, o);
    sled_open = sled_open_once;
    database_connect = λ options o. (ok tt, o);
    execute = λ backend sql h o. (ok tt, o);
  };
  counter = λ name help o. (ok tt, o);
  histogram = λ name help o. (ok tt, o);
  register = λ metric o. (ok tt, o);
  bind = λ port o. (ok port, o);
}

host-SledLocks : SledLocks host
host-SledLocks = record {
  locked = is_open;
  open_locks = λ path o h e. ground (arith, text_eq_refl path, e);
  locked_fails = λ path o h locked e. ground (arith, locked, e);
  counter_keeps = λ path name help o h. h;
  histogram_keeps = λ path name help o h. h;
  register_keeps = λ path metric o h. h;
}

main_locked_example :
    Fails host host-SledLocks
      (bytes "./data/seata-sled")
      (startup host no_var default_settings (bytes "i1") [])
    × Fails host host-SledLocks
        (bytes "./data/seata-sled")
        (main host no_var (ok default_settings) (bytes "i1") (http (ok tt)) [])
unfolding load loaded_settings
main_locked_example =
    main_locked host host-SledLocks (bytes "./data/seata-sled") no_var (ok default_settings)
      (bytes "i1") (http (ok tt)) [] sled_selected
