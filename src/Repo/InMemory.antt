-- ===== src/Repo/InMemory.antt =====
-- `TestRepo` of seata-server/src/test_utils.rs: the repository of the tests, over any store, and the
-- manager of `TestServer`.
use seata.Base.{
  ℕ, ◌≡◌, refl, Option, none, List, [], ◌∷◌, Text, Bytes, Result, ok, err, Io, lift, drop, ◌>>=◌,
  Result-cases, inl, inr,
}
use seata.Domain.{GlobalStatus, GlobalTxn}
use seata.Kv.{Kv}
use seata.Repo.{
  Serde, TxnRepo, save, load, list, parse_rows, decode, gid_key, gid_prefix, add_usize, dyn_repo,
}
use seata.Saga.World.{SagaManager, new_manager, with_exec_config}

-- `out.push(serde_json::from_slice(&v)?)` for each value
unfoldable pub parse_all : Serde → List Bytes → Result (List GlobalTxn)
parse_all serde [] = ok []
parse_all serde (v ∷ vs) =
    let rest = parse_all serde vs in
    elim (serde.from_slice v) [
      | err e ↦ err e
      | ok tx ↦ elim rest [ err e ↦ err e | ok out ↦ ok (tx ∷ out) ]
    ]

module _ {S : Type 0} (kv : Kv S) (serde : Serde) where
  unfoldable pub test_save : GlobalTxn → Io S (Unit {0})
  test_save tx = do val ← lift (serde.to_vec tx); kv.put (gid_key tx.gid) val

  unfoldable pub test_load : Text → Io S (Option GlobalTxn)
  test_load gid = do found ← kv.get (gid_key gid); decode kv serde found

  -- `_status` is not looked at.
  unfoldable pub test_list : ℕ → ℕ → Option GlobalStatus → Io S (List GlobalTxn)
  test_list limit offset status = do
    vals ← kv.scan_prefix gid_prefix (add_usize offset limit)
    lift (parse_all serde (drop offset vals))

  abbrev pub test_repo : TxnRepo S
  test_repo = record { save = test_save; load = test_load; list = test_list }

-- The manager of `TestServer::new`.
abbrev pub test_manager : SagaManager
test_manager = with_exec_config new_manager (record {
  request_timeout_secs = 1;
  retry_interval_secs = 1;
  timeout_to_fail_secs = 3;
  branch_parallelism = 4;
})

parse_all_lem : (serde : Serde) (vs : List Bytes) → parse_all serde vs ≡ parse_rows serde none vs
unfolding parse_all parse_rows
parse_all_lem serde [] = refl
parse_all_lem serde (v ∷ vs) = elim (Result-cases (serde.from_slice v)) [
  | inl (tx, is_tx) ↦ rw (parse_all, parse_rows, is_tx, parse_all_lem serde vs) refl
  | inr (e, bad) ↦ rw (parse_all, parse_rows, bad) refl
]

-- The repository of the tests is the one of the server, but that a list is never filtered: it is
-- the list for no status.
test_repo_lem :
    {S : Type 0} (kv : Kv S) (serde : Serde)
    → test_repo kv serde
      ≡ record (dyn_repo kv serde) { list = λ limit offset status. list kv serde limit offset none }
unfolding test_save test_load test_list save load list
test_repo_lem kv serde i = record {
  save = save kv serde;
  load = load kv serde;
  list = λ limit offset status. do
    vals ← kv.scan_prefix gid_prefix (add_usize offset limit)
    lift (parse_all_lem serde (drop offset vals) i);
}
