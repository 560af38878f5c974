-- ===== src/Saga/UnitTests.antt =====
-- The unit tests of seata-server/src/saga.rs, over any repository and any server that answers as
-- theirs does.
use seata.Base.{
  ℕ, suc, ◌≡◌, ◌≢◌, refl, sym, ap, ◌∙◌, Bool, true, false, ◌&&◌, Option, none, some, List, [], ◌∷◌,
  ◌++◌, map, any, all, Text, bytes, text_eq, ok, Io, pure, ◌>>=◌, ◌>>◌, bind_step, is_empty,
  unwrap_or, if◌then◌else◌,
}
use seata.Domain.{GlobalTxn, new_txn, status_eq, committed, aborted, is_succeed, is_failed}
use seata.Kv.Mem.{MemMap, mem_kv}
use seata.Repo.{TxnRepo, RepoLaws, Serde}
use seata.Repo.InMemory.{test_repo}
use seata.Saga.World.{
  ExecConfig, World, Env, SagaManager, Request, Reply, response, with_exec_config, new_manager,
}
use seata.Saga.Branch.{run_task}
use seata.Saga.Branch.Total.{run_task_stops}
use seata.Saga.Manager.{get, start, add_branch, submit}
use seata.Saga.Returns.{Answers, operations_return}
use seata.Saga.Invariant.{AllWell, apply, run, op_start, op_add}
use seata.Saga.Workflow.{Branch, outcome, asked, workflow}

-- `MemRepo` over `MemKv`: line by line the store and the repository of test_utils.rs
abbrev pub mem_repo : Serde → TxnRepo MemMap
mem_repo serde = test_repo mem_kv serde

abbrev pub manager_of_ok : SagaManager
manager_of_ok = with_exec_config new_manager (record {
  request_timeout_secs = 2;
  retry_interval_secs = 1;
  timeout_to_fail_secs = 3;
  branch_parallelism = 4;
})

abbrev pub manager_of_fail : SagaManager
manager_of_fail = with_exec_config new_manager (record {
  request_timeout_secs = 1;
  retry_interval_secs = 1;
  timeout_to_fail_secs = 2;
  branch_parallelism = 4;
})

-- `let tx = ….unwrap(); assert!(…)`
abbrev pub asserts : (GlobalTxn → Bool) → Option GlobalTxn → Bool
asserts check none = false
asserts check (some tx) = check tx

module _ {S : Type 0} (repo : TxnRepo S) (env : Env) where
  -- the steps of both tests: a saga of the branches b1 and b2, with these actions, is submitted
  unfoldable pub submit_two : SagaManager → Text → Text → Io (World S) (Option GlobalTxn)
  submit_two m action_1 action_2 = do
    gid ← start repo env [] (bytes "saga") (bytes "test")
    add_branch repo env gid (bytes "b1") action_1
    add_branch repo env gid (bytes "b2") action_2
    submit repo env m gid
    get repo gid

  -- The tests return `true` if all their assertions hold; `base` is the address of their server.
  unfoldable pub submit_executes_branches_and_commits_when_all_ok : Text → Io (World S) Bool
  submit_executes_branches_and_commits_when_all_ok base = do
    found ← submit_two manager_of_ok (base ++ bytes "/ok") (base ++ bytes "/ok")
    pure (
        asserts (λ tx. status_eq tx.status committed && all (λ b. is_succeed b.status) tx.branches)
          found)

  unfoldable pub submit_aborts_when_any_branch_fails : Text → Io (World S) Bool
  submit_aborts_when_any_branch_fails base = do
    found ← submit_two manager_of_fail (base ++ bytes "/ok") (base ++ bytes "/fail")
    pure (
        asserts (λ tx. status_eq tx.status aborted && any (λ b. is_failed b.status) tx.branches)
          found)

-- `spawn_test_server`: the answer to a POST, by its path; axum answers 404 where there is no route.
unfoldable pub spawn_test_server : Text → Reply
spawn_test_server path =
    if text_eq path (bytes "/ok")
    then response true
    else if text_eq path (bytes "/fail")
    then response false
    else response false

-- What is posted under `base` is answered by the test server.
pub record Reaches (base : Text) (env : Env) : Type 0 where
  pub answered :
      (epoch : ℕ) (r : Request) (timeout n : ℕ) (path : Text)
      → r.url ≡ base ++ path
      → (env.send epoch r timeout n).reply ≡ spawn_test_server path

not_empty : (t : Text) → t ≢ [] → is_empty t ≡ false
not_empty [] h = absurd (h refl)
not_empty (c ∷ t) h = refl

-- A step that returns `a` and leaves `s'`.
step_to :
    {S A B : Type 0} (io : Io S A) (f : A → Io S B) (s : S) (a : A) (s' : S)
    → io s ≡ (ok a, s')
    → (io >>= f) s ≡ f a s'
step_to io f s a s' e = rw e

module _ {S : Type 0} (repo : TxnRepo S) (laws : RepoLaws repo) (answers : Answers repo) (env : Env)
    (m : SagaManager) (fresh : (n : ℕ) → env.uuid n ≢ []) where
  -- A start without a gid is a start with the next UUID.
  start_new :
      (mode payload : Text) (w : World S)
      → start repo env [] mode payload w
        ≡ start repo env (env.uuid w.uuids) mode payload (record w { uuids = suc w.uuids })
  unfolding start
  start_new mode payload w = rw (not_empty (env.uuid w.uuids) (fresh w.uuids))

  start_ok :
      (gid mode payload : Text) (w : World S)
      → gid ≢ []
      → (start repo env gid mode payload w).0 ≡ ok gid
  unfolding start
  start_ok gid mode payload w has =
      let mode' = if is_empty mode then bytes "saga" else mode in
      let tx = new_txn gid mode' payload (env.clock w.readings) in
      rw (not_empty gid has, answers.save_returns tx w.store)

  add_ok :
      (gid branch_id action : Text) (w : World S)
      → (add_branch repo env gid branch_id action w).0 ≡ ok tt
  add_ok gid branch_id action w =
      let (_, _, _, returns, _, _) =
        operations_return repo answers env m gid [] branch_id action [] w in
      returns

  submit_ok : (gid : Text) (w : World S) → (submit repo env m gid w).0 ≡ ok tt
  submit_ok gid w =
      let (_, returns, _, _, _, _) = operations_return repo answers env m gid [] [] [] [] w in
      returns

  submit_two_lem :
      (action_1 action_2 : Text) (w : World S)
      → AllWell repo laws w
      → (tx : GlobalTxn) × ((submit_two repo env m action_1 action_2 w).0 ≡ ok (some tx))
        × ((epoch : ℕ) × (gid : Text) × (tx.branches
              ≡ map
                  (outcome (run_task m.exec env epoch) env gid (bytes "saga") (bytes "test"))
                  ((bytes "b1", action_1) ∷ (bytes "b2", action_2) ∷ [])))
        × (tx.status ≡ (if any (λ b. is_failed b.status) tx.branches then aborted else committed))
  unfolding submit_two run apply get
  submit_two_lem action_1 action_2 w well =
      let gid = env.uuid w.uuids in
      let bs : List Branch = (bytes "b1", action_1) ∷ (bytes "b2", action_2) ∷ [] in
      let w0 : World S = record w { uuids = suc w.uuids } in
      let well0 : AllWell repo laws w0 = record { at = well.at } in
      let w1 = apply repo env m (op_start gid (bytes "saga") (bytes "test")) w0 in
      let w2 = apply repo env m (op_add gid (bytes "b1") action_1) w1 in
      let w3 = apply repo env m (op_add gid (bytes "b2") action_2) w2 in
      let w4 = (submit repo env m gid w3).1 in
      let (tx, stored, _, branches, status) =
        workflow repo laws answers env m gid (bytes "saga") (bytes "test") bs w0 (fresh _) fresh
          well0 (unfold text_eq in refl) in
      let (found, loaded) = answers.load_returns gid w4.store in
      let is_tx : found ≡ some tx = sym (laws.load_ok gid w4.store found loaded) ∙ stored in
      let runs : submit_two repo env m action_1 action_2 w ≡ get repo gid w4 =
        step_to (start repo env [] (bytes "saga") (bytes "test")) _ w gid w1 (
          start_new (bytes "saga") (bytes "test") w
          ∙ (λ i. (start_ok gid (bytes "saga") (bytes "test") w0 (fresh _) i, w1)))
        ∙ step_to (add_branch repo env gid (bytes "b1") action_1) _ w1 tt w2
            (λ i. (add_ok gid (bytes "b1") action_1 w1 i, w2))
        ∙ step_to (add_branch repo env gid (bytes "b2") action_2) _ w2 tt w3
            (λ i. (add_ok gid (bytes "b2") action_2 w2 i, w3))
        ∙ step_to (submit repo env m gid) _ w3 tt w4 (λ i. (submit_ok gid w3 i, w4)) in
      (tx, ap (λ p. p.0) runs ∙ loaded ∙ ap ok is_tx, (suc w3.readings, gid, branches), status)

module _ (env : Env) (base : Text) (server : Reaches base env) (exec : ExecConfig) where
  task_of_ok :
      (epoch : ℕ) (r : Request)
      → r.url ≡ base ++ bytes "/ok"
      → unwrap_or false (run_task exec env epoch r) ≡ true
  unfolding spawn_test_server text_eq
  task_of_ok epoch r here =
      let (k, e, _) = run_task_stops exec env epoch r in
      rw (e, server.answered epoch r exec.request_timeout_secs k (bytes "/ok") here)

  task_of_fail :
      (epoch : ℕ) (r : Request)
      → r.url ≡ base ++ bytes "/fail"
      → unwrap_or false (run_task exec env epoch r) ≡ false
  unfolding spawn_test_server text_eq
  task_of_fail epoch r here =
      let (k, e, _) = run_task_stops exec env epoch r in
      rw (e, server.answered epoch r exec.request_timeout_secs k (bytes "/fail") here)

module _ {S : Type 0} (repo : TxnRepo S) (laws : RepoLaws repo) (answers : Answers repo) (env : Env)
    (base : Text) where
  ok_passes :
      (w : World S)
      → ((n : ℕ) → env.uuid n ≢ [])
      → Reaches base env
      → AllWell repo laws w
      → (submit_executes_branches_and_commits_when_all_ok repo env base w).0 ≡ ok true
  unfolding submit_executes_branches_and_commits_when_all_ok
  ok_passes w fresh server well =
      let url = base ++ bytes "/ok" in
      let m = manager_of_ok in
      let (tx, got, (epoch, gid, branches), status) =
        submit_two_lem repo laws answers env m fresh url url w well in
      let first =
        task_of_ok env base server m.exec epoch
          (asked env gid (bytes "saga") (bytes "test") (bytes "b1", url)) refl in
      let second =
        task_of_ok env base server m.exec epoch
          (asked env gid (bytes "saga") (bytes "test") (bytes "b2", url)) refl in
      let check : (status_eq tx.status committed && all (λ b. is_succeed b.status) tx.branches)
          ≡ true =
        rw (status, branches, first, second) in
      ap (λ p. p.0) (bind_step (submit_two repo env m url url) _ w (some tx) got) ∙ ap ok check

  fail_passes :
      (w : World S)
      → ((n : ℕ) → env.uuid n ≢ [])
      → Reaches base env
      → AllWell repo laws w
      → (submit_aborts_when_any_branch_fails repo env base w).0 ≡ ok true
  unfolding submit_aborts_when_any_branch_fails
  fail_passes w fresh server well =
      let url_1 = base ++ bytes "/ok" in
      let url_2 = base ++ bytes "/fail" in
      let m = manager_of_fail in
      let (tx, got, (epoch, gid, branches), status) =
        submit_two_lem repo laws answers env m fresh url_1 url_2 w well in
      let first =
        task_of_ok env base server m.exec epoch
          (asked env gid (bytes "saga") (bytes "test") (bytes "b1", url_1)) refl in
      let second =
        task_of_fail env base server m.exec epoch
          (asked env gid (bytes "saga") (bytes "test") (bytes "b2", url_2)) refl in
      let check : (status_eq tx.status aborted && any (λ b. is_failed b.status) tx.branches)
          ≡ true =
        rw (status, branches, first, second) in
      ap (λ p. p.0) (bind_step (submit_two repo env m url_1 url_2) _ w (some tx) got) ∙ ap ok check

  -- Over a lawful repository of well-formed transactions whose calls return, with UUIDs that are not
  -- empty, and where every request under `base` reaches the test server and is answered: both unit tests of the saga manager pass, whatever else the repository holds.
  pub saga_tests_pass :
      (w : World S)
      → ((n : ℕ) → env.uuid n ≢ [])
      → Reaches base env
      → AllWell repo laws w
      → ((submit_executes_branches_and_commits_when_all_ok repo env base w).0 ≡ ok true)
        × ((submit_aborts_when_any_branch_fails repo env base w).0 ≡ ok true)
  saga_tests_pass w fresh server well =
      (ok_passes w fresh server well, fail_passes w fresh server well)
