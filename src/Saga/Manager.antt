-- ===== src/Saga/Manager.antt =====
-- The operations of `SagaManager` (seata-server/src/saga.rs), over any repository.
use seata.Base.{
  ℕ, Bool, Option, none, some, List, [], ◌∷◌, ◌++◌, map, Text, Bytes, bytes, is_empty, zip, any,
  all, is_some, ok, err, Io, pure, ◌>>=◌, ◌>>◌, text_eq, if◌then◌else◌,
}
use seata.Domain.{
  GlobalStatus, aborted, committing, BranchStatus, prepared, succeed, failed, is_succeed, BranchTxn,
  GlobalTxn, new_txn,
}
use seata.Repo.{TxnRepo}
use seata.Saga.World.{World, Env, SagaManager, Request, on_store, now, new_uuid}
use seata.Saga.Branch.{run_task}
use seata.Saga.Settle.{requests, prepared_indices, settle, final_status, count_tasks}

-- `branches.push(…)`
abbrev pub push_branch : GlobalTxn → Text → Text → GlobalTxn
push_branch tx branch_id action = record tx {
  branches =
      tx.branches ++ record { branch_id = branch_id; action = action; status = prepared } ∷ [];
}

-- `branches.iter().any(|b| b.branch_id == branch_id)`
abbrev pub has_branch : GlobalTxn → Text → Bool
has_branch tx branch_id = any (λ b. text_eq b.branch_id branch_id) tx.branches

-- `if let Some(b) = branches.iter_mut().find(|b| b.branch_id == branch_id) { b.status = status; … }`
unfoldable pub set_branch : Text → BranchStatus → List BranchTxn → Option (List BranchTxn)
set_branch branch_id status [] = none
set_branch branch_id status (b ∷ bs) =
    let rest = set_branch branch_id status bs in
    if text_eq b.branch_id branch_id
    then some (record b { status = status } ∷ bs)
    else elim rest [ none ↦ none | some bs' ↦ some (b ∷ bs') ]

-- the loop of `abort`
unfoldable pub fail_unfinished : List BranchTxn → List BranchTxn
fail_unfinished [] = []
fail_unfinished (b ∷ bs) =
    (if is_succeed b.status then b else record b { status = failed }) ∷ fail_unfinished bs

-- The requests of a submission, and the results of their tasks.
abbrev pub submit_requests : Env → GlobalTxn → List Request
submit_requests env tx = requests tx (env.base64_encode tx.payload) tx.branches

abbrev pub submit_results : SagaManager → Env → ℕ → GlobalTxn → List (Option Bool)
submit_results m env epoch tx = map (run_task m.exec env epoch) (submit_requests env tx)

module _ {S : Type 0} (repo : TxnRepo S) where
  unfoldable pub get : Text → Io (World S) (Option GlobalTxn)
  get gid = on_store (repo.load gid)

  unfoldable pub list : ℕ → ℕ → Option GlobalStatus → Io (World S) (List GlobalTxn)
  list limit offset status = on_store (repo.list limit offset status)

module _ {S : Type 0} (repo : TxnRepo S) (env : Env) where
  -- `tx.updated_unix = …; self.repo.save(&tx).await?`
  unfoldable pub stamp_and_save : GlobalTxn → Io (World S) GlobalTxn
  stamp_and_save tx = do
    updated_unix ← now env
    let tx' = record tx { updated_unix = updated_unix }
    on_store (repo.save tx')
    pure tx'

  unfoldable pub start : Text → Text → Bytes → Io (World S) Text
  start gid mode payload = do
    gid ← if is_empty gid then new_uuid env else pure gid
    now_unix ← now env
    let mode = if is_empty mode then bytes "saga" else mode
    on_store (repo.save (new_txn gid mode payload now_unix))
    pure gid

  unfoldable pub abort_found : Option GlobalTxn → Io (World S) (Unit {0})
  abort_found none = pure tt
  abort_found (some tx) = do
    stamp_and_save (record tx { branches = fail_unfinished tx.branches; status = aborted })
    pure tt

  unfoldable pub abort : Text → Io (World S) (Unit {0})
  abort gid = do found ← on_store (repo.load gid); abort_found found

  unfoldable pub add_branch_found : Text → Text → Option GlobalTxn → Io (World S) (Unit {0})
  add_branch_found branch_id action none = pure tt
  add_branch_found branch_id action (some tx) =
      if has_branch tx branch_id
      then pure tt
      else do stamp_and_save (push_branch tx branch_id action); pure tt

  unfoldable pub add_branch : Text → Text → Text → Io (World S) (Unit {0})
  add_branch gid branch_id action = do
    found ← on_store (repo.load gid)
    add_branch_found branch_id action found

  -- the body that `branch_succeed` and `branch_fail` share, with the status that each sets
  unfoldable pub set_branch_found : Text → BranchStatus → Option GlobalTxn → Io (World S) (Unit {0})
  set_branch_found branch_id status none = pure tt
  set_branch_found branch_id status (some tx) = elim (set_branch branch_id status tx.branches) [
    | none ↦ pure tt
    | some branches ↦ do stamp_and_save (record tx { branches = branches }); pure tt
  ]

  unfoldable pub branch_succeed : Text → Text → Io (World S) (Unit {0})
  branch_succeed gid branch_id = do
    found ← on_store (repo.load gid)
    set_branch_found branch_id succeed found

  unfoldable pub branch_fail : Text → Text → Io (World S) (Unit {0})
  branch_fail gid branch_id = do
    found ← on_store (repo.load gid)
    set_branch_found branch_id failed found

module _ {S : Type 0} (repo : TxnRepo S) (env : Env) (m : SagaManager) where
  -- Spawning the tasks and joining them; the remote calls are the environment's. A submission goes
  -- on only once all its tasks have ended; one that waits for a task for ever is the error here.
  unfoldable pub execute : GlobalTxn → Io (World S) GlobalTxn
  execute tx w =
      let results = submit_results m env w.readings tx in
      let indices = prepared_indices 0 tx.branches in
      if all is_some results
      then (
        ok (record tx { branches = settle (zip indices results) tx.branches }),
        record w {
          spawned = w.spawned ++ submit_requests env tx;
          metrics = if m.has_metrics then count_tasks results w.metrics else w.metrics;
        },
      )
      else (err (bytes "a task is still running"), w)

  -- the part under "finalize global status"
  unfoldable pub conclude : GlobalTxn → Io (World S) (Unit {0})
  conclude tx = do
    stamp_and_save repo env (record tx { status = final_status tx.branches })
    pure tt

  -- from the execution of the branches on
  unfoldable pub run_branches : GlobalTxn → Io (World S) (Unit {0})
  run_branches tx = do
    executed ← execute tx
    persisted ← stamp_and_save repo env executed
    conclude persisted

  unfoldable pub submit_found : Option GlobalTxn → Io (World S) (Unit {0})
  submit_found none = pure tt
  submit_found (some tx) = do
    marked ← stamp_and_save repo env (record tx { status = committing })
    run_branches marked

  unfoldable pub submit : Text → Io (World S) (Unit {0})
  submit gid = do found ← on_store (repo.load gid); submit_found found
