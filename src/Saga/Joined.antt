-- ===== src/Saga/Joined.antt =====
-- Every task of a submission ends, so its execution goes on (`submit` of seata-server/src/saga.rs).
use seata.Saga.Settle.Reference.{settle-eq-map}
use seata.Saga.Spec.{executed_branches}
use seata.Base.{
  ℕ, ◌≡◌, refl, true, List, [], ◌∷◌, ◌++◌, map, all, is_some, ok, some, Bool, if◌then◌else◌, Result,
}
use seata.Domain.{GlobalTxn}
use seata.Repo.{TxnRepo}
use seata.Saga.World.{World, Env, SagaManager, Request}
use seata.Saga.Branch.{run_task}
use seata.Saga.Branch.Total.{run_task_stops}
use seata.Saga.Settle.{count_tasks}
use seata.Saga.Manager.{submit_requests, submit_results, execute}

-- The task of a request ends.
pub task_ends :
    (m : SagaManager) (env : Env) (epoch : ℕ) (request : Request)
    → (b : Bool) × (run_task m.exec env epoch request ≡ some b)
task_ends m env epoch request =
    let (k, value, _) = run_task_stops m.exec env epoch request in (_, value)

tasks_end :
    (m : SagaManager) (env : Env) (epoch : ℕ) (rs : List Request)
    → all is_some (map (run_task m.exec env epoch) rs) ≡ true
tasks_end m env epoch [] = refl
tasks_end m env epoch (r ∷ rs) =
    let (b, e) = task_ends m env epoch r in rw (e, tasks_end m env epoch rs) refl

module _ {S : Type 0} (repo : TxnRepo S) (env : Env) (m : SagaManager) where
  -- What the execution gives when all its tasks have ended.
  abbrev pub joined : GlobalTxn → World S → Result GlobalTxn × World S
  joined tx w =
      let results = submit_results m env w.readings tx in
      (
        ok (record tx { branches = executed_branches m env w.readings tx }),
        record w {
          spawned = w.spawned ++ submit_requests env tx;
          metrics = if m.has_metrics then count_tasks results w.metrics else w.metrics;
        },
      )

  pub execute-joined : (tx : GlobalTxn) (w : World S) → execute repo env m tx w ≡ joined tx w
  unfolding execute
  execute-joined tx w =
      rw
        (
          tasks_end m env w.readings (submit_requests env tx),
          settle-eq-map (run_task m.exec env w.readings) tx (env.base64_encode tx.payload)
              tx.branches,
        )
        refl
