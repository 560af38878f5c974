-- ===== src/Saga/Concurrent/Awaited.antt =====
-- The turn that waits for the tasks of a submission (seata-server/src/saga.rs): since they all end,
-- the submission goes on from it.
use seata.Base.{◌≡◌, ap, Result, ok, err}
use seata.Domain.{GlobalTxn}
use seata.Repo.{TxnRepo}
use seata.Saga.World.{World, Env, SagaManager}
use seata.Saga.Spec.{executed_branches}
use seata.Saga.Joined.{joined, execute-joined}
use seata.Saga.Concurrent.{Program, await_tasks, turn, alone}

module _ {S : Type 0} (repo : TxnRepo S) (env : Env) (m : SagaManager) where
  pub turn-await_tasks :
      (tx : GlobalTxn) (rest : GlobalTxn → Program) (w : World S)
      → turn repo env m (await_tasks tx rest) w ≡ (
        rest (record tx { branches = executed_branches m env w.readings tx }),
        (joined repo env m tx w).1,
      )
  unfolding turn
  turn-await_tasks tx rest w =
      ap
        (λ (p : Result GlobalTxn × World S). elim p.0 as (λ _. Program × World S) [
          | ok executed ↦ (rest executed, p.1)
          | err still_running ↦ (await_tasks tx rest, p.1)
        ])
        (execute-joined repo env m tx w)

  pub alone-await_tasks :
      (tx : GlobalTxn) (rest : GlobalTxn → Program) (w : World S)
      → alone repo env m (await_tasks tx rest) w
        ≡ alone repo env m
            (rest (record tx { branches = executed_branches m env w.readings tx }))
            (joined repo env m tx w).1
  unfolding alone
  alone-await_tasks tx rest w =
      ap
        (λ (p : Result GlobalTxn × World S). elim p.0 as (λ _. World S) [
          | ok executed ↦ alone repo env m (rest executed) p.1
          | err still_running ↦ p.1
        ])
        (execute-joined repo env m tx w)
