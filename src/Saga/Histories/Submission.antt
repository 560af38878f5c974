-- ===== src/Saga/Histories/Submission.antt =====
-- `submit` on every path: the chain of steps that its saves make (seata-server/src/saga.rs).
use seata.Saga.Joined.{joined}
use seata.Saga.Ending.{execute_step}
use seata.Base.{refl, ◌>>=◌, some, Text, map}
use seata.Domain.{GlobalTxn, committing}
use seata.Repo.{TxnRepo, RepoLaws}
use seata.Saga.World.{World, Env, SagaManager}
use seata.Saga.Branch.{run_task}
use seata.Saga.Settle.{final_status}
use seata.Saga.Settle.Reference.{settled}
use seata.Saga.Manager.{stamp_and_save, conclude, run_branches, submit_found, submit}
use seata.Saga.Spec.{IsKeyed}
use seata.Saga.Evolution.{◌⟶◌, begin, add, mark, ◌⟶*◌, here, next, ⟶*-trans, Keeps, ⟶*-Keeps}
use seata.Saga.Evolution
use seata.Saga.Histories.{
  Evolves, Evolves-refl, Evolves-bind, stamp-Evolves, stamp-Current, load_then-Evolves,
  saved_last-Evolves, Current,
}

module _ {S : Type 0} (repo : TxnRepo S) (laws : RepoLaws repo) (env : Env) (m : SagaManager) where
  conclude-Evolves :
      (gid : Text) (tx : GlobalTxn) (w : World S)
      → Current repo laws gid tx w
      → Evolves repo laws w (conclude repo env m tx w).1
  unfolding conclude
  conclude-Evolves gid tx w c =
      saved_last-Evolves repo laws env gid tx (record tx { status = final_status tx.branches }) w c
        refl (Evolution.conclude tx (env.clock w.readings))

  run_branches-Evolves :
      (gid : Text) (tx : GlobalTxn) (w : World S)
      → Current repo laws gid tx w
      → Evolves repo laws w (run_branches repo env m tx w).1
  unfolding run_branches
  run_branches-Evolves gid tx w c =
      let encoded = env.base64_encode tx.payload in
      let executed : GlobalTxn = record tx {
        branches = map (settled (run_task m.exec env w.readings) tx encoded) tx.branches;
      } in
      let w1 = (joined repo env m tx w).1 in
      let skip =
        execute_step repo env m (λ t. stamp_and_save repo env t >>= conclude repo env m) tx w in
      rw skip (
        Evolves-bind repo laws (stamp_and_save repo env executed) (conclude repo env m) w1
          (stamp-Evolves repo laws env gid tx executed w1
            (record { stored = c.stored; own = c.own }) refl
            (Evolution.execute tx (run_task m.exec env w.readings) encoded (env.clock w1.readings)))
          λ persisted saved.
            conclude-Evolves gid persisted (stamp_and_save repo env executed w1).1
              (stamp-Current repo laws env gid executed persisted w1 c.own saved))

  submit_found-Evolves :
      (gid : Text) (tx : GlobalTxn) (w : World S)
      → Current repo laws gid tx w
      → Evolves repo laws w (submit_found repo env m (some tx) w).1
  unfolding submit_found
  submit_found-Evolves gid tx w c =
      let committing_tx : GlobalTxn = record tx { status = committing } in
      Evolves-bind repo laws (stamp_and_save repo env committing_tx) (run_branches repo env m) w
        (stamp-Evolves repo laws env gid tx committing_tx w c refl
          (begin tx (env.clock w.readings)))
        λ marked saved.
          run_branches-Evolves gid marked (stamp_and_save repo env committing_tx w).1
            (stamp-Current repo laws env gid committing_tx marked w c.own saved)

  -- Over a lawful repository whose transactions stand under their own gids, a `submit`, whether it
  -- returns or fails at any of its calls of the repository, creates no transaction, and moves
  -- every stored one by a chain of the steps that its saves make.
  pub submit-Evolves :
      (gid : Text) (w : World S)
      → IsKeyed repo laws w
      → Evolves repo laws w (submit repo env m gid w).1
  unfolding submit
  submit-Evolves gid w keyed =
      load_then-Evolves repo laws env gid (submit_found repo env m) w keyed
        (λ w'. unfold submit_found in Evolves-refl repo laws w') (submit_found-Evolves gid)
