-- ===== src/Saga/Ending.antt =====
-- The last steps of a submission: the execution, the save of its results, and the conclusion
-- (seata-server/src/saga.rs).
use mathlib.Core.Path.{subst}
use seata.Base.{
  ◌≡◌, sym, ap, ◌∙◌, ◌++◌, Result, ok, Io, ◌>>=◌, pure, text_eq, if◌then◌else◌, Bool-cases, inl,
  inr, bind_ok, bind_step, suc,
}
use seata.Domain.{GlobalTxn}
use seata.Repo.{TxnRepo, RepoLaws}
use seata.Saga.World.{World, Env, SagaManager}
use seata.Saga.Settle.{final_status, count_tasks}
use seata.Saga.Manager.{
  stamp_and_save, execute, conclude, run_branches, submit_requests, submit_results,
}
use seata.Saga.Joined.{joined, execute-joined}
use seata.Saga.Steps.{Updated, stamp_and_save_lem}
use seata.Saga.Spec.{executed_branches}

module _ {S : Type 0} (repo : TxnRepo S) (laws : RepoLaws repo) where
  -- Two updates of one transaction are the second one.
  pub Updated-trans :
      (tx tx' : GlobalTxn) (w w' w'' : World S)
      → tx.gid ≡ tx'.gid
      → Updated repo laws tx w w'
      → Updated repo laws tx' w' w''
      → Updated repo laws tx' w w''
  Updated-trans tx tx' w w' w'' same u v = record {
    at = λ j. elim (Bool-cases (text_eq tx'.gid j)) [
      | inl here ↦ rw here (v.at j ∙ rw here)
      | inr other ↦ rw other (v.at j ∙ rw other (u.at j ∙ rw (same, other)))
    ];
  }

module _ {S : Type 0} (repo : TxnRepo S) (env : Env) (m : SagaManager) where
  pub execute_lem :
      (tx : GlobalTxn) (w : World S)
      → (execute repo env m tx w).0
        ≡ ok (record tx { branches = executed_branches m env w.readings tx })
  execute_lem tx w = ap (λ (p : Result GlobalTxn × World S). p.0) (execute-joined repo env m tx w)

module _ {S : Type 0} (repo : TxnRepo S) (env : Env) (m : SagaManager) where
  -- A computation that begins with the execution goes on from its result.
  pub execute_step :
      {B : Type 0} (f : GlobalTxn → Io (World S) B) (tx : GlobalTxn) (w : World S)
      → (execute repo env m tx >>= f) w
        ≡ f
            (record tx { branches = executed_branches m env w.readings tx })
            (joined repo env m tx w).1
  execute_step f tx w =
      let executed : GlobalTxn = record tx { branches = executed_branches m env w.readings tx } in
      bind_step (execute repo env m tx) f w executed (execute_lem repo env m tx w)
      ∙ ap (λ p. f executed p.1) (execute-joined repo env m tx w)

module _ {S : Type 0} (repo : TxnRepo S) (laws : RepoLaws repo) (env : Env) (m : SagaManager) where
  -- What the last steps of a submission have done to `w`, where `tx` is what they saved last.
  abbrev pub Concluded : GlobalTxn → World S → World S → Type 0
  Concluded tx w w' =
      Updated repo laws tx w w' × (w'.spawned ≡ w.spawned) × (w'.metrics ≡ w.metrics)

  pub conclude_lem :
      (tx : GlobalTxn) (w : World S)
      → (conclude repo env m tx w).0 ≡ ok tt
      → Concluded
          (record tx { status = final_status tx.branches; updated_unix = env.clock w.readings })
          w
          (conclude repo env m tx w).1
  unfolding conclude
  conclude_lem tx w h =
      let step = stamp_and_save repo env (record tx { status = final_status tx.branches }) in
      let (tx', saved, rest) = bind_ok step (λ _. pure tt) w tt h in
      let (stamped, updated, _, same_spawned, same_metrics) =
        stamp_and_save_lem repo laws env _ tx' w saved in
      rw rest (rw stamped at updated, same_spawned, same_metrics)

  abbrev pub persist : GlobalTxn → Io (World S) Unit
  persist tx = stamp_and_save repo env tx >>= conclude repo env m

  pub persist_lem :
      (tx : GlobalTxn) (w : World S)
      → (persist tx w).0 ≡ ok tt
      → Concluded
          (record tx {
            status = final_status tx.branches;
            updated_unix = env.clock (suc w.readings);
          })
          w
          (persist tx w).1
  persist_lem tx w h =
      let w1 = (stamp_and_save repo env tx w).1 in
      let (tx', saved, rest) = bind_ok (stamp_and_save repo env tx) (conclude repo env m) w tt h in
      let (stamped, updated, one_more, spawned, metrics) =
        stamp_and_save_lem repo laws env tx tx' w saved in
      let h' = sym (ap (λ (p : Result Unit × World S). p.0) rest) ∙ h in
      let (final, spawned', metrics') = conclude_lem tx' w1 h' in
      let last : GlobalTxn = record tx' {
        status = final_status tx'.branches;
        updated_unix = env.clock w1.readings;
      } in
      let e : last ≡ record tx {
        status = final_status tx.branches;
        updated_unix = env.clock (suc w.readings);
      } =
        cc (stamped, one_more) in
      rw rest (
        Updated-trans repo laws tx' _ w w1 _ (ap (λ (t : GlobalTxn). t.gid) stamped) updated
            (subst (λ t. Updated repo laws t w1 (conclude repo env m tx' w1).1) e final),
        spawned' ∙ spawned,
        metrics' ∙ metrics,
      )

  pub run_branches_lem :
      (tx : GlobalTxn) (w : World S)
      → (run_branches repo env m tx w).0 ≡ ok tt
      → let w' = (run_branches repo env m tx w).1 in
        let branches = executed_branches m env w.readings tx in
        Updated repo laws
          (record tx {
            branches = branches;
            status = final_status branches;
            updated_unix = env.clock (suc w.readings);
          })
          w
          w'
        × (w'.spawned ≡ w.spawned ++ submit_requests env tx)
        × (w'.metrics ≡ (
            if m.has_metrics
            then count_tasks (submit_results m env w.readings tx) w.metrics
            else w.metrics))
  unfolding run_branches
  run_branches_lem tx w h =
      let executed : GlobalTxn = record tx { branches = executed_branches m env w.readings tx } in
      let w1 = (joined repo env m tx w).1 in
      let skip = execute_step repo env m persist tx w in
      let h' = sym (ap (λ (p : Result Unit × World S). p.0) skip) ∙ h in
      let (updated, spawned, metrics) = persist_lem executed w1 h' in
      rw skip (record { at = updated.at }, spawned, metrics)
