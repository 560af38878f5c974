-- ===== src/Saga/Submit.antt =====
-- `submit` does what Saga/Spec.antt says, and executes each prepared branch once.
use mathlib.Core.Path.{subst}
use seata.Base.{
  ◌≡◌, refl, sym, ap, ◌∙◌, none, some, ◌++◌, Text, Result, ok, if◌then◌else◌, bind_ok, suc,
}
use seata.Domain.{GlobalTxn, committing}
use seata.Repo.{TxnRepo, RepoLaws}
use seata.Saga.World.{World, Env, SagaManager, on_store}
use seata.Saga.Branch.{run_task}
use seata.Saga.Settle.{final_status, count_tasks}
use seata.Saga.Settle.Reference.{map-settled-same, requests-same}
use seata.Saga.Manager.{
  stamp_and_save, run_branches, submit_found, submit, submit_requests, submit_results,
}
use seata.Saga.Steps.{view, Updated, load_lem, stamp_and_save_lem}
use seata.Saga.Spec.{finished, executed_branches, IsKeyed, Alters}
use seata.Saga.Edits.{FoundAlters, load_then, Updated-Alters, unchanged-Alters}
use seata.Saga.Ending.{Updated-trans, run_branches_lem}

module _ {S : Type 0} (repo : TxnRepo S) (laws : RepoLaws repo) (env : Env) (m : SagaManager) where
  -- What a submission of `tx` that returns has done.
  pub record Submitted (tx : GlobalTxn) (w w' : World S) : Type 0 where
    pub outcome : Updated repo laws (finished m env w.readings tx) w w'
    pub spawned : w'.spawned ≡ w.spawned ++ submit_requests env tx
    pub metrics : w'.metrics ≡ (
        if m.has_metrics
        then count_tasks (submit_results m env (suc w.readings) tx) w.metrics
        else w.metrics)

  -- The first save and the rest make the whole, with what the first save stored written out.
  Submitted-from :
      (tx tx' : GlobalTxn) (w w1 w2 : World S)
      → tx' ≡ record tx { status = committing; updated_unix = env.clock w.readings }
      → Updated repo laws tx' w w1
      → w1.readings ≡ suc w.readings
      → w1.spawned ≡ w.spawned
      → w1.metrics ≡ w.metrics
      → Updated repo laws
          (record tx' {
            branches = executed_branches m env w1.readings tx';
            status = final_status (executed_branches m env w1.readings tx');
            updated_unix = env.clock (suc w1.readings);
          })
          w1
          w2
      → w2.spawned ≡ w1.spawned ++ submit_requests env tx'
      → w2.metrics ≡ (
          if m.has_metrics
          then count_tasks (submit_results m env w1.readings tx') w1.metrics
          else w1.metrics)
      → Submitted tx w w2
  Submitted-from tx tx' w w1 w2 stamped u r s c final s' c' =
      let marked : GlobalTxn = record tx {
        status = committing;
        updated_unix = env.clock w.readings;
      } in
      let encoded = env.base64_encode tx.payload in
      let same_branches =
        map-settled-same (run_task m.exec env (suc w.readings)) marked tx encoded tx.branches refl
          refl in
      let same_requests = requests-same marked tx encoded tx.branches refl refl in
      record {
        outcome =
            Updated-trans repo laws tx' (finished m env w.readings tx) w w1 w2
              (ap (λ (t : GlobalTxn). t.gid) stamped) u
              (subst (λ t. Updated repo laws t w1 w2) (rw (stamped, r, same_branches)) final);
        spawned = s' ∙ rw (s, stamped, same_requests);
        metrics = c' ∙ rw (c, r, stamped, same_requests);
      }

  pub submit_found_lem :
      (tx : GlobalTxn) (w : World S)
      → (submit_found repo env m (some tx) w).0 ≡ ok tt
      → Submitted tx w (submit_found repo env m (some tx) w).1
  unfolding submit_found
  submit_found_lem tx w h =
      let committing_tx : GlobalTxn = record tx { status = committing } in
      let w1 = (stamp_and_save repo env committing_tx w).1 in
      let (tx', saved, rest) =
        bind_ok (stamp_and_save repo env committing_tx) (run_branches repo env m) w tt h in
      let (stamped, updated, one_more, spawned, metrics) =
        stamp_and_save_lem repo laws env committing_tx tx' w saved in
      let run : (run_branches repo env m tx' w1).0 ≡ ok tt =
        sym (ap (λ (p : Result Unit × World S). p.0) rest) ∙ h in
      let (final, spawned', metrics') = run_branches_lem repo laws env m tx' w1 run in
      rw rest (
        Submitted-from tx tx' w w1 (run_branches repo env m tx' w1).1 stamped updated one_more
          spawned metrics final spawned' metrics')

  submit_found-Alters :
      (gid : Text) (w : World S)
      → FoundAlters repo laws gid (finished m env w.readings) (submit_found repo env m) w
  submit_found-Alters gid w none e keyed h =
      unfold submit_found in unchanged-Alters repo laws gid _ none w e refl
  submit_found-Alters gid w (some tx) e keyed h =
      Updated-Alters repo laws gid (finished m env w.readings) tx (finished m env w.readings tx) w
        (submit_found repo env m (some tx) w).1 e (keyed.own_gid gid tx e) refl
        (submit_found_lem tx w h).outcome

  -- Over a lawful repository whose transactions stand under their own gids, a `submit` that
  -- returns gives every prepared branch the status that its task returned, the transaction the
  -- final status of its branches, if it exists, and changes nothing else.
  pub submit_lem :
      (gid : Text) (w : World S)
      → IsKeyed repo laws w
      → (submit repo env m gid w).0 ≡ ok tt
      → Alters repo laws gid (finished m env w.readings) w (submit repo env m gid w).1
  unfolding submit
  submit_lem gid w keyed h =
      load_then repo laws gid (finished m env w.readings) (submit_found repo env m) w
        (submit_found-Alters gid (on_store (repo.load gid) w).1) keyed h

  -- Over a lawful repository, a `submit` of a stored transaction that returns has spawned one task
  -- for each prepared branch, in order, and, if there are metrics, has counted each result once.
  pub submit_spawns :
      (gid : Text) (tx : GlobalTxn) (w : World S)
      → view repo laws w gid ≡ some tx
      → (submit repo env m gid w).0 ≡ ok tt
      → ((submit repo env m gid w).1.spawned ≡ w.spawned ++ submit_requests env tx)
        × ((submit repo env m gid w).1.metrics ≡ (
            if m.has_metrics
            then count_tasks (submit_results m env (suc w.readings) tx) w.metrics
            else w.metrics))
  unfolding submit
  submit_spawns gid tx w e h =
      let w1 = (on_store (repo.load gid) w).1 in
      let (found, loaded, rest) =
        bind_ok (on_store (repo.load gid)) (submit_found repo env m) w tt h in
      let is_tx : found ≡ some tx = sym (load_lem repo laws gid w found loaded) ∙ e in
      let run = sym (ap (λ (p : Result Unit × World S). p.0) rest) ∙ h in
      let done = submit_found_lem tx w1 (rw is_tx at run) in
      rw (rest, is_tx) (done.spawned, done.metrics)
