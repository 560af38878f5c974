-- ===== src/Saga/Outcomes.antt =====
-- What a submission decides, and what it does when it is repeated or follows an abort
-- (seata-server/src/saga.rs).

use seata.Base.{
  ◌≡◌, refl, sym, ◌∙◌, Bool, not, false, Option, some, List, [], ◌∷◌, Text, map, any, all, ok,
  arith, text_eq_refl, if◌then◌else◌, suc,
}
use mathlib.Core.List.{append-nil}
use seata.Domain.{
  GlobalTxn, BranchTxn, BranchStatus, prepared, succeed, failed, aborted, committed, is_prepared,
  is_failed, is_succeed,
}
use seata.Repo.{TxnRepo, RepoLaws}
use seata.Saga.World.{World, Env, SagaManager, Request}
use seata.Saga.Branch.{run_task}
use seata.Saga.Settle.{requests}
use seata.Saga.Settle.Reference.{settled, none_prepared, final_status-eq}
use seata.Saga.Manager.{submit, abort}
use seata.Saga.Steps.{view}
use seata.Saga.Spec.{
  IsKeyed, Alters, finished, executed_branches, rolled_back, rolled, rolled_status,
}
use seata.Saga.Edits.{abort_lem}
use seata.Saga.Submit.{submit_lem, submit_spawns}

-- A list without prepared branches is left as it is by an execution, and asks for nothing.
settled_done :
    (run : Request → Option Bool) (tx : GlobalTxn) (encoded : Text) (bs : List BranchTxn)
    → any (λ b. is_prepared b.status) bs ≡ false
    → (map (settled run tx encoded) bs ≡ bs) × (requests tx encoded bs ≡ [])
unfolding settled requests
settled_done run tx encoded [] h = (refl, refl)
settled_done run tx encoded (b ∷ bs) h = ground (arith, settled_done run tx encoded bs)

-- A branch that is rolled back is not prepared, and has failed unless it had succeeded.
rolled_over :
    (status : BranchStatus)
    → (is_prepared (rolled_status status) ≡ false)
      × (is_failed (rolled_status status) ≡ not (is_succeed status))
rolled_over prepared = (refl, refl)
rolled_over succeed = (refl, refl)
rolled_over failed = (refl, refl)

rolled-done : (bs : List BranchTxn) → any (λ b. is_prepared b.status) (map rolled bs) ≡ false
rolled-done [] = refl
rolled-done (b ∷ bs) = rw (rolled_over b.status).0 (rolled-done bs)

rolled-any_failed :
    (bs : List BranchTxn)
    → (if any (λ b. is_failed b.status) (map rolled bs) then aborted else committed)
      ≡ (if all (λ b. is_succeed b.status) bs then committed else aborted)
rolled-any_failed [] = refl
rolled-any_failed (b ∷ bs) =
    let (_, none_failed) = rolled_over b.status in
    rw none_failed (ground (arith, rolled-any_failed bs))

module _ {S : Type 0} (repo : TxnRepo S) (laws : RepoLaws repo) (env : Env) (m : SagaManager) where
  stored_after :
      (gid : Text) (f : GlobalTxn → GlobalTxn) (tx : GlobalTxn) (w w' : World S)
      → view repo laws w gid ≡ some tx
      → Alters repo laws gid f w w'
      → view repo laws w' gid ≡ some (f tx)
  stored_after gid f tx w w' e alters = alters.at gid ∙ rw (text_eq_refl gid, e)

  -- Over a lawful repository whose transactions stand under their own gids, a `submit` of a stored
  -- transaction that returns leaves no branch prepared, and decides: Aborted if a branch has
  -- failed, now or before, and Committed otherwise.
  pub submit_decides :
      (gid : Text) (tx : GlobalTxn) (w : World S)
      → IsKeyed repo laws w
      → view repo laws w gid ≡ some tx
      → (submit repo env m gid w).0 ≡ ok tt
      → (tx' : GlobalTxn) × (view repo laws (submit repo env m gid w).1 gid ≡ some tx')
        × (any (λ b. is_prepared b.status) tx'.branches ≡ false)
        × (tx'.status ≡ (if any (λ b. is_failed b.status) tx'.branches then aborted else committed))
  submit_decides gid tx w keyed e h = (
    finished m env w.readings tx,
    stored_after gid _ tx w _ e (submit_lem repo laws env m gid w keyed h),
    none_prepared (run_task m.exec env (suc w.readings)) tx (env.base64_encode tx.payload)
        tx.branches,
    final_status-eq (executed_branches m env (suc w.readings) tx),
  )

  -- A `submit` that returns, of a stored transaction without prepared branches, spawns nothing and
  -- keeps the branches; the status is decided anew from them.
  submit_done :
      (gid : Text) (tx : GlobalTxn) (w : World S)
      → IsKeyed repo laws w
      → view repo laws w gid ≡ some tx
      → any (λ b. is_prepared b.status) tx.branches ≡ false
      → (submit repo env m gid w).0 ≡ ok tt
      → (tx' : GlobalTxn) × (view repo laws (submit repo env m gid w).1 gid ≡ some tx')
        × (tx'.branches ≡ tx.branches)
        × (tx'.status ≡ (if any (λ b. is_failed b.status) tx.branches then aborted else committed))
        × ((submit repo env m gid w).1.spawned ≡ w.spawned)
  submit_done gid tx w keyed e done h =
      let run = run_task m.exec env (suc w.readings) in
      let encoded = env.base64_encode tx.payload in
      let (same, nothing) = settled_done run tx encoded tx.branches done in
      (
        finished m env w.readings tx,
        stored_after gid _ tx w _ e (submit_lem repo laws env m gid w keyed h),
        same,
        final_status-eq (executed_branches m env (suc w.readings) tx) ∙ rw same,
        (submit_spawns repo laws env m gid tx w e h).0 ∙ rw nothing (append-nil w.spawned),
      )

  -- Over a lawful repository, after a first `submit` of a stored transaction a second one, both
  -- returning and in worlds whose transactions stand under their own gids, spawns no task, and the
  -- transaction keeps its branches and its status.
  pub submit-submit :
      (gid : Text) (tx : GlobalTxn) (w : World S)
      → IsKeyed repo laws w
      → IsKeyed repo laws (submit repo env m gid w).1
      → view repo laws w gid ≡ some tx
      → (submit repo env m gid w).0 ≡ ok tt
      → (submit repo env m gid (submit repo env m gid w).1).0 ≡ ok tt
      → let w1 = (submit repo env m gid w).1 in
        let w2 = (submit repo env m gid w1).1 in
        (t1 t2 : GlobalTxn) × (view repo laws w1 gid ≡ some t1)
        × (view repo laws w2 gid ≡ some t2)
        × (t2.branches ≡ t1.branches)
        × (t2.status ≡ t1.status)
        × (w2.spawned ≡ w1.spawned)
  submit-submit gid tx w keyed keyed' e h h' =
      let (t1, at_t1, done, decided) = submit_decides gid tx w keyed e h in
      let (t2, at_t2, same, again, quiet) =
        submit_done gid t1 (submit repo env m gid w).1 keyed' at_t1 done h' in
      (t1, t2, at_t1, at_t2, same, again ∙ sym decided, quiet)

  -- An abort is not final. Over a lawful repository, a `submit` of a transaction that follows its
  -- `abort`, both returning and in worlds whose transactions stand under their own gids, spawns
  -- nothing and commits the transaction if all its branches had succeeded before the abort;
  -- otherwise it stays aborted.
  pub submit-abort :
      (gid : Text) (tx : GlobalTxn) (w : World S)
      → IsKeyed repo laws w
      → IsKeyed repo laws (abort repo env gid w).1
      → view repo laws w gid ≡ some tx
      → (abort repo env gid w).0 ≡ ok tt
      → (submit repo env m gid (abort repo env gid w).1).0 ≡ ok tt
      → let w1 = (abort repo env gid w).1 in
        let w2 = (submit repo env m gid w1).1 in
        (t2 : GlobalTxn) × (view repo laws w2 gid ≡ some t2)
        × (t2.status ≡ (if all (λ b. is_succeed b.status) tx.branches then committed else aborted))
        × (w2.spawned ≡ w1.spawned)
  submit-abort gid tx w keyed keyed' e h h' =
      let t1 = rolled_back (env.clock w.readings) tx in
      let w1 = (abort repo env gid w).1 in
      let at_t1 = stored_after gid _ tx w w1 e (abort_lem repo laws env gid w keyed h) in
      let done = rolled-done tx.branches in
      let (t2, at_t2, same, again, quiet) = submit_done gid t1 w1 keyed' at_t1 done h' in
      (t2, at_t2, again ∙ rolled-any_failed tx.branches, quiet)
