-- ===== src/Saga/Concurrent/Alone.antt =====
-- The programs of the requests are the operations of the manager (seata-server/src/saga.rs).
use seata.Saga.Concurrent.Awaited.{alone-await_tasks}
use seata.Saga.Ending.{execute_step}
use seata.Base.{
  ◌≡◌, refl, Option, none, some, Text, Bytes, is_empty, Result-cases, inl, inr, Bool-cases,
  Option-cases, then_pure, suc, Io, ok, ◌>>=◌, [], ◌∷◌, sym, ◌∙◌, bytes, if◌then◌else◌,
}
use seata.Domain.{GlobalTxn, committing, BranchStatus, succeed, failed, new_txn}
use seata.Repo.{TxnRepo}
use seata.Saga.World.{World, Env, SagaManager, on_store}
use seata.Saga.Settle.{final_status}
use seata.Saga.Manager.{
  stamp_and_save, start, abort_found, abort, add_branch_found, add_branch, set_branch_found,
  branch_succeed, branch_fail, conclude, run_branches, submit_found, submit, has_branch, set_branch,
}
use seata.Saga.Invariant.{Op, op_start, op_submit, op_abort, op_add, op_succeed, op_fail, apply}
use seata.Saga.Concurrent.{
  Program, finish, await_load, stamped_then, started, concluding, submitting, aborting_found,
  adding, setting, program, alone,
}

module _ {S : Type 0} (repo : TxnRepo S) (env : Env) (m : SagaManager) where
  alone_stamped :
      (tx : GlobalTxn) (rest : GlobalTxn → Program) (f : GlobalTxn → Io (World S) (Unit {0}))
      (w : World S)
      → ((t : GlobalTxn) (w' : World S) → alone repo env m (rest t) w' ≡ (f t w').1)
      → alone repo env m (stamped_then tx rest) w ≡ ((stamp_and_save repo env tx >>= f) w).1
  unfolding stamped_then alone stamp_and_save
  alone_stamped tx rest f w h =
      let tx' : GlobalTxn = record tx { updated_unix = env.clock w.readings } in
      elim (Result-cases (repo.save tx' w.store).0) [
        | inl (u, e) ↦ rw (alone, e) (h _ _)
        | inr (x, e) ↦ rw (alone, e)
      ]

  alone_load :
      (gid : Text) (rest : Option GlobalTxn → Program)
      (f : Option GlobalTxn → Io (World S) (Unit {0})) (w : World S)
      → ((t : Option GlobalTxn) (w' : World S) → alone repo env m (rest t) w' ≡ (f t w').1)
      → alone repo env m (await_load gid rest) w ≡ ((on_store (repo.load gid) >>= f) w).1
  unfolding alone
  alone_load gid rest f w h = elim (Result-cases (repo.load gid w.store).0) [
    | inl (found, e) ↦ rw (alone, e) (h _ _)
    | inr (x, e) ↦ rw (alone, e)
  ]

  alone-concluding :
      (tx : GlobalTxn) (w : World S)
      → alone repo env m (concluding tx) w ≡ (conclude repo env m tx w).1
  unfolding concluding conclude alone
  alone-concluding tx w =
      alone_stamped (record tx { status = final_status tx.branches }) (λ _. finish)
        (λ _ s. (ok tt, s)) w (λ t w'. refl)

  pub alone-submitting :
      (found : Option GlobalTxn) (w : World S)
      → alone repo env m (submitting found) w ≡ (submit_found repo env m found w).1
  unfolding submitting submit_found alone run_branches
  alone-submitting none w = refl
  alone-submitting (some tx) w =
      alone_stamped (record tx { status = committing }) _ (run_branches repo env m) w
        (λ t w'.
          rw (execute_step repo env m _ t w', alone-await_tasks repo env m t _ w')
            (alone_stamped _ concluding (conclude repo env m) _ alone-concluding))

  alone-aborting_found :
      (found : Option GlobalTxn) (w : World S)
      → alone repo env m (aborting_found found) w ≡ (abort_found repo env found w).1
  unfolding aborting_found abort_found alone
  alone-aborting_found none w = refl
  alone-aborting_found (some tx) w =
      alone_stamped _ (λ _. finish) (λ _ s. (ok tt, s)) w (λ t w'. refl)

  alone-adding :
      (branch_id action : Text) (found : Option GlobalTxn) (w : World S)
      → alone repo env m (adding branch_id action found) w
        ≡ (add_branch_found repo env branch_id action found w).1
  unfolding adding add_branch_found alone
  alone-adding branch_id action none w = refl
  alone-adding branch_id action (some tx) w = elim (Bool-cases (has_branch tx branch_id)) [
    | inl old ↦ rw old
    | inr new ↦ rw new (alone_stamped _ (λ _. finish) (λ _ s. (ok tt, s)) w (λ t w'. refl))
  ]

  alone-setting :
      (branch_id : Text) (status : BranchStatus) (found : Option GlobalTxn) (w : World S)
      → alone repo env m (setting branch_id status found) w
        ≡ (set_branch_found repo env branch_id status found w).1
  unfolding setting set_branch_found alone
  alone-setting branch_id status none w = refl
  alone-setting branch_id status (some tx) w =
      elim (Option-cases (set_branch branch_id status tx.branches)) [
        | inl missing ↦ rw (setting, set_branch_found, missing)
        | inr (bs, set) ↦
            rw (setting, set_branch_found, set)
              (alone_stamped _ (λ _. finish) (λ _ s. (ok tt, s)) w (λ t w'. refl))
      ]

  alone-started :
      (mode : Text) (payload : Bytes) (gid : Text) (w : World S)
      → let mode' = if is_empty mode then bytes "saga" else mode in
        let tx = new_txn gid mode' payload (env.clock w.readings) in
        alone repo env m (started mode payload gid) w
        ≡ (on_store (repo.save tx) (record w { readings = suc w.readings })).1
  unfolding started alone
  alone-started mode payload gid w =
      let mode' = if is_empty mode then bytes "saga" else mode in
      let tx = new_txn gid mode' payload (env.clock w.readings) in
      elim (Result-cases (repo.save tx w.store).0) [
        | inl (u, e) ↦ rw (alone, e)
        | inr (x, e) ↦ rw (alone, e)
      ]

  -- The program of a request, taking its turns without any other between them, has exactly the
  -- effect of the manager's operation, whether it returns or fails.
  pub alone-program : (o : Op) (w : World S) → alone repo env m (program o) w ≡ apply repo env m o w
  unfolding program apply submit abort add_branch branch_succeed branch_fail start alone
  alone-program (op_start [] mode payload) w =
      let mode' = if is_empty mode then bytes "saga" else mode in
      let tx = new_txn (env.uuid w.uuids) mode' payload (env.clock w.readings) in
      alone-started mode payload _ _
      ∙ sym (
          then_pure (on_store (repo.save tx)) (env.uuid w.uuids)
            (record w { readings = suc w.readings; uuids = suc w.uuids }))
  alone-program (op_start (c ∷ gid) mode payload) w =
      let mode' = if is_empty mode then bytes "saga" else mode in
      let tx = new_txn (c ∷ gid) mode' payload (env.clock w.readings) in
      alone-started mode payload _ _
      ∙ sym (then_pure (on_store (repo.save tx)) (c ∷ gid) (record w { readings = suc w.readings }))
  alone-program (op_submit gid) w = alone_load gid submitting _ w alone-submitting
  alone-program (op_abort gid) w = alone_load gid aborting_found _ w alone-aborting_found
  alone-program (op_add gid branch_id action) w =
      alone_load gid (adding branch_id action) _ w (alone-adding branch_id action)
  alone-program (op_succeed gid branch_id) w =
      alone_load gid (setting branch_id succeed) _ w (alone-setting branch_id succeed)
  alone-program (op_fail gid branch_id) w =
      alone_load gid (setting branch_id failed) _ w (alone-setting branch_id failed)
