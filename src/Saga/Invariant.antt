-- ===== src/Saga/Invariant.antt =====
-- The invariant of the stored transactions, over any sequence of the manager's operations
-- (seata-server/src/saga.rs), whether they return or fail.
use seata.Base.{
  ◌≡◌, ◌≢◌, refl, sym, ◌∙◌, inl, inr, some, List, [], ◌∷◌, Text, Bytes, bytes, is_empty, text_eq→eq,
  then_pure, ℕ, if◌then◌else◌, suc,
}
use seata.Domain.{GlobalTxn, aborting, new_txn, ℤ}
use seata.Repo.{TxnRepo, RepoLaws}
use seata.Saga.World.{World, Env, SagaManager, on_store}
use seata.Saga.Manager.{start, submit, abort, add_branch, branch_succeed, branch_fail}
use seata.Saga.Steps.{view}
use seata.Saga.Spec.{IsKeyed}
use seata.Saga.Evolution.{◌⟶*◌, ⟶*-Keeps, ⟶*-never_aborting}
use seata.Saga.Unique.{IsUnique, ⟶*-IsUnique}
use seata.Saga.Histories.Submission.{submit-Evolves}
use seata.Saga.Histories.{
  Evolves, abort-Evolves, add_branch-Evolves, branch_succeed-Evolves, branch_fail-Evolves,
}

-- A transaction that is stored under `j`.
pub record IsWell (j : Text) (tx : GlobalTxn) : Type 0 where
  pub own_gid : tx.gid ≡ j
  pub has_gid : tx.gid ≢ []
  pub not_aborting : tx.status ≢ aborting
  pub unique : IsUnique tx.branches

-- A chain of saves keeps a transaction well-formed.
pub ⟶*-IsWell : {j : Text} {s t : GlobalTxn} → s ⟶* t → IsWell j s → IsWell j t
⟶*-IsWell steps well =
    let kept = ⟶*-Keeps steps in
    record {
      own_gid = kept.gid ∙ well.own_gid;
      has_gid = λ empty. well.has_gid (sym kept.gid ∙ empty);
      not_aborting = ⟶*-never_aborting steps well.not_aborting;
      unique = ⟶*-IsUnique steps well.unique;
    }

-- A new transaction is well-formed if its gid is not empty.
pub new_txn-IsWell :
    (gid mode : Text) (payload : Bytes) (at : ℤ)
    → gid ≢ []
    → IsWell gid (new_txn gid mode payload at)
new_txn-IsWell gid mode payload at has = record {
  own_gid = refl;
  has_gid = has;
  not_aborting = λ e. cc;
  unique = tt;
}

-- A call of one of the operations that change state.
pub data Op : Type 0 where
  op_start : Text → Text → Bytes → Op
  op_submit op_abort : Text → Op
  op_add : Text → Text → Text → Op
  op_succeed op_fail : Text → Text → Op

module _ {S : Type 0} (repo : TxnRepo S) (env : Env) (m : SagaManager) where
  -- The state after a call; an error ends only the call.
  unfoldable pub apply : Op → World S → World S
  apply (op_start gid mode payload) w = (start repo env gid mode payload w).1
  apply (op_submit gid) w = (submit repo env m gid w).1
  apply (op_abort gid) w = (abort repo env gid w).1
  apply (op_add gid branch_id action) w = (add_branch repo env gid branch_id action w).1
  apply (op_succeed gid branch_id) w = (branch_succeed repo env gid branch_id w).1
  apply (op_fail gid branch_id) w = (branch_fail repo env gid branch_id w).1

  unfoldable pub run : List Op → World S → World S
  unfolding apply
  run [] w = w
  run (o ∷ os) w = run os (apply o w)

module _ {S : Type 0} (repo : TxnRepo S) (laws : RepoLaws repo) where
  pub record AllWell (w : World S) : Type 0 where
    pub at : (j : Text) (tx : GlobalTxn) → view repo laws w j ≡ some tx → IsWell j tx

  pub AllWell-IsKeyed : {w : World S} → AllWell w → IsKeyed repo laws w
  AllWell-IsKeyed h = record { own_gid = λ j tx e. (h.at j tx e).own_gid }

  Evolves-AllWell : (w w' : World S) → AllWell w → Evolves repo laws w w' → AllWell w'
  Evolves-AllWell w w' h ev = record {
    at = λ j tx e. let (s, old, steps) = ev j tx e in ⟶*-IsWell steps (h.at j s old);
  }

module _ {S : Type 0} (repo : TxnRepo S) (laws : RepoLaws repo) (env : Env) where
  saved_new-AllWell :
      (gid mode : Text) (payload : Bytes) (at : ℤ) (w : World S)
      → gid ≢ []
      → AllWell repo laws w
      → AllWell repo laws (on_store (repo.save (new_txn gid mode payload at)) w).1
  saved_new-AllWell gid mode payload at w has h = record {
    at = λ j tx e. elim (laws.save_either (new_txn gid mode payload at) w.store j) [
      | inl same ↦ h.at j tx (sym same ∙ e)
      | inr (here, saved) ↦
          let is_tx : new_txn gid mode payload at ≡ tx = cc in
          rw (← text_eq→eq gid j here, ← is_tx) (new_txn-IsWell gid mode payload at has)
    ];
  }

  start-AllWell :
      (gid mode : Text) (payload : Bytes) (w : World S)
      → ((n : ℕ) → env.uuid n ≢ [])
      → AllWell repo laws w
      → AllWell repo laws (start repo env gid mode payload w).1
  unfolding start
  start-AllWell [] mode payload w fresh h =
      let mode' = if is_empty mode then bytes "saga" else mode in
      let w' = record w { readings = suc w.readings; uuids = suc w.uuids } in
      let tx = new_txn (env.uuid w.uuids) mode' payload (env.clock w.readings) in
      rw (then_pure (on_store (repo.save tx)) (env.uuid w.uuids) w') (
        saved_new-AllWell (env.uuid w.uuids) mode' payload (env.clock w.readings) w' (fresh w.uuids)
          (record { at = h.at }))
  start-AllWell (c ∷ gid) mode payload w fresh h =
      let mode' = if is_empty mode then bytes "saga" else mode in
      let w' = record w { readings = suc w.readings } in
      let tx = new_txn (c ∷ gid) mode' payload (env.clock w.readings) in
      rw (then_pure (on_store (repo.save tx)) (c ∷ gid) w') (
        saved_new-AllWell (c ∷ gid) mode' payload (env.clock w.readings) w' (λ e. cc)
          (record { at = h.at }))

module _ {S : Type 0} (repo : TxnRepo S) (laws : RepoLaws repo) (env : Env) (m : SagaManager) where
  pub apply-AllWell :
      (o : Op) (w : World S)
      → ((n : ℕ) → env.uuid n ≢ [])
      → AllWell repo laws w
      → AllWell repo laws (apply repo env m o w)
  unfolding apply
  apply-AllWell (op_start gid mode payload) w fresh h =
      start-AllWell repo laws env gid mode payload w fresh h
  apply-AllWell (op_submit gid) w fresh h =
      Evolves-AllWell repo laws w _ h
        (submit-Evolves repo laws env m gid w (AllWell-IsKeyed repo laws h))
  apply-AllWell (op_abort gid) w fresh h =
      Evolves-AllWell repo laws w _ h
        (abort-Evolves repo laws env gid w (AllWell-IsKeyed repo laws h))
  apply-AllWell (op_add gid branch_id action) w fresh h =
      Evolves-AllWell repo laws w _ h
        (add_branch-Evolves repo laws env gid branch_id action w (AllWell-IsKeyed repo laws h))
  apply-AllWell (op_succeed gid branch_id) w fresh h =
      Evolves-AllWell repo laws w _ h
        (branch_succeed-Evolves repo laws env gid branch_id w (AllWell-IsKeyed repo laws h))
  apply-AllWell (op_fail gid branch_id) w fresh h =
      Evolves-AllWell repo laws w _ h
        (branch_fail-Evolves repo laws env gid branch_id w (AllWell-IsKeyed repo laws h))

  -- Over a lawful repository that holds well-formed transactions only (an empty one does), and with
  -- UUIDs that are not empty, after any calls, returning or failing: every stored transaction stands
  -- under its own, non-empty gid, is not in the status Aborting, and has branches with different ids.
  pub run-AllWell :
      (os : List Op) (w : World S)
      → ((n : ℕ) → env.uuid n ≢ [])
      → AllWell repo laws w
      → AllWell repo laws (run repo env m os w)
  unfolding run
  run-AllWell [] w fresh h = h
  run-AllWell (o ∷ os) w fresh h =
      run-AllWell os (apply repo env m o w) fresh (apply-AllWell o w fresh h)
