-- ===== src/Saga/Spec.antt =====
-- What the manager's operations promise: each is a function on the transaction that its gid names,
-- and leaves every other transaction alone.
use mathlib.Core.Option
use seata.Base.{
  ◌≡◌, refl, ap, ◌∙◌, [], ◌∷◌, none, some, List, Text, map, text_eq, if◌then◌else◌, ℕ, suc,
}
use seata.Domain.{
  aborted, prepared, succeed, failed, is_succeed, BranchStatus, BranchTxn, GlobalTxn, ℤ,
}
use seata.Repo.{TxnRepo, RepoLaws}
use seata.Saga.World.{World, Env, SagaManager}
use seata.Saga.Branch.{run_task}
use seata.Saga.Settle.{final_status}
use seata.Saga.Settle.Reference.{settled}
use seata.Saga.Manager.{push_branch, has_branch, set_branch, fail_unfinished}
use seata.Saga.Steps.{view}

-- The effect of `add_branch` at a time.
abbrev pub added : Text → Text → ℤ → GlobalTxn → GlobalTxn
added branch_id action at tx =
    if has_branch tx branch_id
    then tx
    else record (push_branch tx branch_id action) { updated_unix = at }

-- The effect of `branch_succeed` and of `branch_fail`.
abbrev pub marked : Text → BranchStatus → ℤ → GlobalTxn → GlobalTxn
marked branch_id status at tx = elim (set_branch branch_id status tx.branches) [
  | none ↦ tx
  | some branches ↦ record tx { branches = branches; updated_unix = at }
]

-- The status of a branch after an `abort`.
abbrev pub rolled_status : BranchStatus → BranchStatus
rolled_status prepared = failed
rolled_status succeed = succeed
rolled_status failed = failed

abbrev pub rolled : BranchTxn → BranchTxn
rolled b = record b { status = rolled_status b.status }

-- The effect of `abort`.
abbrev pub rolled_back : ℤ → GlobalTxn → GlobalTxn
rolled_back at tx = record tx {
  branches = map rolled tx.branches;
  status = aborted;
  updated_unix = at;
}

failed_or_kept :
    (b : BranchTxn) (status : BranchStatus)
    → (if is_succeed status then record b { status = status } else record b { status = failed })
      ≡ record b { status = rolled_status status }
failed_or_kept b prepared = refl
failed_or_kept b succeed = refl
failed_or_kept b failed = refl

-- The loop of `abort` does that to each branch.
pub fail_unfinished-map : (bs : List BranchTxn) → fail_unfinished bs ≡ map rolled bs
unfolding fail_unfinished
fail_unfinished-map [] = refl
fail_unfinished-map (b ∷ bs) =
    ap (λ c. c ∷ fail_unfinished bs) (failed_or_kept b b.status)
    ∙ ap (λ l. rolled b ∷ l) (fail_unfinished-map bs)

-- The branches after a submission whose tasks are spawned after `epoch` readings of the clock.
abbrev pub executed_branches : SagaManager → Env → ℕ → GlobalTxn → List BranchTxn
executed_branches m env epoch tx =
    map (settled (run_task m.exec env epoch) tx (env.base64_encode tx.payload)) tx.branches

-- The effect of `submit` that begins after `readings` readings of the clock.
abbrev pub finished : SagaManager → Env → ℕ → GlobalTxn → GlobalTxn
finished m env readings tx =
    let branches = executed_branches m env (suc readings) tx in
    record tx {
      branches = branches;
      status = final_status branches;
      updated_unix = env.clock (suc (suc readings));
    }

module _ {S : Type 0} (repo : TxnRepo S) (laws : RepoLaws repo) where
  -- Every transaction is stored under its own gid.
  pub record IsKeyed (w : World S) : Type 0 where
    pub own_gid : (j : Text) (tx : GlobalTxn) → view repo laws w j ≡ some tx → tx.gid ≡ j

  -- `w'` is `w` with `f` applied to what is stored under `gid`, if anything is.
  pub record Alters (gid : Text) (f : GlobalTxn → GlobalTxn) (w w' : World S) : Type 0 where
    pub at :
        (j : Text)
        → view repo laws w' j
          ≡ (if text_eq gid j then Option.map f (view repo laws w gid) else view repo laws w j)
