-- ===== src/Saga/Settle.antt =====
-- The parts of `SagaManager::submit` that are pure (seata-server/src/saga.rs): the requests of the
-- prepared branches, the collection of their results, the final status and the metrics.
pub mod Reference
use seata.Base.{
  ℕ, zero, suc, ◌+◌, Bool, true, false, Option, none, some, List, [], ◌∷◌, Text, any, all,
  unwrap_or, if◌then◌else◌,
}
use seata.Domain.{
  GlobalStatus, committed, aborted, BranchStatus, succeed, failed, is_prepared, is_succeed,
  is_failed, BranchTxn, GlobalTxn,
}
use seata.Saga.World.{Request, SagaMetrics}

-- What the task of one branch posts.
abbrev pub branch_request : GlobalTxn → Text → BranchTxn → Request
branch_request tx encoded_payload b = record {
  url = b.action;
  body = record {
    gid = tx.gid;
    branch_id = b.branch_id;
    mode = tx.mode;
    payload = encoded_payload;
  };
}

-- The loop that spawns a task for each prepared branch and skips the others.
unfoldable pub requests : GlobalTxn → Text → List BranchTxn → List Request
requests tx encoded_payload [] = []
requests tx encoded_payload (b ∷ bs) =
    let rest = requests tx encoded_payload bs in
    if is_prepared b.status then branch_request tx encoded_payload b ∷ rest else rest

-- The indices of the prepared branches, counted from `i` on.
unfoldable pub prepared_indices : ℕ → List BranchTxn → List ℕ
prepared_indices i [] = []
prepared_indices i (b ∷ bs) =
    let rest = prepared_indices (suc i) bs in if is_prepared b.status then i ∷ rest else rest

-- `branches[i].status = status`
unfoldable pub set_status : ℕ → BranchStatus → List BranchTxn → List BranchTxn
set_status i status [] = []
set_status zero status (b ∷ bs) = record b { status = status } ∷ bs
set_status (suc i) status (b ∷ bs) = b ∷ set_status i status bs

-- `h.await.unwrap_or(false)` as a status
abbrev pub joined_status : Option Bool → BranchStatus
joined_status h = if unwrap_or false h then succeed else failed

-- The loop over the indices and the join handles.
unfoldable pub settle : List (ℕ × Option Bool) → List BranchTxn → List BranchTxn
settle [] bs = bs
settle ((i, h) ∷ rest) bs = settle rest (set_status i (joined_status h) bs)

unfoldable pub final_status : List BranchTxn → GlobalStatus
final_status bs =
    if all (λ b. is_succeed b.status) bs
    then committed
    else if any (λ b. is_failed b.status) bs
    then aborted
    else committed

-- The counters after the tasks: a task that succeeds counts itself, the others are counted where
-- they are joined; every one adds an observation of its latency.
unfoldable pub count_task : Option Bool → SagaMetrics → SagaMetrics
count_task h m =
    if unwrap_or false h
    then record m {
      branch_success_total = suc m.branch_success_total;
      branch_latency_count = suc m.branch_latency_count;
    }
    else record m {
      branch_failure_total = suc m.branch_failure_total;
      branch_latency_count = suc m.branch_latency_count;
    }

unfoldable pub count_tasks : List (Option Bool) → SagaMetrics → SagaMetrics
count_tasks [] m = m
count_tasks (h ∷ hs) m = count_tasks hs (count_task h m)
