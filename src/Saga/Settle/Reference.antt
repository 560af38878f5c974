-- ===== src/Saga/Settle/Reference.antt =====
-- The loops over indices and join handles compute a plain map over the branches.
use seata.Base.{
  ℕ, suc, ◌+◌, ◌≡◌, refl, Bool, true, false, Option, List, [], ◌∷◌, Text, map, zip, all, any,
  length, if◌then◌else◌, arith, Bool-cases, inl, inr,
}
use seata.Domain.{committed, aborted, is_prepared, is_succeed, is_failed, BranchTxn, GlobalTxn}
use seata.Saga.World.{Request, SagaMetrics}
use seata.Saga.Settle.{
  branch_request, requests, prepared_indices, set_status, joined_status, settle, final_status,
  count_task, count_tasks,
}

prepared_indices-suc :
    (i : ℕ) (bs : List BranchTxn) → prepared_indices (suc i) bs ≡ map suc (prepared_indices i bs)
unfolding prepared_indices
prepared_indices-suc i [] = refl
prepared_indices-suc i (b ∷ bs) = ground (arith, prepared_indices-suc (suc i) bs)

settle-map-suc :
    (is : List ℕ) (hs : List (Option Bool)) (b : BranchTxn) (bs : List BranchTxn)
    → settle (zip (map suc is) hs) (b ∷ bs) ≡ b ∷ settle (zip is hs) bs
unfolding settle set_status
settle-map-suc [] hs b bs = refl
settle-map-suc (i ∷ is) [] b bs = refl
settle-map-suc (i ∷ is) (h ∷ hs) b bs = settle-map-suc is hs b (set_status i (joined_status h) bs)

settle_first :
    (h : Option Bool) (rest : List (ℕ × Option Bool)) (b : BranchTxn) (bs : List BranchTxn)
    → settle ((0, h) ∷ rest) (b ∷ bs) ≡ settle rest (record b { status = joined_status h } ∷ bs)
unfolding settle set_status
settle_first h rest b bs = refl

module _ (run : Request → Option Bool) (tx : GlobalTxn) (encoded : Text) where
  -- A prepared branch takes the status that its task returned; the others stay as they are.
  unfoldable pub settled : BranchTxn → BranchTxn
  settled b =
      if is_prepared b.status
      then record b { status = joined_status (run (branch_request tx encoded b)) }
      else b

  -- Writing the results of the tasks back by the indices of the prepared branches is the map that
  -- gives each prepared branch the result of its own task: no result goes to another branch.
  pub settle-eq-map :
      (bs : List BranchTxn)
      → settle (zip (prepared_indices 0 bs) (map run (requests tx encoded bs))) bs ≡ map settled bs
  unfolding prepared_indices requests settled
  settle-eq-map [] = unfold settle in refl
  settle-eq-map (b ∷ bs) = elim (Bool-cases (is_prepared b.status)) [
    | inl p ↦ rw (p, settle_first, prepared_indices-suc, settle-map-suc, settle-eq-map bs)
    | inr p ↦ rw (p, prepared_indices-suc, settle-map-suc, settle-eq-map bs)
  ]

  -- After the tasks no branch is prepared.
  pub none_prepared :
      (bs : List BranchTxn) → any (λ b. is_prepared b.status) (map settled bs) ≡ false
  unfolding settled
  none_prepared [] = refl
  none_prepared (b ∷ bs) = ground (arith, none_prepared bs)

  -- Once settled, a branch is not executed again.
  pub requests-settled :
      (tx' : GlobalTxn) (encoded' : Text) (bs : List BranchTxn)
      → requests tx' encoded' (map settled bs) ≡ []
  unfolding settled requests
  requests-settled tx' encoded' [] = refl
  requests-settled tx' encoded' (b ∷ bs) = ground (arith, requests-settled tx' encoded' bs)

none_failed :
    (bs : List BranchTxn)
    → all (λ b. is_succeed b.status) bs ≡ true
    → any (λ b. is_failed b.status) bs ≡ false
none_failed [] h = refl
none_failed (b ∷ bs) h = ground (arith, none_failed bs)

-- The last `else` of the choice never matters: a failed branch aborts, and nothing else does.
pub final_status-eq :
    (bs : List BranchTxn)
    → final_status bs ≡ (if any (λ b. is_failed b.status) bs then aborted else committed)
unfolding final_status
final_status-eq bs = elim (Bool-cases (all (λ b. is_succeed b.status) bs)) [
  | inl good ↦ rw (good, none_failed bs good)
  | inr bad ↦ rw bad
]

-- The counters account for every task: each is a success or a failure, and has one latency.
pub count_tasks_conserve :
    (hs : List (Option Bool)) (m : SagaMetrics)
    → ((count_tasks hs m).branch_success_total + (count_tasks hs m).branch_failure_total
        ≡ m.branch_success_total + m.branch_failure_total + length hs)
      × ((count_tasks hs m).branch_latency_count ≡ m.branch_latency_count + length hs)
unfolding count_tasks count_task
count_tasks_conserve [] m = omega arith
count_tasks_conserve (h ∷ hs) m = grind (arith, count_tasks_conserve hs (count_task h m))

-- The requests and the settled branches depend on the transaction's gid and mode only.
pub requests-same :
    (tx tx' : GlobalTxn) (encoded : Text) (bs : List BranchTxn)
    → tx.gid ≡ tx'.gid
    → tx.mode ≡ tx'.mode
    → requests tx encoded bs ≡ requests tx' encoded bs
unfolding requests
requests-same tx tx' encoded [] g m = refl
requests-same tx tx' encoded (b ∷ bs) g m = ground (arith, requests-same tx tx' encoded bs g m)

pub map-settled-same :
    (run : Request → Option Bool) (tx tx' : GlobalTxn) (encoded : Text) (bs : List BranchTxn)
    → tx.gid ≡ tx'.gid
    → tx.mode ≡ tx'.mode
    → map (settled run tx encoded) bs ≡ map (settled run tx' encoded) bs
unfolding settled
map-settled-same run tx tx' encoded [] g m = refl
map-settled-same run tx tx' encoded (b ∷ bs) g m =
    ground (arith, map-settled-same run tx tx' encoded bs g m)
