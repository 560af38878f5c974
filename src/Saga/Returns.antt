-- ===== src/Saga/Returns.antt =====
-- The manager's operations fail only where the repository does (seata-server/src/saga.rs): no other
-- step of them fails, and none of their loops runs on.
use seata.Saga.Ending.{execute_lem}
use seata.Base.{
  ◌≡◌, refl, ap, ◌∙◌, Option, none, some, Text, Bytes, ok, Io, ◌>>=◌, ◌>>◌, pure, is_empty, bytes,
  Bool-cases, Option-cases, inl, inr, if◌then◌else◌, bind_step, suc, [], ◌∷◌,
}
use seata.Domain.{GlobalTxn, BranchStatus, succeed, failed, new_txn}
use seata.Repo.{TxnRepo}
use seata.Saga.World.{World, Env, SagaManager, on_store}
use seata.Saga.Manager.{
  start, submit, submit_found, run_branches, execute, conclude, abort, abort_found, add_branch,
  add_branch_found, branch_succeed, branch_fail, set_branch_found, set_branch, stamp_and_save,
  has_branch,
}

-- The calls of the repository return in every state.
pub record Answers {S : Type 0} (repo : TxnRepo S) : Type 0 where
  pub load_returns : (gid : Text) (s : S) → (r : Option GlobalTxn) × ((repo.load gid s).0 ≡ ok r)
  pub save_returns : (tx : GlobalTxn) (s : S) → (repo.save tx s).0 ≡ ok tt

abbrev Returns : {S A : Type 0} → Io S A → S → Type 0
Returns {A} m s = (a : A) × ((m s).0 ≡ ok a)

bind-Returns :
    {S A B : Type 0} (m : Io S A) (f : A → Io S B) (s : S)
    → Returns m s
    → ((a : A) (s' : S) → Returns (f a) s')
    → Returns (m >>= f) s
bind-Returns m f s (a, e) k =
    let (b, e') = k a (m s).1 in (b, ap (λ p. p.0) (bind_step m f s a e) ∙ e')

module _ {S : Type 0} (repo : TxnRepo S) (answers : Answers repo) (env : Env) where
  saved-Returns : (tx : GlobalTxn) (w : World S) → Returns (on_store (repo.save tx)) w
  saved-Returns tx w = (tt, answers.save_returns tx w.store)

  saved_then-Returns :
      {A : Type 0} (tx : GlobalTxn) (a : A) (w : World S)
      → Returns (on_store (repo.save tx) >> pure a) w
  saved_then-Returns tx a w =
      bind-Returns (on_store (repo.save tx)) (λ _. pure a) w (saved-Returns tx w) (λ _ _. (a, refl))

  stamp_and_save-Returns : (tx : GlobalTxn) (w : World S) → Returns (stamp_and_save repo env tx) w
  unfolding stamp_and_save
  stamp_and_save-Returns tx w =
      let tx' : GlobalTxn = record tx { updated_unix = env.clock w.readings } in
      saved_then-Returns tx' tx' (record w { readings = suc w.readings })

  loaded-Returns :
      {A : Type 0} (gid : Text) (k : Option GlobalTxn → Io (World S) A) (w : World S)
      → ((r : Option GlobalTxn) (w' : World S) → Returns (k r) w')
      → Returns (on_store (repo.load gid) >>= k) w
  loaded-Returns gid k w h =
      bind-Returns (on_store (repo.load gid)) k w (answers.load_returns gid w.store) h

  saved_last-Returns :
      (tx : GlobalTxn) (w : World S) → Returns (stamp_and_save repo env tx >> pure tt) w
  saved_last-Returns tx w =
      bind-Returns (stamp_and_save repo env tx) (λ _. pure tt) w (stamp_and_save-Returns tx w)
        (λ _ _. (tt, refl))

  start-Returns :
      (gid mode : Text) (payload : Bytes) (w : World S)
      → Returns (start repo env gid mode payload) w
  unfolding start
  start-Returns [] mode payload w =
      let mode' = if is_empty mode then bytes "saga" else mode in
      saved_then-Returns (new_txn (env.uuid w.uuids) mode' payload (env.clock w.readings))
        (env.uuid w.uuids) (record w { readings = suc w.readings; uuids = suc w.uuids })
  start-Returns (c ∷ gid) mode payload w =
      let mode' = if is_empty mode then bytes "saga" else mode in
      saved_then-Returns (new_txn (c ∷ gid) mode' payload (env.clock w.readings)) (c ∷ gid)
        (record w { readings = suc w.readings })

  abort_found-Returns : (r : Option GlobalTxn) (w : World S) → Returns (abort_found repo env r) w
  unfolding abort_found
  abort_found-Returns none w = (tt, refl)
  abort_found-Returns (some tx) w = saved_last-Returns _ w

  add_branch_found-Returns :
      (branch_id action : Text) (r : Option GlobalTxn) (w : World S)
      → Returns (add_branch_found repo env branch_id action r) w
  unfolding add_branch_found
  add_branch_found-Returns branch_id action none w = (tt, refl)
  add_branch_found-Returns branch_id action (some tx) w =
      elim (Bool-cases (has_branch tx branch_id)) [
        | inl old ↦ rw old (tt, refl)
        | inr new ↦ rw new (saved_last-Returns _ w)
      ]

  set_branch_found-Returns :
      (branch_id : Text) (status : BranchStatus) (r : Option GlobalTxn) (w : World S)
      → Returns (set_branch_found repo env branch_id status r) w
  unfolding set_branch_found
  set_branch_found-Returns branch_id status none w = (tt, refl)
  set_branch_found-Returns branch_id status (some tx) w =
      elim (Option-cases (set_branch branch_id status tx.branches)) [
        | inl missing ↦ rw (missing, set_branch_found) (tt, refl)
        | inr (branches, set) ↦ rw (set, set_branch_found) (saved_last-Returns _ w)
      ]

module _ {S : Type 0} (repo : TxnRepo S) (answers : Answers repo) (env : Env)
    (m : SagaManager) where
  run_branches-Returns : (tx : GlobalTxn) (w : World S) → Returns (run_branches repo env m tx) w
  unfolding run_branches conclude
  run_branches-Returns tx w =
      bind-Returns (execute repo env m tx)
        (λ executed. stamp_and_save repo env executed >>= conclude repo env m) w
        (_, execute_lem repo env m tx w)
        (λ executed w'.
          bind-Returns (stamp_and_save repo env executed) (conclude repo env m) w'
            (stamp_and_save-Returns repo answers env executed w')
            (λ persisted w''. saved_last-Returns repo answers env _ w''))

  pub submit_found-Returns :
      (r : Option GlobalTxn) (w : World S) → Returns (submit_found repo env m r) w
  unfolding submit_found
  submit_found-Returns none w = (tt, refl)
  submit_found-Returns (some tx) w =
      bind-Returns (stamp_and_save repo env _) (run_branches repo env m) w
        (stamp_and_save-Returns repo answers env _ w) run_branches-Returns

  -- Over a repository whose loads and saves return, every operation that changes state returns, in
  -- every world, and for every gid and branch, stored or not.
  pub operations_return :
      (gid mode branch_id action : Text) (payload : Bytes) (w : World S)
      → ((g : Text) × ((start repo env gid mode payload w).0 ≡ ok g))
        × ((submit repo env m gid w).0 ≡ ok tt)
        × ((abort repo env gid w).0 ≡ ok tt)
        × ((add_branch repo env gid branch_id action w).0 ≡ ok tt)
        × ((branch_succeed repo env gid branch_id w).0 ≡ ok tt)
        × ((branch_fail repo env gid branch_id w).0 ≡ ok tt)
  unfolding submit abort add_branch branch_succeed branch_fail
  operations_return gid mode branch_id action payload w = (
    start-Returns repo answers env gid mode payload w,
    (loaded-Returns repo answers env gid _ w submit_found-Returns).1,
    (loaded-Returns repo answers env gid _ w (abort_found-Returns repo answers env)).1,
    (loaded-Returns repo answers env gid _ w
        (add_branch_found-Returns repo answers env branch_id action)).1,
    (loaded-Returns repo answers env gid _ w
        (set_branch_found-Returns repo answers env branch_id succeed)).1,
    (loaded-Returns repo answers env gid _ w
        (set_branch_found-Returns repo answers env branch_id failed)).1,
  )
