-- ===== src/Saga/Interrupted.antt =====
-- What a submission leaves stored, wherever it ends (`submit` of seata-server/src/saga.rs).
use seata.Saga.Joined.{joined}
use seata.Base.{
  ◌≡◌, refl, sym, ◌∙◌, ◌⊎◌, inl, inr, Option, some, Text, Result, ok, Io, ◌>>=◌, Result-cases,
  bind_step, bind_err, then_pure, suc, ℕ,
}
use mathlib.Core.Path.{subst}
use seata.Domain.{GlobalTxn, committing}
use seata.Repo.{TxnRepo, RepoLaws}
use seata.Saga.World.{World, Env, SagaManager, on_store}
use seata.Saga.Settle.{final_status}
use seata.Saga.Manager.{stamp_and_save, conclude, run_branches, submit_found, submit}
use seata.Saga.Steps.{view, load_lem, view-load, stamp_and_save_lem}
use seata.Saga.Spec.{executed_branches}
use seata.Saga.Ending.{execute_step}
use seata.Saga.Histories.{stamp_store}

-- The transaction after each of the three saves of a submission that begins after `r` readings of
-- the clock.
abbrev pub begun : Env → ℕ → GlobalTxn → GlobalTxn
begun env r tx = record tx { status = committing; updated_unix = env.clock r }

abbrev pub executed : SagaManager → Env → ℕ → GlobalTxn → GlobalTxn
executed m env r tx = record tx {
  branches = executed_branches m env r tx;
  updated_unix = env.clock r;
}

abbrev pub concluded : Env → ℕ → GlobalTxn → GlobalTxn
concluded env r tx = record tx { status = final_status tx.branches; updated_unix = env.clock r }

module _ {S : Type 0} (repo : TxnRepo S) (laws : RepoLaws repo) (gid : Text)
    (P : Option GlobalTxn → Type 0) where
  -- The end of a block, whether its first step returns or fails.
  bind_end :
      {A B : Type 0} (m : Io (World S) A) (f : A → Io (World S) B) (w : World S)
      → P (view repo laws (m w).1 gid)
      → ((a : A) → (m w).0 ≡ ok a → P (view repo laws (f a (m w).1).1 gid))
      → P (view repo laws ((m >>= f) w).1 gid)
  bind_end m f w failed went_on = elim (Result-cases (m w).0) [
    | inl (a, e) ↦
        subst (λ (p : Result _ × World S). P (view repo laws p.1 gid)) (sym (bind_step m f w a e))
          (went_on a e)
    | inr (x, e) ↦
        subst (λ (p : Result _ × World S). P (view repo laws p.1 gid)) (sym (bind_err m f w x e))
          failed
  ]

  -- After a save, what was stored or what was saved.
  stamp_end :
      (env : Env) (tx : GlobalTxn) (w : World S)
      → P (view repo laws w gid)
      → P (some (record tx { updated_unix = env.clock w.readings }))
      → P (view repo laws (stamp_and_save repo env tx w).1 gid)
  stamp_end env tx w old new =
      let stamped : GlobalTxn = record tx { updated_unix = env.clock w.readings } in
      subst (λ s. P (laws.stored s gid)) (sym (stamp_store repo env tx w))
        (elim (laws.save_either stamped w.store gid) [
          | inl same ↦ subst P (sym same) old
          | inr (_, saved) ↦ subst P (sym saved) new
        ])

module _ {S : Type 0} (repo : TxnRepo S) (laws : RepoLaws repo) (env : Env) (m : SagaManager)
    (gid : Text) (P : Option GlobalTxn → Type 0) where
  conclude_end :
      (tx : GlobalTxn) (w : World S)
      → P (view repo laws w gid)
      → P (some (concluded env w.readings tx))
      → P (view repo laws (conclude repo env m tx w).1 gid)
  unfolding conclude
  conclude_end tx w old new =
      let last = stamp_and_save repo env (record tx { status = final_status tx.branches }) in
      subst (λ s. P (view repo laws s gid)) (sym (then_pure last tt w))
        (stamp_end repo laws gid P env _ w old new)

  run_branches_end :
      (tx : GlobalTxn) (w : World S)
      → P (view repo laws w gid)
      → P (some (executed m env w.readings tx))
      → P (some (concluded env (suc w.readings) (executed m env w.readings tx)))
      → P (view repo laws (run_branches repo env m tx w).1 gid)
  unfolding run_branches
  run_branches_end tx w old mid new =
      let tx' : GlobalTxn = record tx { branches = executed_branches m env w.readings tx } in
      let w1 = (joined repo env m tx w).1 in
      let w2 = (stamp_and_save repo env tx' w1).1 in
      let rest = λ (t : GlobalTxn). stamp_and_save repo env t >>= conclude repo env m in
      let skip = execute_step repo env m rest tx w in
      let saved_end = stamp_end repo laws gid P env tx' w1 old mid in
      subst (λ (p : Result _ × World S). P (view repo laws p.1 gid)) (sym skip)
        (bind_end repo laws gid P (stamp_and_save repo env tx') (conclude repo env m) w1 saved_end
          (λ persisted saved.
            let (stamped, _, one_more, _, _) =
              stamp_and_save_lem repo laws env tx' persisted w1 saved in
            conclude_end persisted w2 saved_end (
              subst (λ t. P (some (concluded env w2.readings t))) (sym stamped)
                (subst (λ r. P (some (concluded env r (executed m env w.readings tx))))
                  (sym one_more) new))))

  submit_found_end :
      (tx : GlobalTxn) (w : World S)
      → let t1 = begun env w.readings tx in
        let t2 = executed m env (suc w.readings) t1 in
        P (view repo laws w gid)
        → P (some t1)
        → P (some t2)
        → P (some (concluded env (suc (suc w.readings)) t2))
        → P (view repo laws (submit_found repo env m (some tx) w).1 gid)
  unfolding submit_found
  submit_found_end tx w old first second third =
      let committing_tx : GlobalTxn = record tx { status = committing } in
      let t1 = begun env w.readings tx in
      let w1 = (stamp_and_save repo env committing_tx w).1 in
      let saved_end = stamp_end repo laws gid P env committing_tx w old first in
      bind_end repo laws gid P (stamp_and_save repo env committing_tx) (run_branches repo env m) w
        saved_end
        (λ marked saved.
          let (stamped, _, one_more, _, _) =
            stamp_and_save_lem repo laws env committing_tx marked w saved in
          subst (λ t. P (view repo laws (run_branches repo env m t w1).1 gid)) (sym stamped)
            (run_branches_end t1 w1 saved_end
              (subst (λ r. P (some (executed m env r t1))) (sym one_more) second)
              (subst (λ r. P (some (concluded env (suc r) (executed m env r t1)))) (sym one_more)
                third)))

module _ {S : Type 0} (repo : TxnRepo S) (laws : RepoLaws repo) (env : Env) (m : SagaManager) where
  -- The transaction that is stored is the one before, or one of the three that are saved.
  abbrev pub IsStage : ℕ → GlobalTxn → Option GlobalTxn → Type 0
  IsStage r tx found =
      let t1 = begun env r tx in
      let t2 = executed m env (suc r) t1 in
      (found ≡ some tx)
      ⊎ ((found ≡ some t1) ⊎ ((found ≡ some t2) ⊎ (found ≡ some (concluded env (suc (suc r)) t2))))

  -- Over a lawful repository, wherever a `submit` of a stored transaction ends, at its last step
  -- or at a call of the repository that fails, the transaction is stored as it was, as marked
  -- Committing with its old branches, with the results of its branches, or finished, and in no
  -- other state.
  pub submit_stages :
      (gid : Text) (tx : GlobalTxn) (w : World S)
      → view repo laws w gid ≡ some tx
      → IsStage w.readings tx (view repo laws (submit repo env m gid w).1 gid)
  unfolding submit
  submit_stages gid tx w e =
      let w0 = (on_store (repo.load gid) w).1 in
      let P = IsStage w.readings tx in
      let kept : view repo laws w0 gid ≡ some tx = view-load repo laws gid w gid ∙ e in
      bind_end repo laws gid P (on_store (repo.load gid)) (submit_found repo env m) w (inl kept)
        (λ found loaded.
          let is_tx : found ≡ some tx = sym (load_lem repo laws gid w found loaded) ∙ e in
          subst (λ f. P (view repo laws (submit_found repo env m f w0).1 gid)) (sym is_tx)
            (submit_found_end repo laws env m gid P tx w0 (inl kept) (inr (inl refl))
              (inr (inr (inl refl))) (inr (inr (inr refl)))))
