-- ===== src/Saga/Workflow.antt =====
-- The life of a transaction from end to end: it is started, branches are added, it is submitted
-- (`start`, `add_branch` and `submit` of seata-server/src/saga.rs).
use mathlib.Core.List.{append_assoc, append-nil}
use seata.Base.{
  ℕ, suc, ◌≡◌, ◌≢◌, refl, sym, ◌∙◌, ap, Bool, true, false, not, ◌&&◌, Option, some, List, [], ◌∷◌,
  ◌++◌, map, any, unwrap_or, Text, Bytes, bytes, is_empty, text_eq, text_eq_refl, arith,
  if◌then◌else◌, then_pure,
}
use seata.Domain.{
  GlobalTxn, BranchTxn, prepared, succeed, failed, committed, aborted, is_failed, new_txn,
}
use seata.Repo.{TxnRepo, RepoLaws}
use seata.Saga.World.{World, Env, SagaManager, Request, on_store}
use seata.Saga.Branch.{run_task}
use seata.Saga.Settle.Reference.{settled, final_status-eq}
use seata.Saga.Manager.{start, submit, push_branch, has_branch}
use seata.Saga.Steps.{view}
use seata.Saga.Spec.{finished, added}
use seata.Saga.Edits.{add_branch_lem}
use seata.Saga.Submit.{submit_lem}
use seata.Saga.Returns.{Answers, operations_return}
use seata.Saga.Invariant.{Op, op_start, op_add, apply, run, AllWell, AllWell-IsKeyed, apply-AllWell}

-- A branch that a client adds: its id and its action.
abbrev pub Branch : Type 0
Branch = Text × Text

abbrev pub add_ops : Text → List Branch → List Op
add_ops gid bs = map (λ b. op_add gid b.0 b.1) bs

-- The ids of `bs` differ from each other and from those of `done`.
abbrev pub distinct_after : List Branch → List Branch → Bool
distinct_after done [] = true
distinct_after done (b ∷ bs) =
    not (any (λ c. text_eq c.0 b.0) done) && distinct_after (done ++ b ∷ []) bs

-- What is asked of the action of a branch.
abbrev pub asked : Env → Text → Text → Bytes → Branch → Request
asked env gid mode payload b = record {
  url = b.1;
  body = record { gid = gid; branch_id = b.0; mode = mode; payload = env.base64_encode payload };
}

-- A branch in the end: it has succeeded if its task has.
abbrev pub outcome : (Request → Option Bool) → Env → Text → Text → Bytes → Branch → BranchTxn
outcome task env gid mode payload b = record {
  branch_id = b.0;
  action = b.1;
  status = if unwrap_or false (task (asked env gid mode payload b)) then succeed else failed;
}

planned : Branch → BranchTxn
planned b = record { branch_id = b.0; action = b.1; status = prepared }

any-planned :
    (id : Text) (bs : List Branch)
    → any (λ b. text_eq b.branch_id id) (map planned bs) ≡ any (λ c. text_eq c.0 id) bs
unfolding planned
any-planned id [] = refl
any-planned id (b ∷ bs) = ground (arith, any-planned id bs)

map-planned-append :
    (bs cs : List Branch) → map planned (bs ++ cs) ≡ map planned bs ++ map planned cs
map-planned-append [] cs = refl
map-planned-append (b ∷ bs) cs = ap (λ l. planned b ∷ l) (map-planned-append bs cs)

map-settled-planned :
    (task : Request → Option Bool) (env : Env) (tx : GlobalTxn) (bs : List Branch)
    → map (settled task tx (env.base64_encode tx.payload)) (map planned bs)
      ≡ map (outcome task env tx.gid tx.mode tx.payload) bs
unfolding planned settled
map-settled-planned task env tx [] = refl
map-settled-planned task env tx (b ∷ bs) =
    ap (λ l. outcome task env tx.gid tx.mode tx.payload b ∷ l) (map-settled-planned task env tx bs)

module _ {S : Type 0} (repo : TxnRepo S) (laws : RepoLaws repo) where
  -- The transaction is stored with these branches, all of them prepared.
  record Planned (gid mode : Text) (payload : Bytes) (bs : List Branch) (w : World S) : Type 0 where
    tx : GlobalTxn
    stored : view repo laws w gid ≡ some tx
    own : tx.gid ≡ gid
    has_mode : tx.mode ≡ mode
    has_payload : tx.payload ≡ payload
    has_branches : tx.branches ≡ map planned bs

module _ {S : Type 0} (repo : TxnRepo S) (laws : RepoLaws repo) (answers : Answers repo) (env : Env)
    (m : SagaManager) where
  start-Planned :
      (gid mode : Text) (payload : Bytes) (w : World S)
      → gid ≢ []
      → Planned repo laws gid
          (if is_empty mode then bytes "saga" else mode)
          payload
          []
          (apply repo env m (op_start gid mode payload) w)
  unfolding apply start
  start-Planned [] mode payload w has = absurd (has refl)
  start-Planned (c ∷ gid) mode payload w has =
      let mode' = if is_empty mode then bytes "saga" else mode in
      let w' = record w { readings = suc w.readings } in
      let new = new_txn (c ∷ gid) mode' payload (env.clock w.readings) in
      rw (then_pure (on_store (repo.save new)) (c ∷ gid) w') (record {
        tx = new;
        stored =
            laws.save_ok new w.store (answers.save_returns new w.store) (c ∷ gid)
            ∙ rw (text_eq_refl (c ∷ gid));
        own = refl;
        has_mode = refl;
        has_payload = refl;
        has_branches = refl;
      })

module _ {S : Type 0} (repo : TxnRepo S) (laws : RepoLaws repo) (answers : Answers repo) (env : Env)
    (m : SagaManager) (gid : Text) where
  add-Planned :
      (mode : Text) (payload : Bytes) (done : List Branch) (b : Branch) (w : World S)
      → any (λ c. text_eq c.0 b.0) done ≡ false
      → AllWell repo laws w
      → Planned repo laws gid mode payload done w
      → Planned repo laws gid mode payload
          (done ++ b ∷ [])
          (apply repo env m (op_add gid b.0 b.1) w)
  unfolding apply planned
  add-Planned mode payload done b w new well p =
      let (_, _, _, returns, _, _) = operations_return repo answers env m gid [] b.0 b.1 [] w in
      let alters =
        add_branch_lem repo laws env gid b.0 b.1 w (AllWell-IsKeyed repo laws well) returns in
      let is_new : has_branch p.tx b.0 ≡ false = rw p.has_branches (any-planned b.0 done ∙ new) in
      record {
        tx = record (push_branch p.tx b.0 b.1) { updated_unix = env.clock w.readings };
        stored = alters.at gid ∙ rw (text_eq_refl gid, p.stored, is_new);
        own = p.own;
        has_mode = p.has_mode;
        has_payload = p.has_payload;
        has_branches = rw p.has_branches (sym (map-planned-append done (b ∷ [])));
      }

  adds-Planned :
      (mode : Text) (payload : Bytes) (done bs : List Branch) (w : World S)
      → ((n : ℕ) → env.uuid n ≢ [])
      → distinct_after done bs ≡ true
      → AllWell repo laws w
      → Planned repo laws gid mode payload done w
      → Planned repo laws gid mode payload (done ++ bs) (run repo env m (add_ops gid bs) w)
        × AllWell repo laws (run repo env m (add_ops gid bs) w)
  unfolding run
  adds-Planned mode payload done [] w fresh distinct well p = (rw (append-nil done) p, well)
  adds-Planned mode payload done (b ∷ bs) w fresh distinct well p =
      let o = op_add gid b.0 b.1 in
      let p' = add-Planned mode payload done b w (ground (arith, distinct)) well p in
      rw (← append_assoc done (b ∷ []) bs) (
        adds-Planned mode payload (done ++ b ∷ []) bs (apply repo env m o w) fresh
          (ground (arith, distinct)) (apply-AllWell repo laws env m o w fresh well) p')

  -- A submission of a planned transaction.
  submit-Planned :
      (mode : Text) (payload : Bytes) (bs : List Branch) (w : World S)
      → AllWell repo laws w
      → Planned repo laws gid mode payload bs w
      → let task = run_task m.exec env (suc w.readings) in
        (t : GlobalTxn) × (view repo laws (submit repo env m gid w).1 gid ≡ some t)
        × (t.payload ≡ payload)
        × (t.branches ≡ map (outcome task env gid mode payload) bs)
        × (t.status ≡ (if any (λ b. is_failed b.status) t.branches then aborted else committed))
  submit-Planned mode payload bs w well p =
      let (_, returns, _, _, _, _) = operations_return repo answers env m gid [] [] [] [] w in
      let alters = submit_lem repo laws env m gid w (AllWell-IsKeyed repo laws well) returns in
      let task = run_task m.exec env (suc w.readings) in
      let branches : (finished m env w.readings p.tx).branches
          ≡ map (outcome task env gid mode payload) bs =
        ap (map (settled task p.tx (env.base64_encode p.tx.payload))) p.has_branches
        ∙ map-settled-planned task env p.tx bs
        ∙ rw (p.own, p.has_mode, p.has_payload) in
      (
        finished m env w.readings p.tx,
        alters.at gid ∙ rw (text_eq_refl gid, p.stored),
        p.has_payload,
        branches,
        final_status-eq (finished m env w.readings p.tx).branches,
      )

  -- Over a lawful repository of well-formed transactions whose calls return, with UUIDs that are not
  -- empty, when a transaction with a non-empty gid is started, branches with different ids are added
  -- to it, and it is submitted: it is stored with the payload it was started with and with exactly
  -- those branches, in their order; each has succeeded if its own action, posted the gid, its id,
  -- the mode and the payload, was accepted in time, and has failed if not; and the transaction is
  -- Aborted if any has failed, and Committed if none has.
  pub workflow :
      (mode : Text) (payload : Bytes) (bs : List Branch) (w : World S)
      → gid ≢ []
      → ((n : ℕ) → env.uuid n ≢ [])
      → AllWell repo laws w
      → distinct_after [] bs ≡ true
      → let w' = run repo env m (op_start gid mode payload ∷ add_ops gid bs) w in
        let task = run_task m.exec env (suc w'.readings) in
        let mode' = if is_empty mode then bytes "saga" else mode in
        (t : GlobalTxn) × (view repo laws (submit repo env m gid w').1 gid ≡ some t)
        × (t.payload ≡ payload)
        × (t.branches ≡ map (outcome task env gid mode' payload) bs)
        × (t.status ≡ (if any (λ b. is_failed b.status) t.branches then aborted else committed))
  unfolding run
  workflow mode payload bs w has fresh well distinct =
      let o = op_start gid mode payload in
      let mode' = if is_empty mode then bytes "saga" else mode in
      let begun = start-Planned repo laws answers env m gid mode payload w has in
      let (added, well') =
        adds-Planned mode' payload [] bs (apply repo env m o w) fresh distinct
          (apply-AllWell repo laws env m o w fresh well) begun in
      submit-Planned mode' payload bs _ well' added
