-- ===== src/Saga/Histories.antt =====
-- Every operation of the manager on stored transactions, returning or failing at any save, moves
-- each of them along steps of Saga/Evolution.antt.
pub mod Submission
use seata.Base.{
  ◌≡◌, refl, sym, ap, ◌∙◌, false, Option, none, some, Text, ok, Io, ◌>>=◌, pure, map, arith,
  text_eq→eq, Bool-cases, Option-cases, Result-cases, inl, inr, bind_step, bind_err, text_eq_refl,
}
use seata.Domain.{GlobalTxn, BranchStatus, succeed, failed, committing, is_prepared}
use seata.Repo.{TxnRepo, RepoLaws}
use seata.Saga.World.{World, Env, SagaManager, on_store}
use seata.Saga.Branch.{run_task}
use seata.Saga.Settle.{final_status}
use seata.Saga.Settle.Reference.{settled, settle-eq-map}
use seata.Saga.Manager.{
  stamp_and_save, push_branch, has_branch, set_branch, execute, conclude, run_branches,
  submit_found, submit, abort_found, abort, add_branch_found, add_branch, set_branch_found,
  branch_succeed, branch_fail,
}
use seata.Saga.Steps.{view, load_lem, view-load, stamp_and_save_lem}
use seata.Saga.Spec.{IsKeyed}
use seata.Saga.Evolution.{◌⟶◌, begin, add, mark, ◌⟶*◌, here, next, ⟶*-trans, Keeps, ⟶*-Keeps}
use seata.Saga.Evolution

module _ {S : Type 0} (repo : TxnRepo S) (laws : RepoLaws repo) where
  -- What is stored in `w'` was stored in `w` under the same gid, and has made steps since.
  abbrev pub Evolves : World S → World S → Type 0
  Evolves w w' =
      (j : Text) (t : GlobalTxn)
      → view repo laws w' j ≡ some t
      → (s : GlobalTxn) × (view repo laws w j ≡ some s) × (s ⟶* t)

  pub Evolves-refl : (w : World S) → Evolves w w
  Evolves-refl w j t e = (t, e, here)

  pub Evolves-trans : (w w' w'' : World S) → Evolves w w' → Evolves w' w'' → Evolves w w''
  Evolves-trans w w' w'' h k j t e =
      let (t', e', r') = k j t e in let (s, e'', r) = h j t' e' in (s, e'', ⟶*-trans r r')

  pub Evolves-bind :
      {A B : Type 0} (m : Io (World S) A) (f : A → Io (World S) B) (w : World S)
      → Evolves w (m w).1
      → ((a : A) → (m w).0 ≡ ok a → Evolves (m w).1 (f a (m w).1).1)
      → Evolves w ((m >>= f) w).1
  Evolves-bind m f w h k = elim (Result-cases (m w).0) [
    | inl (a, e) ↦ rw (bind_step m f w a e) (Evolves-trans w (m w).1 (f a (m w).1).1 h (k a e))
    | inr (x, e) ↦ rw (bind_err m f w x e) h
  ]

  pub Evolves-load : (gid : Text) (w : World S) → Evolves w (on_store (repo.load gid) w).1
  Evolves-load gid w j t e = (t, sym (view-load repo laws gid w j) ∙ e, here)

  -- The transaction that an operation on `gid` works on.
  pub record Current (gid : Text) (tx : GlobalTxn) (w : World S) : Type 0 where
    pub stored : view repo laws w gid ≡ some tx
    pub own : tx.gid ≡ gid

module _ {S : Type 0} (repo : TxnRepo S) (env : Env) where
  pub stamp_store :
      (tx : GlobalTxn) (w : World S)
      → (stamp_and_save repo env tx w).1.store
        ≡ (repo.save (record tx { updated_unix = env.clock w.readings }) w.store).1
  unfolding stamp_and_save
  stamp_store tx w =
      elim (Result-cases
        (repo.save (record tx { updated_unix = env.clock w.readings }) w.store).0) [
          | inl (u, e) ↦ ground arith
          | inr (x, e) ↦ ground arith
        ]

module _ {S : Type 0} (repo : TxnRepo S) (laws : RepoLaws repo) (env : Env) where
  pub stamp-Evolves :
      (gid : Text) (tx tx' : GlobalTxn) (w : World S)
      → Current repo laws gid tx w
      → tx'.gid ≡ tx.gid
      → tx ⟶ record tx' { updated_unix = env.clock w.readings }
      → Evolves repo laws w (stamp_and_save repo env tx' w).1
  stamp-Evolves gid tx tx' w c own step j t e =
      let stamped : GlobalTxn = record tx' { updated_unix = env.clock w.readings } in
      let e' : laws.stored (repo.save stamped w.store).1 j ≡ some t =
        ap (λ s. laws.stored s j) (sym (stamp_store repo env tx' w)) ∙ e in
      elim (laws.save_either stamped w.store j) [
        | inl same ↦ (t, sym same ∙ e', here)
        | inr (at_j, saved) ↦
            let is_t : stamped ≡ t = cc in
            let j_eq : gid ≡ j = sym (own ∙ c.own) ∙ text_eq→eq tx'.gid j at_j in
            (tx, rw (← j_eq) c.stored, rw (← is_t) (next here step))
      ]

  -- After a save that returned, the transaction saved is the current one.
  pub stamp-Current :
      (gid : Text) (tx tx' : GlobalTxn) (w : World S)
      → tx.gid ≡ gid
      → (stamp_and_save repo env tx w).0 ≡ ok tx'
      → Current repo laws gid tx' (stamp_and_save repo env tx w).1
  stamp-Current gid tx tx' w own saved =
      let (stamped, updated, _, _, _) = stamp_and_save_lem repo laws env tx tx' w saved in
      let own' : tx'.gid ≡ gid = ap (λ (t : GlobalTxn). t.gid) stamped ∙ own in
      record { stored = updated.at gid ∙ rw (own', text_eq_refl gid); own = own' }

  -- An operation that loads a transaction and goes on with `k`.
  pub load_then-Evolves :
      (gid : Text) (k : Option GlobalTxn → Io (World S) Unit) (w : World S)
      → IsKeyed repo laws w
      → ((w' : World S) → Evolves repo laws w' (k none w').1)
      → ((tx : GlobalTxn) (w' : World S)
          → Current repo laws gid tx w'
          → Evolves repo laws w' (k (some tx) w').1)
      → Evolves repo laws w ((on_store (repo.load gid) >>= k) w).1
  load_then-Evolves gid k w keyed kn ks =
      let w1 = (on_store (repo.load gid) w).1 in
      Evolves-bind repo laws (on_store (repo.load gid)) k w (Evolves-load repo laws gid w)
        λ found loaded. on_found found (load_lem repo laws gid w found loaded)
    where
      on_found :
          (found : Option GlobalTxn)
          → view repo laws w gid ≡ found
          → Evolves repo laws
              (on_store (repo.load gid) w).1
              (k found (on_store (repo.load gid) w).1).1
      on_found none e = kn (on_store (repo.load gid) w).1
      on_found (some tx) e =
          ks tx (on_store (repo.load gid) w).1
            (record { stored = view-load repo laws gid w gid ∙ e; own = keyed.own_gid gid tx e })

  pub saved_last-Evolves :
      (gid : Text) (tx tx' : GlobalTxn) (w : World S)
      → Current repo laws gid tx w
      → tx'.gid ≡ tx.gid
      → tx ⟶ record tx' { updated_unix = env.clock w.readings }
      → Evolves repo laws w ((stamp_and_save repo env tx' >>= λ _. pure tt) w).1
  saved_last-Evolves gid tx tx' w c own step =
      Evolves-bind repo laws (stamp_and_save repo env tx') (λ _. pure tt) w
        (stamp-Evolves gid tx tx' w c own step)
        (λ _ _. Evolves-refl repo laws (stamp_and_save repo env tx' w).1)

  pub abort-Evolves :
      (gid : Text) (w : World S)
      → IsKeyed repo laws w
      → Evolves repo laws w (abort repo env gid w).1
  unfolding abort abort_found
  abort-Evolves gid w keyed =
      load_then-Evolves gid (abort_found repo env) w keyed (λ w'. Evolves-refl repo laws w')
        (λ tx w' c. saved_last-Evolves gid tx _ w' c refl (Evolution.abort tx _))

  add_found-Evolves :
      (gid branch_id action : Text) (tx : GlobalTxn) (w : World S)
      → Current repo laws gid tx w
      → Evolves repo laws w (add_branch_found repo env branch_id action (some tx) w).1
  unfolding add_branch_found
  add_found-Evolves gid branch_id action tx w c = elim (Bool-cases (has_branch tx branch_id)) [
    | inl old ↦ rw old (Evolves-refl repo laws w)
    | inr new ↦ rw new (
        saved_last-Evolves gid tx (push_branch tx branch_id action) w c refl
          (add tx branch_id action _ new))
  ]

  pub add_branch-Evolves :
      (gid branch_id action : Text) (w : World S)
      → IsKeyed repo laws w
      → Evolves repo laws w (add_branch repo env gid branch_id action w).1
  unfolding add_branch
  add_branch-Evolves gid branch_id action w keyed =
      load_then-Evolves gid (add_branch_found repo env branch_id action) w keyed
        (λ w'. unfold add_branch_found in Evolves-refl repo laws w')
        (add_found-Evolves gid branch_id action)

  mark_found-Evolves :
      (gid branch_id : Text) (status : BranchStatus) (tx : GlobalTxn) (w : World S)
      → is_prepared status ≡ false
      → Current repo laws gid tx w
      → Evolves repo laws w (set_branch_found repo env branch_id status (some tx) w).1
  unfolding set_branch_found
  mark_found-Evolves gid branch_id status tx w p c =
      elim (Option-cases (set_branch branch_id status tx.branches)) [
        | inl missing ↦ rw (missing, set_branch_found) (Evolves-refl repo laws w)
        | inr (branches, set) ↦
            rw (set, set_branch_found)
              (saved_last-Evolves gid tx (record tx { branches = branches }) w c refl
                (mark tx branch_id status branches _ set p))
      ]

  pub branch_succeed-Evolves :
      (gid branch_id : Text) (w : World S)
      → IsKeyed repo laws w
      → Evolves repo laws w (branch_succeed repo env gid branch_id w).1
  unfolding branch_succeed
  branch_succeed-Evolves gid branch_id w keyed =
      load_then-Evolves gid (set_branch_found repo env branch_id succeed) w keyed
        (λ w'. unfold set_branch_found in Evolves-refl repo laws w')
        (λ tx w' c. mark_found-Evolves gid branch_id succeed tx w' refl c)

  pub branch_fail-Evolves :
      (gid branch_id : Text) (w : World S)
      → IsKeyed repo laws w
      → Evolves repo laws w (branch_fail repo env gid branch_id w).1
  unfolding branch_fail
  branch_fail-Evolves gid branch_id w keyed =
      load_then-Evolves gid (set_branch_found repo env branch_id failed) w keyed
        (λ w'. unfold set_branch_found in Evolves-refl repo laws w')
        (λ tx w' c. mark_found-Evolves gid branch_id failed tx w' refl c)
