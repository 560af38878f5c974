-- ===== src/Saga/Edits.antt =====
-- `add_branch`, `branch_succeed`, `branch_fail` and `abort` do what Saga/Spec.antt says.
use mathlib.Core.Option
use mathlib.Core.Path.{subst}
use seata.Base.{
  ◌≡◌, refl, sym, ap, ◌∙◌, Option, none, some, Text, Result, ok, Io, ◌>>=◌, pure, text_eq,
  text_eq→eq, if◌then◌else◌, arith, Bool-cases, Option-cases, inl, inr, bind_ok,
}
use seata.Domain.{GlobalTxn, BranchStatus, succeed, failed, aborted}
use seata.Repo.{TxnRepo, RepoLaws}
use seata.Saga.World.{World, Env, on_store}
use seata.Saga.Manager.{
  stamp_and_save, push_branch, has_branch, set_branch, fail_unfinished, add_branch_found,
  add_branch, set_branch_found, branch_succeed, branch_fail, abort_found, abort,
}
use seata.Saga.Steps.{view, Updated, load_lem, view-load, stamp_and_save_lem}
use seata.Saga.Spec.{fail_unfinished-map, added, marked, rolled_back, IsKeyed, Alters}

module _ {S : Type 0} (repo : TxnRepo S) (laws : RepoLaws repo) where
  -- What the step after a load must do for the operation to alter the transaction by `f`.
  abbrev pub FoundAlters :
      Text → (GlobalTxn → GlobalTxn) → (Option GlobalTxn → Io (World S) Unit) → World S → Type 0
  FoundAlters gid f k w =
      (found : Option GlobalTxn)
      → view repo laws w gid ≡ found
      → IsKeyed repo laws w
      → (k found w).0 ≡ ok tt
      → Alters repo laws gid f w (k found w).1

  -- A world that stores the same is altered in the same way.
  Alters-load :
      (gid : Text) (f : GlobalTxn → GlobalTxn) (w w' : World S)
      → Alters repo laws gid f (on_store (repo.load gid) w).1 w'
      → Alters repo laws gid f w w'
  Alters-load gid f w w' h = record {
    at = λ j. ground (arith, h.at j, view-load repo laws gid w j, view-load repo laws gid w gid);
  }

  pub IsKeyed-load :
      (gid : Text) (w : World S)
      → IsKeyed repo laws w
      → IsKeyed repo laws (on_store (repo.load gid) w).1
  IsKeyed-load gid w h = record {
    own_gid = λ j tx e. h.own_gid j tx (sym (view-load repo laws gid w j) ∙ e);
  }

  pub load_then :
      (gid : Text) (f : GlobalTxn → GlobalTxn) (k : Option GlobalTxn → Io (World S) Unit)
      (w : World S)
      → FoundAlters gid f k (on_store (repo.load gid) w).1
      → IsKeyed repo laws w
      → ((on_store (repo.load gid) >>= k) w).0 ≡ ok tt
      → Alters repo laws gid f w ((on_store (repo.load gid) >>= k) w).1
  load_then gid f k w step keyed h =
      let (found, loaded, same) = bind_ok (on_store (repo.load gid)) k w tt h in
      let w1 = (on_store (repo.load gid) w).1 in
      let read = view-load repo laws gid w gid ∙ load_lem repo laws gid w found loaded in
      rw same (
        Alters-load gid f w (k found w1).1 (
          step found read (IsKeyed-load gid w keyed)
            (sym (ap (λ (p : Result Unit × World S). p.0) same) ∙ h)))

  -- An update of the transaction found alters it.
  pub Updated-Alters :
      (gid : Text) (f : GlobalTxn → GlobalTxn) (tx tx' : GlobalTxn) (w w' : World S)
      → view repo laws w gid ≡ some tx
      → tx'.gid ≡ gid
      → f tx ≡ tx'
      → Updated repo laws tx' w w'
      → Alters repo laws gid f w w'
  Updated-Alters gid f tx tx' w w' found own same u = record {
    at = λ j.
        let e =
          subst (λ g. view repo laws w' j ≡ (if text_eq g j then some tx' else view repo laws w j))
            own (u.at j) in
        rw found (rw same e);
  }

  pub unchanged-Alters :
      (gid : Text) (f : GlobalTxn → GlobalTxn) (found : Option GlobalTxn) (w : World S)
      → view repo laws w gid ≡ found
      → Option.map f found ≡ found
      → Alters repo laws gid f w w
  unchanged-Alters gid f found w e same = record {
    at = λ j. elim (Bool-cases (text_eq gid j)) [
      | inl here ↦ rw (here, e, same, ← e) (ap (view repo laws w) (sym (text_eq→eq gid j here)))
      | inr other ↦ rw other
    ];
  }

module _ {S : Type 0} (repo : TxnRepo S) (laws : RepoLaws repo) (env : Env) where
  -- A save of the changed transaction, as the last step of an operation.
  saved_last :
      (gid : Text) (f : GlobalTxn → GlobalTxn) (tx tx' : GlobalTxn) (w : World S)
      → view repo laws w gid ≡ some tx
      → IsKeyed repo laws w
      → tx'.gid ≡ tx.gid
      → f tx ≡ record tx' { updated_unix = env.clock w.readings }
      → ((stamp_and_save repo env tx' >>= λ _. pure tt) w).0 ≡ ok tt
      → Alters repo laws gid f w ((stamp_and_save repo env tx' >>= λ _. pure tt) w).1
  saved_last gid f tx tx' w found keyed own same h =
      let (tx'', saved, rest) = bind_ok (stamp_and_save repo env tx') (λ _. pure tt) w tt h in
      let (stamped, updated, _, _, _) = stamp_and_save_lem repo laws env tx' tx'' w saved in
      rw rest (
        Updated-Alters repo laws gid f tx tx'' w _ found
          (ap (λ (t : GlobalTxn). t.gid) stamped ∙ own ∙ keyed.own_gid gid tx found)
          (same ∙ sym stamped) updated)

  add_branch_found-Alters :
      (gid branch_id action : Text) (w : World S)
      → FoundAlters repo laws gid
          (added branch_id action (env.clock w.readings))
          (add_branch_found repo env branch_id action)
          w
  unfolding add_branch_found
  add_branch_found-Alters gid branch_id action w none e keyed h =
      unchanged-Alters repo laws gid _ none w e refl
  add_branch_found-Alters gid branch_id action w (some tx) e keyed h =
      let f = added branch_id action (env.clock w.readings) in
      elim (Bool-cases (has_branch tx branch_id)) [
        | inl old ↦ rw old (unchanged-Alters repo laws gid f (some tx) w e (rw old))
        | inr new ↦ rw new (
            saved_last gid f tx (push_branch tx branch_id action) w e keyed refl (rw new)
              (rw new at h))
      ]

  -- Over a lawful repository whose transactions stand under their own gids, an `add_branch` that
  -- returns appends a prepared branch to the transaction, unless it has a branch with this id or
  -- does not exist, and changes nothing else.
  pub add_branch_lem :
      (gid branch_id action : Text) (w : World S)
      → IsKeyed repo laws w
      → (add_branch repo env gid branch_id action w).0 ≡ ok tt
      → Alters repo laws gid
          (added branch_id action (env.clock w.readings))
          w
          (add_branch repo env gid branch_id action w).1
  unfolding add_branch
  add_branch_lem gid branch_id action w keyed h =
      load_then repo laws gid _ (add_branch_found repo env branch_id action) w
        (add_branch_found-Alters gid branch_id action (on_store (repo.load gid) w).1) keyed h

  set_branch_found-Alters :
      (gid branch_id : Text) (status : BranchStatus) (w : World S)
      → FoundAlters repo laws gid
          (marked branch_id status (env.clock w.readings))
          (set_branch_found repo env branch_id status)
          w
  unfolding set_branch_found
  set_branch_found-Alters gid branch_id status w none e keyed h =
      unchanged-Alters repo laws gid _ none w e refl
  set_branch_found-Alters gid branch_id status w (some tx) e keyed h =
      let f = marked branch_id status (env.clock w.readings) in
      elim (Option-cases (set_branch branch_id status tx.branches)) [
        | inl missing ↦
            rw (missing, set_branch_found)
              (unchanged-Alters repo laws gid f (some tx) w e (rw (missing, marked)))
        | inr (branches, set) ↦
            rw (set, set_branch_found)
              (saved_last gid f tx (record tx { branches = branches }) w e keyed refl
                (rw (set, marked)) (rw (set, set_branch_found) at h))
      ]

  -- Over a lawful repository whose transactions stand under their own gids, a `branch_succeed`
  -- that returns gives the first branch with this id the status Succeed, if the transaction exists
  -- and has one, and changes nothing else.
  branch_succeed_lem :
      (gid branch_id : Text) (w : World S)
      → IsKeyed repo laws w
      → (branch_succeed repo env gid branch_id w).0 ≡ ok tt
      → Alters repo laws gid
          (marked branch_id succeed (env.clock w.readings))
          w
          (branch_succeed repo env gid branch_id w).1
  unfolding branch_succeed
  branch_succeed_lem gid branch_id w keyed h =
      load_then repo laws gid _ (set_branch_found repo env branch_id succeed) w
        (set_branch_found-Alters gid branch_id succeed (on_store (repo.load gid) w).1) keyed h

  -- Over a lawful repository whose transactions stand under their own gids, a `branch_fail` that
  -- returns gives the first branch with this id the status Failed, if the transaction exists and
  -- has one, and changes nothing else.
  pub branch_fail_lem :
      (gid branch_id : Text) (w : World S)
      → IsKeyed repo laws w
      → (branch_fail repo env gid branch_id w).0 ≡ ok tt
      → Alters repo laws gid
          (marked branch_id failed (env.clock w.readings))
          w
          (branch_fail repo env gid branch_id w).1
  unfolding branch_fail
  branch_fail_lem gid branch_id w keyed h =
      load_then repo laws gid _ (set_branch_found repo env branch_id failed) w
        (set_branch_found-Alters gid branch_id failed (on_store (repo.load gid) w).1) keyed h

  abort_found-Alters :
      (gid : Text) (w : World S)
      → FoundAlters repo laws gid (rolled_back (env.clock w.readings)) (abort_found repo env) w
  unfolding abort_found
  abort_found-Alters gid w none e keyed h = unchanged-Alters repo laws gid _ none w e refl
  abort_found-Alters gid w (some tx) e keyed h =
      saved_last gid (rolled_back (env.clock w.readings)) tx
        (record tx { branches = fail_unfinished tx.branches; status = aborted }) w e keyed refl
        (rw fail_unfinished-map refl) h

  -- Over a lawful repository whose transactions stand under their own gids, an `abort` that
  -- returns marks the transaction aborted and each branch that has not succeeded as failed, if the
  -- transaction exists, and changes nothing else.
  pub abort_lem :
      (gid : Text) (w : World S)
      → IsKeyed repo laws w
      → (abort repo env gid w).0 ≡ ok tt
      → Alters repo laws gid (rolled_back (env.clock w.readings)) w (abort repo env gid w).1
  unfolding abort
  abort_lem gid w keyed h =
      load_then repo laws gid _ (abort_found repo env) w
        (abort_found-Alters gid (on_store (repo.load gid) w).1) keyed h
