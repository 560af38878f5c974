-- ===== src/Saga/Steps.antt =====
-- What the single steps of the manager's operations do to the stored transactions, when they
-- return: loads, saves with a new time stamp, and the execution of the branches.
use seata.Base.{
  suc, ◌≡◌, Option, some, Text, ok, text_eq, if◌then◌else◌, arith, Result-cases, inl, inr,
}
use seata.Domain.{GlobalTxn}
use seata.Repo.{TxnRepo, RepoLaws}
use seata.Saga.World.{World, Env, on_store}
use seata.Saga.Manager.{stamp_and_save}

module _ {S : Type 0} (repo : TxnRepo S) (laws : RepoLaws repo) where
  -- The transaction that the world holds under a gid.
  abbrev pub view : World S → Text → Option GlobalTxn
  view w gid = laws.stored w.store gid

  -- `w'` holds `tx` under its gid, and under every other gid what `w` holds.
  pub record Updated (tx : GlobalTxn) (w w' : World S) : Type 0 where
    pub at : (j : Text) → view w' j ≡ (if text_eq tx.gid j then some tx else view w j)

  -- A load that returned has read what is stored, and has changed nothing that is stored.
  pub load_lem :
      (gid : Text) (w : World S) (found : Option GlobalTxn)
      → (on_store (repo.load gid) w).0 ≡ ok found
      → view w gid ≡ found
  load_lem gid w found h = laws.load_ok gid w.store found h

  pub view-load :
      (gid : Text) (w : World S) (j : Text) → view (on_store (repo.load gid) w).1 j ≡ view w j
  view-load gid w j = laws.load_keeps gid w.store j

module _ {S : Type 0} (repo : TxnRepo S) (laws : RepoLaws repo) (env : Env) where
  pub stamp_and_save_lem :
      (tx tx' : GlobalTxn) (w : World S)
      → (stamp_and_save repo env tx w).0 ≡ ok tx'
      → (tx' ≡ record tx { updated_unix = env.clock w.readings })
        × Updated repo laws tx' w (stamp_and_save repo env tx w).1
        × ((stamp_and_save repo env tx w).1.readings ≡ suc w.readings)
        × ((stamp_and_save repo env tx w).1.spawned ≡ w.spawned)
        × ((stamp_and_save repo env tx w).1.metrics ≡ w.metrics)
  unfolding stamp_and_save
  stamp_and_save_lem tx tx' w h =
      let stamped : GlobalTxn = record tx { updated_unix = env.clock w.readings } in
      elim (Result-cases (repo.save stamped w.store).0) [
        | inr (e, bad) ↦ absurd (ground arith)
        | inl (u, good) ↦
            let e : tx' ≡ stamped = ground arith in
            (
              e,
              record {
                at = λ j. let put = laws.save_ok stamped w.store good j in rw e (ground arith);
              },
              ground arith,
              ground arith,
              ground arith,
            )
      ]
