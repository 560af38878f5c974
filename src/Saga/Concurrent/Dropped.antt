-- ===== src/Saga/Concurrent/Dropped.antt =====
-- A submission that the time limit of the HTTP server drops while its branches are executed
-- (seata-server/src/saga.rs, seata-server/src/main.rs).
use seata.Saga.Concurrent.Awaited.{turn-await_tasks}
use seata.Base.{
  put_nth, Bool, Bool-cases, inl, inr, if◌then◌else◌, ℕ, ◌≡◌, ◌≢◌, refl, sym, ◌∙◌, true, false,
  some, List, [], ◌∷◌, ◌++◌, Text, text_eq, text_eq_refl, arith, length,
}
use seata.Domain.{GlobalTxn}
use seata.Repo.{TxnRepo, RepoLaws}
use seata.Saga.World.{World, Env, SagaManager}
use seata.Saga.Steps.{view}
use seata.Saga.Returns.{Answers}
use seata.Saga.Interrupted.{begun}
use seata.Saga.Invariant.{AllWell, op_submit}
use seata.Saga.Concurrent.{
  Program, finish, stamped_then, submitting, program, turn, System, Event, dropped, happen, play,
}
use seata.Saga.Concurrent.Safety.{program-Safe, happen-Safe, play-Safe}
use seata.Saga.Concurrent.Overwrites.{again}
use seata.Saga.Concurrent.Isolation.{spares, Avoids, AllAvoid, play-spares}

module _ {S : Type 0} (repo : TxnRepo S) (env : Env) (m : SagaManager) where
  pub play-append :
      (es es' : List Event) (s : System S)
      → play repo env m (es ++ es') s ≡ play repo env m es' (play repo env m es s)
  unfolding play
  play-append [] es' s = refl
  play-append (e ∷ es) es' s = play-append es es' (happen repo env m e s)

only_finish-Avoids :
    (g : Text) (ps : List Program) → length ps ≡ 1 → AllAvoid g (put_nth 0 finish ps)
unfolding Avoids
only_finish-Avoids g [] h = tt
only_finish-Avoids g (p ∷ []) h = (tt, tt)
only_finish-Avoids g (p ∷ q ∷ ps) h = absurd (omega (arith, h))

module _ {S : Type 0} (repo : TxnRepo S) (laws : RepoLaws repo) (answers : Answers repo) (env : Env)
    (m : SagaManager) where
  -- The server after the first turns of a submission: the load, the clock and the save, and, if
  -- `executed`, the execution of the branches.
  begun_submission :
      (executed : Bool) (gid : Text) (tx : GlobalTxn) (w : World S)
      → view repo laws w gid ≡ some tx
      → tx.gid ≡ gid
      → let s =
          play repo env m
            (again (if executed then 4 else 3) 0)
            (record { world = w; requests = program (op_submit gid) ∷ [] }) in
        (view repo laws s.world gid ≡ some (begun env w.readings tx)) × (length s.requests ≡ 1)
  unfolding play happen program turn submitting stamped_then
  begun_submission executed gid tx w stored own =
      let (found, loaded) = answers.load_returns gid w.store in
      let is_tx : found ≡ some tx = sym (laws.load_ok gid w.store found loaded) ∙ stored in
      let s0 = (repo.load gid w.store).1 in
      let tx' = begun env w.readings tx in
      let returns = answers.save_returns tx' s0 in
      let saved : laws.stored (repo.save tx' s0).1 gid ≡ some tx' =
        laws.save_ok tx' s0 returns gid ∙ rw (own, text_eq_refl gid) in
      elim (Bool-cases executed) [
        | inl late ↦ rw late (rw (loaded, is_tx, returns, turn-await_tasks repo env m) saved, refl)
        | inr soon ↦ rw soon (rw (loaded, is_tx) saved, refl)
      ]

  -- Over a lawful repository of well-formed transactions whose calls return, and with UUIDs that are
  -- neither empty nor `gid`: a submission that is dropped after its first save, before its branches
  -- are executed or when they have been but their results are not saved, leaves its transaction in
  -- the status Committing with its old branches, and no request on other transactions ever changes
  -- that.
  pub dropped_submission :
      (executed : Bool) (gid : Text) (tx : GlobalTxn) (es : List Event) (w : World S)
      → ((n : ℕ) → env.uuid n ≢ [])
      → ((n : ℕ) → text_eq (env.uuid n) gid ≡ false)
      → AllWell repo laws w
      → view repo laws w gid ≡ some tx
      → spares gid es ≡ true
      → view repo laws
          (play repo env m
            (again (if executed then 4 else 3) 0 ++ dropped 0 ∷ es)
            (record { world = w; requests = program (op_submit gid) ∷ [] })).world
          gid
        ≡ some (begun env w.readings tx)
  dropped_submission executed gid tx es w fresh no_uuid well stored spared =
      let s0 : System S = record { world = w; requests = program (op_submit gid) ∷ [] } in
      let first = again (if executed then 4 else 3) 0 in
      let s3 = play repo env m first s0 in
      let s4 = happen repo env m (dropped 0) s3 in
      let own = (well.at gid tx stored).own_gid in
      let (begins, one) = begun_submission executed gid tx w stored own in
      let safe3 =
        play-Safe repo laws env m first s0 fresh (well, (program-Safe env (op_submit gid), tt)) in
      let safe4 = happen-Safe repo laws env m (dropped 0) s3 fresh safe3 in
      let avoid : AllAvoid gid s4.requests =
        unfold happen in only_finish-Avoids gid s3.requests one in
      let kept = play-spares repo laws env m gid no_uuid es s4 fresh safe4 avoid spared in
      let world4 : s4.world ≡ s3.world = unfold happen in refl in
      rw (play-append repo env m first (dropped 0 ∷ es) s0)
        (unfold play in (kept ∙ rw world4 begins))
