-- ===== src/Saga/Concurrent/Twice.antt =====
-- Two submissions of one transaction at the same time (seata-server/src/saga.rs).
use seata.Base.{
  ℕ, ◌<◌, ◌≡◌, ◌==◌, refl, sym, ◌∙◌, ap, false, some, [], ◌∷◌, ◌++◌, Text, length, arith,
}
use seata.Domain.{GlobalTxn}
use seata.Repo.{TxnRepo, RepoLaws}
use seata.Saga.World.{World, Env, SagaManager}
use seata.Saga.Manager.{submit_requests}
use seata.Saga.Steps.{view}
use seata.Saga.Submit.{submit_found_lem}
use seata.Saga.Returns.{Answers, submit_found-Returns}
use seata.Saga.Invariant.{op_submit}
use seata.Saga.Concurrent.{
  await_load, submitting, program, turn, System, takes_turn, nth, happen, play,
}
use seata.Saga.Concurrent.Alone.{alone-submitting}
use seata.Saga.Concurrent.Turns.{submitting-Within}
use seata.Saga.Concurrent.Overwrites.{again, IsAt, turn-IsAt, play-again, play-IsAt}
use seata.Saga.Concurrent.Dropped.{play-append}

module _ {S : Type 0} (repo : TxnRepo S) (laws : RepoLaws repo) (answers : Answers repo) (env : Env)
    (m : SagaManager) where
  -- The load of a submission.
  loads :
      (i : ℕ) (gid : Text) (tx : GlobalTxn) (s : System S)
      → IsAt repo env m i (program (op_submit gid)) s
      → view repo laws s.world gid ≡ some tx
      → let s' = happen repo env m (takes_turn i) s in
        IsAt repo env m i (submitting (some tx)) s'
        × (view repo laws s'.world gid ≡ some tx)
        × (s'.world.spawned ≡ s.world.spawned)
  unfolding program
  loads i gid tx s at stored =
      let (found, loaded) = answers.load_returns gid s.world.store in
      let is_tx : found ≡ some tx = sym (laws.load_ok gid s.world.store found loaded) ∙ stored in
      let (at', w') = turn-IsAt repo env m i (await_load gid submitting) s at in
      let p : (turn repo env m (await_load gid submitting) s.world).0 ≡ submitting (some tx) =
        unfold turn in rw (loaded, is_tx) in
      let kept = laws.load_keeps gid s.world.store gid in
      ((at'.0, at'.1 ∙ p), rw w' (unfold turn in kept ∙ stored), rw w' (unfold turn in refl))

  -- The rest of a submission that has loaded `tx`, in one go.
  spawns :
      (i : ℕ) (tx : GlobalTxn) (s : System S)
      → IsAt repo env m i (submitting (some tx)) s
      → (play repo env m (again 7 i) s).world.spawned ≡ s.world.spawned ++ submit_requests env tx
  spawns i tx s at =
      let run =
        play-again repo env m i 7 (submitting (some tx)) s (submitting-Within (some tx)) at in
      let (_, returns) = submit_found-Returns repo answers env m (some tx) s.world in
      let done = submit_found_lem repo laws env m tx s.world returns in
      ap (λ (w : World S). w.spawned) (run ∙ alone-submitting repo env m (some tx) s.world)
      ∙ done.spawned

  -- Over a lawful repository whose calls return, of two submissions of one transaction that both load
  -- it before one of them goes on, each executes every prepared branch: the branches' actions are
  -- posted twice.
  pub submit_twice :
      (i j : ℕ) (gid : Text) (tx : GlobalTxn) (s : System S)
      → i < length s.requests
      → j < length s.requests
      → (j == i) ≡ false
      → (i == j) ≡ false
      → nth i s.requests ≡ program (op_submit gid)
      → nth j s.requests ≡ program (op_submit gid)
      → view repo laws s.world gid ≡ some tx
      → (play repo env m (takes_turn i ∷ takes_turn j ∷ again 7 i ++ again 7 j) s).world.spawned
        ≡ s.world.spawned ++ submit_requests env tx ++ submit_requests env tx
  unfolding play
  submit_twice i j gid tx s hi hj ji ij ei ej stored =
      let s1 = happen repo env m (takes_turn i) s in
      let s2 = happen repo env m (takes_turn j) s1 in
      let s3 = play repo env m (again 7 i) s2 in
      let (at_i, stored1, same1) = loads i gid tx s (hi, ei) stored in
      let at_j =
        play-IsAt repo env m j (program (op_submit gid)) (takes_turn i ∷ []) s (ground (arith, ij))
          (hj, ej) in
      let (loaded_j, _, same2) = loads j gid tx s1 at_j stored1 in
      let loaded_i =
        play-IsAt repo env m i (submitting (some tx)) (takes_turn j ∷ []) s1 (ground (arith, ji))
          at_i in
      let first = spawns i tx s2 loaded_i in
      let held_j =
        play-IsAt repo env m j (submitting (some tx)) (again 7 i) s2 (ground (arith, ij))
          loaded_j in
      let second = spawns j tx s3 held_j in
      let reqs = submit_requests env tx in
      ap (λ (s : System S). s.world.spawned) (play-append repo env m (again 7 i) (again 7 j) s2)
      ∙ second
      ∙ ap (λ l. l ++ reqs) (first ∙ ap (λ l. l ++ reqs) (same2 ∙ same1))
