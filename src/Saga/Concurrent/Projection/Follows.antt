-- ===== src/Saga/Concurrent/Projection/Follows.antt =====
-- Every interleaving follows, on each transaction, the server that stores this one only
-- (seata-server/src/saga.rs).
use mathlib.Core.Path.{subst}
use seata.Saga.Concurrent.Awaited.{turn-await_tasks}
use seata.Base.{
  ℕ, suc, ◌≡◌, refl, ap, ◌∙◌, inl, inr, true, Option, Text, text_eq, text_eq_refl, Option-cases,
  map,
}
use seata.Domain.{GlobalTxn}
use seata.Repo.{TxnRepo, RepoLaws}
use seata.Saga.World.{World, Env, SagaManager}
use seata.Saga.Branch.{run_task, attempt_loop, secs, pause}
use seata.Saga.Settle.Reference.{settled}
use seata.Saga.Spec.{executed_branches}
use seata.Saga.Steps.{view}
use seata.Saga.Returns.{Answers}
use seata.Saga.Invariant.{AllWell}
use seata.Saga.Concurrent.{Program, turn}
use seata.Saga.Concurrent.Projection.{timeless, Same, SameFound, local_turn}
use seata.Saga.Concurrent.Projection.Programs.{
  Under, Follows, both_finish, both_load, both_save, both_run, both_read,
}

-- The remote answers a request in one way, whenever it is sent.
abbrev pub IsSteady : Env → Type 0
IsSteady env = (epoch : ℕ) → env.send epoch ≡ env.send 0

run_task-steady :
    (env : Env) (m : SagaManager) (epoch : ℕ)
    → IsSteady env
    → run_task m.exec env epoch ≡ run_task m.exec env 0
unfolding run_task
run_task-steady env m epoch steady i r =
    let exec = m.exec in
    let limit = secs exec.timeout_to_fail_secs in
    attempt_loop (steady epoch i r exec.request_timeout_secs) limit (pause exec r.body.branch_id)
      (suc limit) 0 0

-- What the tasks leave does not depend on the time stamps, nor on when they are spawned.
executed-Same :
    (env : Env) (m : SagaManager) (epoch : ℕ) (t t' : GlobalTxn)
    → IsSteady env
    → Same t t'
    → Same
        (record t { branches = executed_branches m env epoch t })
        (record t' { branches = executed_branches m env 0 t' })
unfolding settled
executed-Same env m epoch t t' steady same =
    let here : timeless (record t { branches = executed_branches m env epoch t })
        ≡ timeless (record t { branches = executed_branches m env 0 t }) =
      ap
        (λ run.
          timeless
            (record t { branches = map (settled run t (env.base64_encode t.payload)) t.branches }))
        (run_task-steady env m epoch steady) in
    here ∙ ap {A = GlobalTxn} (λ x. record x { branches = executed_branches m env 0 x }) same

module _ {S : Type 0} (repo : TxnRepo S) (laws : RepoLaws repo) (answers : Answers repo) (env : Env)
    (m : SagaManager) (steady : IsSteady env) (g : Text) where
  -- What the server stores under `g` is what the local one stores.
  abbrev Agrees : World S → Option GlobalTxn → Type 0
  Agrees w s = SameFound (view repo laws w g) s

  found-Under : (w : World S) → AllWell repo laws w → Under g (view repo laws w g)
  found-Under w well = elim (Option-cases (view repo laws w g)) [
    | inl e ↦ rw e tt
    | inr (t, e) ↦ rw e (well.at g t e).own_gid
  ]

  pub turn-Follows :
      {p q : Program} (w : World S) (s : Option GlobalTxn)
      → Follows g p q
      → AllWell repo laws w
      → Agrees w s
      → Follows g (turn repo env m p w).0 (local_turn env m q s).0
        × Agrees (turn repo env m p w).1 (local_turn env m q s).1
  unfolding turn
  turn-Follows w s both_finish well agrees = (both_finish, agrees)
  turn-Follows w s (both_load {gid} own rest) well agrees =
      let (found, e) = answers.load_returns gid w.store in
      let is_found : view repo laws w gid ≡ found = laws.load_ok gid w.store found e in
      let here : view repo laws w g ≡ found =
        subst (λ j. view repo laws w j ≡ found) own is_found in
      (
        rw e (rest found s (rw (← here) (found-Under w well)) (rw (← here) agrees)),
        rw (laws.load_keeps gid w.store g) agrees,
      )
  turn-Follows w s (both_save {t} own same rest) well agrees =
      let e = answers.save_returns t w.store in
      let here : text_eq t.gid g ≡ true = rw own (text_eq_refl g) in
      (rw e rest, rw (laws.save_ok t w.store e g, here) same)
  turn-Follows w s (both_run {t} {t'} {r} same rest) well agrees = (
    rw (turn-await_tasks repo env m t r w)
        (rest _ _ refl (executed-Same env m w.readings t t' steady same)),
    rw (turn-await_tasks repo env m t r w) agrees,
  )
  turn-Follows w s (both_read rest) well agrees = (rest _ _, agrees)
