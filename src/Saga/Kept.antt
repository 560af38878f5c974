-- ===== src/Saga/Kept.antt =====
-- What the operations keep of a stored transaction, over any sequence of them
-- (seata-server/src/saga.rs).
use seata.Base.{◌≡◌, ◌≢◌, Bool, true, false, not, some, List, [], ◌∷◌, ℕ, Text, all, arith}
use seata.Domain.{GlobalTxn}
use seata.Repo.{TxnRepo, RepoLaws}
use seata.Saga.World.{World, Env, SagaManager}
use seata.Saga.Steps.{view}
use seata.Saga.Evolution.{Keeps, ⟶*-Keeps}
use seata.Saga.Histories.{
  Evolves, Evolves-refl, Evolves-trans, abort-Evolves, add_branch-Evolves, branch_succeed-Evolves,
  branch_fail-Evolves,
}
use seata.Saga.Histories.Submission.{submit-Evolves}
use seata.Saga.Invariant.{
  Op, op_start, op_submit, op_abort, op_add, op_succeed, op_fail, apply, run, AllWell,
  AllWell-IsKeyed, apply-AllWell,
}

abbrev pub is_start : Op → Bool
is_start (op_start gid mode payload) = true
is_start (op_submit gid) = false
is_start (op_abort gid) = false
is_start (op_add gid branch_id action) = false
is_start (op_succeed gid branch_id) = false
is_start (op_fail gid branch_id) = false

module _ {S : Type 0} (repo : TxnRepo S) (laws : RepoLaws repo) (env : Env) (m : SagaManager) where
  apply-Evolves :
      (o : Op) (w : World S)
      → is_start o ≡ false
      → AllWell repo laws w
      → Evolves repo laws w (apply repo env m o w)
  unfolding apply
  apply-Evolves (op_start gid mode payload) w later h = absurd (cc)
  apply-Evolves (op_submit gid) w later h =
      submit-Evolves repo laws env m gid w (AllWell-IsKeyed repo laws h)
  apply-Evolves (op_abort gid) w later h =
      abort-Evolves repo laws env gid w (AllWell-IsKeyed repo laws h)
  apply-Evolves (op_add gid branch_id action) w later h =
      add_branch-Evolves repo laws env gid branch_id action w (AllWell-IsKeyed repo laws h)
  apply-Evolves (op_succeed gid branch_id) w later h =
      branch_succeed-Evolves repo laws env gid branch_id w (AllWell-IsKeyed repo laws h)
  apply-Evolves (op_fail gid branch_id) w later h =
      branch_fail-Evolves repo laws env gid branch_id w (AllWell-IsKeyed repo laws h)

  run-Evolves :
      (os : List Op) (w : World S)
      → ((n : ℕ) → env.uuid n ≢ [])
      → all (λ o. not (is_start o)) os ≡ true
      → AllWell repo laws w
      → Evolves repo laws w (run repo env m os w)
  unfolding run
  run-Evolves [] w fresh later h = Evolves-refl repo laws w
  run-Evolves (o ∷ os) w fresh later h =
      Evolves-trans repo laws w (apply repo env m o w) (run repo env m os (apply repo env m o w))
        (apply-Evolves o w (ground arith) h)
        (run-Evolves os (apply repo env m o w) fresh (ground arith)
          (apply-AllWell repo laws env m o w fresh h))

  -- Over a lawful repository of well-formed transactions, and with UUIDs that are not empty, after
  -- any calls but `start`, returning or failing: what is stored under a gid was stored there
  -- before, with the same mode, payload and creation time and the same branches first, in their
  -- places, with their ids and actions, and none of them has become prepared again.
  pub run-Keeps :
      (os : List Op) (w : World S) (j : Text) (t : GlobalTxn)
      → ((n : ℕ) → env.uuid n ≢ [])
      → all (λ o. not (is_start o)) os ≡ true
      → AllWell repo laws w
      → view repo laws (run repo env m os w) j ≡ some t
      → (s : GlobalTxn) × (view repo laws w j ≡ some s) × Keeps s t
  run-Keeps os w j t fresh later h e =
      let (s, old, steps) = run-Evolves os w fresh later h j t e in (s, old, ⟶*-Keeps steps)
