-- ===== src/Server/Inflight/Alone.antt =====
-- A call with no other between its steps is the handler's call, as Server/Once has it
-- (seata-server/src/main.rs).
use seata.Base.{◌≡◌, refl, inl, inr, none, some, [], Text, ok, err, Result-cases}
use seata.Domain.{BarrierKey, BarrierPhase, try, confirm, cancel}
use seata.Kv.{Kv}
use seata.Repo.{Serde, dyn_repo}
use seata.Barrier.{insert, insert_found}
use seata.Saga.World.{World, Env, SagaManager, on_store}
use seata.Saga.Invariant.{Op, op_add, op_succeed, op_fail, apply}
use seata.Saga.Concurrent.{program, alone}
use seata.Saga.Concurrent.Alone.{alone-program}
use seata.Server.Http.{http_branch_try, http_branch_succeed, http_branch_fail}
use seata.Server.Reply.{Content, HttpReply, Handler, ok_200, internal_500, behind}
use seata.Server.Once.{branch_call}
use seata.Server.Inflight.{Handling, checking, marking, running, handling, guarded, key_of}

module _ {S : Type 0} (kv : Kv S) (serde : Serde) (env : Env) (m : SagaManager) where
  -- The steps of one call without any other between them.
  unfoldable pub alone_marking : BarrierKey → Op → World S → World S
  alone_marking b o w =
      let (r, w') = on_store (kv.put (key_of b) []) w in
      elim r [ ok u ↦ alone (dyn_repo kv serde) env m (program o) w' | err e ↦ w' ]

  unfoldable pub alone_handling : Handling → World S → World S
  alone_handling (checking b o) w =
      let (r, w') = on_store (kv.get (key_of b)) w in
      elim r [ ok found ↦ elim found [ none ↦ alone_marking b o w' | some v ↦ w' ] | err e ↦ w' ]
  alone_handling (marking b o) w = alone_marking b o w
  alone_handling (running p) w = alone (dyn_repo kv serde) env m p w

  checking-behind :
      (b : BarrierKey) (o : Op) (rest : Handler S HttpReply) (w : World S)
      → ((w' : World S) → alone (dyn_repo kv serde) env m (program o) w' ≡ (rest w').1)
      → alone_handling (checking b o) w
        ≡ (behind
            (on_store (insert kv b.gid b.branch_id b.phase))
            (ok_200 Content.empty)
            internal_500
            rest
            w).1
  unfolding alone_handling alone_marking insert insert_found
  checking-behind b o rest w same = elim (Result-cases (kv.get (key_of b) w.store).0) [
    | inr (x, bad) ↦ rw (alone_handling, bad) refl
    | inl (some v, got) ↦ rw (alone_handling, got) refl
    | inl (none, got) ↦
        let s = (kv.get (key_of b) w.store).1 in
        elim (Result-cases (kv.put (key_of b) [] s).0) [
          | inr (x, bad) ↦ rw (alone_handling, got, alone_marking, bad) refl
          | inl (u, put) ↦ rw (alone_handling, got, alone_marking, put) (same _)
        ]
  ]

  -- A branch call whose steps have no other between them leaves the world that the handler of
  -- Server/Http leaves, whether the barrier lets it through or not, and whether its calls of the
  -- store return or fail.
  alone_call :
      (phase : BarrierPhase) (gid branch_id action : Text) (w : World S)
      → let b : BarrierKey = record { gid = gid; branch_id = branch_id; phase = phase } in
        alone_handling (handling (guarded b action)) w
        ≡ (branch_call kv serde env m phase gid branch_id action w).1
  unfolding http_branch_try http_branch_succeed http_branch_fail apply
  alone_call try gid branch_id action w =
      checking-behind _ _ _ w
        (alone-program (dyn_repo kv serde) env m (op_add gid branch_id action))
  alone_call confirm gid branch_id action w =
      checking-behind _ _ _ w (alone-program (dyn_repo kv serde) env m (op_succeed gid branch_id))
  alone_call cancel gid branch_id action w =
      checking-behind _ _ _ w (alone-program (dyn_repo kv serde) env m (op_fail gid branch_id))
