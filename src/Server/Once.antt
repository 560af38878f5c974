-- ===== src/Server/Once.antt =====
-- What the barrier lets through (`http_branch_try`, `http_branch_succeed` and `http_branch_fail` of
-- seata-server/src/main.rs), where the barrier and the transactions share a store.
use seata.Base.{
  ◌≡◌, refl, ◌⊎◌, inl, inr, true, false, none, some, Text, ok, err, arith, Result-cases,
}
use seata.Domain.{BarrierPhase, BarrierKey, try, confirm, cancel}
use seata.Kv.{Kv, KvLaws}
use seata.Repo.{Serde, dyn_repo}
use seata.Repo.Laws.{stored}
use seata.Barrier.{key, insert, insert_found, barrier_ops}
use seata.Barrier.Laws.{held}
use seata.Saga.World.{World, Env, SagaManager, on_store}
use seata.Server.Reply.{Content, HttpReply, ok_200, internal_500, Handler, behind}
use seata.Server.Http.{http_branch_try, http_branch_succeed, http_branch_fail}

module _ {S : Type 0} (kv : Kv S) (laws : KvLaws kv) where
  -- A call of `insert` whose barrier is held writes nothing.
  held_insert :
      (b : BarrierKey) (s : S)
      → held kv laws s b ≡ true
      → (((insert kv b.gid b.branch_id b.phase s).0 ≡ ok false)
          ⊎ ((e : Text) × ((insert kv b.gid b.branch_id b.phase s).0 ≡ err e)))
        × ((j : Text) → laws.find (insert kv b.gid b.branch_id b.phase s).1 j ≡ laws.find s j)
  unfolding insert insert_found
  held_insert b s h =
      let k = key b.gid b.branch_id b.phase in
      elim (Result-cases (kv.get k s).0) [
        | inl (some v, e) ↦ rw e (inl refl, λ j. laws.get_keeps k s j)
        | inl (none, e) ↦ absurd (let missing = laws.get_ok k s none e in ground arith)
        | inr (x, e) ↦ rw e (inr (x, refl), λ j. laws.get_keeps k s j)
      ]

module _ {S : Type 0} (kv : Kv S) (serde : Serde) where
  -- The branch call whose barrier has this phase; `action` is for `try` only.
  abbrev pub branch_call :
      Env → SagaManager → BarrierPhase → Text → Text → Text → Handler S HttpReply
  branch_call env m try gid branch_id action =
      http_branch_try (dyn_repo kv serde) (barrier_ops kv) env m
        (record { gid = gid; branch_id = branch_id; action = action })
  branch_call env m confirm gid branch_id action =
      http_branch_succeed (dyn_repo kv serde) (barrier_ops kv) env m
        (record { gid = gid; branch_id = branch_id })
  branch_call env m cancel gid branch_id action =
      http_branch_fail (dyn_repo kv serde) (barrier_ops kv) env m
        (record { gid = gid; branch_id = branch_id })

module _ {S : Type 0} (kv : Kv S) (laws : KvLaws kv) (serde : Serde) where
  -- The reply that a held barrier gives, in a store that is the same.
  abbrev pub Skipped : HttpReply × World S → World S → Type 0
  Skipped r w =
      ((r.0 ≡ ok_200 Content.empty) ⊎ ((e : Text) × (r.0 ≡ internal_500 e)))
      × ((j : Text) → stored kv laws serde r.1.store j ≡ stored kv laws serde w.store j)

  behind-Skipped :
      (b : BarrierKey) (rest : Handler S HttpReply) (w : World S)
      → held kv laws w.store b ≡ true
      → Skipped
          (behind
            (on_store (insert kv b.gid b.branch_id b.phase))
            (ok_200 Content.empty)
            internal_500
            rest
            w)
          w
  behind-Skipped b rest w h =
      let (r, same) = held_insert kv laws b w.store h in
      elim r [
        | inl seen ↦ rw seen (inl refl, λ j. rw (same _))
        | inr (e, bad) ↦ rw bad (inr (e, refl), λ j. rw (same _))
      ]

  -- Over a lawful store that the barrier shares with the transactions, a branch call whose barrier
  -- is held, even if the call that set it failed afterwards, is answered with 200, or with 500 if
  -- the barrier cannot be read, and no stored transaction changes.
  pub held_skips :
      (env : Env) (m : SagaManager) (phase : BarrierPhase) (gid branch_id action : Text)
      (w : World S)
      → held kv laws w.store (record { gid = gid; branch_id = branch_id; phase = phase }) ≡ true
      → Skipped (branch_call kv serde env m phase gid branch_id action w) w
  unfolding http_branch_try http_branch_succeed http_branch_fail
  held_skips env m try gid branch_id action w =
      behind-Skipped (record { gid = gid; branch_id = branch_id; phase = try }) _ w
  held_skips env m confirm gid branch_id action w =
      behind-Skipped (record { gid = gid; branch_id = branch_id; phase = confirm }) _ w
  held_skips env m cancel gid branch_id action w =
      behind-Skipped (record { gid = gid; branch_id = branch_id; phase = cancel }) _ w
