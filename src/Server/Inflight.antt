-- ===== src/Server/Inflight.antt =====
-- The calls of the API in flight at once (the handlers of seata-server/src/main.rs that change
-- state, over `Barrier::insert` of seata-server/src/barrier.rs and the operations of
-- seata-server/src/saga.rs): a call may stand behind a barrier, whose read and write are steps of
-- their own.
pub mod Barriers
pub mod Safety
pub mod Alone
pub mod Steps
pub mod Isolation
use seata.Base.{
  nth_or, put_nth, ℕ, zero, suc, List, [], ◌∷◌, ◌++◌, Text, Option, Result, ok, err, is_some,
  if◌then◌else◌,
}
use seata.Domain.{BarrierPhase, BarrierKey, try, confirm, cancel}
use seata.Kv.{Kv}
use seata.Repo.{Serde, dyn_repo}
use seata.Barrier.{key}
use seata.Saga.World.{World, Env, SagaManager, on_store}
use seata.Saga.Invariant.{Op, op_add, op_succeed, op_fail}
use seata.Saga.Concurrent.{Program, finish, program, turn}

-- A call of an operation, or of `http_branch_try`, `http_branch_succeed` and `http_branch_fail`, by
-- their phases, whose barrier comes first; the action is for `try` only.
pub data Call : Type 0 where
  plain : Op → Call
  guarded : BarrierKey → Text → Call

abbrev pub behind_barrier : BarrierPhase → Text → Text → Text → Op
behind_barrier try gid branch_id action = op_add gid branch_id action
behind_barrier confirm gid branch_id action = op_succeed gid branch_id
behind_barrier cancel gid branch_id action = op_fail gid branch_id

-- What is left of a call: the read of the barrier, its write, or steps of the operation.
pub data Handling : Type 0 where
  checking marking : BarrierKey → Op → Handling
  running : Program → Handling

abbrev pub handling : Call → Handling
handling (plain o) = running (program o)
handling (guarded b action) = checking b (behind_barrier b.phase b.gid b.branch_id action)

-- The answer of the read, `Ok(false)` or an error of which ends the call.
abbrev pub checked : BarrierKey → Op → Result (Option Text) → Handling
checked b o (ok found) = if is_some found then running finish else marking b o
checked b o (err e) = running finish

abbrev pub marked : Op → Result (Unit {0}) → Handling
marked o (ok u) = running (program o)
marked o (err e) = running finish

abbrev pub key_of : BarrierKey → Text
key_of b = key b.gid b.branch_id b.phase

-- The server: its world and the calls that have arrived, the finished ones included.
pub record Inflight (S : Type 0) : Type 0 where
  pub world : World S
  pub calls : List Handling

pub data Event : Type 0 where
  arrives : Call → Event
  steps : ℕ → Event
  times_out : ℕ → Event

-- The `i`-th call.
abbrev pub call_at : ℕ → List Handling → Handling
call_at i cs = nth_or (running finish) i cs

module _ {S : Type 0} (kv : Kv S) (serde : Serde) (env : Env) (m : SagaManager) where
  -- One step of a call.
  unfoldable pub step : Handling → World S → Handling × World S
  step (checking b o) w = let (r, w') = on_store (kv.get (key_of b)) w in (checked b o r, w')
  step (marking b o) w = let (r, w') = on_store (kv.put (key_of b) []) w in (marked o r, w')
  step (running p) w = let (p', w') = turn (dyn_repo kv serde) env m p w in (running p', w')

  unfoldable pub happen : Event → Inflight S → Inflight S
  happen (arrives c) s = record s { calls = s.calls ++ handling c ∷ [] }
  happen (steps i) s =
      let (h, w) = step (call_at i s.calls) s.world in
      record s { world = w; calls = put_nth i h s.calls }
  happen (times_out i) s = record s { calls = put_nth i (running finish) s.calls }

  unfoldable pub play : List Event → Inflight S → Inflight S
  play [] s = s
  play (e ∷ es) s = play es (happen e s)
