-- ===== src/Saga/Concurrent.antt =====
-- Requests in flight at once (seata-server/src/saga.rs, served by seata-server/src/main.rs): each
-- operation as a program that stops at its `.await` points, and the server as a list of programs of
-- which any may take the next turn, fail at a call of the repository, or be dropped by the timeout
-- layer.
pub mod Awaited
pub mod Alone
pub mod Safety
pub mod Turns
pub mod Overwrites
pub mod Isolation
pub mod Dropped
pub mod Twice
pub mod Serial
pub mod Projection
use seata.Base.{
  nth_or, put_nth, ℕ, zero, suc, Bool, Option, none, some, List, [], ◌∷◌, ◌++◌, Text, Bytes, bytes,
  is_empty, Result, ok, err, if◌then◌else◌,
}
use seata.Domain.{ℤ, GlobalTxn, committing, aborted, BranchStatus, succeed, failed, new_txn}
use seata.Repo.{TxnRepo}
use seata.Saga.World.{World, Env, SagaManager, on_store}
use seata.Saga.Settle.{final_status}
use seata.Saga.Manager.{push_branch, has_branch, set_branch, fail_unfinished, execute}
use seata.Saga.Invariant.{Op, op_start, op_submit, op_abort, op_add, op_succeed, op_fail}

-- What is left of a request: its next step, and the rest for what that step gives.
pub data Program : Type 0 where
  finish : Program
  await_load : Text → (Option GlobalTxn → Program) → Program
  await_save : GlobalTxn → Program → Program
  await_tasks : GlobalTxn → (GlobalTxn → Program) → Program
  read_clock : (ℤ → Program) → Program
  make_uuid : (Text → Program) → Program

-- `tx.updated_unix = …; self.repo.save(&tx).await?;` and the rest
unfoldable pub stamped_then : GlobalTxn → (GlobalTxn → Program) → Program
stamped_then tx rest =
    read_clock (λ at. let tx' = record tx { updated_unix = at } in await_save tx' (rest tx'))

unfoldable pub started : Text → Bytes → Text → Program
started mode payload gid = read_clock (λ at.
    let mode = if is_empty mode then bytes "saga" else mode in
    await_save (new_txn gid mode payload at) finish)

unfoldable pub concluding : GlobalTxn → Program
concluding tx = stamped_then (record tx { status = final_status tx.branches }) (λ _. finish)

unfoldable pub submitting : Option GlobalTxn → Program
submitting none = finish
submitting (some tx) =
    stamped_then (record tx { status = committing })
      (λ marked. await_tasks marked (λ executed. stamped_then executed concluding))

unfoldable pub aborting_found : Option GlobalTxn → Program
aborting_found none = finish
aborting_found (some tx) =
    stamped_then (record tx { branches = fail_unfinished tx.branches; status = aborted })
      (λ _. finish)

unfoldable pub adding : Text → Text → Option GlobalTxn → Program
adding branch_id action none = finish
adding branch_id action (some tx) =
    if has_branch tx branch_id
    then finish
    else stamped_then (push_branch tx branch_id action) (λ _. finish)

unfoldable pub setting : Text → BranchStatus → Option GlobalTxn → Program
setting branch_id status none = finish
setting branch_id status (some tx) = elim (set_branch branch_id status tx.branches) [
  | none ↦ finish
  | some branches ↦ stamped_then (record tx { branches = branches }) (λ _. finish)
]

-- The whole of a request.
unfoldable pub program : Op → Program
program (op_start gid mode payload) =
    if is_empty gid then make_uuid (started mode payload) else started mode payload gid
program (op_submit gid) = await_load gid submitting
program (op_abort gid) = await_load gid aborting_found
program (op_add gid branch_id action) = await_load gid (adding branch_id action)
program (op_succeed gid branch_id) = await_load gid (setting branch_id succeed)
program (op_fail gid branch_id) = await_load gid (setting branch_id failed)

-- A step that fails ends its request.
abbrev pub on_ok : {A : Type 0} → Result A → (A → Program) → Program
on_ok (ok a) rest = rest a
on_ok (err e) rest = finish

module _ {S : Type 0} (repo : TxnRepo S) (env : Env) (m : SagaManager) where
  -- One turn of a request; one whose tasks have not ended goes on waiting for them.
  unfoldable pub turn : Program → World S → Program × World S
  turn finish w = (finish, w)
  turn (await_load gid rest) w = let (r, w') = on_store (repo.load gid) w in (on_ok r rest, w')
  turn (await_save tx rest) w = let (r, w') = on_store (repo.save tx) w in (on_ok r (λ _. rest), w')
  turn (await_tasks tx rest) w =
      let (r, w') = execute repo env m tx w in
      elim r [ ok executed ↦ (rest executed, w') | err still_running ↦ (await_tasks tx rest, w') ]
  turn (read_clock rest) w = (rest (env.clock w.readings), record w { readings = suc w.readings })
  turn (make_uuid rest) w = (rest (env.uuid w.uuids), record w { uuids = suc w.uuids })

  -- The turns of one request without any other between them.
  unfoldable pub alone : Program → World S → World S
  alone finish w = w
  alone (await_load gid rest) w =
      let (r, w') = on_store (repo.load gid) w in
      elim r [ ok found ↦ alone (rest found) w' | err e ↦ w' ]
  alone (await_save tx rest) w =
      let (r, w') = on_store (repo.save tx) w in elim r [ ok _ ↦ alone rest w' | err e ↦ w' ]
  alone (await_tasks tx rest) w =
      let (r, w') = execute repo env m tx w in
      elim r [ ok executed ↦ alone (rest executed) w' | err e ↦ w' ]
  alone (read_clock rest) w =
      alone (rest (env.clock w.readings)) (record w { readings = suc w.readings })
  alone (make_uuid rest) w = alone (rest (env.uuid w.uuids)) (record w { uuids = suc w.uuids })

-- The server: its world and the requests that have arrived, the finished ones included.
pub record System (S : Type 0) : Type 0 where
  pub world : World S
  pub requests : List Program

-- What happens next: a request arrives, the `i`-th takes a turn, or the `i`-th is dropped.
pub data Event : Type 0 where
  arrives : Op → Event
  takes_turn : ℕ → Event
  dropped : ℕ → Event

-- The `i`-th request.
abbrev pub nth : ℕ → List Program → Program
nth i ps = nth_or finish i ps

module _ {S : Type 0} (repo : TxnRepo S) (env : Env) (m : SagaManager) where
  unfoldable pub happen : Event → System S → System S
  happen (arrives o) s = record s { requests = s.requests ++ program o ∷ [] }
  happen (takes_turn i) s =
      let (p, w) = turn repo env m (nth i s.requests) s.world in
      record s { world = w; requests = put_nth i p s.requests }
  happen (dropped i) s = record s { requests = put_nth i finish s.requests }

  unfoldable pub play : List Event → System S → System S
  play [] s = s
  play (e ∷ es) s = play es (happen e s)
