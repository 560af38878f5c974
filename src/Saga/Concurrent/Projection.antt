-- ===== src/Saga/Concurrent/Projection.antt =====
-- The server as one transaction sees it (seata-server/src/saga.rs): a server that stores this
-- transaction only, in the same order of events.
pub mod Programs
pub mod Follows
pub mod Mirrors
pub mod Single
pub mod Sequence
use seata.Base.{
  ℕ, zero, suc, ◌≡◌, Option, none, some, List, [], ◌∷◌, ◌++◌, Text, text_eq, nth_or, put_nth,
  if◌then◌else◌,
}
use seata.Domain.{ℤ, pos, GlobalTxn}
use seata.Saga.World.{Env, SagaManager}
use seata.Saga.Spec.{executed_branches}
use seata.Saga.Concurrent.{
  Program, finish, await_load, await_save, await_tasks, read_clock, make_uuid, program, Event,
  arrives, takes_turn, dropped, nth,
}
use seata.Saga.Concurrent.Isolation.{op_gid}

-- A transaction without its time stamps.
abbrev pub timeless : GlobalTxn → GlobalTxn
timeless tx = record tx { updated_unix = pos 0; created_unix = pos 0 }

-- The same transactions but for the time stamps, and the same for what is found under a gid.
abbrev pub Same : GlobalTxn → GlobalTxn → Type 0
Same t t' = timeless t ≡ timeless t'

abbrev pub SameFound : Option GlobalTxn → Option GlobalTxn → Type 0
SameFound none none = Unit
SameFound none (some t') = ⊥
SameFound (some t) none = ⊥
SameFound (some t) (some t') = Same t t'

module _ (env : Env) (m : SagaManager) where
  -- One turn of a request on the stored transaction, if there is one. The clock stands still.
  abbrev pub local_turn : Program → Option GlobalTxn → Program × Option GlobalTxn
  local_turn finish s = (finish, s)
  local_turn (await_load gid rest) s = (rest s, s)
  local_turn (await_save tx rest) s = (rest, some tx)
  local_turn (await_tasks tx rest) s =
      (rest (record tx { branches = executed_branches m env 0 tx }), s)
  local_turn (read_clock rest) s = (rest (env.clock 0), s)
  local_turn (make_uuid rest) s = (rest (env.uuid 0), s)

  pub record Local : Type 0 where
    pub stored : Option GlobalTxn
    pub requests : List Program

-- A request on another transaction than `g` does nothing here.
abbrev pub local_program : Text → Text → Program → Program
local_program g gid p = if text_eq gid g then p else finish

module _ (env : Env) (m : SagaManager) (g : Text) where
  abbrev pub local_happen : Event → Local env m → Local env m
  local_happen (arrives o) s = record s {
    requests = s.requests ++ local_program g (op_gid o) (program o) ∷ [];
  }
  local_happen (takes_turn i) s =
      let (p, stored) = local_turn env m (nth i s.requests) s.stored in
      record { stored = stored; requests = put_nth i p s.requests }
  local_happen (dropped i) s = record s { requests = put_nth i finish s.requests }

  abbrev pub local_play : List Event → Local env m → Local env m
  local_play [] s = s
  local_play (e ∷ es) s = local_play es (local_happen e s)
