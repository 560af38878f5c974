-- ===== src/Barrier.antt =====
-- seata-server/src/barrier.rs: the idempotency barrier over a KV store.
pub mod Keys
pub mod Laws
pub mod Race
pub mod Calls
pub mod UnitTests
use seata.Base.{
  Bool, true, false, Option, [], ◌∷◌, ◌++◌, Text, bytes, Io, pure, ◌>>=◌, ◌>>◌, is_some,
  if◌then◌else◌,
}
use seata.Domain.{BarrierPhase, try, confirm, cancel, BarrierKey}
use seata.Kv.{Kv}

abbrev pub phase_name : BarrierPhase → Text
phase_name try = bytes "try"
phase_name confirm = bytes "confirm"
phase_name cancel = bytes "cancel"

-- `format!("barrier:{}:{}:{}", gid, branch_id, p)`
unfoldable pub key : Text → Text → BarrierPhase → Text
key gid branch_id phase =
    bytes "barrier:" ++ (gid ++ (bytes ":" ++ (branch_id ++ (bytes ":" ++ phase_name phase))))

module _ {S : Type 0} (kv : Kv S) where
  unfoldable pub exists : Text → Text → BarrierPhase → Io S Bool
  exists gid branch_id phase = do found ← kv.get (key gid branch_id phase); pure (is_some found)

  -- the write of `insert`, once the read has returned
  unfoldable pub insert_found : Text → Option Text → Io S Bool
  insert_found k found = if is_some found then pure false else do kv.put k []; pure true

  unfoldable pub insert : Text → Text → BarrierPhase → Io S Bool
  insert gid branch_id phase = do
    found ← kv.get (key gid branch_id phase)
    insert_found (key gid branch_id phase) found

-- The trait `BarrierOps`, and `Barrier` as an instance of it.
pub record BarrierOps (S : Type 0) : Type 0 where
  pub exists_op : Text → Text → BarrierPhase → Io S Bool
  pub insert_op : Text → Text → BarrierPhase → Io S Bool

abbrev pub barrier_ops : {S : Type 0} → Kv S → BarrierOps S
barrier_ops kv = record { exists_op = exists kv; insert_op = insert kv }
