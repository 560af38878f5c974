-- ===== src/Server/Grpc.antt =====
-- The gRPC service of seata-server/src/main.rs, `TxnSvcImpl`; its messages are those of
-- seata-proto/proto/txn.proto. `serde_json::to_vec` is that of the repository.
use seata.Base.{ℕ, Option, none, some, List, [], Text, Bytes, bytes, map, ok, err}
use seata.Domain.{GlobalTxn, try, confirm, cancel}
use seata.Repo.{TxnRepo, Serde}
use seata.Barrier.{BarrierOps}
use seata.Saga.World.{Env, SagaManager, on_store}
use seata.Saga.Manager
use seata.Server.Reply.{GrpcReply, response, internal, not_found, Handler, reply_by, behind}
use seata.Server.Query.{parse_status}

pub record StartGlobalRequest : Type 0 where
  pub gid : Text
  pub mode : Text
  pub payload : Bytes

-- `AddBranchRequest` and `BranchTryRequest`
pub record AddBranchRequest : Type 0 where
  pub gid : Text
  pub branch_id : Text
  pub action : Text

pub record BranchStateRequest : Type 0 where
  pub gid : Text
  pub branch_id : Text

-- `limit` and `offset` are `uint32`.
pub record ListRequest : Type 0 where
  pub limit : ℕ
  pub offset : ℕ
  pub status : Text

-- `serde_json::to_vec(&tx).unwrap_or_default()`
abbrev pub json_or_empty : Serde → GlobalTxn → Bytes
json_or_empty serde tx = elim (serde.to_vec tx) [ ok b ↦ b | err _ ↦ [] ]

module _ {S : Type 0} (repo : TxnRepo S) (barrier : BarrierOps S) (env : Env)
    (m : SagaManager) where
  unfoldable pub start_global : StartGlobalRequest → Handler S (GrpcReply Text)
  start_global r = reply_by response internal (Manager.start repo env r.gid r.mode r.payload)

  unfoldable pub submit : Text → Handler S (GrpcReply Unit)
  submit gid = reply_by response internal (Manager.submit repo env m gid)

  unfoldable pub abort : Text → Handler S (GrpcReply Unit)
  abort gid = reply_by response internal (Manager.abort repo env gid)

  unfoldable pub add_branch : AddBranchRequest → Handler S (GrpcReply Unit)
  add_branch r = reply_by response internal (Manager.add_branch repo env r.gid r.branch_id r.action)

  unfoldable pub branch_try : AddBranchRequest → Handler S (GrpcReply Unit)
  branch_try r =
      behind (on_store (barrier.insert_op r.gid r.branch_id try)) (response tt) internal
        (reply_by response internal (Manager.add_branch repo env r.gid r.branch_id r.action))

  unfoldable pub branch_succeed : BranchStateRequest → Handler S (GrpcReply Unit)
  branch_succeed r =
      behind (on_store (barrier.insert_op r.gid r.branch_id confirm)) (response tt) internal
        (reply_by response internal (Manager.branch_succeed repo env r.gid r.branch_id))

  unfoldable pub branch_fail : BranchStateRequest → Handler S (GrpcReply Unit)
  branch_fail r =
      behind (on_store (barrier.insert_op r.gid r.branch_id cancel)) (response tt) internal
        (reply_by response internal (Manager.branch_fail repo env r.gid r.branch_id))

module _ {S : Type 0} (repo : TxnRepo S) (serde : Serde) where
  abbrev pub found_json : Option GlobalTxn → GrpcReply Bytes
  found_json none = not_found (bytes "not found")
  found_json (some tx) = response (json_or_empty serde tx)

  unfoldable pub get : Text → Handler S (GrpcReply Bytes)
  get gid = reply_by found_json internal (Manager.get repo gid)

  unfoldable pub list : ListRequest → Handler S (GrpcReply (List Bytes))
  list r =
      reply_by (λ l. response (map (json_or_empty serde) l)) internal
        (Manager.list repo r.limit r.offset (parse_status r.status))
