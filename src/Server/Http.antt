-- ===== src/Server/Http.antt =====
-- The HTTP handlers of seata-server/src/main.rs; a JSON body is already decoded. The client states
-- no more than the body types say.
use seata.Base.{
  ℕ, Option, none, some, List, [], ◌∷◌, Text, Bytes, bytes, unwrap_or, text_eq, if◌then◌else◌,
}
use seata.Domain.{GlobalTxn, GlobalStatus, try, confirm, cancel}
use seata.Repo.{TxnRepo}
use seata.Barrier.{BarrierOps}
use seata.Saga.World.{Env, SagaManager, on_store}
use seata.Saga.Manager
use seata.Server.Reply.{
  HttpReply, ok_200, not_found_404, internal_500, empty, gid, txn, txns, Handler, reply_by, behind,
}
use seata.Server.Query.{parse_status, parse_usize}

pub record StartBody : Type 0 where
  pub gid : Option Text
  pub mode : Option Text
  pub payload : Option Bytes

pub record GidBody : Type 0 where
  pub gid : Text

pub record BranchBody : Type 0 where
  pub gid : Text
  pub branch_id : Text
  pub action : Text

pub record BranchTryBody : Type 0 where
  pub gid : Text
  pub branch_id : Text
  pub action : Text

pub record BranchStateBody : Type 0 where
  pub gid : Text
  pub branch_id : Text

-- `HashMap<String, String>`, as a list without duplicate keys
abbrev pub Query : Type 0
Query = List (Text × Text)

unfoldable pub query_get : Text → Query → Option Text
query_get k [] = none
query_get k ((j, v) ∷ q) = if text_eq j k then some v else query_get k q

-- `q.get(k).and_then(|s| s.parse::<usize>().ok()).unwrap_or(d)`
abbrev pub query_usize : Text → ℕ → Query → ℕ
query_usize k d q = unwrap_or d (elim (query_get k q) [ none ↦ none | some s ↦ parse_usize s ])

abbrev pub query_status : Query → Option GlobalStatus
query_status q = elim (query_get (bytes "status") q) [ none ↦ none | some s ↦ parse_status s ]

-- `(StatusCode::OK, "")`
abbrev pub done : Unit {0} → HttpReply
done _ = ok_200 empty

module _ {S : Type 0} (repo : TxnRepo S) (barrier : BarrierOps S) (env : Env)
    (m : SagaManager) where
  unfoldable pub http_start : StartBody → Handler S HttpReply
  http_start body =
      reply_by (λ g. ok_200 (gid g)) internal_500
        (Manager.start repo env (unwrap_or [] body.gid) (unwrap_or [] body.mode)
          (unwrap_or [] body.payload))

  unfoldable pub http_submit : GidBody → Handler S HttpReply
  http_submit body = reply_by done internal_500 (Manager.submit repo env m body.gid)

  unfoldable pub http_abort : GidBody → Handler S HttpReply
  http_abort body = reply_by done internal_500 (Manager.abort repo env body.gid)

  unfoldable pub http_branch_add : BranchBody → Handler S HttpReply
  http_branch_add body =
      reply_by done internal_500 (Manager.add_branch repo env body.gid body.branch_id body.action)

  unfoldable pub http_branch_try : BranchTryBody → Handler S HttpReply
  http_branch_try body =
      behind (on_store (barrier.insert_op body.gid body.branch_id try)) (ok_200 empty) internal_500
        (reply_by done internal_500
          (Manager.add_branch repo env body.gid body.branch_id body.action))

  unfoldable pub http_branch_succeed : BranchStateBody → Handler S HttpReply
  http_branch_succeed body =
      behind (on_store (barrier.insert_op body.gid body.branch_id confirm)) (ok_200 empty)
        internal_500
        (reply_by done internal_500 (Manager.branch_succeed repo env body.gid body.branch_id))

  unfoldable pub http_branch_fail : BranchStateBody → Handler S HttpReply
  http_branch_fail body =
      behind (on_store (barrier.insert_op body.gid body.branch_id cancel)) (ok_200 empty)
        internal_500
        (reply_by done internal_500 (Manager.branch_fail repo env body.gid body.branch_id))

  abbrev pub found_reply : Option GlobalTxn → HttpReply
  found_reply none = not_found_404
  found_reply (some tx) = ok_200 (txn tx)

  unfoldable pub http_get_tx : Text → Handler S HttpReply
  http_get_tx g = reply_by found_reply internal_500 (Manager.get repo g)

  unfoldable pub http_list_tx : Query → Handler S HttpReply
  http_list_tx q =
      reply_by (λ l. ok_200 (txns l)) internal_500
        (Manager.list repo (query_usize (bytes "limit") 50 q) (query_usize (bytes "offset") 0 q)
          (query_status q))
