-- ===== src/Server/JsonRpc.antt =====
-- The JSON-RPC endpoint of seata-server/src/main.rs, `jsonrpc_dispatch`.
pub mod Params
use seata.Base.{
  ℕ, Option, none, some, List, [], Text, Bytes, bytes, text_eq, Result, ok, err, if◌then◌else◌,
  unwrap_or, Io,
}
use seata.Domain.{ℤ, negsuc}
use seata.Repo.{TxnRepo}
use seata.Saga.World.{World, Env, SagaManager}
use seata.Saga.Manager
use seata.Server.Reply.{Handler}

-- `JsonRpcParams`; its variant `None` is `nothing` here.
pub data JsonRpcParams : Type 0 where
  start_params : Option Text → Option Text → Option Bytes → JsonRpcParams
  gid_params : Text → JsonRpcParams
  nothing : JsonRpcParams

-- `JsonRpcReq`; `id` is any JSON value, which is copied into the reply.
pub record JsonRpcReq (Value : Type 0) : Type 0 where
  pub jsonrpc : Text
  pub method : Text
  pub params : Option JsonRpcParams
  pub id : Value

-- The results `{"gid": …}` and `{}`, and the error object.
pub data RpcResult : Type 0 where
  gid_result : Text → RpcResult
  empty_result : RpcResult

pub record RpcError : Type 0 where
  pub code : ℤ
  pub message : Text

pub record JsonRpcRes (Value : Type 0) : Type 0 where
  pub jsonrpc : Text
  pub result : Option RpcResult
  pub error : Option RpcError
  pub id : Value

module _ {Value : Type 0} where
  abbrev pub rpc_ok : Value → RpcResult → JsonRpcRes Value
  rpc_ok id r = record { jsonrpc = bytes "2.0"; result = some r; error = none; id = id }

  -- The codes -32000 and -32601.
  abbrev pub rpc_failed : Value → Text → JsonRpcRes Value
  rpc_failed id message = record {
    jsonrpc = bytes "2.0";
    result = none;
    error = some (record { code = negsuc 31999; message = message });
    id = id;
  }

  abbrev pub rpc_unknown : Value → JsonRpcRes Value
  rpc_unknown id = record {
    jsonrpc = bytes "2.0";
    result = none;
    error = some (record { code = negsuc 32600; message = bytes "Method not found" });
    id = id;
  }

  abbrev pub answer :
      {S A : Type 0} → Value → (A → RpcResult) → Io (World S) A → Handler S (JsonRpcRes Value)
  answer id result call w =
      let (r, w') = call w in (elim r [ ok a ↦ rpc_ok id (result a) | err e ↦ rpc_failed id e ], w')

-- `match req.params { Some(JsonRpcParams::Gid { gid }) => gid, _ => String::new() }`
abbrev pub gid_of : Option JsonRpcParams → Text
gid_of (some (gid_params gid)) = gid
gid_of _ = []

module _ {S Value : Type 0} (repo : TxnRepo S) (env : Env) (m : SagaManager) where
  abbrev pub rpc_start : Value → Option JsonRpcParams → Handler S (JsonRpcRes Value)
  rpc_start id (some (start_params gid mode payload)) =
      answer id gid_result
        (Manager.start repo env (unwrap_or [] gid) (unwrap_or [] mode) (unwrap_or [] payload))
  rpc_start id _ = answer id gid_result (Manager.start repo env [] [] [])

  unfoldable pub jsonrpc_dispatch : JsonRpcReq Value → Handler S (JsonRpcRes Value)
  jsonrpc_dispatch req =
      if text_eq req.method (bytes "start")
      then rpc_start req.id req.params
      else if text_eq req.method (bytes "submit")
      then answer req.id (λ _. empty_result) (Manager.submit repo env m (gid_of req.params))
      else if text_eq req.method (bytes "abort")
      then answer req.id (λ _. empty_result) (Manager.abort repo env (gid_of req.params))
      else λ w. (rpc_unknown req.id, w)
