-- ===== src/Server/Agreement.antt =====
-- The HTTP and the gRPC front ends of seata-server/src/main.rs do the same.
use seata.Base.{
  ◌≡◌, refl, Bool, true, false, some, Text, Bytes, Result, ok, err, if◌then◌else◌, ◌==◌, Io,
}
use seata.Domain.{try, confirm, cancel}
use seata.Repo.{TxnRepo}
use seata.Barrier.{BarrierOps}
use seata.Saga.World.{World, Env, SagaManager, on_store}
use seata.Saga.Manager
use seata.Server.Reply.{
  Content, HttpReply, internal_500, ok_200, GrpcReply, response, internal, not_found, Handler,
  replied, reply_by, behind, passed,
}
use seata.Server.Http.{
  http_start, http_submit, http_abort, http_branch_add, http_branch_try, http_branch_succeed,
  http_branch_fail, done,
}
use seata.Server.Grpc
use seata.Server.Grpc.{start_global}

-- The requests that both front ends serve and that change state.
pub data Call : Type 0 where
  call_start : Text → Text → Bytes → Call
  call_submit call_abort : Text → Call
  call_add call_try : Text → Text → Text → Call
  call_succeed call_fail : Text → Text → Call

-- What a reply tells the client: done, with the gid for `start`, or an internal error.
pub data Outcome : Type 0 where
  started : Text → Outcome
  finished : Outcome
  failed : Text → Outcome
  other : Outcome

abbrev pub http_outcome : HttpReply → Outcome
http_outcome r = elim r.content [
  | Content.gid g ↦ if r.status == 200 then started g else other
  | Content.empty ↦ if r.status == 200 then finished else other
  | Content.text e ↦ if r.status == 500 then failed e else other
  | _ ↦ other
]

abbrev pub start_outcome : GrpcReply Text → Outcome
start_outcome (response g) = started g
start_outcome (internal e) = failed e
start_outcome (not_found e) = other

abbrev pub unit_outcome : GrpcReply Unit → Outcome
unit_outcome (response _) = finished
unit_outcome (internal e) = failed e
unit_outcome (not_found e) = other

-- A handler, with its reply as the client understands it.
abbrev pub told : {S R : Type 0} → (R → Outcome) → Handler S R → World S → Outcome × World S
told f h w = let (r, w') = h w in (f r, w')

module _ {S : Type 0} (repo : TxnRepo S) (barrier : BarrierOps S) (env : Env)
    (m : SagaManager) where
  -- The handler that each front end has for a call, up to what the reply tells.
  pub by_http : Call → World S → Outcome × World S
  by_http (call_start g mode payload) = told http_outcome (
      http_start repo barrier env m
        (record { gid = some g; mode = some mode; payload = some payload }))
  by_http (call_submit g) = told http_outcome (http_submit repo barrier env m (record { gid = g }))
  by_http (call_abort g) = told http_outcome (http_abort repo barrier env m (record { gid = g }))
  by_http (call_add g b a) =
      told http_outcome
        (http_branch_add repo barrier env m (record { gid = g; branch_id = b; action = a }))
  by_http (call_try g b a) =
      told http_outcome
        (http_branch_try repo barrier env m (record { gid = g; branch_id = b; action = a }))
  by_http (call_succeed g b) =
      told http_outcome (http_branch_succeed repo barrier env m (record { gid = g; branch_id = b }))
  by_http (call_fail g b) =
      told http_outcome (http_branch_fail repo barrier env m (record { gid = g; branch_id = b }))

  pub by_grpc : Call → World S → Outcome × World S
  by_grpc (call_start g mode payload) =
      told start_outcome
        (start_global repo barrier env m (record { gid = g; mode = mode; payload = payload }))
  by_grpc (call_submit g) = told unit_outcome (Grpc.submit repo barrier env m g)
  by_grpc (call_abort g) = told unit_outcome (Grpc.abort repo barrier env m g)
  by_grpc (call_add g b a) =
      told unit_outcome
        (Grpc.add_branch repo barrier env m (record { gid = g; branch_id = b; action = a }))
  by_grpc (call_try g b a) =
      told unit_outcome
        (Grpc.branch_try repo barrier env m (record { gid = g; branch_id = b; action = a }))
  by_grpc (call_succeed g b) =
      told unit_outcome (Grpc.branch_succeed repo barrier env m (record { gid = g; branch_id = b }))
  by_grpc (call_fail g b) =
      told unit_outcome (Grpc.branch_fail repo barrier env m (record { gid = g; branch_id = b }))

module _ {S : Type 0} where
  replied-told :
      (r : Result Unit) (w : World S)
      → ◌≡◌ {A = Outcome × World S}
          (http_outcome (replied done internal_500 r), w)
          (unit_outcome (replied response internal r), w)
  replied-told (ok a) w = refl
  replied-told (err e) w = refl

  started-told :
      (r : Result Text) (w : World S)
      → ◌≡◌ {A = Outcome × World S}
          (http_outcome (replied (λ g. ok_200 (Content.gid g)) internal_500 r), w)
          (start_outcome (replied response internal r), w)
  started-told (ok g) w = refl
  started-told (err e) w = refl

  reply_by-told :
      (call : Io (World S) Unit) (w : World S)
      → told http_outcome (reply_by done internal_500 call) w
        ≡ told unit_outcome (reply_by response internal call) w
  reply_by-told call w = replied-told (call w).0 (call w).1

  passed-told :
      (r : Result Bool) (call : Io (World S) Unit) (w : World S)
      → told http_outcome
          (passed r (ok_200 Content.empty) internal_500 (reply_by done internal_500 call))
          w
        ≡ told unit_outcome (passed r (response tt) internal (reply_by response internal call)) w
  passed-told (ok true) call w = reply_by-told call w
  passed-told (ok false) call w = refl
  passed-told (err e) call w = refl

  behind-told :
      (check : Io (World S) Bool) (call : Io (World S) Unit) (w : World S)
      → told http_outcome
          (behind check (ok_200 Content.empty) internal_500 (reply_by done internal_500 call))
          w
        ≡ told unit_outcome
            (behind check (response tt) internal (reply_by response internal call))
            w
  behind-told check call w = passed-told (check w).0 call (check w).1

module _ {S : Type 0} (repo : TxnRepo S) (barrier : BarrierOps S) (env : Env)
    (m : SagaManager) where
  -- The two front ends leave every world in the same state and tell the client the same, on every
  -- request that changes state and on every path, errors and repeated calls included.
  pub front_ends_agree :
      (c : Call) (w : World S) → by_http repo barrier env m c w ≡ by_grpc repo barrier env m c w
  unfolding by_http by_grpc http_start http_submit http_abort http_branch_add http_branch_try
      http_branch_succeed http_branch_fail start_global Grpc.submit Grpc.abort Grpc.add_branch
      Grpc.branch_try Grpc.branch_succeed Grpc.branch_fail
  front_ends_agree (call_start g mode payload) w =
      let (r, w') = Manager.start repo env g mode payload w in started-told r w'
  front_ends_agree (call_submit g) w = reply_by-told (Manager.submit repo env m g) w
  front_ends_agree (call_abort g) w = reply_by-told (Manager.abort repo env g) w
  front_ends_agree (call_add g b a) w = reply_by-told (Manager.add_branch repo env g b a) w
  front_ends_agree (call_try g b a) w =
      behind-told (on_store (barrier.insert_op g b try)) (Manager.add_branch repo env g b a) w
  front_ends_agree (call_succeed g b) w =
      behind-told (on_store (barrier.insert_op g b confirm)) (Manager.branch_succeed repo env g b) w
  front_ends_agree (call_fail g b) w =
      behind-told (on_store (barrier.insert_op g b cancel)) (Manager.branch_fail repo env g b) w
