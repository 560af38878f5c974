-- ===== src/Tests/ServerExamples.antt =====
-- The theorems on the front ends (seata-server/src/main.rs) in the world of Tests/Samples.antt.
use seata.Base.{arith, List, true, text_eq, [], ◌∷◌, ◌≡◌, refl, inl, none, some, Text, bytes}
use seata.Domain.{BarrierKey, BarrierPhase, confirm, cancel}
use seata.Barrier.{insert, insert_found, key}
use seata.Barrier.Laws.{held}
use seata.Kv.Mem
use seata.Kv.Mem.{mem_laws, lookup, get, put, empty}
use seata.Repo.{load, save}
use seata.Saga.Invariant.{run, apply, AllWell, op_start, op_submit, op_succeed}
use seata.Saga.Manager.{
  start, add_branch, add_branch_found, stamp_and_save, branch_succeed, set_branch_found, set_branch,
}
use seata.Saga.World.{World}
use seata.Server.Http.{http_branch_succeed}
use seata.Server.Once.{Skipped, branch_call, held_skips}
use seata.Server.Inflight.{Event, arrives, steps, times_out, plain, guarded, running, call_at, play}
use seata.Server.Inflight.Isolation.{calls-isolated}
use seata.Server.Inflight.Steps.{calls-end}
use seata.Saga.Concurrent.{finish}
use seata.Server.Inflight.Barriers.{Waits, play-skips}
use seata.Server.Inflight.Safety.{calls-AllWell}
use seata.Server.Router.{
  matches, matching, Axum, Route, Method, Routed, answers, not_found, api, literal, capture,
}
use seata.Tests.Codec.{sample_serde, encode, from_slice}
use seata.Kv.Mem.{MemMap, mem_kv}
use seata.Barrier.{BarrierOps, barrier_ops}
use seata.Saga.Steps.{view}
use seata.Server.Agreement.{call_succeed, by_http, by_grpc, front_ends_agree}
use seata.Server.JsonRpc.{start_params, jsonrpc_dispatch}
use seata.Server.JsonRpc.Params.{UntaggedDecoder, gid_call, gid_object_ignored}
use seata.Tests.Samples.{repo, laws, env, m, g, w, w-AllWell}

abbrev barrier : BarrierOps MemMap
barrier = barrier_ops mem_kv

-- A decoder of the objects with a gid only.
abbrev decoder : UntaggedDecoder
decoder = record {
  Json = Text;
  decode = λ j. some (start_params (some j) none none);
  gid_object = λ j. j;
  first_variant = λ j. refl;
}

front_ends_agree_example :
    by_http repo barrier env m (call_succeed g (bytes "b1")) w
    ≡ by_grpc repo barrier env m (call_succeed g (bytes "b1")) w
front_ends_agree_example = front_ends_agree repo barrier env m (call_succeed g (bytes "b1")) w

gid_object_ignored_example :
    view repo laws
      (jsonrpc_dispatch repo env m (gid_call decoder (bytes "submit") g (bytes "1")) w).1
      g
    ≡ view repo laws w g
gid_object_ignored_example =
    gid_object_ignored repo laws env m decoder (bytes "submit") g (bytes "1") w (inl refl) w-AllWell
      g

-- The world after a first `branch_succeed` of the branch.
abbrev w_confirmed : World MemMap
w_confirmed =
    (http_branch_succeed repo barrier env m (record { gid = g; branch_id = bytes "b1" }) w).1

confirmed_held :
    held mem_kv mem_laws w_confirmed.store
      (record { gid = g; branch_id = bytes "b1"; phase = confirm })
    ≡ true
unfolding http_branch_succeed insert lookup get insert_found run apply add_branch load start save
    put Mem.insert empty text_eq from_slice encode add_branch_found stamp_and_save key
    branch_succeed set_branch_found set_branch
confirmed_held = refl

held_skips_example :
    Skipped mem_kv mem_laws sample_serde
      (branch_call mem_kv sample_serde env m confirm g (bytes "b1") [] w_confirmed)
      w_confirmed
held_skips_example =
    held_skips mem_kv mem_laws sample_serde env m confirm g (bytes "b1") [] w_confirmed
      confirmed_held

route_matches :
    matches (api (literal (bytes "tx") ∷ capture ∷ [])) (bytes "api" ∷ bytes "tx" ∷ bytes "g" ∷ [])
    ≡ true
unfolding matches text_eq
route_matches = refl

-- A router that takes the first of the routes that match.
abbrev answer_first : List Route → Method → Routed
answer_first [] method = not_found
answer_first (r ∷ rs) method = answers r method

abbrev first_match : Axum
first_match = record {
  call = λ rs method path. answer_first (matching rs path) method;
  single = λ rs r method path e. rw e refl;
}

abbrev b1 : BarrierPhase → BarrierKey
b1 phase = record { gid = g; branch_id = bytes "b1"; phase = phase }

-- A second `branch_succeed` of the branch arrives, and a `branch_fail` of it.
abbrev meanwhile : List Event
meanwhile = arrives (guarded (b1 cancel) []) ∷ steps 1 ∷ steps 0 ∷ steps 1 ∷ times_out 1 ∷ []

play-skips_example :
    let s' =
      play mem_kv sample_serde env m
        (arrives (guarded (b1 confirm) []) ∷ meanwhile)
        (record { world = w_confirmed; calls = [] }) in
    (held mem_kv mem_laws s'.world.store (b1 confirm) ≡ true)
    × Waits mem_kv mem_laws sample_serde env m
        (b1 confirm)
        (op_succeed g (bytes "b1"))
        (call_at 0 s'.calls)
play-skips_example =
    play-skips mem_kv mem_laws sample_serde env m (b1 confirm) [] meanwhile
      (record { world = w_confirmed; calls = [] }) confirmed_held

calls-AllWell_example :
    AllWell repo laws
      (play mem_kv sample_serde env m
        (arrives (plain (op_submit g)) ∷ meanwhile)
        (record { world = w; calls = [] })).world
calls-AllWell_example =
    calls-AllWell mem_kv mem_laws sample_serde env m (λ n e. cc)
      (arrives (plain (op_submit g)) ∷ meanwhile) w w-AllWell

-- Ten steps of the first call, among others of a submission.
abbrev by_turns : List Event
by_turns =
    steps 0
    ∷ arrives (plain (op_submit g))
    ∷ steps 1
    ∷ steps 0
    ∷ steps 0
    ∷ steps 1
    ∷ steps 0
    ∷ steps 0
    ∷ steps 1
    ∷ steps 0
    ∷ steps 0
    ∷ steps 0
    ∷ steps 0
    ∷ steps 1
    ∷ steps 0
    ∷ []

calls-end_example :
    call_at 0
      (play mem_kv sample_serde env m
        (arrives (guarded (b1 cancel) []) ∷ by_turns)
        (record { world = w; calls = [] })).calls
    ≡ running finish
calls-end_example =
    calls-end mem_kv sample_serde env m (guarded (b1 cancel) []) by_turns
      (record { world = w; calls = [] }) (omega arith)

-- Calls on another transaction.
abbrev elsewhere : List Event
elsewhere =
    arrives (plain (op_start (bytes "h") [] []))
    ∷ steps 0
    ∷ steps 0
    ∷ arrives (guarded (record { gid = bytes "h"; branch_id = bytes "b"; phase = confirm }) [])
    ∷ steps 1
    ∷ steps 1
    ∷ arrives (plain (op_submit (bytes "h")))
    ∷ steps 2
    ∷ steps 1
    ∷ times_out 2
    ∷ []

calls-isolated_example :
    view repo laws
      (play mem_kv sample_serde env m elsewhere (record { world = w; calls = [] })).world
      g
    ≡ view repo laws w g
calls-isolated_example =
    calls-isolated mem_kv mem_laws sample_serde env m (λ n e. cc) g
      (λ n. unfold text_eq in ground arith) elsewhere w w-AllWell (unfold text_eq in refl)
