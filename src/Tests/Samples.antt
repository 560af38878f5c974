-- ===== src/Tests/Samples.antt =====
-- A world in which everything runs: the store of the tests, a serializer, an environment whose
-- remote accepts the URL "ok" only, and a transaction with three branches.
use seata.Base.{suc, List, [], ◌∷◌, Text, bytes, text_eq}
use seata.Domain.{GlobalTxn, BranchTxn, pos, prepared, submitted}
use seata.Kv.Mem.{MemMap, empty, mem_kv, mem_laws, lookup}
use seata.Repo.{TxnRepo, RepoLaws, dyn_repo}
use seata.Repo.Laws.{dyn_laws}
use seata.Saga.World.{
  World, Env, SagaManager, response, with_exec_config, with_metrics, new_manager,
}
use seata.Saga.Manager.{submit, abort}
use seata.Saga.Spec.{IsKeyed}
use seata.Saga.Invariant.{
  Op, op_start, op_add, op_submit, op_abort, AllWell, run, apply, run-AllWell, AllWell-IsKeyed,
}
use seata.Tests.Codec.{sample_serde}

abbrev pub repo : TxnRepo MemMap
repo = dyn_repo mem_kv sample_serde

abbrev pub laws : RepoLaws repo
laws = dyn_laws mem_kv mem_laws sample_serde

abbrev pub env : Env
env = record {
  clock = pos;
  uuid = λ n. suc n ∷ b'-' ∷ [];
  base64_encode = λ b. b;
  send = λ epoch request timeout n. record {
    reply = response (text_eq request.url (bytes "ok"));
    nanos = 400000000;
    late = 1000000;
  };
}

abbrev pub m : SagaManager
m = with_metrics (
    with_exec_config new_manager (record {
      request_timeout_secs = 1;
      retry_interval_secs = 1;
      timeout_to_fail_secs = 2;
      branch_parallelism = 4;
    }))

abbrev pub w0 : World MemMap
w0 = record {
  store = empty;
  readings = 0;
  uuids = 0;
  spawned = [];
  metrics = record { branch_success_total = 0; branch_failure_total = 0; branch_latency_count = 0 };
}

abbrev pub g : Text
g = bytes "g"

abbrev pub setup : List Op
setup =
    op_start g [] (bytes "pay")
    ∷ op_add g (bytes "b1") (bytes "ok")
    ∷ op_add g (bytes "b2") (bytes "no")
    ∷ []

abbrev pub w : World MemMap
w = run repo env m setup w0

pub w0-AllWell : AllWell repo laws w0
unfolding empty lookup
w0-AllWell = record { at = λ j tx e. cc }

pub w-AllWell : AllWell repo laws w
w-AllWell = run-AllWell repo laws env m setup w0 (λ n e. cc) w0-AllWell

pub w-IsKeyed : IsKeyed repo laws w
w-IsKeyed = AllWell-IsKeyed repo laws w-AllWell

abbrev pub branch_1 : BranchTxn
branch_1 = record { branch_id = bytes "b1"; action = bytes "ok"; status = prepared }

abbrev pub branch_2 : BranchTxn
branch_2 = record { branch_id = bytes "b2"; action = bytes "no"; status = prepared }

-- What `w` holds under `g`.
abbrev pub t : GlobalTxn
t = record {
  gid = g;
  mode = bytes "saga";
  status = submitted;
  payload = bytes "pay";
  branches = branch_1 ∷ branch_2 ∷ [];
  updated_unix = pos 2;
  created_unix = pos 0;
}

-- The worlds after a submission and after an abort.
abbrev pub w_submitted : World MemMap
w_submitted = (submit repo env m g w).1

abbrev pub w_aborted : World MemMap
w_aborted = (abort repo env g w).1

pub w_submitted-IsKeyed : IsKeyed repo laws w_submitted
unfolding run apply
w_submitted-IsKeyed =
    AllWell-IsKeyed repo laws
      (run-AllWell repo laws env m (op_submit g ∷ []) w (λ n e. cc) w-AllWell)

pub w_aborted-IsKeyed : IsKeyed repo laws w_aborted
unfolding run apply
w_aborted-IsKeyed =
    AllWell-IsKeyed repo laws
      (run-AllWell repo laws env m (op_abort g ∷ []) w (λ n e. cc) w-AllWell)
