-- ===== src/Tests/WorkflowExample.antt =====
-- The life of a transaction (seata-server/src/saga.rs) in the world of Tests/MapRepo.antt.
use seata.Base.{
  Text, ok, true, drop, ◌≡◌, refl, some, List, [], ◌∷◌, bytes, map, any, text_eq, suc,
  if◌then◌else◌,
}
use seata.Domain.{GlobalTxn, committed, aborted, is_failed}
use seata.Saga.World.{World}
use seata.Saga.Branch.{run_task, attempt_loop, jitter_ms}
use seata.Kv.Mem.{empty, lookup, insert, get, put}
use seata.Repo.InMemory.{test_save, test_load}
use seata.Saga.Manager.{
  start, submit, add_branch, add_branch_found, submit_found, run_branches, execute, conclude,
  stamp_and_save,
}
use seata.Saga.Manager
use seata.Saga.Settle.{requests, prepared_indices, settle, set_status, final_status}
use seata.Tests.Codec.{encode, from_slice, sample_serde}
use seata.Saga.Steps.{view}
use seata.Saga.Invariant.{op_start, run}
use seata.Saga.World.{Env}
use seata.Saga.UnitTests.{
  mem_repo, submit_two, Reaches, spawn_test_server,
  submit_executes_branches_and_commits_when_all_ok, submit_aborts_when_any_branch_fails,
  saga_tests_pass,
}
use seata.Saga.Workflow.{Branch, add_ops, outcome, workflow}
use seata.Tests.Samples.{env, m, w0}
use seata.Tests.MapRepo.{Transactions, map_repo, map_repo-Answers, map_laws, w_map, w_map-AllWell}

-- One action that is accepted, and one that is not.
abbrev two : List Branch
two = (bytes "b1", bytes "ok") ∷ (bytes "b2", bytes "no") ∷ []

abbrev w_added : World Transactions
w_added = run map_repo env m (op_start (bytes "n") [] (bytes "pay") ∷ add_ops (bytes "n") two) w_map

workflow_example :
    (t : GlobalTxn) × (view map_repo map_laws
        (submit map_repo env m (bytes "n") w_added).1
        (bytes "n")
      ≡ some t)
    × (t.payload ≡ bytes "pay")
    × (t.branches
        ≡ map
            (outcome
              (run_task m.exec env (suc w_added.readings))
              env
              (bytes "n")
              (bytes "saga")
              (bytes "pay"))
            two)
    × (t.status ≡ (if any (λ b. is_failed b.status) t.branches then aborted else committed))
workflow_example =
    workflow map_repo map_laws map_repo-Answers env m (bytes "n") [] (bytes "pay") two w_map
      (λ e. cc) (λ n e. cc) w_map-AllWell (unfold text_eq in refl)

-- Everything under `base` reaches the test server, and takes a second.
abbrev base : Text
base = bytes "http://127.0.0.1:1"

abbrev test_env : Env
test_env = record env {
  send = λ epoch request timeout n. record {
    reply = spawn_test_server (drop 18 request.url);
    nanos = 1000000000;
    late = 0;
  };
}

test_env-Reaches : Reaches base test_env
test_env-Reaches = record { answered = λ epoch r timeout n path e. rw e }

saga_tests_pass_example :
    ((submit_executes_branches_and_commits_when_all_ok map_repo test_env base w_map).0 ≡ ok true)
    × ((submit_aborts_when_any_branch_fails map_repo test_env base w_map).0 ≡ ok true)
saga_tests_pass_example =
    saga_tests_pass map_repo map_laws map_repo-Answers test_env base w_map (λ n e. cc)
      test_env-Reaches w_map-AllWell

-- The two tests on the repository that they are written for.
mem_tests_pass :
    ((submit_executes_branches_and_commits_when_all_ok (mem_repo sample_serde) test_env base w0).0
      ≡ ok true)
    × ((submit_aborts_when_any_branch_fails (mem_repo sample_serde) test_env base w0).0 ≡ ok true)
unfolding spawn_test_server submit_executes_branches_and_commits_when_all_ok
    submit_aborts_when_any_branch_fails submit_two test_save test_load start add_branch get lookup
    put insert empty text_eq from_slice encode add_branch_found stamp_and_save Manager.get submit
    submit_found run_branches execute conclude requests prepared_indices settle set_status
    final_status run_task attempt_loop jitter_ms
mem_tests_pass = (refl, refl)
