-- ===== src/Tests/SagaExamples.antt =====
-- The theorems on the saga manager (seata-server/src/saga.rs) in the world of Tests/Samples.antt.
use seata.Base.{
  Text, [], ok, refl, ℕ, ◌+◌, ◌-◌, ◌*◌, ◌≤◌, ◌≡◌, some, ◌∷◌, bytes, all, if◌then◌else◌, arith,
}
use seata.Domain.{GlobalTxn, aborted, committed, pos, succeed, is_succeed}
use seata.Saga.Interrupted.{IsStage, submit_stages}
use seata.Saga.Returns.{operations_return}
use seata.Saga.Manager.{abort, start, submit, add_branch, branch_succeed, branch_fail}
use seata.Saga.World.{Request, Attempt}
use seata.Saga.Branch.{run_task, pause, secs, millis, is_accepted}
use seata.Saga.Branch.Total.{StopsAt, finished_at, run_task_stops}
use seata.Saga.Branch.Retry.{run_task_deadline}
use seata.Saga.Settle.{branch_request}
use seata.Saga.Steps.{view}
use seata.Saga.Spec.{Alters, finished, rolled_back}
use seata.Saga.Edits.{abort_lem}
use seata.Saga.Submit.{submit_lem}
use seata.Saga.Kept.{run-Keeps}
use seata.Saga.Invariant.{op_succeed}
use seata.Saga.Evolution.{Keeps}
use seata.Saga.Outcomes.{submit-submit, submit-abort}
use seata.Tests.Samples.{
  branch_1, w-AllWell, repo, laws, env, m, g, w, t, branch_2, w_submitted, w_aborted, w-IsKeyed,
  w_submitted-IsKeyed, w_aborted-IsKeyed,
}
use seata.Tests.MapRepo.{map_repo, map_repo-Answers, w_map}
use seata.Tests.SagaRuns.{
  stored_succeeded, stored_t, submitted_ok, submitted_again_ok, aborted_ok, submitted_aborted_ok,
}

submit_lem_example : Alters repo laws g (finished m env w.readings) w w_submitted
submit_lem_example = submit_lem repo laws env m g w w-IsKeyed submitted_ok

submit-submit_example :
    let w2 = (submit repo env m g w_submitted).1 in
    (t1 t2 : GlobalTxn) × (view repo laws w_submitted g ≡ some t1)
    × (view repo laws w2 g ≡ some t2)
    × (t2.branches ≡ t1.branches)
    × (t2.status ≡ t1.status)
    × (w2.spawned ≡ w_submitted.spawned)
submit-submit_example =
    submit-submit repo laws env m g t w w-IsKeyed w_submitted-IsKeyed stored_t submitted_ok
      submitted_again_ok

submit-abort_example :
    let w2 = (submit repo env m g w_aborted).1 in
    (t2 : GlobalTxn) × (view repo laws w2 g ≡ some t2)
    × (t2.status ≡ (if all (λ b. is_succeed b.status) t.branches then committed else aborted))
    × (w2.spawned ≡ w_aborted.spawned)
submit-abort_example =
    submit-abort repo laws env m g t w w-IsKeyed w_aborted-IsKeyed stored_t aborted_ok
      submitted_aborted_ok

abbrev request : Request
request = branch_request t t.payload branch_2

abbrev sends : ℕ → Attempt
sends = env.send 4 request m.exec.request_timeout_secs

run_task_stops_example :
    (k : ℕ) × (run_task m.exec env 4 request ≡ some (is_accepted (sends k).reply))
    × StopsAt sends (pause m.exec request.body.branch_id) (secs m.exec.timeout_to_fail_secs) k
run_task_stops_example = run_task_stops m.exec env 4 request

run_task_deadline_example :
    (k : ℕ) × (run_task m.exec env 4 request ≡ some (is_accepted (sends k).reply))
    × (finished_at sends (pause m.exec request.body.branch_id) k
        ≤ secs
            (m.exec.timeout_to_fail_secs + m.exec.retry_interval_secs + m.exec.request_timeout_secs)
          + millis 299
          + millis 2)
    × ((k - 1) * m.exec.retry_interval_secs ≤ m.exec.timeout_to_fail_secs)
run_task_deadline_example =
    run_task_deadline m.exec env 4 (millis 2) request (λ n. omega arith) (λ n. omega arith)

run-Keeps_example :
    (s : GlobalTxn) × (view repo laws w g ≡ some s)
    × Keeps s (record t {
      branches = branch_1 ∷ record branch_2 { status = succeed } ∷ [];
      updated_unix = pos 3;
    })
run-Keeps_example =
    run-Keeps repo laws env m (op_succeed g (bytes "b2") ∷ []) w g _ (λ n e. cc) refl w-AllWell
      stored_succeeded

abort_lem_example : Alters repo laws g (rolled_back (env.clock w.readings)) w w_aborted
abort_lem_example = abort_lem repo laws env g w w-IsKeyed aborted_ok

operations_return_example :
    ((i : Text) × ((start map_repo env g [] [] w_map).0 ≡ ok i))
    × ((submit map_repo env m g w_map).0 ≡ ok tt)
    × ((abort map_repo env g w_map).0 ≡ ok tt)
    × ((add_branch map_repo env g (bytes "b3") (bytes "ok") w_map).0 ≡ ok tt)
    × ((branch_succeed map_repo env g (bytes "b3") w_map).0 ≡ ok tt)
    × ((branch_fail map_repo env g (bytes "b3") w_map).0 ≡ ok tt)
operations_return_example =
    operations_return map_repo map_repo-Answers env m g [] (bytes "b3") (bytes "ok") [] w_map

submit_stages_example : IsStage repo laws env m w.readings t (view repo laws w_submitted g)
submit_stages_example = submit_stages repo laws env m g t w stored_t
