-- ===== src/Tests/SagaRuns.antt =====
-- Runs of the saga manager in the world of Tests/Samples.antt.
use seata.Base.{◌≡◌, refl, some, [], ◌∷◌, bytes, text_eq, ok}
use seata.Domain.{aborted, pos, succeed, failed}
use seata.Kv.Mem.{empty, lookup, insert, get, put}
use seata.Repo.{save, load}
use seata.Saga.Manager.{
  start, submit, abort, add_branch, add_branch_found, branch_succeed, branch_fail, set_branch_found,
  set_branch, submit_found, run_branches, execute, conclude, stamp_and_save, abort_found,
  fail_unfinished,
}
use seata.Saga.Settle.{requests, prepared_indices, settle, set_status, final_status}
use seata.Saga.Branch.{run_task, attempt_loop, jitter_ms}
use seata.Saga.Steps.{view}
use seata.Saga.Invariant.{run, apply, op_succeed}
use seata.Tests.Codec.{encode, from_slice}
use seata.Tests.Samples.{repo, laws, env, m, g, w, t, branch_1, branch_2, w_submitted, w_aborted}

pub stored_t : view repo laws w g ≡ some t
unfolding run apply start add_branch load get lookup save put insert empty text_eq from_slice encode
    add_branch_found stamp_and_save
stored_t = refl

pub submitted_ok : (submit repo env m g w).0 ≡ ok tt
unfolding run apply submit start add_branch load get lookup save put insert empty text_eq from_slice
    encode add_branch_found stamp_and_save submit_found run_branches execute conclude requests
    run_task attempt_loop jitter_ms
submitted_ok = refl

-- The first branch is accepted at once, the second is rejected until its time to fail.
pub stored_submitted :
    view repo laws w_submitted g
    ≡ some (record t {
      status = aborted;
      branches = record branch_1 { status = succeed } ∷ record branch_2 { status = failed } ∷ [];
      updated_unix = pos 5;
    })
unfolding run apply submit start add_branch load get lookup save put insert empty text_eq from_slice
    encode add_branch_found stamp_and_save submit_found run_branches execute conclude requests
    prepared_indices settle set_status final_status run_task attempt_loop jitter_ms
stored_submitted = refl

pub submitted_again_ok : (submit repo env m g w_submitted).0 ≡ ok tt
unfolding run apply submit start add_branch load get lookup save put insert empty text_eq from_slice
    encode add_branch_found stamp_and_save submit_found run_branches execute conclude settle
    prepared_indices requests set_status run_task attempt_loop jitter_ms
submitted_again_ok = refl

pub aborted_ok : (abort repo env g w).0 ≡ ok tt
unfolding run apply abort start add_branch load get lookup save put insert empty text_eq from_slice
    encode add_branch_found stamp_and_save abort_found
aborted_ok = refl

pub submitted_aborted_ok : (submit repo env m g w_aborted).0 ≡ ok tt
unfolding run apply submit abort start add_branch load get lookup save put insert empty text_eq
    from_slice encode add_branch_found stamp_and_save abort_found submit_found run_branches execute
    conclude fail_unfinished requests run_task attempt_loop jitter_ms
submitted_aborted_ok = refl

pub added_ok : (add_branch repo env g (bytes "b3") (bytes "ok") w).0 ≡ ok tt
unfolding run apply start add_branch load get lookup save put insert empty text_eq from_slice encode
    add_branch_found stamp_and_save
added_ok = refl

pub succeeded_ok : (branch_succeed repo env g (bytes "b2") w).0 ≡ ok tt
unfolding run apply start add_branch load get lookup save put insert empty text_eq from_slice encode
    add_branch_found stamp_and_save branch_succeed set_branch_found set_branch
succeeded_ok = refl

pub failed_ok : (branch_fail repo env g (bytes "b2") w).0 ≡ ok tt
unfolding run apply start add_branch load get lookup save put insert empty text_eq from_slice encode
    add_branch_found stamp_and_save branch_fail set_branch_found set_branch
failed_ok = refl

pub stored_succeeded :
    view repo laws (run repo env m (op_succeed g (bytes "b2") ∷ []) w) g
    ≡ some (record t {
      branches = branch_1 ∷ record branch_2 { status = succeed } ∷ [];
      updated_unix = pos 3;
    })
unfolding run apply start add_branch load get lookup save put insert empty text_eq from_slice encode
    add_branch_found stamp_and_save branch_succeed set_branch_found set_branch
stored_succeeded = refl
