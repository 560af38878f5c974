-- ===== src/Tests/ConcurrentExamples.antt =====
-- The theorems on requests in flight and on the tasks of a submission (seata-server/src/saga.rs), in
-- the worlds of Tests/Samples.antt and Tests/MapRepo.antt.
use seata.Base.{Bool, false}
use seata.Saga.Branch.{run_task, attempt_loop, jitter_ms}
use seata.Base.{
  some, true, ◌≡◌, ◌≤◌, ◌*◌, ◌⊎◌, refl, List, [], ◌∷◌, ◌++◌, Text, bytes, length, map, text_eq,
  arith,
}
use seata.Saga.Manager.{has_branch, submit_requests, submit_results}
use seata.Saga.Steps.{Updated, view}
use seata.Saga.Spec.{finished}
use seata.Saga.Invariant.{op_submit, op_abort, op_add}
use seata.Saga.Concurrent.{Event, arrives, takes_turn, dropped, System, program, happen, play}
use seata.Saga.Invariant.{run}
use seata.Saga.Concurrent.Overwrites.{again, submit_overwrites}
use seata.Saga.Settle.{branch_request, requests}
use seata.Saga.Concurrent.Twice.{submit_twice}
use seata.Saga.Interrupted.{begun}
use seata.Saga.Concurrent.Projection.{SameFound, local_play}
use seata.Saga.Concurrent.Projection.Mirrors.{play-projects}
use seata.Saga.Concurrent.Projection.Sequence.{Block, in_blocks, ops, play-serializes}
use seata.Saga.Concurrent.Dropped.{dropped_submission}
use seata.Saga.Permits.{
  Pool, running, ended, ◌⟶◌, Run, stop, step, acquire, release, max, join, running_count, task,
  submit_pool,
}
use seata.Saga.Permits.Completes.{tasks_complete}
use seata.Tests.Samples.{env, m, g, t, branch_1, branch_2}
use seata.Tests.MapRepo.{Transactions, map_repo, map_repo-Answers, map_laws, w_map, w_map-AllWell}

-- A submission is dropped after its first save, while a branch is added and the transaction aborted.
abbrev busy : List Event
busy =
    arrives (op_submit g)
    ∷ arrives (op_add g (bytes "b3") (bytes "ok"))
    ∷ takes_turn 0
    ∷ takes_turn 1
    ∷ takes_turn 0
    ∷ takes_turn 0
    ∷ takes_turn 1
    ∷ arrives (op_abort g)
    ∷ takes_turn 1
    ∷ takes_turn 2
    ∷ dropped 0
    ∷ again 2 2

abbrev s_map : System Transactions
s_map = record { world = w_map; requests = program (op_submit g) ∷ [] }

-- While the submission is held up, a branch is added.
abbrev adds : List Event
adds = arrives (op_add g (bytes "b3") (bytes "ok")) ∷ again 3 1

submit_overwrites_example :
    let held = play map_repo env m adds (happen map_repo env m (takes_turn 0) s_map) in
    let tx' = finished m env held.world.readings t in
    Updated map_repo map_laws tx' held.world (play map_repo env m (again 7 0) held).world
    × ((id : Text) → has_branch tx' id ≡ has_branch t id)
submit_overwrites_example =
    submit_overwrites map_repo map_laws map_repo-Answers env m 0 g t adds s_map (omega arith) refl
      (unfold text_eq in refl) refl

-- The second task is rejected until its time to fail.
abbrev second_result : Bool
second_result = false

second_over : task m env 3 (branch_request t (bytes "pay") branch_2) ≡ some second_result
unfolding run_task attempt_loop jitter_ms text_eq requests
second_over = refl

-- Both branches of `t` are being executed, and the second has ended first.
abbrev half : Pool
half = record {
  permits = 3;
  waiting = [];
  handles = running (branch_request t (bytes "pay") branch_1) ∷ ended second_result ∷ [];
}

half-Run : Run (task m env 3) 3 (submit_pool m env t) half
unfolding requests
half-Run =
    let r_1 = branch_request t (bytes "pay") branch_1 in
    let r_2 = branch_request t (bytes "pay") branch_2 in
    step (step (step stop (acquire 3 r_1 (r_2 ∷ []) [])) (acquire 2 r_2 [] (running r_1 ∷ [])))
      (release 2 r_2 second_result [] (running r_1 ∷ []) [] second_over)

tasks_complete_example :
    (running_count half.handles ≤ max m.exec.branch_parallelism 1)
    × (3 ≤ 2 * length (submit_requests env t))
    × (((q : Pool) × ◌⟶◌ (task m env 3) half q)
        ⊎ ((3 ≡ 2 * length (submit_requests env t))
            × (map join half.handles ≡ submit_results m env 3 t)))
tasks_complete_example = tasks_complete m env 3 t 3 half half-Run

dropped_submission_example :
    view map_repo map_laws
      (play map_repo env m
        (again 4 0 ++ dropped 0 ∷ arrives (op_abort (bytes "h")) ∷ again 4 1)
        s_map).world
      g
    ≡ some (begun env 3 t)
dropped_submission_example =
    dropped_submission map_repo map_laws map_repo-Answers env m true g t
      (arrives (op_abort (bytes "h")) ∷ again 4 1) w_map (λ n e. cc)
      (λ n. unfold text_eq in ground arith) w_map-AllWell (unfold text_eq in refl)
      (unfold text_eq in refl)

abbrev both : System Transactions
both = record { world = w_map; requests = program (op_submit g) ∷ program (op_submit g) ∷ [] }

submit_twice_example :
    (play map_repo env m (takes_turn 0 ∷ takes_turn 1 ∷ again 7 0 ++ again 7 1) both).world.spawned
    ≡ submit_requests env t ++ submit_requests env t
submit_twice_example =
    submit_twice map_repo map_laws map_repo-Answers env m 0 1 g t both (omega arith) (omega arith)
      refl refl refl refl (unfold text_eq in refl)

-- On `g`, a submission and an added branch; on another gid, an abort in between.
abbrev mixed : List Event
mixed =
    arrives (op_submit g)
      ∷ arrives (op_abort (bytes "h"))
      ∷ takes_turn 0
      ∷ takes_turn 1
      ∷ arrives (op_add g (bytes "b3") (bytes "ok"))
      ∷ takes_turn 0
      ∷ takes_turn 2
      ∷ takes_turn 0
      ∷ takes_turn 0
      ∷ again 3 2
    ++ again 4 0

play-projects_example :
    SameFound
      (view map_repo map_laws
        (play map_repo env m mixed (record { world = w_map; requests = [] })).world
        g)
      (local_play env m g mixed
        (record { stored = view map_repo map_laws w_map g; requests = [] })).stored
play-projects_example =
    play-projects map_repo map_laws map_repo-Answers env m g mixed w_map (λ epoch. refl) (λ n e. cc)
      (λ n. unfold text_eq in ground arith) (λ e. cc) w_map-AllWell

-- On `g`, a branch that is added and a submission, with calls on another gid between their turns.
abbrev before : List Event
before = arrives (op_submit (bytes "h")) ∷ takes_turn 0 ∷ []

abbrev blocks : List Block
blocks =
    (
      op_add g (bytes "b3") (bytes "ok"),
      takes_turn 1 ∷ arrives (op_abort (bytes "h")) ∷ again 4 2 ++ again 7 1,
    )
    ∷ (op_submit g, again 4 3 ++ dropped 0 ∷ takes_turn 2 ∷ again 4 3)
    ∷ []

play-serializes_example :
    SameFound
      (view map_repo map_laws
        (play map_repo env m
          (before ++ in_blocks blocks)
          (record { world = w_map; requests = [] })).world
        g)
      (view map_repo map_laws (run map_repo env m (ops blocks) w_map) g)
play-serializes_example =
    play-serializes map_repo map_laws map_repo-Answers env m g before blocks w_map (λ epoch. refl)
      (λ n e. cc) (λ n. unfold text_eq in ground arith) (λ e. cc) w_map-AllWell
      (unfold text_eq in refl)
      (unfold text_eq in (refl, refl, refl, omega arith, (refl, refl, refl, omega arith, tt)))
