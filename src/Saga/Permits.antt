-- ===== src/Saga/Permits.antt =====
-- The tasks of one submission and the semaphore that limits them (`submit` of
-- seata-server/src/saga.rs): the loop that spawns waits for a permit, a task holds one until it
-- ends, and the join handles are awaited in the order in which they were pushed.
pub mod Completes
use seata.Base.{
  ℕ, zero, suc, ◌+◌, ◌*◌, ◌≤◌, ◌<◌, ◌≡◌, ◌⊎◌, inl, inr, refl, ◌∙◌, ap, Bool, Option, none, some,
  List, [], ◌∷◌, ◌++◌, map, length, length-append, ltb, if◌then◌else◌, arith, Bool-cases,
}
use mathlib.Core.Path.{subst}
use mathlib.Core.List.{append_assoc}
use seata.Domain.{GlobalTxn}
use seata.Saga.World.{ExecConfig, SagaManager, Env, Request}
use seata.Saga.Branch.{run_task}
use seata.Saga.Manager.{submit_requests, submit_results}

-- A join handle: its task holds a permit, or has ended and given it back.
pub data Task : Type 0 where
  running : Request → Task
  ended : Bool → Task

-- `sem`, the branches that the loop has still to spawn, and `handles`.
pub record Pool : Type 0 where
  pub permits : ℕ
  pub waiting : List Request
  pub handles : List Task

-- `branch_parallelism.max(1)`
abbrev pub max : ℕ → ℕ → ℕ
max a b = if ltb a b then b else a

abbrev pub new_pool : ExecConfig → List Request → Pool
new_pool exec requests = record {
  permits = max exec.branch_parallelism 1;
  waiting = requests;
  handles = [];
}

-- `h.await`, once the task has ended
abbrev pub join : Task → Option Bool
join (running r) = none
join (ended b) = some b

module _ (run : Request → Option Bool) where
  infix 40 ◌⟶◌
  -- The loop acquires a permit and spawns the next task, or a task ends, with the result that its run
  -- gives, and drops its permit; a task whose run gives none is never over.
  pub data ◌⟶◌ : Pool → Pool → Type 0 where
    acquire :
        (n : ℕ) (r : Request) (rs : List Request) (hs : List Task)
        → record { permits = suc n; waiting = r ∷ rs; handles = hs }
          ⟶ record { permits = n; waiting = rs; handles = hs ++ running r ∷ [] }
    release :
        (n : ℕ) (r : Request) (b : Bool) (rs : List Request) (before after : List Task)
        → run r ≡ some b
        → record { permits = n; waiting = rs; handles = before ++ running r ∷ after }
          ⟶ record { permits = suc n; waiting = rs; handles = before ++ ended b ∷ after }

  -- Some number of steps.
  pub data Run : ℕ → Pool → Pool → Type 0 where
    stop : {p : Pool} → Run 0 p p
    step : {k : ℕ} {p q s : Pool} → Run k p q → q ⟶ s → Run (suc k) p s

abbrev pub running_count : List Task → ℕ
running_count [] = 0
running_count (running r ∷ hs) = suc (running_count hs)
running_count (ended b ∷ hs) = running_count hs

-- The task of a request, and the pool at the start.
abbrev pub task : SagaManager → Env → ℕ → Request → Option Bool
task m env epoch = run_task m.exec env epoch

abbrev pub submit_pool : SagaManager → Env → GlobalTxn → Pool
submit_pool m env tx = new_pool m.exec (submit_requests env tx)
