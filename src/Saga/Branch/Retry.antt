-- ===== src/Saga/Branch/Retry.antt =====
-- How long a branch's task runs, and how often it calls its endpoint.
use native.Mathlib.Nat.{mul-le-mul_left}
use seata.Base.{ℕ, zero, suc, ◌+◌, ◌*◌, ◌-◌, ◌≤◌, ◌<◌, ◌≡◌, some, arith}
use seata.Saga.World.{ExecConfig, Env, Request, Attempt}
use seata.Saga.Branch.{run_task, secs, pause, is_accepted, millis}
use seata.Saga.Branch.Jitter.{jitter_bounds}
use seata.Saga.Branch.Total.{started_at, finished_at, StopsAt, run_task_stops}

module _ (send : ℕ → Attempt) (wait cap slack : ℕ) (timely : (n : ℕ) → suc (send n).nanos ≤ cap)
    (prompt : (n : ℕ) → (send n).late ≤ slack) where
  finished_at-le :
      (limit k : ℕ)
      → StopsAt send wait limit k
      → finished_at send wait k ≤ limit + wait + cap + slack
  unfolding finished_at started_at
  finished_at-le limit zero h = omega (arith, timely 0)
  finished_at-le limit (suc j) h =
      omega (arith, timely (suc j), prompt j, h.earlier_in_time j (omega arith))

module _ (send : ℕ → Attempt) (wait : ℕ) where
  mul-le-started_at : (n : ℕ) → n * wait ≤ started_at send wait n
  unfolding started_at
  mul-le-started_at zero = omega arith
  mul-le-started_at (suc n) = grind (arith, mul-le-started_at n)

  retries-lt : (limit j : ℕ) → StopsAt send wait limit (suc j) → j * wait < limit
  unfolding finished_at
  retries-lt limit j h = omega (arith, mul-le-started_at j, h.earlier_in_time j (omega arith))

retries-le :
    (send : ℕ → Attempt) (interval timeout wait k : ℕ)
    → secs interval ≤ wait
    → StopsAt send wait (secs timeout) k
    → (k - 1) * interval ≤ timeout
retries-le send interval timeout wait zero p h = grind arith
retries-le send interval timeout wait (suc j) p h =
    let one_less : suc j - 1 ≡ j = omega arith in
    let grown : j * secs interval ≤ j * wait = mul-le-mul_left j p in
    rw one_less (omega (arith, retries-lt send wait (secs timeout) j h))

-- If the HTTP client keeps its request timeout and no sleep lasts more than `slack` longer than it is
-- asked to, a branch's task returns within the time to fail, one pause with that excess, and one
-- request, and the retry intervals of all its retries but one fit into the time
-- to fail.
pub run_task_deadline :
    (exec : ExecConfig) (env : Env) (epoch slack : ℕ) (request : Request)
    → ((n : ℕ)
        → suc (env.send epoch request exec.request_timeout_secs n).nanos
          ≤ secs exec.request_timeout_secs)
    → ((n : ℕ) → (env.send epoch request exec.request_timeout_secs n).late ≤ slack)
    → let send = env.send epoch request exec.request_timeout_secs in
      let wait = pause exec request.body.branch_id in
      (k : ℕ) × (run_task exec env epoch request ≡ some (is_accepted (send k).reply))
      × (finished_at send wait k
          ≤ secs (exec.timeout_to_fail_secs + exec.retry_interval_secs + exec.request_timeout_secs)
            + millis 299
            + slack)
      × ((k - 1) * exec.retry_interval_secs ≤ exec.timeout_to_fail_secs)
run_task_deadline exec env epoch slack request timely prompt =
    let send = env.send epoch request exec.request_timeout_secs in
    let wait = pause exec request.body.branch_id in
    let (k, value, stops) = run_task_stops exec env epoch request in
    let (_, at_least, at_most) = jitter_bounds request.body.branch_id exec in
    (
      k,
      value,
      omega (
        arith,
        finished_at-le send wait (secs exec.request_timeout_secs) slack timely prompt _ k stops,
      ),
      retries-le send exec.retry_interval_secs exec.timeout_to_fail_secs wait k at_least stops,
    )
