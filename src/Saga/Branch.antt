-- ===== src/Saga/Branch.antt =====
-- The task that `SagaManager::submit` spawns for one branch (seata-server/src/saga.rs): its jitter,
-- its retry loop and its result.
pub mod Jitter
pub mod Retry
pub mod Total
use mathlib.Core.List.{foldl}
use seata.Base.{
  ℕ, zero, suc, ◌+◌, ◌*◌, ◌%◌, ◌^◌, ◌≡◌, Bool, true, false, Option, none, some, Text, Bytes, leb,
  if◌then◌else◌,
}
use seata.Saga.World.{ExecConfig, Env, Request, Reply, no_response, response, Attempt}

-- `sum.wrapping_add(*b as u32)`
abbrev pub wrapping_add : ℕ → ℕ → ℕ
wrapping_add sum b = (sum + b) % 2 ^ 32

-- A delay of 0 to 299 milliseconds that depends on the branch's id only.
unfoldable pub jitter_ms : Text → ℕ
jitter_ms branch_id = foldl wrapping_add 0 branch_id % 300

-- `if let Ok(resp) = … { if resp.status().is_success() { … } }`
abbrev pub is_accepted : Reply → Bool
is_accepted no_response = false
is_accepted (response success) = success

abbrev pub secs : ℕ → ℕ
secs n = n * 1000000000

abbrev pub millis : ℕ → ℕ
millis n = n * 1000000

-- The pause between two attempts.
abbrev pub pause : ExecConfig → Text → ℕ
pause exec branch_id = secs exec.retry_interval_secs + millis (jitter_ms branch_id)

-- The loop, from attempt `n` on, with `elapsed` nanoseconds gone since `start`. `none` says that
-- the fuel ran out: the task is still running.
unfoldable pub attempt_loop : (ℕ → Attempt) → ℕ → ℕ → ℕ → ℕ → ℕ → Option Bool
attempt_loop send limit wait zero n elapsed = none
attempt_loop send limit wait (suc fuel) n elapsed =
    let a = send n in
    let after = elapsed + suc a.nanos in
    let rest = attempt_loop send limit wait fuel (suc n) (after + wait + a.late) in
    if is_accepted a.reply then some true else if leb limit after then some false else rest

-- The whole task. The fuel is enough, since every round takes time.
unfoldable pub run_task : ExecConfig → Env → ℕ → Request → Option Bool
run_task exec env epoch request =
    attempt_loop (env.send epoch request exec.request_timeout_secs) (secs exec.timeout_to_fail_secs)
      (pause exec request.body.branch_id) (suc (secs exec.timeout_to_fail_secs)) 0 0
