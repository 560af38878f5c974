-- ===== src/Saga/World.antt =====
-- What a saga manager acts on and what it calls: its configuration (`SagaManager`, `ExecConfig`,
-- `SagaMetrics` of seata-server/src/saga.rs), the repository's state with the manager's traces, and
-- the code outside the repository: the clock, the UUID generator, base64 and the HTTP client.
use seata.Base.{ℕ, suc, Bool, true, false, List, Text, Bytes, Io, ok}
use seata.Domain.{ℤ}

-- `ExecConfig`, in seconds; `branch_parallelism` is a count.
pub record ExecConfig : Type 0 where
  pub request_timeout_secs : ℕ
  pub retry_interval_secs : ℕ
  pub timeout_to_fail_secs : ℕ
  pub branch_parallelism : ℕ

-- The counters of `SagaMetrics`; of the histogram, the number of observations.
pub record SagaMetrics : Type 0 where
  pub branch_success_total : ℕ
  pub branch_failure_total : ℕ
  pub branch_latency_count : ℕ

-- `SagaManager` without its repository and its HTTP client; `has_metrics` is `metrics.is_some()`.
pub record SagaManager : Type 0 where
  pub exec : ExecConfig
  pub has_metrics : Bool

-- The JSON body that a branch's endpoint is sent.
pub record Body : Type 0 where
  pub gid : Text
  pub branch_id : Text
  pub mode : Text
  pub payload : Text

-- `client.post(&url).json(&body)`
pub record Request : Type 0 where
  pub url : Text
  pub body : Body

-- What `send().await` gives: no response at all, or one whose status is a success or is not.
pub data Reply : Type 0 where
  no_response : Reply
  response : Bool → Reply

-- One call of the remote; it takes `suc nanos` nanoseconds. A sleep lasts at least as long as it is
-- asked to: the one after this call, if any, lasts `late` nanoseconds longer.
pub record Attempt : Type 0 where
  pub reply : Reply
  pub nanos : ℕ
  pub late : ℕ

-- The code outside the repository. `clock n` is the n-th reading of the clock and `uuid n` the n-th
-- new UUID; `send e r t n` is the n-th attempt of a task that was spawned after `e` readings, for
-- the request `r` with a timeout of `t` seconds.
pub record Env : Type 0 where
  pub clock : ℕ → ℤ
  pub uuid : ℕ → Text
  pub base64_encode : Bytes → Text
  pub send : ℕ → Request → ℕ → ℕ → Attempt

pub record World (S : Type 0) : Type 0 where
  pub store : S
  pub readings : ℕ  -- clock readings so far
  pub uuids : ℕ  -- UUIDs so far
  pub spawned : List Request  -- the tasks spawned so far, in order
  pub metrics : SagaMetrics

module _ {S : Type 0} where
  -- A call of the repository.
  abbrev pub on_store : {A : Type 0} → Io S A → Io (World S) A
  on_store m w = let (r, s) = m w.store in (r, record w { store = s })

  -- `chrono::Utc::now().timestamp()`
  abbrev pub now : Env → Io (World S) ℤ
  now env w = (ok (env.clock w.readings), record w { readings = suc w.readings })

  -- `uuid::Uuid::new_v4().to_string()`
  abbrev pub new_uuid : Env → Io (World S) Text
  new_uuid env w = (ok (env.uuid w.uuids), record w { uuids = suc w.uuids })

-- `SagaManager::new`
abbrev pub new_manager : SagaManager
new_manager = record {
  exec = record {
    request_timeout_secs = 3;
    retry_interval_secs = 10;
    timeout_to_fail_secs = 35;
    branch_parallelism = 8;
  };
  has_metrics = false;
}

abbrev pub with_exec_config : SagaManager → ExecConfig → SagaManager
with_exec_config m exec = record m { exec = exec }

abbrev pub with_metrics : SagaManager → SagaManager
with_metrics m = record m { has_metrics = true }
