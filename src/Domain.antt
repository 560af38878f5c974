-- ===== src/Domain.antt =====
-- seata-server/src/domain.rs: the transactions, their branches and the barrier phases.
pub mod UnitTests
use seata.Base.{ℕ, Bool, true, false, List, [], Text, Bytes, bytes}

pub data GlobalStatus : Type 0 where
  submitted aborting aborted committing committed : GlobalStatus

pub data BranchStatus : Type 0 where
  prepared succeed failed : BranchStatus

-- The names that `#[serde(rename_all = "SCREAMING_SNAKE_CASE")]` gives the statuses.
abbrev pub status_name : GlobalStatus → Text
status_name submitted = bytes "SUBMITTED"
status_name aborting = bytes "ABORTING"
status_name aborted = bytes "ABORTED"
status_name committing = bytes "COMMITTING"
status_name committed = bytes "COMMITTED"

abbrev pub branch_status_name : BranchStatus → Text
branch_status_name prepared = bytes "PREPARED"
branch_status_name succeed = bytes "SUCCEED"
branch_status_name failed = bytes "FAILED"

-- `derive(PartialEq)`
abbrev pub status_eq : GlobalStatus → GlobalStatus → Bool
status_eq submitted submitted = true
status_eq aborting aborting = true
status_eq aborted aborted = true
status_eq committing committing = true
status_eq committed committed = true
status_eq _ _ = false

abbrev pub branch_status_eq : BranchStatus → BranchStatus → Bool
branch_status_eq prepared prepared = true
branch_status_eq succeed succeed = true
branch_status_eq failed failed = true
branch_status_eq _ _ = false

-- `b.status == BranchStatus::Prepared`, and so on for the other two
abbrev pub is_prepared : BranchStatus → Bool
is_prepared prepared = true
is_prepared succeed = false
is_prepared failed = false

abbrev pub is_succeed : BranchStatus → Bool
is_succeed prepared = false
is_succeed succeed = true
is_succeed failed = false

abbrev pub is_failed : BranchStatus → Bool
is_failed prepared = false
is_failed succeed = false
is_failed failed = true

-- An `i64`, of which the program only makes copies. `negsuc n` is -(n + 1).
pub data ℤ : Type 0 where
  pos : ℕ → ℤ
  negsuc : ℕ → ℤ

pub record BranchTxn : Type 0 where
  pub branch_id : Text
  pub action : Text
  pub status : BranchStatus

pub record GlobalTxn : Type 0 where
  pub gid : Text
  pub mode : Text
  pub status : GlobalStatus
  pub payload : Bytes
  pub branches : List BranchTxn
  pub updated_unix : ℤ
  pub created_unix : ℤ

-- `GlobalTxn::new`
abbrev pub new_txn : Text → Text → Bytes → ℤ → GlobalTxn
new_txn gid mode payload now_unix = record {
  gid = gid;
  mode = mode;
  status = submitted;
  payload = payload;
  branches = [];
  updated_unix = now_unix;
  created_unix = now_unix;
}

pub data BarrierPhase : Type 0 where
  try confirm cancel : BarrierPhase

-- `derive(PartialEq)`
abbrev pub phase_eq : BarrierPhase → BarrierPhase → Bool
phase_eq try try = true
phase_eq confirm confirm = true
phase_eq cancel cancel = true
phase_eq _ _ = false

-- `BarrierKey`
pub record BarrierKey : Type 0 where
  pub gid : Text
  pub branch_id : Text
  pub phase : BarrierPhase
