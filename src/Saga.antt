-- ===== src/Saga.antt =====
-- seata-server/src/saga.rs, by parts.
pub mod World
pub mod Branch
pub mod Settle
pub mod Manager
pub mod Joined
pub mod Steps
pub mod Spec
pub mod Edits
pub mod Ending
pub mod Submit
pub mod Evolution
pub mod Histories
pub mod Unique
pub mod Invariant
pub mod Outcomes
pub mod Returns
pub mod Interrupted
pub mod Concurrent
pub mod Permits
pub mod Kept
pub mod Workflow
pub mod UnitTests
