-- ===== src/Tests.antt =====
-- A concrete world, and the theorems of the library at work in it.
pub mod Codec
pub mod Samples
pub mod SagaRuns
pub mod MapRepo
pub mod SagaExamples
pub mod ConcurrentExamples
pub mod StoreExamples
pub mod ServerExamples
pub mod Servers
pub mod RedisServer
pub mod KvExamples
pub mod LaunchExamples
pub mod WorkflowExample
