-- ===== src/Server.antt =====
-- The front ends of seata-server/src/main.rs, by parts.
pub mod Reply
pub mod Query
pub mod Http
pub mod Admin
pub mod Router
pub mod Grpc
pub mod JsonRpc
pub mod Agreement
pub mod Once
pub mod Inflight
