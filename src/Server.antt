-- ===== src/Server.antt =====
-- internal/server: the calls of the API server.
pub mod Cas
pub mod Moments
pub mod Atomic
pub mod Cluster
pub mod Auth
pub mod Agent
pub mod Register
pub mod Owned
pub mod Forward
pub mod Indexes
pub mod Gate
pub mod Drain
pub mod Forced
mod Examples
