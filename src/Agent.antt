-- ===== src/Agent.antt =====
-- internal/agent: the agent of a node.
pub mod Reconcile
pub mod Netconf
mod Examples
