-- ===== src/Object.antt =====
-- The object model, internal/object and the messages of api/proto/klite/v1 as the Go code uses them.
pub mod Types
pub mod Registry
pub mod Envelopes
pub mod Defaults
pub mod Validate
mod Examples
