-- ===== src/Dispatch.antt =====
-- The dispatcher: crates/gpui-agent/src/dispatch.rs. The children hold the session cache, the
-- assertions, the request handler and the proofs.
pub mod Cache
pub mod Assert
pub mod Answers
pub mod Handle
