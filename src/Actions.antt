-- ===== src/Actions.antt =====
-- crates/gatehound-core/src/actions: the guards in front of an action, and how a call goes through them.
pub mod Limits
pub mod Idempotency
pub mod Exec
pub mod Dispatch
