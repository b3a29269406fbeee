-- ===== src/Auth.antt =====
-- crates/gatehound-core/src/auth.rs: the two factors of inbound authentication.
-- The text of a request header is what `to_str` gives, none where it is no visible ASCII.
pub mod Headers
pub mod Failure
pub mod Access
pub mod Factors
