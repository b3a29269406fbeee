-- ===== src/Upstreams.antt =====
-- crates/gatehound-core/src/upstreams: the services that a proxy action can reach.
pub mod Http
