-- ===== src/Tests.antt =====
-- Concrete inputs at which the theorems are applied.
mod Store
mod Secrets
mod Config
mod Auth
mod Actions
mod Approval
mod Mcp
mod Protocol
mod Publish
mod Upstreams
mod Scripts
mod Handler
mod Settings
mod Pack
mod Gateway
mod Commands
