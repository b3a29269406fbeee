-- ===== src/Policy.antt =====
-- crates/gatehound-core/src/policy.rs: identity × tool → allow, deny or ask.
pub mod Resolve
use mcp_gatehound.Base.{String, Bool, not, Option, some, none, List, Result, ok, err, retain}
use mcp_gatehound.Decision.{Decision, allow, deny, ask}
use mcp_gatehound.Decision
use mcp_gatehound.Store.{Conn, query}
use mcp_gatehound.Store.Rules.{decision_for}
use mcp_gatehound.Config.{ToolConfig}

pub record Policy : Type 0 where
  pub store : Conn
  pub default : Decision

unfoldable pub new : Conn → Policy
new store = record { store = store; default = ask }

unfoldable pub with_default : Conn → Decision → Policy
with_default store d = record { store = store; default = d }

-- A database that does not answer denies.
unfoldable pub resolve : Policy → String → String → Decision
resolve p identity tool = elim (query p.store (λ db. decision_for db identity tool)) [
  | ok (some d) ↦ d
  | ok none ↦ p.default
  | err e ↦ deny
]

unfoldable pub visible_tools : Policy → String → List ToolConfig → List ToolConfig
visible_tools p identity tools =
    retain (λ t. not (Decision.eq (resolve p identity t.name) deny)) tools
