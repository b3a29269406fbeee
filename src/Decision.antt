-- ===== src/Decision.antt =====
-- crates/gatehound-core/src/config.rs: the decision recorded for an (identity, tool) pair.
use mcp_gatehound.Base.{
  String, Bool, true, false, Option, none, some, ◌≡◌, refl, ◌==◌, if◌then◌else◌,
}

pub data Decision : Type 0 where
  allow deny ask : Decision

unfoldable pub as_str : Decision → String
as_str allow = "allow"
as_str deny = "deny"
as_str ask = "ask"

unfoldable pub parse : String → Option Decision
parse s =
    if s == "allow"
    then some allow
    else if s == "deny"
    then some deny
    else if s == "ask"
    then some ask
    else none

abbrev pub eq : Decision → Decision → Bool
eq allow allow = true
eq deny deny = true
eq ask ask = true
eq _ _ = false

pub parse-as_str : (d : Decision) → parse (as_str d) ≡ some d
unfolding parse as_str
parse-as_str allow = refl
parse-as_str deny = refl
parse-as_str ask = refl
