-- ===== src/Store/Access.antt =====
-- What crates/gatehound-core/src/store.rs promises of access: which rule stands for whom and for what, which
-- token ids are taken, and whom a token authenticates. An abstract state of three functions, with the writes
-- as updates of them; order, times, names and reports are forgotten.
pub mod Refined
use mcp_gatehound.Base.{
  ℕ, String, Bool, true, false, ◌&&◌, Option, some, none, List, [], ◌∷◌, ◌==◌, any, or_else,
  if◌then◌else◌,
}
use mcp_gatehound.Decision.{as_str}
use mcp_gatehound.Store.{Db}
use mcp_gatehound.Store.Rules.{select_decision}
use mcp_gatehound.Store.Tokens.{has_id, active_token}
use mcp_gatehound.Store.Ops.{
  Op, log, prunes, issue, touch, revoke, delete, set_rule, seed_rule, rename, forget_client,
  forget_rules_of, forget_rule, hold_row, drop_row, drop_rows, claim, complete, release, meta,
}

abbrev pub Book : Type 0
Book = String → String → Option String

pub record Access : Type 0 where
  pub rules : Book
  pub known : String → Bool
  -- the digest of the secret, and the identity
  pub active : String → Option (String × String)

abbrev pub ruled : String → String → String → Book → Book
ruled i t d f = λ j u. if i == j && t == u then some d else f j u

abbrev pub seeded : String → String → String → Book → Book
seeded i t d f = λ j u. or_else (f j u) (if i == j && t == u then some d else none)

abbrev pub renamed : String → String → Book → Book
renamed from to f =
    λ j u. if u == from then none else if u == to then or_else (f j to) (f j from) else f j u

abbrev pub admits : Bool → String → String → String → Access → Access
admits true id identity digest a = a
admits false id identity digest a = record {
  rules = ruled identity "*" "deny" a.rules;
  known = λ j. if id == j then true else a.known j;
  active = λ j. if id == j then some (digest, identity) else a.active j;
}

-- The same write, on the abstract state.
abbrev pub effect : Op → Access → Access
effect (issue id name identity digest) a = admits (a.known id) id identity digest a
effect (revoke id) a = record a { active = λ j. if id == j then none else a.active j }
effect (delete id) a = record a {
  known = λ j. if id == j then false else a.known j;
  active = λ j. if id == j then none else a.active j;
}
effect (set_rule i t d) a = record a { rules = ruled i t (as_str d) a.rules }
effect (seed_rule i t d) a = record a { rules = seeded i t (as_str d) a.rules }
effect (rename from to) a = record a { rules = renamed from to a.rules }
effect (forget_client i) a = record a { rules = λ j u. if i == j then none else a.rules j u }
effect (forget_rules_of t) a = record a { rules = λ j u. if u == t then none else a.rules j u }
effect (forget_rule i t) a = record a {
  rules = λ j u. if i == j && t == u then none else a.rules j u;
}
effect (log r) a = a
effect (prunes days) a = a
effect (touch id) a = a
effect (hold_row id i t p o) a = a
effect (drop_row id) a = a
effect drop_rows a = a
effect (claim k t h) a = a
effect (complete k m r) a = a
effect (release k) a = a
effect (meta k v) a = a

unfoldable pub replay : List (ℕ × Op) → Access → Access
replay [] a = a
replay ((now, op) ∷ ops) a = replay ops (effect op a)

-- What of the database is seen through the reads.
abbrev pub view : Db → Access
view db = record {
  rules = select_decision db.identities;
  known = λ id. any (has_id id) db.tokens;
  active = active_token db;
}
