-- ===== src/Policy/Resolve.antt =====
-- How a rule written, a token issued or an outage changes what `resolve` answers.
use mcp_gatehound.Base.{
  ℕ, String, true, false, not, ◌&&◌, Option, some, none, List, [], ◌∷◌, ◌==◌, ◌≡◌, ◌≢◌, refl, arith,
  All, ok, if◌then◌else◌, retain,
}
use mcp_gatehound.Decision.{Decision, as_str, parse, parse-as_str, allow, deny, ask}
use mcp_gatehound.Decision
use mcp_gatehound.Store.{Db, IdentityRule}
use mcp_gatehound.Store.Rules.{select_decision, decision_for, set_decision, and_then}
use mcp_gatehound.Store.Rules.Lookup.{select-upsert}
use mcp_gatehound.Store.Tokens.{issue_token}
use mcp_gatehound.Store.Tokens.Lifetime.{issue_token_lem}
use mcp_gatehound.Config.{ToolConfig}
use mcp_gatehound.Policy.{Policy, resolve, visible_tools}

abbrev pub or_default : Option Decision → Decision → Decision
or_default none d = d
or_default (some a) d = a

-- The policy over a database that answers.
abbrev pub over : Db → Decision → Policy
over db d = record { store = record { db = db; up = true }; default = d }

-- The exact rule of a pair, if it holds a decision.
abbrev pub exact : Db → String → String → Option Decision
exact db identity tool = and_then (select_decision db.identities identity tool) parse

-- A rule written for a pair decides that pair. Written for an identity's wildcard, it decides every tool
-- that has no exact rule for the identity. It changes nothing else, for no other identity.
pub resolve-set_decision :
    (now : ℕ) (identity tool : String) (d default : Decision) (db : Db) (who what : String)
    → resolve (over (set_decision now identity tool d db) default) who what ≡ (
        if identity == who && tool == what
        then d
        else if identity == who && tool == "*"
        then or_default (exact db who what) d
        else resolve (over db default) who what)
unfolding resolve decision_for set_decision
resolve-set_decision now identity tool d default db who what = ground (
  arith,
  parse-as_str d,
  select-upsert now identity tool (as_str d) db.identities who what,
  select-upsert now identity tool (as_str d) db.identities who "*",
)

-- While the database does not answer, no identity sees or may call any tool.
pub visible_tools_outage :
    (p : Policy) (identity : String) (tools : List ToolConfig)
    → p.store.up ≡ false
    → (visible_tools p identity tools ≡ []) × ((tool : String) → resolve p identity tool ≡ deny)
unfolding visible_tools resolve
visible_tools_outage p identity tools down = (hidden tools, λ tool. ground arith)
  where
    hidden : (ts : List ToolConfig) → visible_tools p identity ts ≡ []
    hidden [] = refl
    hidden (t ∷ ts) = ground (arith, hidden ts)

-- Right after a token is issued its identity is shown, of tools not named "*", exactly those that an
-- exact rule already let it see: none, if it has no exact rule.
pub visible_tools-issue :
    (now : ℕ) (id name identity digest : String) (db : Db) (default : Decision)
    (tools : List ToolConfig) {old : List IdentityRule} {db' : Db}
    → issue_token now id name identity digest db ≡ ok (old, db')
    → All (λ t. t.name ≢ "*") tools
    → visible_tools (over db' default) identity tools
      ≡ retain (λ t. not (Decision.eq (or_default (exact db identity t.name) deny) deny)) tools
unfolding visible_tools resolve
visible_tools-issue now id name identity digest db default [] e h = refl
visible_tools-issue now id name identity digest db default (t ∷ ts) e (named, h) =
    let issued = issue_token_lem now id name identity digest db e in
    ground (
      arith,
      issued.1 t.name named,
      visible_tools-issue now id name identity digest db default ts e h,
    )
