-- ===== src/Tests/Store.antt =====
-- The store and the policy at a small database: two clients with rules, one with a token.
use mcp_gatehound.Store.Access.{view, replay}
use mcp_gatehound.Store.Access.Refined.{view-run}
use mcp_gatehound.Base.{
  same_texts, ℕ, String, true, false, some, none, List, [], ◌∷◌, ◌≡◌, ◌≢◌, refl, ◌==◌, Result, ok,
  err,
}
use mcp_gatehound.Decision.{allow, deny, ask, parse}
use mcp_gatehound.Store.{IdentityRule, TokenRow, no_log, RequestLog, Db, empty_db, StoreError}
use mcp_gatehound.Store.Rules.{select_decision, decision_for, set_decision}
use mcp_gatehound.Store.Tokens.{issue_token, active_token, revoke_token}
use mcp_gatehound.Store.Tokens.Lifetime.{issue_token_denied}
use mcp_gatehound.Store.Keys.{IsKeyed}
use mcp_gatehound.Store.Ops.{Op, issue, set_rule, rename, touch, prunes, delete, run}
use mcp_gatehound.Store.Ops.Invariant.{run_keyed}
use mcp_gatehound.Store.Ops.Revoked.{revoked_for_good}
use mcp_gatehound.Config.{ToolConfig, ExecSpec, exec}
use mcp_gatehound.Policy.{Policy, resolve, visible_tools}
use mcp_gatehound.Policy.Resolve.{resolve-set_decision, visible_tools-issue, over}

abbrev rule : String → String → String → IdentityRule
rule i t d = record { identity = i; tool = t; decision = d; created_at = 1; updated_at = 1 }

abbrev token : TokenRow
token = record {
  id = "a1";
  name = "phone";
  identity = "bot";
  digest = "d1";
  created_at = 1;
  last_used_at = none;
  revoked_at = none;
}

abbrev call : ℕ → RequestLog
call ts = record {
  id = ts;
  ts = ts;
  entry = record no_log { args_json = some "{}"; tool = some "read" };
}

abbrev db : Db
db = record empty_db {
  identities = rule "bot" "read" "allow" ∷ rule "bot" "*" "deny" ∷ rule "eve" "write" "ask" ∷ [];
  tokens = token ∷ [];
  requests = call 100 ∷ call 400000 ∷ [];
  last_request = 400000;
}

abbrev spec : ExecSpec
spec = record {
  cmd = "cat";
  args = [];
  stdin = none;
  timeout_secs = 10;
  max_output_bytes = 4096;
  max_concurrency = 1;
  env = [];
  cwd = none;
  fallback = none;
}

abbrev tool_named : String → ToolConfig
tool_named name = record {
  name = name;
  description = "";
  arguments = [];
  input_schema = none;
  action = exec spec;
  rate_limit = none;
  idempotent = false;
  read_only = true;
}

abbrev ops : List (ℕ × Op)
ops =
    (10, touch "a1")
    ∷ (11, issue "a1" "again" "bot" "d2")
    ∷ (12, issue "b2" "tablet" "bot" "d3")
    ∷ (13, rename "read" "fetch")
    ∷ (14, prunes 1)
    ∷ (15, delete "b2")
    ∷ (16, set_rule "bot" "write" ask)
    ∷ []

revoked_for_good_example : active_token (run ops (revoke_token 9 "a1" db).1) "a1" ≡ none
revoked_for_good_example = revoked_for_good 9 "a1" ops db refl refl

run_keyed_example : IsKeyed (run ops empty_db)
run_keyed_example = run_keyed ops

abbrev after : Result StoreError (List IdentityRule × Db) → List IdentityRule × Db
after (ok r) = r
after (err e) = ([], empty_db)

abbrev issued : List IdentityRule × Db
issued = after (issue_token 20 "c3" "laptop" "eve" "d4" db)

differs : (a b : String) → (a == b) ≡ false → a ≢ b
differs a b e same = grind same_texts

issue_token_denied_example :
    (active_token issued.1 "c3" ≡ some ("d4", "eve"))
    × (decision_for issued.1 "eve" "read" ≡ some deny)
    × (decision_for issued.1 "bot" "read" ≡ decision_for db "bot" "read")
unfolding issue_token select_decision
issue_token_denied_example =
    issue_token_denied 20 "c3" "laptop" "eve" "d4" db "c3" "read" "bot" "read" refl (λ e. cc)
      (differs "bot" "eve" refl)

resolve-set_decision_example :
    resolve (over (set_decision 5 "eve" "*" allow db) ask) "eve" "delete" ≡ allow
unfolding select_decision
resolve-set_decision_example = resolve-set_decision 5 "eve" "*" allow ask db "eve" "delete"

abbrev down : Policy
down = record { store = record { db = db; up = false }; default = ask }

visible_tools-issue_example :
    visible_tools (over issued.1 ask) "eve" (tool_named "read" ∷ tool_named "write" ∷ [])
    ≡ tool_named "write" ∷ []
unfolding issue_token select_decision parse
visible_tools-issue_example =
    visible_tools-issue 20 "c3" "laptop" "eve" "d4" db ask
      (tool_named "read" ∷ tool_named "write" ∷ []) refl ((λ e. cc), ((λ e. cc), tt))

view-run_example : view (run ops db) ≡ replay ops (view db)
view-run_example = view-run ops db
