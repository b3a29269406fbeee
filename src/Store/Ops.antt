-- ===== src/Store/Ops.antt =====
-- crates/gatehound-core/src/store.rs: the operations that write, as one vocabulary, and histories of
-- them. A write that the database refuses leaves it as it was.
pub mod Invariant
pub mod Revoked
use mcp_gatehound.Base.{ℕ, String, Option, List, [], ◌∷◌, Result, ok, err}
use mcp_gatehound.Decision.{Decision}
use mcp_gatehound.Store.{NewRequestLog, IdentityRule, Db, StoreError}
use mcp_gatehound.Store.Rules.{
  set_decision, seed_decision, rename_tool_rules, forget_identity, forget_tool, forget_decision,
}
use mcp_gatehound.Store.Tokens.{issue_token, touch_token, revoke_token, delete_token}
use mcp_gatehound.Store.Pending.{add_pending, remove_pending, clear_pending}
use mcp_gatehound.Store.Calls.{claim_call, complete_call, release_call}
use mcp_gatehound.Store.Requests.{log_request, prune}
use mcp_gatehound.Store.Meta.{set_meta}

pub data Op : Type 0 where
  log : NewRequestLog → Op
  prunes : (days : ℕ) → Op
  issue : (id name identity digest : String) → Op
  touch revoke delete : (id : String) → Op
  set_rule seed_rule : (identity tool : String) → Decision → Op
  rename : (from to : String) → Op
  forget_client forget_rules_of : String → Op
  forget_rule : (identity tool : String) → Op
  hold_row : (id identity tool preview : String) → Option String → Op
  drop_row : (id : String) → Op
  drop_rows : Op
  claim : (key tool args_hash : String) → Op
  complete : (key : String) → Option String → String → Op
  release : (key : String) → Op
  meta : (k v : String) → Op

abbrev pub written : Db → Result StoreError Db → Db
written db (ok db') = db'
written db (err e) = db

abbrev pub issued : Db → Result StoreError (List IdentityRule × Db) → Db
issued db (ok (old, db')) = db'
issued db (err e) = db

-- An operation at a time.
unfoldable pub step : ℕ × Op → Db → Db
step (now, log r) db = (log_request now r db).1
step (now, prunes days) db = (prune now days db).1
step (now, issue id name identity digest) db =
    issued db (issue_token now id name identity digest db)
step (now, touch id) db = touch_token now id db
step (now, revoke id) db = (revoke_token now id db).1
step (now, delete id) db = (delete_token id db).1
step (now, set_rule i t d) db = set_decision now i t d db
step (now, seed_rule i t d) db = seed_decision now i t d db
step (now, rename from to) db = (rename_tool_rules now from to db).1
step (now, forget_client i) db = (forget_identity i db).1
step (now, forget_rules_of t) db = (forget_tool t db).1
step (now, forget_rule i t) db = (forget_decision i t db).1
step (now, hold_row id i t p o) db = written db (add_pending now id i t p o db)
step (now, drop_row id) db = remove_pending id db
step (now, drop_rows) db = (clear_pending db).1
step (now, claim k t h) db = (claim_call now k t h db).1
step (now, complete k m r) db = complete_call now k m r db
step (now, release k) db = release_call k db
step (now, meta k v) db = set_meta k v db

unfoldable pub run : List (ℕ × Op) → Db → Db
run [] db = db
run (op ∷ ops) db = run ops (step op db)
