-- ===== src/Store/Ops/Revoked.antt =====
-- A revoked token over later writes.
use mcp_gatehound.Base.{
  same_texts, ℕ, zero, suc, String, Bool, true, not, Option, none, List, [], ◌∷◌, ◌==◌, ◌≡◌, refl,
  ◌∙◌, arith, any, all, update_where,
}
use mcp_gatehound.Decision.{Decision}
use mcp_gatehound.Store.{TokenRow, Db}
use mcp_gatehound.Store.Rules.{
  set_decision, seed_decision, rename_tool_rules, forget_identity, forget_tool, forget_decision,
}
use mcp_gatehound.Store.Tokens.{has_id, active_token, touch_token, revoke_token}
use mcp_gatehound.Store.Tokens.Lifetime.{
  active_token-touch, active_token-revoke, active_token-delete, any-delete, any-issue,
  active_token-issue_listed,
}
use mcp_gatehound.Store.Pending.{add_pending, remove_pending, clear_pending}
use mcp_gatehound.Store.Calls.{claim_call, complete_call, release_call}
use mcp_gatehound.Store.Requests.{log_request, prune}
use mcp_gatehound.Store.Meta.{set_meta}
use mcp_gatehound.Store.Ops.{
  Op, log, prunes, issue, touch, revoke, delete, set_rule, seed_rule, rename, forget_client,
  forget_rules_of, forget_rule, hold_row, drop_row, drop_rows, claim, complete, release, meta,
  written, step, run,
}

-- The id is in the table and authenticates nobody.
pub record IsRevoked (id : String) (db : Db) : Type 0 where
  pub listed : any (has_id id) db.tokens ≡ true
  pub barred : active_token db id ≡ none

abbrev pub spares : String → ℕ × Op → Bool
spares id (now, delete j) = not (j == id)
spares id (now, _) = true

same_tokens :
    (id : String) {db db' : Db} → db'.tokens ≡ db.tokens → IsRevoked id db → IsRevoked id db'
unfolding active_token
same_tokens id e v = record { listed = rw e v.listed; barred = rw e v.barred }

tokens-seed :
    (now : ℕ) (i t : String) (d : Decision) (db : Db)
    → (seed_decision now i t d db).tokens ≡ db.tokens
unfolding seed_decision set_decision
tokens-seed now i t d db = ground arith

tokens-hold :
    (now : ℕ) (id i t p : String) (o : Option String) (db : Db)
    → (written db (add_pending now id i t p o db)).tokens ≡ db.tokens
unfolding add_pending
tokens-hold now id i t p o db = ground arith

tokens-claim : (now : ℕ) (k t h : String) (db : Db) → (claim_call now k t h db).1.tokens ≡ db.tokens
unfolding claim_call
tokens-claim now k t h db = ground arith

tokens-prune : (now days : ℕ) (db : Db) → (prune now days db).1.tokens ≡ db.tokens
unfolding prune
tokens-prune now zero db = refl
tokens-prune now (suc days) db = refl

any-update_id :
    (id : String) (p : TokenRow → Bool) (f : TokenRow → TokenRow) (ts : List TokenRow)
    → ((t : TokenRow) → (f t).id ≡ t.id)
    → any (has_id id) (update_where p f ts) ≡ any (has_id id) ts
any-update_id id p f [] e = refl
any-update_id id p f (t ∷ ts) e = ground (arith, e t, any-update_id id p f ts e)

step-IsRevoked :
    (id : String) (op : ℕ × Op) (db : Db)
    → spares id op ≡ true
    → IsRevoked id db
    → IsRevoked id (step op db)
unfolding step set_decision rename_tool_rules forget_identity forget_tool forget_decision
    remove_pending clear_pending complete_call release_call set_meta log_request
step-IsRevoked id (now, log r) db s v = same_tokens id refl v
step-IsRevoked id (now, prunes days) db s v = same_tokens id (tokens-prune now days db) v
step-IsRevoked id (now, issue j name identity digest) db s v = record {
  listed = any-issue id now j name identity digest db v.listed;
  barred = active_token-issue_listed id now j name identity digest db v.listed ∙ v.barred;
}
step-IsRevoked id (now, touch j) db s v = record {
  listed = unfold touch_token in (any-update_id id _ _ db.tokens (λ t. refl) ∙ v.listed);
  barred = active_token-touch now j db id ∙ v.barred;
}
step-IsRevoked id (now, revoke j) db s v = record {
  listed = unfold revoke_token in (any-update_id id _ _ db.tokens (λ t. refl) ∙ v.listed);
  barred = active_token-revoke now j db id ∙ ground arith;
}
step-IsRevoked id (now, delete j) db s v = record {
  listed = any-delete id j db ∙ ground arith;
  barred = active_token-delete j db id ∙ ground arith;
}
step-IsRevoked id (now, set_rule i t d) db s v = same_tokens id refl v
step-IsRevoked id (now, seed_rule i t d) db s v = same_tokens id (tokens-seed now i t d db) v
step-IsRevoked id (now, rename from to) db s v = same_tokens id refl v
step-IsRevoked id (now, forget_client i) db s v = same_tokens id refl v
step-IsRevoked id (now, forget_rules_of t) db s v = same_tokens id refl v
step-IsRevoked id (now, forget_rule i t) db s v = same_tokens id refl v
step-IsRevoked id (now, hold_row j i t p o) db s v = same_tokens id (tokens-hold now j i t p o db) v
step-IsRevoked id (now, drop_row j) db s v = same_tokens id refl v
step-IsRevoked id (now, drop_rows) db s v = same_tokens id refl v
step-IsRevoked id (now, claim k t h) db s v = same_tokens id (tokens-claim now k t h db) v
step-IsRevoked id (now, complete k m r) db s v = same_tokens id refl v
step-IsRevoked id (now, release k) db s v = same_tokens id refl v
step-IsRevoked id (now, meta k w) db s v = same_tokens id refl v

run-IsRevoked :
    (id : String) (ops : List (ℕ × Op)) (db : Db)
    → all (spares id) ops ≡ true
    → IsRevoked id db
    → IsRevoked id (run ops db)
unfolding run
run-IsRevoked id [] db s v = v
run-IsRevoked id (op ∷ ops) db s v =
    run-IsRevoked id ops (step op db) (ground arith) (step-IsRevoked id op db (ground arith) v)

-- Once a listed token is revoked, no later history of writes makes its id authenticate again, as long
-- as the row itself is not deleted.
pub revoked_for_good :
    (now : ℕ) (id : String) (ops : List (ℕ × Op)) (db : Db)
    → any (has_id id) db.tokens ≡ true
    → all (spares id) ops ≡ true
    → active_token (run ops (revoke_token now id db).1) id ≡ none
revoked_for_good now id ops db listed s =
    (run-IsRevoked id ops (revoke_token now id db).1 s (record {
      listed = unfold revoke_token in (any-update_id id _ _ db.tokens (λ t. refl) ∙ listed);
      barred = active_token-revoke now id db id ∙ grind same_texts;
    })).barred
