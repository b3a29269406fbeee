-- ===== src/Store/Access/Refined.antt =====
-- The database as a state of access, over its writes.
use mcp_gatehound.Base.{
  same_texts, ℕ, zero, suc, String, Bool, true, false, none, List, [], ◌∷◌, ◌++◌, ◌==◌, ◌≡◌, refl,
  sym, ap, ◌∙◌, any, any-update, arith, Bool-cases, inl, inr, if◌then◌else◌,
}
use mcp_gatehound.Decision.{Decision, as_str}
use mcp_gatehound.Store.{Db, TokenRow}
use mcp_gatehound.Store.Rules.{
  upsert_rule, select_decision, set_decision, seed_decision, rename_tool_rules, forget_identity,
  forget_tool, forget_decision,
}
use mcp_gatehound.Store.Rules.Lookup.{
  select-upsert, select-drop_tool, select-seed, select-forget_identity, select-forget_rule,
}
use mcp_gatehound.Store.Rules.Rename.{select-rename, select-rename_same}
use mcp_gatehound.Store.Tokens.{
  has_id, active_token, issue_token, touch_token, revoke_token, delete_token,
}
use mcp_gatehound.Store.Tokens.Lifetime.{
  active_token-touch, active_token-revoke, active_token-delete, any-delete, issue_token_taken,
  select_active-append,
}
use mcp_gatehound.Store.Pending.{add_pending, remove_pending, clear_pending}
use mcp_gatehound.Store.Calls.{claim_call, complete_call, release_call}
use mcp_gatehound.Store.Requests.{log_request, prune}
use mcp_gatehound.Store.Meta.{set_meta}
use mcp_gatehound.Store.Ops.{
  Op, log, prunes, issue, touch, revoke, delete, set_rule, seed_rule, rename, forget_client,
  forget_rules_of, forget_rule, hold_row, drop_row, drop_rows, claim, complete, release, meta,
  issued, written, step, run,
}
use mcp_gatehound.Store.Access.{admits, Access, Book, view, effect, replay, renamed}

Access-ext :
    (a b : Access)
    → ((j u : String) → a.rules j u ≡ b.rules j u)
    → ((j : String) → a.known j ≡ b.known j)
    → ((j : String) → a.active j ≡ b.active j)
    → a ≡ b
Access-ext a b r k t =
    λ i. record { rules = λ j u. r j u i; known = λ j. k j i; active = λ j. t j i }

-- A write of rules alone, and one of neither rules nor tokens.
rules-ext :
    (db db' : Db) (f : Book)
    → db'.tokens ≡ db.tokens
    → ((j u : String) → select_decision db'.identities j u ≡ f j u)
    → view db' ≡ record (view db) { rules = f }
unfolding active_token
rules-ext db db' f same h =
    Access-ext (view db') (record (view db) { rules = f }) h (λ j. rw same refl) (λ j. rw same refl)

same-view :
    (db db' : Db) → db'.tokens ≡ db.tokens → db'.identities ≡ db.identities → view db' ≡ view db
unfolding active_token
same-view db db' tokens rules = rw (tokens, rules) refl

seed-view :
    (now : ℕ) (i t : String) (d : Decision) (db : Db)
    → view (seed_decision now i t d db) ≡ effect (seed_rule i t d) (view db)
seed-view now i t d db =
    rules-ext db (seed_decision now i t d db) _ (unfold seed_decision set_decision in ground arith)
      (select-seed now i t d db)

rename-view :
    (now : ℕ) (from to : String) (db : Db)
    → view (rename_tool_rules now from to db).1 ≡ effect (rename from to) (view db)
rename-view now from to db =
    rules-ext db (rename_tool_rules now from to db).1 _ (unfold rename_tool_rules in refl)
      (read _ refl)
  where
    read :
        (b : Bool)
        → (from == to) ≡ b
        → (j u : String)
        → select_decision (rename_tool_rules now from to db).1.identities j u
          ≡ renamed from to (select_decision db.identities) j u
    read false other j u = select-rename now from to db j u (grind same_texts)
    read true same j u =
        let one : from ≡ to = grind same_texts in
        rw (sym one) (select-rename_same now from db j u ∙ ground arith)

any-append_one :
    (t : TokenRow) (ts : List TokenRow) (j : String)
    → any (has_id j) (ts ++ t ∷ []) ≡ (if t.id == j then true else any (has_id j) ts)
any-append_one t [] j = ground arith
any-append_one t (x ∷ ts) j = ground (arith, any-append_one t ts j)

issue-view :
    (now : ℕ) (id name identity digest : String) (db : Db)
    → view (issued db (issue_token now id name identity digest db))
      ≡ effect (issue id name identity digest) (view db)
unfolding issue_token
issue-view now id name identity digest db = elim (Bool-cases (any (has_id id) db.tokens)) [
  | inl taken ↦ rw (issue_token_taken now id name identity digest db taken, taken) refl
  | inr free ↦ rw (free, issue_token) (issued-view free)
]
  where
    row : TokenRow
    row = record {
      id = id;
      name = name;
      identity = identity;
      digest = digest;
      created_at = now;
      last_used_at = none;
      revoked_at = none;
    }

    issued-view :
        any (has_id id) db.tokens ≡ false
        → view (record db {
          tokens = db.tokens ++ row ∷ [];
          identities = upsert_rule now identity "*" "deny" db.identities;
        })
          ≡ admits false id identity digest (view db)
    issued-view free =
        Access-ext _ _ (select-upsert now identity "*" "deny" db.identities)
          (any-append_one row db.tokens)
          (λ j. unfold active_token in select_active-append j id row db.tokens free refl refl)

revoke-view :
    (now : ℕ) (id : String) (db : Db)
    → view (revoke_token now id db).1 ≡ effect (revoke id) (view db)
revoke-view now id db =
    Access-ext _ _ (λ j u. unfold revoke_token in refl)
      (λ j. unfold revoke_token in any-update (has_id j) _ _ db.tokens (λ t. refl))
      (active_token-revoke now id db)

touch-view : (now : ℕ) (id : String) (db : Db) → view (touch_token now id db) ≡ view db
touch-view now id db =
    Access-ext _ _ (λ j u. unfold touch_token in refl)
      (λ j. unfold touch_token in any-update (has_id j) _ _ db.tokens (λ t. refl))
      (active_token-touch now id db)

delete-view : (id : String) (db : Db) → view (delete_token id db).1 ≡ effect (delete id) (view db)
delete-view id db =
    Access-ext _ _ (λ j u. unfold delete_token in ground arith) (λ j. any-delete j id db)
      (active_token-delete id db)

set-view :
    (now : ℕ) (i t : String) (d : Decision) (db : Db)
    → view (set_decision now i t d db) ≡ effect (set_rule i t d) (view db)
unfolding set_decision
set-view now i t d db =
    rules-ext db (set_decision now i t d db) _ refl (select-upsert now i t (as_str d) db.identities)

step-view : (now : ℕ) (op : Op) (db : Db) → view (step (now, op) db) ≡ effect op (view db)
unfolding step forget_identity forget_tool forget_decision remove_pending clear_pending
    complete_call release_call set_meta log_request active_token
step-view now (issue id name identity digest) db = issue-view now id name identity digest db
step-view now (touch id) db = touch-view now id db
step-view now (revoke id) db = revoke-view now id db
step-view now (delete id) db = delete-view id db
step-view now (set_rule i t d) db = set-view now i t d db
step-view now (seed_rule i t d) db = seed-view now i t d db
step-view now (rename from to) db = rename-view now from to db
step-view now (forget_client i) db =
    rules-ext db (forget_identity i db).1 _ refl (select-forget_identity i db.identities)
step-view now (forget_rules_of t) db =
    rules-ext db (forget_tool t db).1 _ refl (select-drop_tool t db.identities)
step-view now (forget_rule i t) db =
    rules-ext db (forget_decision i t db).1 _ refl (select-forget_rule i t db.identities)
step-view now (hold_row id i t p o) db =
    same-view db (written db (add_pending now id i t p o db)) (unfold add_pending in ground arith)
      (unfold add_pending in ground arith)
step-view now (claim k t h) db =
    same-view db (claim_call now k t h db).1 (unfold claim_call in ground arith)
      (unfold claim_call in ground arith)
step-view now (prunes zero) db = unfold prune in refl
step-view now (prunes (suc days)) db = unfold prune in refl
step-view now (log r) db = refl
step-view now (drop_row id) db = refl
step-view now drop_rows db = refl
step-view now (complete k m r) db = refl
step-view now (release k) db = refl
step-view now (meta k v) db = refl

-- A database refines the abstract state of access: after any history of writes, what its reads answer of
-- rules, of which token ids are taken, and of whom a token authenticates by which digest is what the same
-- writes make of three functions, each a simple update. A refused write, a write of anything else and the
-- time at which it is done change nothing of it.
pub view-run : (ops : List (ℕ × Op)) (db : Db) → view (run ops db) ≡ replay ops (view db)
unfolding run replay
view-run [] db = refl
view-run ((now, op) ∷ ops) db =
    view-run ops (step (now, op) db) ∙ ap (replay ops) (step-view now op db)
