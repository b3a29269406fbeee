-- ===== src/Store/Ops/Invariant.antt =====
-- The keys of every table over the writes.
use mcp_gatehound.Base.{
  ℕ, zero, suc, ◌≤◌, String, false, Option, List, [], ◌∷◌, ◌==◌, ◌≡◌, refl, sym, ◌∙◌, ap, arith,
  any, All, All-append, All-map, All-retain, All-update, Distinct, Distinct-retain, Distinct-append,
  Distinct-update, is_some, eqb, inl, inr, Bool-cases, find, is_some-find, Option-cases,
}
use mcp_gatehound.Decision.{Decision, as_str}
use mcp_gatehound.Store.{RequestLog, NewRequestLog, Db, empty_db}
use mcp_gatehound.Store.Rules.{
  select_decision, rename_row, rename_rows, Renaming, drop_tool, set_decision, seed_decision,
  rename_tool_rules, forget_identity, forget_tool, forget_decision, rules_of_tool,
}
use mcp_gatehound.Store.Rules.Lookup.{count-select}
use mcp_gatehound.Store.Tokens.{
  has_id, issue_token, touch_token, revoke_token, delete_token, list_tokens,
}
use mcp_gatehound.Store.Pending.{add_pending, remove_pending, clear_pending}
use mcp_gatehound.Store.Pending
use mcp_gatehound.Store.Calls.{has_key, claim_call, complete_call, release_call}
use mcp_gatehound.Store.Requests.{log_request, prune, blank}
use mcp_gatehound.Store.Meta.{set_meta}
use mcp_gatehound.Store.Keys.{
  same_rule, same_token, same_pending, same_call, same_request, IsKeyed, empty_db-IsKeyed,
  upsert_rule-Distinct, move_rule-Distinct, upsert_meta-Distinct,
}
use mcp_gatehound.Store.Ops.{
  Op, log, prunes, issue, touch, revoke, delete, set_rule, seed_rule, rename, forget_client,
  forget_rules_of, forget_rule, hold_row, drop_row, drop_rows, claim, complete, release, meta,
  written, issued, step, run,
}
use mcp_gatehound.Store.Keys.Tables.{with_identities, with_tokens, with_pending, with_sends}

rename_rows-Distinct :
    (now : ℕ) (from to : String) (rows : List (String × String)) (s : Renaming)
    → Distinct same_rule s.rules
    → Distinct same_rule (rename_rows now from to rows s).rules
unfolding rename_rows rename_row
rename_rows-Distinct now from to [] s h = h
rename_rows-Distinct now from to ((i, d) ∷ rows) s h =
    rename_rows-Distinct now from to rows (rename_row now from to (i, d) s)
      (elim (Option-cases (select_decision s.rules i to)) [
        | inl free ↦
            rw (count-select i to s.rules, free) (move_rule-Distinct now from to i s.rules h free)
        | inr (old, taken) ↦ rw (count-select i to s.rules, taken) h
      ])

seed-IsKeyed :
    (now : ℕ) (i t : String) (d : Decision) (db : Db)
    → IsKeyed db
    → IsKeyed (seed_decision now i t d db)
unfolding seed_decision set_decision
seed-IsKeyed now i t d db v = elim (Option-cases (select_decision db.identities i t)) [
  | inl free ↦
      rw (free, seed_decision)
        (with_identities _ v (upsert_rule-Distinct now i t (as_str d) db.identities v.identities))
  | inr (old, taken) ↦ rw (taken, seed_decision) v
]

issue-IsKeyed :
    (now : ℕ) (id name identity digest : String) (db : Db)
    → IsKeyed db
    → IsKeyed (issued db (issue_token now id name identity digest db))
unfolding issue_token
issue-IsKeyed now id name identity digest db v = elim (Bool-cases (any (has_id id) db.tokens)) [
  | inl taken ↦ rw taken v
  | inr free ↦ rw free (
      with_identities _ (with_tokens _ v (Distinct-append same_token db.tokens _ v.tokens free))
        (upsert_rule-Distinct now identity "*" "deny" db.identities v.identities))
]

delete-IsKeyed : (id : String) (db : Db) → IsKeyed db → IsKeyed (delete_token id db).1
unfolding delete_token
delete-IsKeyed id db v = elim (Option-cases (find (λ t. t.id == id) (list_tokens db))) [
  | inl gone ↦ rw (gone, delete_token) v
  | inr (old, there) ↦
      rw (there, delete_token) (with_tokens _ v (Distinct-retain same_token _ db.tokens v.tokens))
]

hold-IsKeyed :
    (now : ℕ) (id i t p : String) (o : Option String) (db : Db)
    → IsKeyed db
    → IsKeyed (written db (add_pending now id i t p o db))
unfolding add_pending
hold-IsKeyed now id i t p o db v = elim (Bool-cases (any (Pending.has_id id) db.pending)) [
  | inl taken ↦ rw taken v
  | inr free ↦ rw free (with_pending _ v (Distinct-append same_pending db.pending _ v.pending free))
]

claim-IsKeyed :
    (now : ℕ) (k t h : String) (db : Db) → IsKeyed db → IsKeyed (claim_call now k t h db).1
unfolding claim_call
claim-IsKeyed now k t h db v = elim (Option-cases (find (has_key k) db.sends)) [
  | inl free ↦
      rw (free, claim_call)
        (with_sends _ v (
          Distinct-append same_call db.sends _ v.sends
            (sym (is_some-find (has_key k) db.sends) ∙ ap is_some free)))
  | inr (old, taken) ↦ rw (taken, claim_call) v
]

fresh_row :
    (n : ℕ) (rs : List RequestLog) → All (λ r. r.id ≤ n) rs → any (λ r. eqb r.id (suc n)) rs ≡ false
fresh_row n [] h = refl
fresh_row n (r ∷ rs) (p, h) = ground (arith, fresh_row n rs h)

log-IsKeyed :
    (now : ℕ) (r : NewRequestLog) (db : Db) → IsKeyed db → IsKeyed (log_request now r db).1
unfolding log_request
log-IsKeyed now r db v = record {
  identities = v.identities;
  tokens = v.tokens;
  pending = v.pending;
  sends = v.sends;
  metas = v.metas;
  requests =
      Distinct-append same_request db.requests _ v.requests
        (fresh_row db.last_request db.requests v.counted);
  counted =
      All-append (λ x. x.id ≤ suc db.last_request) db.requests _
        (All-map (λ x. x.id ≤ db.last_request) (λ x. x.id ≤ suc db.last_request) db.requests
          (λ x h. omega arith) v.counted)
        (omega arith, tt);
}

prune-IsKeyed : (now days : ℕ) (db : Db) → IsKeyed db → IsKeyed (prune now days db).1
unfolding prune
prune-IsKeyed now zero db v = v
prune-IsKeyed now (suc days) db v = record {
  identities = v.identities;
  tokens = v.tokens;
  pending = v.pending;
  sends = v.sends;
  metas = v.metas;
  requests =
      Distinct-retain same_request _ _
        (Distinct-update same_request _ blank db.requests (λ x y. refl) (λ x y. refl) v.requests);
  counted =
      All-retain (λ x. x.id ≤ db.last_request) _ _
        (All-update (λ x. x.id ≤ db.last_request) _ blank db.requests (λ x h. h) v.counted);
}

-- Every write keeps each table's keys distinct, and the log's row ids distinct and at most the last
-- one handed out.
pub step-IsKeyed : (op : ℕ × Op) (db : Db) → IsKeyed db → IsKeyed (step op db)
unfolding step touch_token revoke_token set_decision rename_tool_rules forget_identity forget_tool
    forget_decision remove_pending clear_pending complete_call release_call set_meta drop_tool
step-IsKeyed (now, log r) db v = log-IsKeyed now r db v
step-IsKeyed (now, prunes days) db v = prune-IsKeyed now days db v
step-IsKeyed (now, issue id name identity digest) db v =
    issue-IsKeyed now id name identity digest db v
step-IsKeyed (now, touch id) db v =
    with_tokens _ v (Distinct-update same_token _ _ db.tokens (λ x y. refl) (λ x y. refl) v.tokens)
step-IsKeyed (now, revoke id) db v =
    with_tokens _ v (Distinct-update same_token _ _ db.tokens (λ x y. refl) (λ x y. refl) v.tokens)
step-IsKeyed (now, delete id) db v = delete-IsKeyed id db v
step-IsKeyed (now, set_rule i t d) db v =
    with_identities _ v (upsert_rule-Distinct now i t (as_str d) db.identities v.identities)
step-IsKeyed (now, seed_rule i t d) db v = seed-IsKeyed now i t d db v
step-IsKeyed (now, rename from to) db v = with_identities _ v (
    Distinct-retain same_rule _ _
      (rename_rows-Distinct now from to (rules_of_tool from db.identities) _ v.identities))
step-IsKeyed (now, forget_client i) db v =
    with_identities _ v (Distinct-retain same_rule _ db.identities v.identities)
step-IsKeyed (now, forget_rules_of t) db v =
    with_identities _ v (Distinct-retain same_rule _ db.identities v.identities)
step-IsKeyed (now, forget_rule i t) db v =
    with_identities _ v (Distinct-retain same_rule _ db.identities v.identities)
step-IsKeyed (now, hold_row id i t p o) db v = hold-IsKeyed now id i t p o db v
step-IsKeyed (now, drop_row id) db v =
    with_pending _ v (Distinct-retain same_pending _ db.pending v.pending)
step-IsKeyed (now, drop_rows) db v = with_pending _ v tt
step-IsKeyed (now, claim k t h) db v = claim-IsKeyed now k t h db v
step-IsKeyed (now, complete k m r) db v =
    with_sends _ v (Distinct-update same_call _ _ db.sends (λ x y. refl) (λ x y. refl) v.sends)
step-IsKeyed (now, release k) db v = with_sends _ v (Distinct-retain same_call _ db.sends v.sends)
step-IsKeyed (now, meta k w) db v = record {
  identities = v.identities;
  tokens = v.tokens;
  pending = v.pending;
  sends = v.sends;
  metas = upsert_meta-Distinct k w db.metas v.metas;
  requests = v.requests;
  counted = v.counted;
}

run-IsKeyed : (ops : List (ℕ × Op)) (db : Db) → IsKeyed db → IsKeyed (run ops db)
unfolding run
run-IsKeyed [] db v = v
run-IsKeyed (op ∷ ops) db v = run-IsKeyed ops (step op db) (step-IsKeyed op db v)

-- After any history of writes on a new database each primary key of each table names one row, and no
-- row id of the log is above the last one handed out.
pub run_keyed : (ops : List (ℕ × Op)) → IsKeyed (run ops empty_db)
run_keyed ops = run-IsKeyed ops empty_db empty_db-IsKeyed
