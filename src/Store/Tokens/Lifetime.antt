-- ===== src/Store/Tokens/Lifetime.antt =====
-- The life of an issued token: what each statement does to `active_token`, and to the policy.
use mcp_gatehound.Base.{
  same_texts, ℕ, String, true, false, not, some, none, List, [], ◌∷◌, ◌++◌, ◌==◌, ◌≡◌, ◌≢◌, refl,
  arith, any, retain, update_where, is_some, if◌then◌else◌, Result, ok, err, or_else, Bool-cases,
  inl, inr, find, map, ◌∙◌, is_some-find, any-sort_by, any-map,
}
use mcp_gatehound.Decision.{parse, deny}
use mcp_gatehound.Store.{TokenRow, IdentityRule, Db, constraint, StoreError}
use mcp_gatehound.Store.Rules.{select_decision, decision_for, and_then, upsert_rule}
use mcp_gatehound.Store.Rules.Lookup.{select-upsert}
use mcp_gatehound.Store.Tokens.{
  has_id, is_active_row, issue_token, select_active, active_token, touch_token, revoke_token,
  delete_token, list_tokens, TokenInfo, token_before, info,
}

pub select_active-append :
    (id j : String) (t : TokenRow) (ts : List TokenRow)
    → any (has_id j) ts ≡ false
    → t.id ≡ j
    → t.revoked_at ≡ none
    → select_active id (ts ++ t ∷ [])
      ≡ (if j == id then some (t.digest, t.identity) else select_active id ts)
unfolding select_active
select_active-append id j t [] h e r = grind same_texts
select_active-append id j t (x ∷ ts) h e r = grind (same_texts, select_active-append id j t ts)

select_active-touch :
    (id j : String) (now : ℕ) (ts : List TokenRow)
    → select_active id (update_where (has_id j) (λ t. record t { last_used_at = some now }) ts)
      ≡ select_active id ts
unfolding select_active
select_active-touch id j now [] = refl
select_active-touch id j now (x ∷ ts) = ground (arith, select_active-touch id j now ts)

select_active-revoke :
    (id j : String) (now : ℕ) (ts : List TokenRow)
    → select_active id (update_where (is_active_row j) (λ t. record t { revoked_at = some now }) ts)
      ≡ (if j == id then none else select_active id ts)
unfolding select_active
select_active-revoke id j now [] = ground arith
select_active-revoke id j now (x ∷ ts) = grind (same_texts, select_active-revoke id j now ts)

select_active-delete :
    (id j : String) (ts : List TokenRow)
    → select_active id (retain (λ t. not (has_id j t)) ts)
      ≡ (if j == id then none else select_active id ts)
unfolding select_active
select_active-delete id j [] = ground arith
select_active-delete id j (x ∷ ts) = grind (same_texts, select_active-delete id j ts)

-- An id that is in the table is refused, and nothing is written.
pub issue_token_taken :
    (now : ℕ) (id name identity digest : String) (db : Db)
    → any (has_id id) db.tokens ≡ true
    → issue_token now id name identity digest db ≡ err constraint
unfolding issue_token
issue_token_taken now id name identity digest db h = rw h

module _ (now : ℕ) (id name identity digest : String) (db : Db) where
  issue_parts :
      {old : List IdentityRule} {db' : Db}
      → issue_token now id name identity digest db ≡ ok (old, db')
      → (any (has_id id) db.tokens ≡ false)
        × (db'.identities ≡ upsert_rule now identity "*" "deny" db.identities)
        × ((j : String)
            → active_token db' j ≡ (if id == j then some (digest, identity) else active_token db j))
  unfolding issue_token active_token
  issue_parts e = elim (Bool-cases (any (has_id id) db.tokens)) [
    | inl taken ↦ cc (issue_token_taken now id name identity digest db taken)
    | inr free ↦
        (free, ground arith, λ j. ground (arith, select_active-append j id row db.tokens free))
  ]
    where
      row : TokenRow
      row = record {
        id = id;
        name = name;
        identity = identity;
        digest = digest;
        created_at = now;
        last_used_at = none;
        revoked_at = none;
      }

-- What issuing a token does to the tokens and to the policy.
pub issue_token_lem :
    (now : ℕ) (id name identity digest : String) (db : Db) {old : List IdentityRule} {db' : Db}
    → issue_token now id name identity digest db ≡ ok (old, db')
    → ((j : String)
        → active_token db' j ≡ (if id == j then some (digest, identity) else active_token db j))
      × ((tool : String)
          → tool ≢ "*"
          → decision_for db' identity tool
            ≡ or_else (and_then (select_decision db.identities identity tool) parse) (some deny))
      × ((who tool : String)
          → who ≢ identity
          → decision_for db' who tool ≡ decision_for db who tool)
unfolding decision_for parse
issue_token_lem now id name identity digest db {db'} e =
    let p = issue_parts now id name identity digest db e in
    (
      p.2,
      (λ tool ne.
          rw
            (
              p.1,
              select-upsert now identity "*" "deny" db.identities identity tool,
              select-upsert now identity "*" "deny" db.identities identity "*",
            )
            (grind same_texts)),
      λ who tool ne.
          rw
            (
              p.1,
              select-upsert now identity "*" "deny" db.identities who tool,
              select-upsert now identity "*" "deny" db.identities who "*",
            )
            (grind same_texts),
    )

-- An issued token authenticates as its identity by its digest and changes no other token. It starts
-- denied: its identity may use a tool, not named "*", as its exact rule for it says, and no other. No
-- other identity's policy changes.
pub issue_token_denied :
    (now : ℕ) (id name identity digest : String) (db : Db) {old : List IdentityRule} {db' : Db}
    (j tool who other : String)
    → issue_token now id name identity digest db ≡ ok (old, db')
    → tool ≢ "*"
    → who ≢ identity
    → (active_token db' j ≡ (if id == j then some (digest, identity) else active_token db j))
      × (decision_for db' identity tool
          ≡ or_else (and_then (select_decision db.identities identity tool) parse) (some deny))
      × (decision_for db' who other ≡ decision_for db who other)
issue_token_denied now id name identity digest db j tool who other e named ne =
    let issued = issue_token_lem now id name identity digest db e in
    (issued.0 j, issued.1 tool named, issued.2 who other ne)

pub active_token-touch :
    (now : ℕ) (id : String) (db : Db) (j : String)
    → active_token (touch_token now id db) j ≡ active_token db j
unfolding active_token touch_token
active_token-touch now id db j = select_active-touch j id now db.tokens

-- A revoked token authenticates nobody from then on, and no other token changes.
pub active_token-revoke :
    (now : ℕ) (id : String) (db : Db) (j : String)
    → active_token (revoke_token now id db).1 j ≡ (if id == j then none else active_token db j)
unfolding active_token revoke_token
active_token-revoke now id db j = select_active-revoke j id now db.tokens

select_active-none :
    (id : String) (ts : List TokenRow) → any (has_id id) ts ≡ false → select_active id ts ≡ none
unfolding select_active
select_active-none id [] h = refl
select_active-none id (x ∷ ts) h = ground (arith, select_active-none id ts)

found-any :
    (id : String) (db : Db)
    → is_some (find (λ t. t.id == id) (list_tokens db)) ≡ any (has_id id) db.tokens
unfolding list_tokens
found-any id db =
    is_some-find (λ (t : TokenInfo). t.id == id) (list_tokens db)
    ∙ (any-sort_by (λ (t : TokenInfo). t.id == id) token_before (map info db.tokens)
        ∙ any-map (λ (t : TokenInfo). t.id == id) info db.tokens)

-- A deleted token authenticates nobody from then on, and no other token changes.
pub active_token-delete :
    (id : String) (db : Db) (j : String)
    → active_token (delete_token id db).1 j ≡ (if id == j then none else active_token db j)
unfolding active_token delete_token
active_token-delete id db j = grind (
  same_texts,
  found-any id db,
  select_active-delete j id db.tokens,
  select_active-none id db.tokens,
)

any-retain_other :
    (id j : String) (ts : List TokenRow)
    → any (has_id id) (retain (λ t. not (has_id j t)) ts)
      ≡ (if j == id then false else any (has_id id) ts)
any-retain_other id j [] = ground arith
any-retain_other id j (x ∷ ts) = grind (same_texts, any-retain_other id j ts)

-- Which ids are in the table.
pub any-delete :
    (id j : String) (db : Db)
    → any (has_id id) (delete_token j db).1.tokens
      ≡ (if j == id then false else any (has_id id) db.tokens)
unfolding delete_token
any-delete id j db = grind (same_texts, found-any j db, any-retain_other id j db.tokens)

any-append_listed :
    (id : String) (t : TokenRow) (ts : List TokenRow)
    → any (has_id id) ts ≡ true
    → any (has_id id) (ts ++ t ∷ []) ≡ true
any-append_listed id t [] h = ground arith
any-append_listed id t (x ∷ ts) h = ground (arith, any-append_listed id t ts)

abbrev pub after_issue : Db → Result StoreError (List IdentityRule × Db) → Db
after_issue db (ok (old, db')) = db'
after_issue db (err e) = db

module _ (id : String) (now : ℕ) (j name identity digest : String) (db : Db) where
  pub any-issue :
      any (has_id id) db.tokens ≡ true
      → any (has_id id) (after_issue db (issue_token now j name identity digest db)).tokens ≡ true
  unfolding issue_token
  any-issue h = elim (Bool-cases (any (has_id j) db.tokens)) [
    | inl taken ↦ rw taken h
    | inr free ↦ rw free (any-append_listed id _ db.tokens h)
  ]

  pub active_token-issue_listed :
      any (has_id id) db.tokens ≡ true
      → active_token (after_issue db (issue_token now j name identity digest db)) id
        ≡ active_token db id
  unfolding issue_token active_token
  active_token-issue_listed h = elim (Bool-cases (any (has_id j) db.tokens)) [
    | inl taken ↦ rw taken
    | inr free ↦ rw free (select_active-append id j _ db.tokens free refl refl ∙ grind same_texts)
  ]
