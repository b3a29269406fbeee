-- ===== src/Store/Tokens.antt =====
-- crates/gatehound-core/src/store.rs: the issued tokens; crates/gatehound-core/src/tokens.rs: what a
-- listing shows of one. A row keeps a digest, never the secret.
pub mod Lifetime
use mcp_gatehound.Base.{
  ℕ, String, Bool, true, false, not, Option, some, none, List, [], ◌∷◌, ◌++◌, ◌+++◌, ◌==◌, ◌&&◌,
  ◌||◌, any, find, retain, update_where, count_where, map, ltb, eqb, leb, is_some, if◌then◌else◌,
  Result, ok, err, sort_by, or_else,
}
use mcp_gatehound.Store.{TokenRow, IdentityRule, Db, StoreError, constraint}
use mcp_gatehound.Store.Rules.{upsert_rule, str_before}

abbrev pub has_id : String → TokenRow → Bool
has_id id t = t.id == id

-- `list_identities`: `ORDER BY identity, tool`
abbrev rule_before : IdentityRule → IdentityRule → Bool
rule_before a b =
    if a.identity == b.identity then str_before a.tool b.tool else str_before a.identity b.identity

unfoldable pub list_identities : Db → List IdentityRule
list_identities db = sort_by rule_before db.identities

-- The rules that were in place for the identity, and the database with the token and its deny rule.
unfoldable pub issue_token :
    ℕ → String → String → String → String → Db → Result StoreError (List IdentityRule × Db)
issue_token now id name identity digest db =
    let existing = retain (λ r. r.identity == identity) (list_identities db) in
    let row : TokenRow = record {
      id = id;
      name = name;
      identity = identity;
      digest = digest;
      created_at = now;
      last_used_at = none;
      revoked_at = none;
    } in
    if any (has_id id) db.tokens
    then err constraint
    else ok (
      existing,
      record db {
        tokens = db.tokens ++ row ∷ [];
        identities = upsert_rule now identity "*" "deny" db.identities;
      },
    )

-- `SELECT digest, identity FROM tokens WHERE id = ?1 AND revoked_at IS NULL`
unfoldable pub select_active : String → List TokenRow → Option (String × String)
select_active id [] = none
select_active id (t ∷ ts) =
    if has_id id t && not (is_some t.revoked_at)
    then some (t.digest, t.identity)
    else select_active id ts

unfoldable pub active_token : Db → String → Option (String × String)
active_token db id = select_active id db.tokens

unfoldable pub touch_token : ℕ → String → Db → Db
touch_token now id db = record db {
  tokens = update_where (has_id id) (λ t. record t { last_used_at = some now }) db.tokens;
}

-- What the store tells of a token: no digest.
pub record TokenInfo : Type 0 where
  pub id : String
  pub name : String
  pub identity : String
  pub created_at : ℕ
  pub last_used_at : Option ℕ
  pub revoked_at : Option ℕ

unfoldable pub active : TokenInfo → Bool
active t = not (is_some t.revoked_at)

unfoldable pub display : TokenInfo → String
display t = "ghd_" +++ (t.id +++ "…")

abbrev info : TokenRow → TokenInfo
info t = record {
  id = t.id;
  name = t.name;
  identity = t.identity;
  created_at = t.created_at;
  last_used_at = t.last_used_at;
  revoked_at = t.revoked_at;
}

-- `ORDER BY revoked_at IS NOT NULL, created_at DESC`
abbrev token_before : TokenInfo → TokenInfo → Bool
token_before a b =
    if is_some a.revoked_at
    then is_some b.revoked_at && leb b.created_at a.created_at
    else is_some b.revoked_at || leb b.created_at a.created_at

unfoldable pub list_tokens : Db → List TokenInfo
list_tokens db = sort_by token_before (map info db.tokens)

abbrev pub is_active_row : String → TokenRow → Bool
is_active_row id t = has_id id t && not (is_some t.revoked_at)

-- Whether a row changed.
unfoldable pub revoke_token : ℕ → String → Db → Bool × Db
revoke_token now id db = (
  ltb 0 (count_where (is_active_row id) db.tokens),
  record db {
    tokens = update_where (is_active_row id) (λ t. record t { revoked_at = some now }) db.tokens;
  },
)

unfoldable pub delete_token : String → Db → Option TokenInfo × Db
delete_token id db = elim (find (λ t. t.id == id) (list_tokens db)) [
  | none ↦ (none, db)
  | some existing ↦
      (some existing, record db { tokens = retain (λ t. not (has_id id t)) db.tokens })
]
