-- ===== src/Store/Keys.antt =====
-- The keys of the tables: primary keys, and the row ids of the log.
pub mod Tables
use mcp_gatehound.Base.{
  same_texts, ℕ, ◌≤◌, String, Bool, false, none, List, [], ◌∷◌, ◌==◌, ◌≡◌, ◌≢◌, refl, ◌∙◌, ap,
  arith, any, All, Distinct, is_some, eqb, inl, inr, Bool-cases,
}
use mcp_gatehound.Store.{
  IdentityRule, TokenRow, PendingRow, CallRecord, RequestLog, MetaRow, Db, empty_db,
}
use mcp_gatehound.Store.Rules.{is_rule, select_decision, upsert_rule, move_rule}
use mcp_gatehound.Store.Rules.Lookup.{
  select-upsert, select-move_rule_other, select-move_rule_new, select-move_rule_rest,
  select-move_rule_old,
}
use mcp_gatehound.Store.Meta.{upsert_meta}

abbrev pub same_rule : IdentityRule → IdentityRule → Bool
same_rule a b = is_rule a.identity a.tool b

abbrev pub same_token : TokenRow → TokenRow → Bool
same_token a b = a.id == b.id

abbrev pub same_pending : PendingRow → PendingRow → Bool
same_pending a b = a.id == b.id

abbrev pub same_call : CallRecord → CallRecord → Bool
same_call a b = a.idempotency_key == b.idempotency_key

abbrev pub same_request : RequestLog → RequestLog → Bool
same_request a b = eqb a.id b.id

abbrev pub same_meta : MetaRow → MetaRow → Bool
same_meta a b = a.k == b.k

pub record IsKeyed (db : Db) : Type 0 where
  pub identities : Distinct same_rule db.identities
  pub tokens : Distinct same_token db.tokens
  pub pending : Distinct same_pending db.pending
  pub sends : Distinct same_call db.sends
  pub metas : Distinct same_meta db.metas
  pub requests : Distinct same_request db.requests
  pub counted : All (λ r. r.id ≤ db.last_request) db.requests

pub empty_db-IsKeyed : IsKeyed empty_db
empty_db-IsKeyed = record {
  identities = tt;
  tokens = tt;
  pending = tt;
  sends = tt;
  metas = tt;
  requests = tt;
  counted = tt;
}

any-is_rule :
    (i t : String) (rs : List IdentityRule)
    → any (is_rule i t) rs ≡ is_some (select_decision rs i t)
unfolding select_decision
any-is_rule i t [] = refl
any-is_rule i t (r ∷ rs) = ground (arith, any-is_rule i t rs)

pub upsert_rule-Distinct :
    (now : ℕ) (i t d : String) (rs : List IdentityRule)
    → Distinct same_rule rs
    → Distinct same_rule (upsert_rule now i t d rs)
unfolding upsert_rule
upsert_rule-Distinct now i t d [] h = (refl, tt)
upsert_rule-Distinct now i t d (r ∷ rs) (fresh, h) = elim (Bool-cases (is_rule i t r)) [
  | inl same ↦ rw same (fresh, h)
  | inr other ↦ rw other (
    any-is_rule r.identity r.tool _
        ∙ (ap is_some (select-upsert now i t d rs r.identity r.tool)
            ∙ grind (same_texts, any-is_rule r.identity r.tool rs)),
    upsert_rule-Distinct now i t d rs h,
  )
]

module _ (now : ℕ) (from to i : String) where
  -- No row moved makes a second rule for `(j, u)`.
  none_moved :
      (rs : List IdentityRule) (j u : String)
      → select_decision rs i to ≡ none
      → select_decision rs j u ≡ none
      → (i ≡ j → u ≢ to)
      → select_decision (move_rule now from to i rs) j u ≡ none
  none_moved rs j u free gone off = elim (Bool-cases (i == j)) [
    | inl same ↦ elim (Bool-cases (u == from)) [
      | inl old ↦ grind (same_texts, select-move_rule_old now from to i rs, off)
      | inr rest ↦ grind (same_texts, select-move_rule_rest now from to i rs u)
    ]
    | inr other ↦ select-move_rule_other now from to i rs j u (grind same_texts) ∙ gone
  ]

  -- A rule that no row of the table has.
  absent :
      (j u : String) (rs : List IdentityRule)
      → any (is_rule j u) rs ≡ false
      → select_decision rs j u ≡ none
  absent j u rs h = ground (arith, any-is_rule j u rs)

  present :
      (j u : String) (rs : List IdentityRule)
      → select_decision rs j u ≡ none
      → any (is_rule j u) rs ≡ false
  present j u rs h = any-is_rule j u rs ∙ ap is_some h

  pub move_rule-Distinct :
      (rs : List IdentityRule)
      → Distinct same_rule rs
      → select_decision rs i to ≡ none
      → Distinct same_rule (move_rule now from to i rs)
  unfolding move_rule select_decision
  move_rule-Distinct [] h free = tt
  move_rule-Distinct (r ∷ rs) (fresh, h) free =
      let free' : select_decision rs i to ≡ none = ground arith in
      let unlike : is_rule i to r ≡ false = ground arith in
      elim (Bool-cases (is_rule i from r)) [
        | inl mine ↦ rw mine (
          present r.identity to _ (
              grind (
                same_texts,
                select-move_rule_new now from to i rs free',
                absent r.identity r.tool rs fresh,
              )),
          move_rule-Distinct rs h free',
        )
        | inr other ↦ rw other (
          present r.identity r.tool _ (
              none_moved rs r.identity r.tool free' (absent r.identity r.tool rs fresh)
                (λ e f. grind (same_texts, e, f))),
          move_rule-Distinct rs h free',
        )
      ]

pub upsert_meta-Distinct :
    (k v : String) (ms : List MetaRow)
    → Distinct same_meta ms
    → Distinct same_meta (upsert_meta k v ms)
unfolding upsert_meta
upsert_meta-Distinct k v [] h = (refl, tt)
upsert_meta-Distinct k v (m ∷ ms) (fresh, h) = elim (Bool-cases (m.k == k)) [
  | inl same ↦ rw same (fresh, h)
  | inr other ↦ rw other (absent_key ms other fresh, upsert_meta-Distinct k v ms h)
]
  where
    absent_key :
        (rest : List MetaRow)
        → (m.k == k) ≡ false
        → any (λ x. m.k == x.k) rest ≡ false
        → any (λ x. m.k == x.k) (upsert_meta k v rest) ≡ false
    absent_key [] off free = grind same_texts
    absent_key (x ∷ rest) off free = ground (arith, absent_key rest off)
