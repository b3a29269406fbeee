-- ===== src/Store/Rules/Lookup.antt =====
-- What each statement on the `identities` table does to a later lookup.
use mcp_gatehound.Base.{
  same_texts, ℕ, String, some, none, List, [], ◌∷◌, ◌==◌, ◌&&◌, ◌≡◌, ◌≢◌, refl, arith, count_where,
  if◌then◌else◌, is_some, ltb, not, retain, or_else, Option-cases, inl, inr,
}
use mcp_gatehound.Decision.{Decision, as_str}
use mcp_gatehound.Store.{Db, IdentityRule}
use mcp_gatehound.Store.Rules.{
  is_rule, select_decision, upsert_rule, move_rule, drop_tool, seed_decision, set_decision,
}

pub select-upsert :
    (now : ℕ) (i t d : String) (rs : List IdentityRule) (j u : String)
    → select_decision (upsert_rule now i t d rs) j u
      ≡ (if i == j && t == u then some d else select_decision rs j u)
unfolding select_decision upsert_rule
select-upsert now i t d [] j u = refl
select-upsert now i t d (r ∷ rs) j u = grind (same_texts, select-upsert now i t d rs j u)

pub select-drop_tool :
    (tool : String) (rs : List IdentityRule) (j u : String)
    → select_decision (drop_tool tool rs) j u ≡ (if u == tool then none else select_decision rs j u)
unfolding select_decision drop_tool
select-drop_tool tool [] j u = ground arith
select-drop_tool tool (r ∷ rs) j u = grind (same_texts, select-drop_tool tool rs j u)

-- Moving one identity's rules to a new tool name.
module _ (now : ℕ) (from to i : String) where
  pub select-move_rule_other :
      (rs : List IdentityRule) (j u : String)
      → i ≢ j
      → select_decision (move_rule now from to i rs) j u ≡ select_decision rs j u
  unfolding select_decision move_rule
  select-move_rule_other [] j u ne = refl
  select-move_rule_other (r ∷ rs) j u ne = grind (same_texts, select-move_rule_other rs j u ne)

  pub select-move_rule_old :
      (rs : List IdentityRule)
      → from ≢ to
      → select_decision (move_rule now from to i rs) i from ≡ none
  unfolding select_decision move_rule
  select-move_rule_old [] ne = refl
  select-move_rule_old (r ∷ rs) ne = grind (same_texts, select-move_rule_old rs ne)

  -- Where the identity has no rule under the new name.
  pub select-move_rule_new :
      (rs : List IdentityRule)
      → select_decision rs i to ≡ none
      → select_decision (move_rule now from to i rs) i to ≡ select_decision rs i from
  unfolding select_decision move_rule
  select-move_rule_new [] h = refl
  select-move_rule_new (r ∷ rs) h = grind (same_texts, select-move_rule_new rs)

  pub select-move_rule_rest :
      (rs : List IdentityRule) (u : String)
      → u ≢ from
      → u ≢ to
      → select_decision (move_rule now from to i rs) i u ≡ select_decision rs i u
  unfolding select_decision move_rule
  select-move_rule_rest [] u nf nt = refl
  select-move_rule_rest (r ∷ rs) u nf nt = grind (same_texts, select-move_rule_rest rs u nf nt)

pub count-select :
    (i t : String) (rs : List IdentityRule)
    → ltb 0 (count_where (is_rule i t) rs) ≡ is_some (select_decision rs i t)
unfolding select_decision
count-select i t [] = refl
count-select i t (r ∷ rs) = ground (arith, count-select i t rs)

-- A seed stands where there is no rule.
pub select-seed :
    (now : ℕ) (i t : String) (d : Decision) (db : Db) (j u : String)
    → select_decision (seed_decision now i t d db).identities j u
      ≡ or_else
          (select_decision db.identities j u)
          (if i == j && t == u then some (as_str d) else none)
unfolding seed_decision set_decision
select-seed now i t d db j u = elim (Option-cases (select_decision db.identities i t)) [
  | inl fresh ↦
      rw (fresh, seed_decision, select-upsert now i t (as_str d) db.identities j u)
        (grind (same_texts, fresh))
  | inr (a, there) ↦ rw (there, seed_decision) (grind (same_texts, there))
]

pub select-forget_identity :
    (i : String) (rs : List IdentityRule) (j u : String)
    → select_decision (retain (λ r. not (r.identity == i)) rs) j u
      ≡ (if i == j then none else select_decision rs j u)
unfolding select_decision
select-forget_identity i [] j u = ground arith
select-forget_identity i (r ∷ rs) j u = grind (same_texts, select-forget_identity i rs j u)

pub select-forget_rule :
    (i t : String) (rs : List IdentityRule) (j u : String)
    → select_decision (retain (λ r. not (is_rule i t r)) rs) j u
      ≡ (if i == j && t == u then none else select_decision rs j u)
unfolding select_decision
select-forget_rule i t [] j u = ground arith
select-forget_rule i t (r ∷ rs) j u = grind (same_texts, select-forget_rule i t rs j u)
