-- ===== src/Store/Rules/Rename.antt =====
-- `rename_tool_rules`: the loop, and what it leaves of the policy.
use mcp_gatehound.Base.{
  same_texts, ℕ, String, Bool, Option, none, List, [], ◌∷◌, ◌==◌, ◌≡◌, ◌≢◌, refl, ◌∙◌, arith,
  eq_iff, inl, inr, if◌then◌else◌, or_else, is_some, any, Bool-cases, length, length-append, ◌+◌,
}
use mcp_gatehound.Store.{IdentityRule, Db}
use mcp_gatehound.Store.Rules.{
  select_decision, decision_for, rules_of_tool, Renaming, rename_row, rename_rows,
  rename_tool_rules, arrow,
}
use mcp_gatehound.Store.Rules.Lookup.{
  select-drop_tool, select-move_rule_other, select-move_rule_old, select-move_rule_new,
  select-move_rule_rest, count-select,
}

abbrev named : String → List (String × String) → Bool
named j = any (λ row. row.0 == j)

module _ (now : ℕ) (from to : String) where
  abbrev at : Renaming → String → String → Option String
  at s j u = select_decision s.rules j u

  row_other :
      (i d : String) (s : Renaming) (j u : String)
      → i ≢ j
      → at (rename_row now from to (i, d) s) j u ≡ at s j u
  unfolding rename_row
  row_other i d s j u ne = ground (arith, select-move_rule_other now from to i s.rules j u ne)

  row_rest :
      (i d : String) (s : Renaming) (u : String)
      → u ≢ from
      → u ≢ to
      → at (rename_row now from to (i, d) s) i u ≡ at s i u
  unfolding rename_row
  row_rest i d s u nf nt = ground (arith, select-move_rule_rest now from to i s.rules u nf nt)

  row_new :
      (i d : String) (s : Renaming)
      → at (rename_row now from to (i, d) s) i to ≡ or_else (at s i to) (at s i from)
  unfolding rename_row
  row_new i d s =
      ground (arith, select-move_rule_new now from to i s.rules, count-select i to s.rules)

  row_old :
      (i d : String) (s : Renaming)
      → from ≢ to
      → at (rename_row now from to (i, d) s) i from
        ≡ (if is_some (at s i to) then at s i from else none)
  unfolding rename_row
  row_old i d s ne =
      ground (arith, select-move_rule_old now from to i s.rules ne, count-select i to s.rules)

  rows_rest :
      (rows : List (String × String)) (s : Renaming) (j u : String)
      → u ≢ from
      → u ≢ to
      → at (rename_rows now from to rows s) j u ≡ at s j u
  unfolding rename_rows
  rows_rest [] s j u nf nt = refl
  rows_rest ((i, d) ∷ rows) s j u nf nt = elim (Bool-cases (i == j)) [
    | inl same ↦
        rows_rest rows (rename_row now from to (i, d) s) j u nf nt
        ∙ grind (same_texts, row_rest i d s u nf nt)
    | inr other ↦
        rows_rest rows (rename_row now from to (i, d) s) j u nf nt
        ∙ row_other i d s j u (grind same_texts)
  ]

  rows_new :
      (rows : List (String × String)) (s : Renaming) (j : String)
      → from ≢ to
      → at (rename_rows now from to rows s) j to
        ≡ or_else (at s j to) (if named j rows then at s j from else none)
  unfolding rename_rows
  rows_new [] s j ne = ground arith
  rows_new ((i, d) ∷ rows) s j ne = elim (Bool-cases (i == j)) [
    | inl same ↦ grind (
      same_texts,
      rows_new rows (rename_row now from to (i, d) s) j ne,
      row_new i d s,
      row_old i d s ne,
    )
    | inr other ↦ grind (
      same_texts,
      rows_new rows (rename_row now from to (i, d) s) j ne,
      row_other i d s j to,
      row_other i d s j from,
    )
  ]

  rows_total :
      (rows : List (String × String)) (s : Renaming)
      → length (rename_rows now from to rows s).report.moved
          + length (rename_rows now from to rows s).report.kept
        ≡ length s.report.moved + length s.report.kept + length rows
  unfolding rename_rows rename_row
  rows_total [] s = omega arith
  rows_total ((i, d) ∷ rows) s = ground (
    arith,
    rows_total rows (rename_row now from to (i, d) s),
    length-append s.report.moved (arrow i d ∷ []),
    length-append s.report.kept (arrow i d ∷ []),
  )

named-rules_of_tool :
    (tool j : String) (rs : List IdentityRule)
    → named j (rules_of_tool tool rs) ≡ is_some (select_decision rs j tool)
unfolding rules_of_tool select_decision
named-rules_of_tool tool j [] = refl
named-rules_of_tool tool j (r ∷ rs) = ground (arith, named-rules_of_tool tool j rs)

-- Renaming a tool to a different name moves each client's rule to the new name unless the client
-- already has one there, which wins; it leaves nothing under the old name, and no other rule
-- changes.
pub select-rename :
    (now : ℕ) (from to : String) (db : Db) (j u : String)
    → from ≢ to
    → select_decision (rename_tool_rules now from to db).1.identities j u ≡ (
        if u == from
        then none
        else if u == to
        then or_else (select_decision db.identities j to) (select_decision db.identities j from)
        else select_decision db.identities j u)
unfolding rename_tool_rules
select-rename now from to db j u ne =
    select-drop_tool from _ j u
    ∙ grind (
      same_texts,
      rows_new now from to (rules_of_tool from db.identities) start j ne,
      rows_rest now from to (rules_of_tool from db.identities) start j u,
      named-rules_of_tool from j db.identities,
    )
  where
    start : Renaming
    start = record { rules = db.identities; report = record { moved = []; kept = [] } }

-- Renamed to itself, a tool loses its rules.
pub select-rename_same :
    (now : ℕ) (tool : String) (db : Db) (j u : String)
    → select_decision (rename_tool_rules now tool tool db).1.identities j u
      ≡ (if u == tool then none else select_decision db.identities j u)
unfolding rename_tool_rules
select-rename_same now tool db j u =
    select-drop_tool tool _ j u
    ∙ ground (
      arith,
      eq_iff u tool,
      rows_rest now tool tool (rules_of_tool tool db.identities)
          (record { rules = db.identities; report = record { moved = []; kept = [] } }) j u,
    )

-- A client with no rule under the new name keeps exactly the access that it had under the old one,
-- where the names differ and neither is "*".
pub decision_for-rename :
    (now : ℕ) (from to : String) (db : Db) (j : String)
    → from ≢ to
    → from ≢ "*"
    → to ≢ "*"
    → select_decision db.identities j to ≡ none
    → decision_for (rename_tool_rules now from to db).1 j to ≡ decision_for db j from
unfolding decision_for
decision_for-rename now from to db j ne nf nt h =
    grind (same_texts, select-rename now from to db j to ne, select-rename now from to db j "*" ne)
