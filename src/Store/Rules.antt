-- ===== src/Store/Rules.antt =====
-- crates/gatehound-core/src/store.rs: the identity policy, one row for each (identity, tool).
pub mod Lookup
pub mod Rename
use mcp_gatehound.Base.{
  ℕ, String, Bool, true, false, not, Option, some, none, List, [], ◌∷◌, ◌++◌, ◌+++◌, ◌==◌, ◌&&◌,
  find, retain, update_where, count_where, map, filter_map, eqb, ltb, if◌then◌else◌, or_else,
  length, any,
}
use Prim.Native.Nat.{Ordering}
use Prim.Native.String.{compare}
use mcp_gatehound.Decision.{Decision, as_str, parse}
use mcp_gatehound.Store.{IdentityRule, Db}

-- The order of SQLite's BINARY collation: `compare` on texts orders like the bytes of their UTF-8.
abbrev pub str_before : String → String → Bool
str_before a b = elim (compare a b) [ Ordering.gt ↦ false | _ ↦ true ]

abbrev pub is_rule : String → String → IdentityRule → Bool
is_rule identity tool r = r.identity == identity && r.tool == tool

-- `SELECT decision FROM identities WHERE identity = ?1 AND tool = ?2`
unfoldable pub select_decision : List IdentityRule → String → String → Option String
select_decision [] identity tool = none
select_decision (r ∷ rs) identity tool =
    if is_rule identity tool r then some r.decision else select_decision rs identity tool

abbrev pub and_then {ℓ κ} : {A : Type ℓ} {B : Type κ} → Option A → (A → Option B) → Option B
and_then none f = none
and_then (some a) f = f a

-- Exact `(identity, tool)` wins, then `(identity, "*")`, then nothing.
unfoldable pub decision_for : Db → String → String → Option Decision
decision_for db identity tool =
    or_else (and_then (select_decision db.identities identity tool) parse)
      (and_then (select_decision db.identities identity "*") parse)

-- `INSERT INTO identities … ON CONFLICT(identity, tool) DO UPDATE SET decision, updated_at`
unfoldable pub upsert_rule : ℕ → String → String → String → List IdentityRule → List IdentityRule
upsert_rule now identity tool decision [] =
    record {
      identity = identity;
      tool = tool;
      decision = decision;
      created_at = now;
      updated_at = now;
    }
    ∷ []
upsert_rule now identity tool decision (r ∷ rs) =
    if is_rule identity tool r
    then record r { decision = decision; updated_at = now } ∷ rs
    else r ∷ upsert_rule now identity tool decision rs

unfoldable pub set_decision : ℕ → String → String → Decision → Db → Db
set_decision now identity tool decision db = record db {
  identities = upsert_rule now identity tool (as_str decision) db.identities;
}

-- `INSERT OR IGNORE`
unfoldable pub seed_decision : ℕ → String → String → Decision → Db → Db
seed_decision now identity tool decision db = elim (select_decision db.identities identity tool) [
  | some _ ↦ db
  | none ↦ set_decision now identity tool decision db
]

abbrev pub arrow : String → String → String
arrow a b = a +++ (" → " +++ b)

-- What renaming a tool did to the rules that referred to it.
pub record RenamedRules : Type 0 where
  pub moved : List String
  pub kept : List String

-- The variables of `rename_tool_rules`: the table and the two reports.
pub record Renaming : Type 0 where
  pub rules : List IdentityRule
  pub report : RenamedRules

-- `SELECT identity, decision FROM identities WHERE tool = ?1`
unfoldable pub rules_of_tool : String → List IdentityRule → List (String × String)
rules_of_tool tool [] = []
rules_of_tool tool (r ∷ rs) =
    if r.tool == tool
    then (r.identity, r.decision) ∷ rules_of_tool tool rs
    else rules_of_tool tool rs

-- `UPDATE identities SET tool = ?1, updated_at = ?2 WHERE identity = ?3 AND tool = ?4`
unfoldable pub move_rule : ℕ → String → String → String → List IdentityRule → List IdentityRule
move_rule now from to identity =
    update_where (is_rule identity from) (λ r. record r { tool = to; updated_at = now })

-- One round of the loop of `rename_tool_rules`.
unfoldable pub rename_row : ℕ → String → String → String × String → Renaming → Renaming
rename_row now from to (identity, decision) s =
    if ltb 0 (count_where (is_rule identity to) s.rules)
    then record s {
      report = record s.report { kept = s.report.kept ++ arrow identity decision ∷ [] };
    }
    else record s {
      rules = move_rule now from to identity s.rules;
      report = record s.report { moved = s.report.moved ++ arrow identity decision ∷ [] };
    }

unfoldable pub rename_rows : ℕ → String → String → List (String × String) → Renaming → Renaming
rename_rows now from to [] s = s
rename_rows now from to (row ∷ rows) s = rename_rows now from to rows (rename_row now from to row s)

-- `DELETE FROM identities WHERE tool = ?1`
unfoldable pub drop_tool : String → List IdentityRule → List IdentityRule
drop_tool tool = retain (λ r. not (r.tool == tool))

unfoldable pub rename_tool_rules : ℕ → String → String → Db → RenamedRules × Db
rename_tool_rules now from to db =
    let start : Renaming = record {
      rules = db.identities;
      report = record { moved = []; kept = [] };
    } in
    let done = rename_rows now from to (rules_of_tool from db.identities) start in
    (done.report, record db { identities = drop_tool from done.rules })

-- The reports of `forget_identity` and `forget_tool`.
unfoldable pub forget_identity : String → Db → List String × Db
forget_identity identity db = (
  filter_map (λ r. if r.identity == identity then some (arrow r.tool r.decision) else none)
      db.identities,
  record db { identities = retain (λ r. not (r.identity == identity)) db.identities },
)

unfoldable pub forget_tool : String → Db → List String × Db
forget_tool tool db = (
  map (λ p. arrow p.0 p.1) (rules_of_tool tool db.identities),
  record db { identities = drop_tool tool db.identities },
)

-- The number of rows that went.
unfoldable pub forget_decision : String → String → Db → ℕ × Db
forget_decision identity tool db = (
  count_where (is_rule identity tool) db.identities,
  record db { identities = retain (λ r. not (is_rule identity tool r)) db.identities },
)

-- `SELECT DISTINCT identity FROM identities`
abbrev distinct_identities : List IdentityRule → List String
distinct_identities [] = []
distinct_identities (r ∷ rs) =
    let rest = distinct_identities rs in
    if any (λ s. s == r.identity) rest then rest else r.identity ∷ rest

unfoldable pub identities_with_rules : Db → List String
identities_with_rules db = distinct_identities db.identities
