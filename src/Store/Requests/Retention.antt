-- ===== src/Store/Requests/Retention.antt =====
-- Retention as a rule on one row, and `prune` as that rule on every row.
use mcp_gatehound.Base.{
  ℕ, suc, ◌-◌, ◌*◌, Bool, not, Option, some, none, List, [], ◌∷◌, ◌&&◌, ◌||◌, ◌≡◌, refl, arith,
  retain, update_where, ltb, eqb, true, false, Bool-cases, inl, inr, zero, ◌∙◌, is_some,
  if◌then◌else◌,
}
use mcp_gatehound.Store.{RequestLog, Db}
use mcp_gatehound.Store.Requests.{prune, is_admin, is_stale, blank, day_secs}

-- What is left of a row after `days` days of retention: the operator's rows stay as they are, a row
-- past four times the limit goes, and one past the limit loses its bodies.
pub age : ℕ → ℕ → RequestLog → Option RequestLog
age now days r =
    if is_admin r
    then some r
    else if ltb r.ts (now - days * 4 * day_secs)
    then none
    else if ltb r.ts (now - days * day_secs)
    then some (blank r)
    else some r

keep_row : Option RequestLog → List RequestLog → List RequestLog
keep_row none rs = rs
keep_row (some r) rs = r ∷ rs

pub age_rows : ℕ → ℕ → List RequestLog → List RequestLog
age_rows now days [] = []
age_rows now days (r ∷ rs) = keep_row (age now days r) (age_rows now days rs)

has_body : RequestLog → Bool
has_body r = is_some r.args_json || is_some r.response_json

-- The two statements of `prune` on a table, by cutoffs, and on one row.
two_statements : ℕ → ℕ → List RequestLog → List RequestLog
two_statements cutoff hard rs =
    retain (λ r. not (is_stale hard r))
      (update_where (λ r. is_stale cutoff r && has_body r) blank rs)

first_statement : ℕ → RequestLog → RequestLog
first_statement cutoff r = if is_stale cutoff r && has_body r then blank r else r

one_row : ℕ → ℕ → RequestLog → Option RequestLog
one_row cutoff hard r =
    let r' = first_statement cutoff r in if is_stale hard r' then none else some r'

-- A row with no body is its own blanked form.
first_statement-stale :
    (cutoff : ℕ) (r : RequestLog) → is_stale cutoff r ≡ true → first_statement cutoff r ≡ blank r
unfolding first_statement has_body
first_statement-stale cutoff r h = elim (Bool-cases (has_body r)) [
  | inl full ↦ rw (h, full)
  | inr bare ↦ rw (h, bare) (ground arith)
]

first_statement-fresh :
    (cutoff : ℕ) (r : RequestLog) → is_stale cutoff r ≡ false → first_statement cutoff r ≡ r
unfolding first_statement
first_statement-fresh cutoff r h = rw h

is_stale-first_statement :
    (cutoff hard : ℕ) (r : RequestLog) → is_stale hard (first_statement cutoff r) ≡ is_stale hard r
unfolding first_statement
is_stale-first_statement cutoff hard r = elim (Bool-cases (is_stale cutoff r && has_body r)) [
  | inl t ↦ rw t
  | inr f ↦ rw f
]

one_row-eq :
    (now days : ℕ) (r : RequestLog)
    → one_row (now - days * day_secs) (now - days * 4 * day_secs) r ≡ age now days r
unfolding one_row age
one_row-eq now days r = elim (Bool-cases (is_admin r)) [
  | inl mine ↦ ground (arith, first_statement-fresh (now - days * day_secs) r)
  | inr theirs ↦ elim (Bool-cases (is_stale (now - days * day_secs) r)) [
    | inl old ↦ rw (first_statement-stale _ r old) (ground arith)
    | inr new ↦ rw (first_statement-fresh _ r new) (ground arith)
  ]
]

two_statements-cons :
    (cutoff hard : ℕ) (r : RequestLog) (rs : List RequestLog)
    → two_statements cutoff hard (r ∷ rs)
      ≡ keep_row (one_row cutoff hard r) (two_statements cutoff hard rs)
unfolding two_statements one_row first_statement keep_row
two_statements-cons cutoff hard r rs =
    elim (Bool-cases (is_stale hard (first_statement cutoff r))) [ inl t ↦ rw t | inr f ↦ rw f ]

two_statements-eq :
    (now days : ℕ) (rs : List RequestLog)
    → two_statements (now - days * day_secs) (now - days * 4 * day_secs) rs ≡ age_rows now days rs
unfolding age_rows
two_statements-eq now days [] = unfold two_statements in refl
two_statements-eq now days (r ∷ rs) =
    two_statements-cons (now - days * day_secs) (now - days * 4 * day_secs) r rs
    ∙ rw (one_row-eq now days r, two_statements-eq now days rs)

-- Retention is one rule on each row: the two statements together leave each of the operator's rows
-- as it was, drop a call past four times the limit, blank the bodies of one past the limit, and
-- leave any other alone. A limit of zero days turns it off.
pub requests-prune :
    (now days : ℕ) (db : Db)
    → (prune now days db).1.requests
      ≡ (if eqb days 0 then db.requests else age_rows now days db.requests)
unfolding prune
requests-prune now zero db = refl
requests-prune now (suc days) db =
    let e : eqb (suc days) 0 ≡ false = ground arith in
    rw e (unfold two_statements has_body in two_statements-eq now (suc days) db.requests)
