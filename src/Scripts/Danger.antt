-- ===== src/Scripts/Danger.antt =====
-- Which scripts a review calls dangerous.
use mcp_gatehound.Base.{
  ℕ, suc, String, len, Bool, true, false, not, ◌&&◌, ◌||◌, Option, some, none, List, [], ◌∷◌, ◌≡◌,
  refl, ap, ◌∙◌, any, all, find, leb, ltb, lines, trim, Bool-cases, inl, inr, arith, if◌then◌else◌,
}
use mcp_gatehound.Scripts.{Interpreter}
use mcp_gatehound.Scripts.Rules.{Severity, note, warn, danger, Rule, rules}
use mcp_gatehound.Scripts.Review.{
  Finding, hit, found_by, scan_line, scan_from, scan, worse, worst, is_danger, review_of,
  has_danger,
}

abbrev is_worst : Severity → Bool
is_worst danger = true
is_worst _ = false

-- A line that meets a rule of the worst severity, and is short enough to be read.
abbrev pub is_dangerous : String → Bool
is_dangerous line = leb (len line) 4000 && any (λ r. is_worst r.severity && hit line r) rules

is_danger-worse :
    (s : Severity) (o : Option Severity) → is_danger (worse s o) ≡ (is_worst s || is_danger o)
is_danger-worse note none = refl
is_danger-worse warn none = refl
is_danger-worse danger none = refl
is_danger-worse note (some note) = refl
is_danger-worse note (some warn) = refl
is_danger-worse note (some danger) = refl
is_danger-worse warn (some note) = refl
is_danger-worse warn (some warn) = refl
is_danger-worse warn (some danger) = refl
is_danger-worse danger (some s) = refl

-- The worst rules stand in front.
abbrev worst_first : List Rule → Bool
worst_first [] = true
worst_first (r ∷ rs) =
    let rest = worst_first rs in
    if is_worst r.severity then rest else all (λ q. not (is_worst q.severity)) rs

abbrev is_worst_rule : Option Rule → Bool
is_worst_rule none = false
is_worst_rule (some r) = is_worst r.severity

none_worst :
    (h : Rule → Bool) (rs : List Rule)
    → all (λ q. not (is_worst q.severity)) rs ≡ true
    → any (λ q. is_worst q.severity && h q) rs ≡ false
none_worst h [] mild = refl
none_worst h (r ∷ rs) mild = ground (arith, none_worst h rs)

mild-sorted :
    (rs : List Rule) → all (λ q. not (is_worst q.severity)) rs ≡ true → worst_first rs ≡ true
mild-sorted [] mild = refl
mild-sorted (r ∷ rs) mild = ground (arith, mild-sorted rs)

first_is_worst :
    (h : Rule → Bool) (rs : List Rule)
    → worst_first rs ≡ true
    → is_worst_rule (find h rs) ≡ any (λ r. is_worst r.severity && h r) rs
first_is_worst h [] sorted = refl
first_is_worst h (r ∷ rs) sorted =
    ground (arith, none_worst h rs, first_is_worst h rs, mild-sorted rs)

found_by-danger :
    (n : ℕ) (line : String) (o : Option Rule) (rest : List Finding)
    → is_danger (worst (found_by n line o rest)) ≡ (is_worst_rule o || is_danger (worst rest))
found_by-danger n line none rest = refl
found_by-danger n line (some r) rest = is_danger-worse r.severity (worst rest)

rules-sorted : worst_first rules ≡ true
unfolding rules
rules-sorted = refl

scan_line-danger :
    (n : ℕ) (line : String) (rest : List Finding)
    → is_danger (worst (scan_line n line rest)) ≡ (is_dangerous line || is_danger (worst rest))
scan_line-danger n line rest = elim (Bool-cases (ltb 4000 (len line))) [
  | inl long ↦
      let short : leb (len line) 4000 ≡ false = ground arith in
      rw (long, short) (is_danger-worse warn (worst rest))
  | inr short ↦
      let fits : leb (len line) 4000 ≡ true = ground arith in
      rw (short, fits)
        (found_by-danger n line (find (hit line) rules) rest
          ∙ ap (λ b. b || is_danger (worst rest)) (first_is_worst (hit line) rules rules-sorted))
]

scan_from-danger :
    (n : ℕ) (body : List String)
    → is_danger (worst (scan_from n body)) ≡ any (λ raw. is_dangerous (trim raw)) body
scan_from-danger n [] = refl
scan_from-danger n (raw ∷ more) =
    scan_line-danger n (trim raw) (scan_from (suc n) more)
    ∙ ap (λ b. is_dangerous (trim raw) || b) (scan_from-danger (suc n) more)

-- A review calls a script dangerous exactly when one of its lines, of 4000 bytes at most, meets a rule
-- of the worst severity: no milder rule that the line meets as well hides it.
pub has_danger-review :
    (digest : List ℕ → String) (name : String) (i : Interpreter) (body : String)
    → has_danger (review_of digest name i body) ≡ any (λ raw. is_dangerous (trim raw)) (lines body)
unfolding has_danger review_of scan
has_danger-review digest name i body = scan_from-danger 1 (lines body)
