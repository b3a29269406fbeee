-- ===== src/Mcp/Listed.antt =====
-- What a client is shown against what it can make act: `tools/list` and `run_call`.
use mathlib.Core.Path.{subst}
use mcp_gatehound.Base.{
  String, Bool, true, false, not, some, List, [], ◌∷◌, ◌==◌, ◌≡◌, ◌≢◌, refl, sym, any, find, retain,
  arith, eq_iff, Bool-cases, inl, inr,
}
use mcp_gatehound.Decision.{Decision, allow, deny, ask}
use mcp_gatehound.Decision
use mcp_gatehound.Config.{ToolConfig, tool}
use mcp_gatehound.Policy.{Policy, resolve, visible_tools}
use mcp_gatehound.Mcp.{Gateway, Course, Request}
use mcp_gatehound.Mcp.Call.{run_call, policy_says}
use mcp_gatehound.Mcp.Permitted.{MayAct, by_policy, by_reading, by_human, may_act}

abbrev pub policy_of : Gateway → Policy
policy_of g = record { store = g.queue.conn; default = g.default }

-- A row that a search finds and a filter keeps is found among those kept.
any-retain-kept {ℓ} :
    {A : Type ℓ} (p q : A → Bool) (xs : List A) (x : A)
    → find p xs ≡ some x
    → q x ≡ true
    → any p (retain q xs) ≡ true
any-retain-kept p q [] x found kept = cc
any-retain-kept p q (y ∷ ys) x found kept = elim (Bool-cases (p y)) [
  | inl here ↦ let same : q y ≡ true = ground arith in rw (same, here) refl
  | inr there ↦ let rest = any-retain-kept p q ys x (ground arith) kept in ground arith
]

find_sound {ℓ} : {A : Type ℓ} (p : A → Bool) (xs : List A) (x : A) → find p xs ≡ some x → p x ≡ true
find_sound p [] x found = cc
find_sound p (y ∷ ys) x found = elim (Bool-cases (p y)) [
  | inl here ↦ ground arith
  | inr there ↦ find_sound p ys x (ground arith)
]

not_denied : (d : Decision) → d ≢ deny → not (Decision.eq d deny) ≡ true
not_denied allow ne = refl
not_denied ask ne = refl
not_denied deny ne = absurd (ne refl)

listed :
    (g : Gateway) (identity name : String) (t : ToolConfig)
    → tool g.tools name ≡ some t
    → policy_says g identity name ≢ deny
    → any (λ u. u.name == name) (visible_tools (policy_of g) identity g.tools) ≡ true
unfolding tool visible_tools
listed g identity name t found open' =
    let named : name ≡ t.name =
      sym ((eq_iff t.name name).0 (find_sound (λ u. u.name == name) g.tools t found)) in
    any-retain-kept (λ u. u.name == name)
      (λ u. not (Decision.eq (resolve (policy_of g) identity u.name) deny)) g.tools t found
      (subst (λ n. not (Decision.eq (resolve (policy_of g) identity n) deny) ≡ true) named
        (not_denied (resolve (policy_of g) identity name) open'))

-- A tool that is not in the list which a caller is shown does nothing when that caller calls it.
pub run_call-unlisted :
    (c : Course) (r : Request) (g : Gateway)
    → any (λ t. t.name == r.name) (visible_tools (policy_of g) r.identity g.tools) ≡ false
    → (run_call c r g).1.acts ≡ g.acts
run_call-unlisted c r g hidden = elim (may_act c r g) [
  | inr idle ↦ idle
  | inl may ↦ absurd (shown may)
]
  where
    clash :
        (t : ToolConfig) → tool g.tools r.name ≡ some t → policy_says g r.identity r.name ≢ deny → ⊥
    clash t found open' = let there = listed g r.identity r.name t found open' in ground arith

    shown : MayAct c r g → ⊥
    shown (by_policy t found o e) = clash t found (λ h. cc)
    shown (by_reading t n found o reads open') = clash t found open'
    shown (by_human t found open' human) = clash t found open'
