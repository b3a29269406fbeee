-- ===== src/Mcp/Permitted.antt =====
-- What it takes for a call to act.
use mathlib.Core.Path.{subst}
use mcp_gatehound.Base.{
  ℕ, ◌+◌, String, Bool, true, false, Option, some, none, ◌≡◌, ◌≢◌, refl, sym, ap, ◌∙◌, arith,
  Option-cases, Bool-cases, inl, inr, ◌⊎◌,
}
use mcp_gatehound.Decision.{Decision, allow, deny, ask}
use mcp_gatehound.Decision
use mcp_gatehound.Config.{ToolConfig, tool}
use mcp_gatehound.Store.{NewRequestLog}
use mcp_gatehound.Base.{any, ◌/◌, same_texts}
use mcp_gatehound.Approval.Steps
use mcp_gatehound.Approval.Stays.{Begun, held_as, hold_from-Begun}
use mcp_gatehound.Approval.Approved.{says_yes, holds_yes, has_yes-find, run-no, finish-refused}
use mcp_gatehound.Approval.{Outcome, allowed, denied, timed_out, shutting_down, ApprovalQueue, Hold}
use mcp_gatehound.Mcp.{Origin, client, debug, label, Message, Gateway, Course, Request, log}
use mcp_gatehound.Mcp.Call.{
  unknown, fail, adjusted, policy_says, held, woken, parked, within_of, behind_hold, decided,
  run_call,
}

abbrev pub at_policy : Course → Gateway → Gateway
at_policy c g = record g { now_ms = g.now_ms + c.asked_ms }

-- A call may act where the policy allows it to a client; where it is fired by hand, the tool is read-only
-- and the policy does not deny it; or where the policy does not deny it and an approval is given to this very call while it is held.
pub data MayAct (c : Course) (r : Request) (g : Gateway) : Type 0 where
  by_policy :
      (t : ToolConfig)
      → tool g.tools r.name ≡ some t
      → r.origin ≡ client
      → policy_says g r.identity r.name ≡ allow
      → MayAct c r g
  by_reading :
      (t : ToolConfig) (n : Option ℕ)
      → tool g.tools r.name ≡ some t
      → r.origin ≡ debug n
      → t.read_only ≡ true
      → policy_says g r.identity r.name ≢ deny
      → MayAct c r g
  by_human :
      (t : ToolConfig)
      → tool g.tools r.name ≡ some t
      → policy_says g r.identity r.name ≢ deny
      → any (says_yes c.id) c.while_held ≡ true
      → MayAct c r g

pub log-acts : (entry : NewRequestLog) (g : Gateway) → (log entry g).1.acts ≡ g.acts
unfolding log
log-acts entry g = elim (Bool-cases g.queue.conn.up) [
  | inl up ↦ rw (up, log) refl
  | inr down ↦ rw (down, log) refl
]

unknown-acts :
    (c : Course) (r : Request) (started : ℕ) (g : Gateway) → (unknown c r started g).1.acts ≡ g.acts
unfolding unknown
unknown-acts c r started g = log-acts _ g

fail-acts :
    (c : Course) (r : Request) (t : ToolConfig) (started : ℕ) (d : String) (m : Message)
    (code : String) (g : Gateway)
    → (fail c r t started d m code g).1.acts ≡ g.acts
unfolding fail
fail-acts c r t started d m code g = log-acts _ g

woken-acts :
    (later : ℕ) (expired : Bool) (g : Gateway) (q : ApprovalQueue) (h : Option Hold)
    → (woken later expired g q h).1.acts ≡ g.acts
woken-acts later expired g q none = refl
woken-acts later expired g q (some h) = refl

parked-acts :
    (c : Course) (wait : ℕ) (g : Gateway) (p : Option Outcome × ApprovalQueue)
    → (parked c wait g p).1.acts ≡ g.acts
parked-acts c wait g (some outcome, q) = refl
parked-acts c wait g (none, q) = woken-acts _ _ g _ _

held-acts : (c : Course) (r : Request) (g : Gateway) → (held c r g).1.acts ≡ g.acts
unfolding held
held-acts c r g = parked-acts c _ g _

woken-refused :
    (later : ℕ) (expired : Bool) (g : Gateway) (q : ApprovalQueue) (o : Option Hold)
    → ((h : Hold) → o ≡ some h → holds_yes h.channel ≡ false)
    → (woken later expired g q o).0 ≢ some allowed
woken-refused later expired g q none no' e = cc
woken-refused later expired g q (some h) no' e =
    finish-refused (later / 1000) expired h q (no' h refl) e

parked-refused :
    (c : Course) (wait : ℕ) (g : Gateway) (identity name : String) (origin : Option String)
    (p : Option Outcome × ApprovalQueue)
    → Begun g.queue (held_as c.id identity name origin) p
    → any (says_yes c.id) c.while_held ≡ false
    → (parked c wait g p).0 ≢ some allowed
parked-refused c wait g identity name origin (some outcome, q) (refused, same) quiet =
    λ e. refused cc
parked-refused c wait g identity name origin (none, q) more quiet =
    let q' = Steps.run c.while_held q in
    woken-refused _ _ g q' _ (λ h there.
      has_yes-find c.id q'.holds h there
        (run-no c.id c.while_held q quiet (rw more (grind same_texts))))

-- Leave to act is an approval that was given to the held call.
held-yes :
    (c : Course) (r : Request) (g : Gateway)
    → (held c r g).0 ≡ some allowed
    → any (says_yes c.id) c.while_held ≡ true
unfolding held
held-yes c r g leave = elim (Bool-cases (any (says_yes c.id) c.while_held)) [
  | inl yes' ↦ yes'
  | inr quiet ↦ absurd (
      parked-refused c _ g r.identity r.name (label r.origin) _
        (hold_from-Begun _ c.id _ _ _ _ _ g.queue) quiet leave)
]

behind_hold-acts :
    (c : Course) (r : Request) (t : ToolConfig) (started : ℕ) (w : Option ℕ)
    (p : Option Outcome × Gateway)
    → (p.0 ≡ some allowed) ⊎ ((behind_hold c r t started w p).1.acts ≡ p.1.acts)
behind_hold-acts c r t started w (none, g) = inr refl
behind_hold-acts c r t started w (some allowed, g) = inl refl
behind_hold-acts c r t started w (some denied, g) = inr (fail-acts c r t started _ _ _ g)
behind_hold-acts c r t started w (some timed_out, g) = inr (fail-acts c r t started _ _ _ g)
behind_hold-acts c r t started w (some shutting_down, g) = inr (fail-acts c r t started _ _ _ g)

module _ (c : Course) (r : Request) (g : Gateway) (t : ToolConfig)
    (found : tool g.tools r.name ≡ some t) where
  asked :
      (d : String)
      → policy_says g r.identity r.name ≢ deny
      → MayAct c r g ⊎ ((decided c r t g.now_ms (ask, d) (at_policy c g)).1.acts ≡ g.acts)
  asked d open' =
      let h = held c r (at_policy c g) in
      elim (behind_hold-acts c r t g.now_ms (within_of c (at_policy c g) r.origin) h) [
        | inl human ↦ inl (by_human t found open' (held-yes c r (at_policy c g) human))
        | inr idle ↦ inr (idle ∙ held-acts c r (at_policy c g))
      ]

  refused : (d : String) → (decided c r t g.now_ms (deny, d) (at_policy c g)).1.acts ≡ g.acts
  refused d = fail-acts c r t g.now_ms d _ _ (at_policy c g)

  by_origin :
      (o : Origin) (d : Decision)
      → r.origin ≡ o
      → policy_says g r.identity r.name ≡ d
      → MayAct c r g ⊎ ((decided c r t g.now_ms (adjusted o t d) (at_policy c g)).1.acts ≡ g.acts)
  unfolding adjusted
  by_origin client allow o e = inl (by_policy t found o e)
  by_origin client deny o e = inr (refused _)
  by_origin client ask o e = asked (Decision.as_str ask) (λ h. cc)
  by_origin (debug n) deny o e = inr (refused _)
  by_origin (debug n) allow o e = elim (Bool-cases t.read_only) [
    | inl reads ↦ inl (by_reading t n found o reads (λ h. cc))
    | inr writes ↦
        let fresh : adjusted (debug n) t allow ≡ (ask, Decision.as_str allow) = ground arith in
        subst (λ p. MayAct c r g ⊎ ((decided c r t g.now_ms p (at_policy c g)).1.acts ≡ g.acts))
          (sym fresh) (asked (Decision.as_str allow) (λ h. cc))
  ]
  by_origin (debug n) ask o e = elim (Bool-cases t.read_only) [
    | inl reads ↦ inl (by_reading t n found o reads (λ h. cc))
    | inr writes ↦
        let fresh : adjusted (debug n) t ask ≡ (ask, Decision.as_str ask) = ground arith in
        subst (λ p. MayAct c r g ⊎ ((decided c r t g.now_ms p (at_policy c g)).1.acts ≡ g.acts))
          (sym fresh) (asked (Decision.as_str ask) (λ h. cc))
  ]

pub may_act :
    (c : Course) (r : Request) (g : Gateway) → MayAct c r g ⊎ ((run_call c r g).1.acts ≡ g.acts)
unfolding run_call
may_act c r g = elim (Option-cases (tool g.tools r.name)) [
  | inl missing ↦ inr (rw (missing, run_call) (unknown-acts c r g.now_ms g))
  | inr (t, found) ↦
      rw (found, run_call)
        (by_origin c r g t found r.origin (policy_says g r.identity r.name) refl refl)
]

-- A call that acts was permitted: the policy allows it to the client, or it was fired by hand at a
-- read-only tool, or an "allow once" or "allow always" was given to this very call while it was held; and
-- never against a denial.
pub run_call-MayAct :
    (c : Course) (r : Request) (g : Gateway) → (run_call c r g).1.acts ≢ g.acts → MayAct c r g
run_call-MayAct c r g acted = elim (may_act c r g) [
  | inl fine ↦ fine
  | inr idle ↦ absurd (acted idle)
]

-- A tool that is not read-only acts, when fired by hand, only where an approval was given to this very
-- call, whatever rule stands in the policy.
pub run_call_by_hand :
    (c : Course) (r : Request) (g : Gateway) (t : ToolConfig) (n : Option ℕ)
    → r.origin ≡ debug n
    → tool g.tools r.name ≡ some t
    → t.read_only ≡ false
    → (run_call c r g).1.acts ≢ g.acts
    → any (says_yes c.id) c.while_held ≡ true
run_call_by_hand c r g t n hand found writes acted = elim (run_call-MayAct c r g acted) [
  | by_policy u there o e ↦ cc
  | by_reading u m there o reads open' ↦
      let same : u ≡ t = cc in
      let bad : true ≡ false = sym reads ∙ (ap (λ (x : ToolConfig). x.read_only) same ∙ writes) in
      cc
  | by_human u there open' human ↦ human
]
