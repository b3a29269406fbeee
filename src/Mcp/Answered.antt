-- ===== src/Mcp/Answered.antt =====
-- The outcome of a call.
use mathlib.Core.Path.{subst}
use mcp_gatehound.Base.{
  ℕ, ◌/◌, String, true, Option, some, none, ◌∷◌, ◌≡◌, refl, ◌∙◌, arith, all, is_some, is_some-find,
  Option-cases, ok, err, inl, inr,
}
use mcp_gatehound.Config.{ToolConfig, tool}
use mcp_gatehound.Decision.{Decision, allow, deny, ask}
use mcp_gatehound.Approval.{
  ApprovalQueue, Hold, Outcome, allowed, denied, timed_out, shutting_down, finish, is_hold,
  wait_result, Channel, waiting, sent, sender_gone,
}
use mcp_gatehound.Approval.Steps
use mcp_gatehound.Approval.Tidy.{IsHeld, IsHeld-first}
use mcp_gatehound.Approval.Stays.{spares, Begun, hold_from-Begun, run-IsHeld}
use mcp_gatehound.Base.{leb, Bool, min, ◌≤◌, find, ◌+◌}
use mcp_gatehound.Approval.{wait_for}
use mcp_gatehound.Mcp.Permitted.{at_policy}
use mcp_gatehound.Mcp.{Gateway, Course, Request, CallOutcome}
use mcp_gatehound.Mcp.Call.{
  unknown, fail, let_through, held, woken, parked, within_of, behind_hold, decided, run_call,
}

abbrev Comes : Option CallOutcome × Gateway → Type 0
Comes r = is_some r.0 ≡ true

let_through-Comes :
    (c : Course) (r : Request) (t : ToolConfig) (started : ℕ) (d : String) (g : Gateway)
    → Comes (let_through c r t started d g)
unfolding let_through fail
let_through-Comes c r t started d g = ground arith

over : (ch : Channel) → is_some (wait_result true ch) ≡ true
over waiting = refl
over (sent r) = refl
over sender_gone = refl

finish-some : (now : ℕ) (h : Hold) (q : ApprovalQueue) → is_some (finish now true h q).0 ≡ true
unfolding finish
finish-some now h q = elim (Option-cases (wait_result true h.channel)) [
  | inl open' ↦ cc (over h.channel)
  | inr (ok a, got) ↦ rw (got, finish) refl
  | inr (err outcome, got) ↦ rw (got, finish) refl
]

-- A wait that is over has an outcome.
woken-some :
    (later : ℕ) (expired : Bool) (g : Gateway) (q : ApprovalQueue) (o : Option Hold)
    → expired ≡ true
    → is_some o ≡ true
    → is_some (woken later expired g q o).0 ≡ true
woken-some later expired g q none over' there = there
woken-some later expired g q (some h) over' there = rw over' (finish-some (later / 1000) h q)

parked-some :
    (c : Course) (wait : ℕ) (g : Gateway) (q : ApprovalQueue) (h : Hold)
    (r : Option Outcome × ApprovalQueue)
    → Begun q h r
    → h.id ≡ c.id
    → leb wait c.held_ms ≡ true
    → all (spares c.id) c.while_held ≡ true
    → is_some (parked c wait g r).0 ≡ true
parked-some c wait g q h (some outcome, q') begun same late stays = refl
parked-some c wait g q h (none, q') more same late stays =
    let held' : IsHeld q'.holds c.id =
      rw more (subst (IsHeld (h ∷ q.holds)) same (IsHeld-first h q.holds)) in
    woken-some _ _ g (Steps.run c.while_held q') _ late (
      is_some-find (is_hold c.id) (Steps.run c.while_held q').holds
      ∙ run-IsHeld c.id c.while_held q' stays held')

-- The call looks at its channel no earlier than its wait is over: the queue's timeout, or what its own
-- deadline leaves.
abbrev pub Waits : Course → Request → Gateway → Type 0
Waits c r g = leb (wait_for (within_of c g r.origin) g.queue) c.held_ms ≡ true

held-some :
    (c : Course) (r : Request) (g : Gateway)
    → Waits c r g
    → all (spares c.id) c.while_held ≡ true
    → is_some (held c r g).0 ≡ true
unfolding held
held-some c r g late stays =
    parked-some c _ g g.queue _ _ (hold_from-Begun _ c.id _ _ _ _ _ g.queue) refl late stays

behind_hold-Comes :
    (c : Course) (r : Request) (t : ToolConfig) (started : ℕ) (within : Option ℕ)
    (h : Option Outcome × Gateway)
    → is_some h.0 ≡ true
    → Comes (behind_hold c r t started within h)
unfolding fail
behind_hold-Comes c r t started within (none, g) there = cc
behind_hold-Comes c r t started within (some allowed, g) there = let_through-Comes c r t started _ g
behind_hold-Comes c r t started within (some denied, g) there = refl
behind_hold-Comes c r t started within (some timed_out, g) there = refl
behind_hold-Comes c r t started within (some shutting_down, g) there = refl

woken-now :
    (later : ℕ) (expired : Bool) (g : Gateway) (q : ApprovalQueue) (o : Option Hold)
    → (woken later expired g q o).1.now_ms ≡ later
woken-now later expired g q none = refl
woken-now later expired g q (some h) = refl

parked-now :
    (c : Course) (wait : ℕ) (g : Gateway) (p : Option Outcome × ApprovalQueue)
    → (parked c wait g p).1.now_ms ≤ g.now_ms + wait
parked-now c wait g (some outcome, q) = omega arith
parked-now c wait g (none, q) =
    let now =
      woken-now (g.now_ms + min wait c.held_ms) (leb wait c.held_ms) g (Steps.run c.while_held q)
        (find (is_hold c.id) (Steps.run c.while_held q).holds) in
    rw now (omega arith)

-- A hold is over when the wait is.
held-now :
    (c : Course) (r : Request) (g : Gateway)
    → (held c r g).1.now_ms ≤ g.now_ms + wait_for (within_of c g r.origin) g.queue
unfolding held
held-now c r g = parked-now c _ g _

decided-Comes :
    (c : Course) (r : Request) (t : ToolConfig) (started : ℕ) (d : Decision × String) (g : Gateway)
    → Waits c r g
    → all (spares c.id) c.while_held ≡ true
    → Comes (decided c r t started d g)
unfolding fail
decided-Comes c r t started (allow, d) g late stays = let_through-Comes c r t started d g
decided-Comes c r t started (deny, d) g late stays = refl
decided-Comes c r t started (ask, d) g late stays =
    behind_hold-Comes c r t started (within_of c g r.origin) (held c r g)
      (held-some c r g late stays)

comes :
    (c : Course) (r : Request) (g : Gateway)
    → Waits c r (at_policy c g)
    → all (spares c.id) c.while_held ≡ true
    → is_some (run_call c r g).0 ≡ true
unfolding unknown run_call
comes c r g late stays = elim (Option-cases (tool g.tools r.name)) [
  | inl gone ↦ rw (gone, run_call) refl
  | inr (t, there) ↦ rw (there, run_call) (decided-Comes c r t g.now_ms _ _ late stays)
]

-- A call that looks at its channel when its wait is over (the queue's timeout, or what its own deadline
-- leaves) comes to an outcome, whatever the policy says and whatever happens to the queue while it is
-- held, as long as its own caller does not hang up and no look of its own came before; and no hold goes on
-- behind the end of its wait. An action is taken to return.
pub run_call-Comes :
    (c : Course) (r : Request) (g : Gateway)
    → Waits c r (at_policy c g)
    → all (spares c.id) c.while_held ≡ true
    → (is_some (run_call c r g).0 ≡ true)
      × ((held c r (at_policy c g)).1.now_ms
          ≤ g.now_ms + c.asked_ms + wait_for (within_of c (at_policy c g) r.origin) g.queue)
run_call-Comes c r g late stays = (comes c r g late stays, held-now c r (at_policy c g))
