-- ===== src/Mcp/Call.antt =====
-- crates/gatehound-core/src/mcp.rs: `run_call`, its branches and the hold between them.
use mcp_gatehound.Base.{
  ℕ, ◌+◌, ◌-◌, ◌*◌, ◌/◌, String, Bool, Option, some, none, Result, ok, err, find, ltb, leb, min,
  if◌then◌else◌,
}
use mcp_gatehound.Json.{Value, get, as_bool}
use mcp_gatehound.Decision.{Decision, allow, deny, ask}
use mcp_gatehound.Decision
use mcp_gatehound.Config.{ToolConfig, tool, kind, upstream_of}
use mcp_gatehound.Policy.{resolve}
use mcp_gatehound.Redact.{for_log, truncate, log_bytes, preview_bytes}
use mcp_gatehound.Actions.Dispatch.{World, dispatch}
use mcp_gatehound.Approval.{
  ApprovalQueue, Hold, Outcome, allowed, denied, timed_out, log_decision, error_code, hold_from,
  finish, wait_for, is_hold,
}
use mcp_gatehound.Approval.Steps.{Step}
use mcp_gatehound.Approval.Steps
use mcp_gatehound.Mcp.{
  CallFailure, CallOutcome, Course, Gateway, Message, Origin, Request, action_failed, client,
  deadline_left, debug, gateway_down, label, log, not_approved_within, not_permitted, row,
  unknown_tool,
}

abbrev pub ended :
    ℕ → String → Result CallFailure Value → Option ℕ × Gateway → Option CallOutcome × Gateway
ended started decision result (log_id, g) = (
  some (record {
    log_id = log_id;
    decision = decision;
    duration_ms = g.now_ms - started;
    result = result;
  }),
  g,
)

unfoldable pub unknown : Course → Request → ℕ → Gateway → Option CallOutcome × Gateway
unknown c r started g =
    ended started "unknown_tool"
      (err (record { message = unknown_tool r.name; code = "unknown_tool" }))
      (log
        (record (row c r "unknown_tool") {
          status = some "error";
          error = some "unknown tool";
          duration_ms = some (g.now_ms - started);
        })
        g)

-- `fail`
unfoldable pub fail :
    Course
    → Request
    → ToolConfig
    → ℕ
    → String
    → Message
    → String
    → Gateway
    → Option CallOutcome × Gateway
fail c r t started decision message code g =
    ended started decision (err (record { message = message; code = code })) (
      log
        (record (row c r decision) {
          action_type = some (kind t.action);
          upstream = upstream_of t.action;
          status = some "error";
          error = some (truncate (c.text message) log_bytes);
          duration_ms = some (g.now_ms - started);
        })
        g)

abbrev pub world_of : Gateway → World
world_of g = record { conn = g.queue.conn; limits = g.limits; now_ms = g.now_ms; acts = g.acts }

abbrev pub with_world : World → Gateway → Gateway
with_world w g = record g {
  queue = record g.queue { conn = w.conn };
  limits = w.limits;
  now_ms = w.now_ms;
  acts = w.acts;
}

abbrev flag_of : Option Value → Option Bool
flag_of none = none
flag_of (some v) = as_bool v

-- The call is let through: act, and log what came of it.
unfoldable pub let_through :
    Course → Request → ToolConfig → ℕ → String → Gateway → Option CallOutcome × Gateway
let_through c r t started decision g =
    let (result, w) = dispatch c.around t r.args (world_of g) in
    let g' = with_world w g in
    elim result [
      | err e ↦ fail c r t started decision (action_failed e) "action_failed" g'
      | ok payload ↦ ended started decision (ok payload) (
          log
            (record (row c r decision) {
              action_type = some (kind t.action);
              upstream = upstream_of t.action;
              status = some "ok";
              duration_ms = some (g'.now_ms - started);
              response_json = some (for_log c.around.to_string payload log_bytes);
              replayed = flag_of (get "duplicate" payload);
            })
            g')
    ]

-- What the policy says, and what of it holds for a call fired by hand: a read-only tool runs unless it
-- is denied, any other is a fresh question.
unfoldable pub adjusted : Origin → ToolConfig → Decision → Decision × String
adjusted client t d = (d, Decision.as_str d)
adjusted (debug n) t deny = (deny, Decision.as_str deny)
adjusted (debug n) t d = if t.read_only then (allow, "read-only") else (ask, Decision.as_str d)

abbrev pub policy_says : Gateway → String → String → Decision
policy_says g identity name =
    resolve (record { store = g.queue.conn; default = g.default }) identity name

-- How long a client's call may be held: its deadline, less a second to send the answer.
unfoldable pub within_of : Course → Gateway → Origin → Option ℕ
within_of c g (debug n) = none
within_of c g client = elim g.call_deadline_secs [
  | none ↦ none
  | some secs ↦ some (secs * 1000 - 1000 - c.asked_ms)
]

-- What the hold came to when its call looks, with its wait over or not: none where the hold is gone, or goes
-- on.
abbrev pub woken : ℕ → Bool → Gateway → ApprovalQueue → Option Hold → Option Outcome × Gateway
woken later expired g q none = (none, record g { queue = q; now_ms = later })
woken later expired g q (some h) =
    let (outcome, q') = finish (later / 1000) expired h q in
    (outcome, record g { queue = q'; now_ms = later })

-- `timeout(wait, rx)`: the call looks when the course says, at the end of its wait at the latest.
abbrev pub parked : Course → ℕ → Gateway → Option Outcome × ApprovalQueue → Option Outcome × Gateway
parked c wait g (some outcome, q) = (some outcome, record g { queue = q })
parked c wait g (none, q) =
    let q' = Steps.run c.while_held q in
    woken (g.now_ms + min wait c.held_ms) (leb wait c.held_ms) g q' (find (is_hold c.id) q'.holds)

-- A held call, from the card to its outcome; none where its caller hung up or it is still held.
unfoldable pub held : Course → Request → Gateway → Option Outcome × Gateway
held c r g =
    let preview = for_log c.around.to_string r.args preview_bytes in
    parked c (wait_for (within_of c g r.origin) g.queue) g (
      hold_from (g.now_ms / 1000) c.id r.identity r.name preview (label r.origin)
        (within_of c g r.origin) g.queue)

unfoldable pub refusal : Request → Outcome → (waited full : ℕ) → Message
refusal r denied waited full = not_permitted r.identity r.name
refusal r timed_out waited full =
    if ltb waited full then deadline_left waited else not_approved_within full
refusal r _ waited full = gateway_down

abbrev pub behind_hold :
    Course
    → Request
    → ToolConfig
    → ℕ
    → Option ℕ
    → Option Outcome × Gateway
    → Option CallOutcome × Gateway
behind_hold c r t started within (none, g) = (none, g)
behind_hold c r t started within (some allowed, g) =
    let_through c r t started (log_decision allowed) g
behind_hold c r t started within (some other, g) =
    fail c r t started (log_decision other)
      (refusal r other (wait_for within g.queue) (wait_for none g.queue)) (error_code other) g

abbrev pub decided :
    Course → Request → ToolConfig → ℕ → Decision × String → Gateway → Option CallOutcome × Gateway
decided c r t started (allow, decision) g = let_through c r t started decision g
decided c r t started (deny, decision) g =
    fail c r t started decision (not_permitted r.identity r.name) "not_permitted" g
decided c r t started (ask, decision) g =
    behind_hold c r t started (within_of c g r.origin) (held c r g)

-- The outcome, none where the caller hung up or the call is still held, and the gateway behind the call.
unfoldable pub run_call : Course → Request → Gateway → Option CallOutcome × Gateway
run_call c r g = elim (tool g.tools r.name) [
  | none ↦ unknown c r g.now_ms g
  | some t ↦
      decided c r t g.now_ms (adjusted r.origin t (policy_says g r.identity r.name))
        (record g { now_ms = g.now_ms + c.asked_ms })
]
