-- ===== src/Mcp.antt =====
-- crates/gatehound-core/src/mcp.rs: one tool call, decided, run and logged, whoever made it; and
-- `Gateway::log` of crates/gatehound-core/src/lib.rs. A message is the constructor of its text.
pub mod Call
pub mod Permitted
pub mod Logged
pub mod Replies
pub mod Handler
pub mod Warranted
pub mod Listed
pub mod Answered
pub mod Hidden
use mcp_gatehound.Base.{
  ℕ, ◌+◌, ◌-◌, ◌*◌, ◌/◌, String, Bool, true, false, Option, some, none, List, [], ◌∷◌, Result, ok,
  err, find, ltb, if◌then◌else◌,
}
use mcp_gatehound.Json.{Value, get, as_bool}
use mcp_gatehound.Decision.{Decision, allow, deny, ask}
use mcp_gatehound.Decision
use mcp_gatehound.Config.{ToolConfig, tool, kind, upstream_of}
use mcp_gatehound.Store.{NewRequestLog, no_log, Conn}
use mcp_gatehound.Store.Requests.{log_request}
use mcp_gatehound.Policy.{Policy, resolve}
use mcp_gatehound.Redact.{for_log, truncate, log_bytes, preview_bytes}
use mcp_gatehound.Actions.Limits.{RateLimiter}
use mcp_gatehound.Actions.Dispatch.{CallError, Surroundings, World, dispatch}
use mcp_gatehound.Approval.{
  ApprovalQueue, Hold, Outcome, allowed, denied, timed_out, shutting_down, log_decision, error_code,
  hold_from, finish, wait_for, is_hold,
}
use mcp_gatehound.Approval.Steps.{Step}
use mcp_gatehound.Approval as Queue

-- Where a tool call came from.
pub data Origin : Type 0 where
  client : Origin
  debug : (replay_of : Option ℕ) → Origin

unfoldable pub label : Origin → Option String
label client = none
label (debug _) = some "debug"

unfoldable pub replay_of : Origin → Option ℕ
replay_of client = none
replay_of (debug n) = n

pub data Message : Type 0 where
  unknown_tool : (name : String) → Message
  not_permitted : (identity name : String) → Message
  deadline_left not_approved_within : (ms : ℕ) → Message
  gateway_down : Message
  action_failed : CallError → Message

pub record CallFailure : Type 0 where
  pub message : Message
  pub code : String

pub record CallOutcome : Type 0 where
  pub log_id : Option ℕ
  pub decision : String
  pub duration_ms : ℕ
  pub result : Result CallFailure Value

-- What a call uses of the gateway. The queue's connection is the store's.
pub record Gateway : Type 0 where
  pub tools : List ToolConfig
  pub call_deadline_secs : Option ℕ
  pub default : Decision
  pub queue : ApprovalQueue
  pub limits : String → Option RateLimiter
  pub now_ms : ℕ
  pub acts : ℕ

-- What meets one call: its fresh identifier, the time until the policy answered, what happens to the
-- queue while the call is held and when it looks at its channel, what surrounds its action, and the texts of messages.
pub record Course : Type 0 where
  pub id : String
  pub asked_ms : ℕ
  pub while_held : List (ℕ × Step)
  pub held_ms : ℕ
  pub around : Surroundings
  pub text : Message → String

-- What is called, by whom and from where.
pub record Request : Type 0 where
  pub identity : String
  pub token_id : Option String
  pub name : String
  pub args : Value
  pub origin : Origin

unfoldable pub log : NewRequestLog → Gateway → Option ℕ × Gateway
log entry g =
    if g.queue.conn.up
    then (let (id, db) = log_request (g.now_ms / 1000) entry g.queue.conn.db in
        (some id, record g { queue = record g.queue { conn = record g.queue.conn { db = db } } }))
    else (none, g)

unfoldable pub row : Course → Request → String → NewRequestLog
row c r decision = record no_log {
  identity = some r.identity;
  method = some "tools/call";
  tool = some r.name;
  args_json = some (for_log c.around.to_string r.args log_bytes);
  decision = some decision;
  token_id = r.token_id;
  origin = label r.origin;
  replay_of = replay_of r.origin;
}
