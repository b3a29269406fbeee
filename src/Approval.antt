-- ===== src/Approval.antt =====
-- crates/gatehound-core/src/approval.rs, with the events of crates/gatehound-core/src/events.rs:
-- holding a call while a human decides. Held calls wait side by side: each is an entry of the queue's
-- state with its end of the channel, and a step of the queue is what happens to it between two waits.
-- Durations are milliseconds.
pub mod Steps
pub mod Outcomes
pub mod Tidy
pub mod Stays
pub mod Approved
use mcp_gatehound.Base.{
  ℕ, ◌*◌, min, max, String, Bool, true, false, not, ◌&&◌, Option, some, none, List, [], ◌∷◌, ◌++◌,
  ◌+++◌, ◌==◌, any, find, retain, update_where, map, is_some, eqb, if◌then◌else◌, Result, ok, err,
}
use mcp_gatehound.Decision.{Decision, allow, deny}
use mcp_gatehound.Decision as Decisions
use mcp_gatehound.Store.Pending.{list_pending}
use mcp_gatehound.Store.{StoreError, query, Db, Conn, PendingRow}
use mcp_gatehound.Store.Rules.{set_decision}
use mcp_gatehound.Store.Pending.{add_pending, remove_pending, clear_pending}
use mcp_gatehound.Store.Requests.{log_admin}

-- What the human clicked.
pub data Resolution : Type 0 where
  allow_once allow_always reject reject_always : Resolution

unfoldable pub allows : Resolution → Bool
allows allow_once = true
allows allow_always = true
allows _ = false

unfoldable pub persisted : Resolution → Option Decision
persisted allow_always = some allow
persisted reject_always = some deny
persisted _ = none

unfoldable pub as_str : Resolution → String
as_str allow_once = "allow_once"
as_str allow_always = "allow_always"
as_str reject = "reject"
as_str reject_always = "reject_always"

pub data Outcome : Type 0 where
  allowed denied timed_out shutting_down : Outcome

unfoldable pub log_decision : Outcome → String
log_decision allowed = "ask→allowed"
log_decision denied = "ask→denied"
log_decision timed_out = "timeout"
log_decision shutting_down = "shutdown"

unfoldable pub error_code : Outcome → String
error_code denied = "approval_denied"
error_code timed_out = "approval_timeout"
error_code shutting_down = "gateway_shutting_down"
error_code allowed = ""

pub data Event : Type 0 where
  pending_added : PendingRow → Event
  pending_resolved : (id outcome : String) → Event

-- The waiting call's end of its channel.
pub data Channel : Type 0 where
  waiting : Channel
  sent : Resolution → Channel
  sender_gone : Channel

pub record Hold : Type 0 where
  pub id : String
  pub identity : String
  pub tool : String
  pub remember : Bool
  pub channel : Channel

-- `waiters` are the ids whose sender is in the map, `events` what was emitted, the newest first.
pub record ApprovalQueue : Type 0 where
  pub conn : Conn
  pub timeout : ℕ
  pub waiters : List String
  pub holds : List Hold
  pub events : List Event

unfoldable pub new : Conn → ℕ → ApprovalQueue
new store timeout_secs = record {
  conn = store;
  timeout = min 90 (max 5 timeout_secs) * 1000;
  waiters = [];
  holds = [];
  events = [];
}

unfoldable pub wait_for : Option ℕ → ApprovalQueue → ℕ
wait_for none q = q.timeout
wait_for (some within) q = min within q.timeout

-- A write, where the database takes it.
abbrev pub write : (Db → Db) → Conn → Conn
write f c = if c.up then record c { db = f c.db } else c

abbrev pub emit : Event → ApprovalQueue → ApprovalQueue
emit e q = record q { events = e ∷ q.events }

abbrev pub is_hold : String → Hold → Bool
is_hold id h = h.id == id

abbrev pub drop_id : String → List String → List String
drop_id id = retain (λ w. not (w == id))

-- `hold_from` up to the wait: the outcome where there is none. `id` is the fresh identifier.
unfoldable pub hold_from :
    ℕ
    → String
    → String
    → String
    → String
    → Option String
    → Option ℕ
    → ApprovalQueue
    → Option Outcome × ApprovalQueue
hold_from now id identity tool preview origin within q =
    if eqb (wait_for within q) 0
    then (some timed_out, q)
    else if not q.conn.up
    then (some denied, q)
    else elim (add_pending now id identity tool preview origin q.conn.db) [
      | err e ↦ (some denied, q)
      | ok db ↦
          let row : PendingRow = record {
            id = id;
            ts = now;
            identity = identity;
            tool = tool;
            args_preview = some preview;
            origin = origin;
          } in
          let held : Hold = record {
            id = id;
            identity = identity;
            tool = tool;
            remember = not (is_some origin);
            channel = waiting;
          } in
          (
            none,
            record q {
              conn = record q.conn { db = db };
              waiters = id ∷ drop_id id q.waiters;
              holds = held ∷ q.holds;
              events = pending_added row ∷ q.events;
            },
          )
    ]

-- `hold`: a client's call without a deadline of its own.
abbrev pub hold :
    ℕ → String → String → String → String → ApprovalQueue → Option Outcome × ApprovalQueue
hold now id identity tool preview q = hold_from now id identity tool preview none none q

abbrev pub list : ApprovalQueue → Result StoreError (List PendingRow)
list q = query q.conn list_pending

-- `Drop for Held`: the waiter, the row and the card go, however the hold ended.
unfoldable pub drop_held : String → String → ApprovalQueue → ApprovalQueue
drop_held id outcome q = record q {
  conn = write (remove_pending id) q.conn;
  waiters = drop_id id q.waiters;
  holds = retain (λ h. not (is_hold id h)) q.holds;
  events = pending_resolved id outcome ∷ q.events;
}

abbrev pub rule_detail : Hold → Decision → String
rule_detail h d =
    "answered a held call: "
    +++ (h.identity
        +++ (" may " +++ (Decisions.as_str d +++ (" " +++ (h.tool +++ " from now on")))))

-- The rule that an answer writes, and its entry in the log.
unfoldable pub remember_answer : ℕ → Hold → Resolution → Conn → Conn
remember_answer now h r c = elim (if h.remember then persisted r else none) [
  | none ↦ c
  | some d ↦
      write (λ db. (log_admin now "identity.rule" (some h.identity) (rule_detail h d) db).1)
        (write (set_decision now h.identity h.tool d) c)
]

-- How a wait ends: the answer first, then a sender that is gone, then the timeout.
abbrev pub wait_result : Bool → Channel → Option (Result Outcome Resolution)
wait_result expired (sent r) = some (ok r)
wait_result expired sender_gone = some (err shutting_down)
wait_result true waiting = some (err timed_out)
wait_result false waiting = none

abbrev pub outcome_of : Resolution → Outcome
outcome_of r = if allows r then allowed else denied

-- `hold_from` behind the wait, none while it goes on.
unfoldable pub finish : ℕ → Bool → Hold → ApprovalQueue → Option Outcome × ApprovalQueue
finish now expired h q = elim (wait_result expired h.channel) [
  | none ↦ (none, q)
  | some (err outcome) ↦ (some outcome, drop_held h.id (log_decision outcome) q)
  | some (ok r) ↦ (
    some (outcome_of r),
    drop_held h.id (log_decision (outcome_of r))
        (record q { conn = remember_answer now h r q.conn }),
  )
]

-- `resolve`: whether the answer was delivered.
unfoldable pub resolve : String → Resolution → ApprovalQueue → Bool × ApprovalQueue
resolve id r q =
    let taken = record q { waiters = drop_id id q.waiters } in
    if any (λ w. w == id) q.waiters && any (is_hold id) q.holds
    then (
      true,
      record taken {
        holds = update_where (is_hold id) (λ h. record h { channel = sent r }) q.holds;
      },
    )
    else (
      false,
      emit (pending_resolved id "gone") (record taken { conn = write (remove_pending id) q.conn }),
    )

abbrev pub hang_up : List String → Hold → Hold
hang_up waiters h = if any (λ w. w == h.id) waiters then record h { channel = sender_gone } else h

unfoldable pub cancel_all : ApprovalQueue → ApprovalQueue
cancel_all q = record q {
  waiters = [];
  holds = map (hang_up q.waiters) q.holds;
  conn = write (λ db. (clear_pending db).1) q.conn;
}
