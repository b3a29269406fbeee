-- ===== src/Mcp/Logged.antt =====
-- What a call leaves in the log.
use mcp_gatehound.Base.{◌/◌, suc, false, Option, some, none, List, [], ◌∷◌, ◌++◌, ◌≡◌, ok, err}
use mcp_gatehound.Decision.{Decision}
use mcp_gatehound.Config.{tool}
use mcp_gatehound.Store.{NewRequestLog, RequestLog}
use mcp_gatehound.Mcp.{label, CallOutcome, Gateway, Request}

-- The last row of the log is this call's: who called which tool, by which token, and what decided it,
-- and it is the row that the outcome names. Where no row could be written the outcome names none.
pub data IsLogged (r : Request) (out : CallOutcome) (g : Gateway) : Type 0 where
  written :
      (before : List RequestLog) (entry : RequestLog)
      → g.queue.conn.db.requests ≡ before ++ entry ∷ []
      → out.log_id ≡ some entry.id
      → entry.identity ≡ some r.identity
      → entry.tool ≡ some r.name
      → entry.token_id ≡ r.token_id
      → entry.origin ≡ label r.origin
      → entry.decision ≡ some out.decision
      → entry.status ≡ some (elim out.result [ ok v ↦ "ok" | err e ↦ "error" ])
      → IsLogged r out g
  not_written : g.queue.conn.up ≡ false → out.log_id ≡ none → IsLogged r out g

-- A call that came to an outcome, or one whose caller hung up.
pub data Ends (r : Request) : Option CallOutcome × Gateway → Type 0 where
  hung_up : (g : Gateway) → Ends r (none, g)
  logged : (out : CallOutcome) (g : Gateway) → IsLogged r out g → Ends r (some out, g)

abbrev new_row : NewRequestLog → Gateway → RequestLog
new_row entry g = record {
  id = suc g.queue.conn.db.last_request;
  ts = g.now_ms / 1000;
  entry = entry;
}

abbrev with_row : NewRequestLog → Gateway → Gateway
with_row entry g = record g {
  queue = record g.queue {
    conn = record g.queue.conn {
      db = record g.queue.conn.db {
        requests = g.queue.conn.db.requests ++ new_row entry g ∷ [];
        last_request = suc g.queue.conn.db.last_request;
      };
    };
  };
}
