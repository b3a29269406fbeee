-- ===== src/Store/Requests.antt =====
-- crates/gatehound-core/src/store.rs: the request log and its retention.
pub mod Retention
use mcp_gatehound.Base.{
  ℕ, zero, suc, ◌+◌, ◌-◌, ◌*◌, String, Bool, true, false, not, Option, some, none, List, [], ◌∷◌,
  ◌++◌, ◌==◌, ◌&&◌, ◌||◌, find, take, retain, update_where, count_where, sort_by, eqb, ltb, leb,
  is_some, if◌then◌else◌, ◌+++◌,
}
use mcp_gatehound.Store.{RequestLog, NewRequestLog, no_log, Db}

-- The row's id, `last_insert_rowid()`.
unfoldable pub log_request : ℕ → NewRequestLog → Db → ℕ × Db
log_request now r db =
    let row : RequestLog = record { id = suc db.last_request; ts = now; entry = r } in
    (
      suc db.last_request,
      record db { requests = db.requests ++ row ∷ []; last_request = suc db.last_request },
    )

-- `ORDER BY id DESC LIMIT ?1`
abbrev newest : ℕ → List RequestLog → List RequestLog
newest limit rs = take limit (sort_by (λ a b. leb b.id a.id) rs)

unfoldable pub recent_requests : ℕ → Db → List RequestLog
recent_requests limit db = newest limit db.requests

-- `action_type IS 'admin'`
abbrev pub is_admin : RequestLog → Bool
is_admin r = elim r.action_type [ none ↦ false | some a ↦ a == "admin" ]

unfoldable pub recent_calls : ℕ → Db → List RequestLog
recent_calls limit db = newest limit (retain (λ r. not (is_admin r)) db.requests)

unfoldable pub get_request : ℕ → Db → Option RequestLog
get_request id db = find (λ r. eqb r.id id) db.requests

abbrev pub day_secs : ℕ
day_secs = 86400

abbrev pub blank : RequestLog → RequestLog
blank r = record r { entry = record r.entry { args_json = none; response_json = none } }

abbrev pub is_stale : ℕ → RequestLog → Bool
is_stale cutoff r = ltb r.ts cutoff && not (is_admin r)

-- The rows touched. No row is older than the epoch, so a cutoff before it selects none.
unfoldable pub prune : ℕ → ℕ → Db → ℕ × Db
prune now zero db = (0, db)
prune now (suc days) db =
    let cutoff = now - suc days * day_secs in
    let has_body = λ (r : RequestLog). is_some r.args_json || is_some r.response_json in
    let blanked = count_where (λ r. is_stale cutoff r && has_body r) db.requests in
    let rows = update_where (λ r. is_stale cutoff r && has_body r) blank db.requests in
    let hard_cutoff = now - suc days * 4 * day_secs in
    (
      blanked + count_where (is_stale hard_cutoff) rows,
      record db { requests = retain (λ r. not (is_stale hard_cutoff r)) rows },
    )

unfoldable pub log_admin : ℕ → String → Option String → String → Db → ℕ × Db
log_admin now action identity detail = log_request now (record no_log {
  identity = identity;
  client_name = some "you";
  method = some ("admin/" +++ action);
  action_type = some "admin";
  status = some "ok";
  response_json = some detail;
})
