-- ===== src/Approval/Outcomes.antt =====
-- How long a call may be held, and which rules an answer writes.
use mcp_gatehound.Base.{
  ℕ, ◌≤◌, Bool, true, Option, some, none, List, ◌≡◌, refl, ◌∙◌, arith, if◌then◌else◌, Bool-cases,
  inl, inr,
}
use mcp_gatehound.Decision.{Decision, allow, deny}
use mcp_gatehound.Store.{Db, Conn, IdentityRule}
use mcp_gatehound.Store.Rules.{set_decision}
use mcp_gatehound.Store.Requests.{log_admin, log_request}
use mcp_gatehound.Store.Pending.{remove_pending}
use mathlib.Core.Path.{subst}
use mcp_gatehound.Base.{String, same_texts, find, is_some, sym, ap, ◌∷◌}
use mcp_gatehound.Approval.{is_hold, hold_from}
use mcp_gatehound.Approval.Stays.{Begun, held_as, hold_from-Begun}
use mcp_gatehound.Approval.{
  Resolution, allow_once, allow_always, reject, reject_always, persisted, Channel, waiting, sent,
  sender_gone, Hold, ApprovalQueue, new, wait_for, finish, remember_answer, drop_held, write,
}

-- Whatever timeout is configured, a call is held for at most 90 seconds, and for no longer than its own
-- deadline; a call without one is held for at least 5 seconds.
pub wait_for_bounded :
    (c : Conn) (secs : ℕ) (within : Option ℕ) (deadline : ℕ)
    → (wait_for within (new c secs) ≤ 90000)
      × (wait_for (some deadline) (new c secs) ≤ deadline)
      × (5000 ≤ wait_for none (new c secs))
unfolding wait_for new
wait_for_bounded c secs none deadline = (omega arith, omega arith, omega arith)
wait_for_bounded c secs (some w) deadline = (omega arith, omega arith, omega arith)

-- What an answer asks to be remembered.
abbrev pub asked : Channel → Option Decision
asked (sent allow_always) = some allow
asked (sent reject_always) = some deny
asked _ = none

abbrev pub rules_after : ℕ → (identity tool : String) → Db → Option Decision → List IdentityRule
rules_after now identity tool db none = db.identities
rules_after now identity tool db (some d) = (set_decision now identity tool d db).identities

remember-identities :
    (now : ℕ) (h : Hold) (r : Resolution) (c : Conn)
    → c.up ≡ true
    → (remember_answer now h r c).db.identities
      ≡ rules_after now h.identity h.tool c.db (if h.remember then asked (sent r) else none)
unfolding remember_answer persisted log_admin log_request set_decision
remember-identities now h allow_once c up = ground arith
remember-identities now h allow_always c up = ground arith
remember-identities now h reject c up = ground arith
remember-identities now h reject_always c up = ground arith

-- What the end of a hold writes, by what its channel holds and whether it remembers.
pub finish-identities :
    (now : ℕ) (expired : Bool) (h : Hold) (q : ApprovalQueue)
    → q.conn.up ≡ true
    → (finish now expired h q).1.conn.db.identities
      ≡ rules_after now h.identity h.tool q.conn.db (if h.remember then asked h.channel else none)
unfolding finish drop_held remove_pending
finish-identities now expired h q up = by_channel h.channel refl
  where
    kept :
        (f : Db → Db) (c : Conn)
        → ((db : Db) → (f db).identities ≡ db.identities)
        → (write f c).db.identities ≡ c.db.identities
    kept f c e = ground (arith, e c.db)

    by_channel :
        (ch : Channel)
        → h.channel ≡ ch
        → (finish now expired h q).1.conn.db.identities
          ≡ rules_after now h.identity h.tool q.conn.db
              (if h.remember then asked h.channel else none)
    by_channel waiting e = elim (Bool-cases expired) [
      | inl over ↦ ground (arith, kept (remove_pending h.id) q.conn (λ db. refl))
      | inr early ↦ ground arith
    ]
    by_channel sender_gone e = ground (arith, kept (remove_pending h.id) q.conn (λ db. refl))
    by_channel (sent r) e =
        rw (e, finish)
          (kept (remove_pending h.id) (remember_answer now h r q.conn) (λ db. refl)
            ∙ remember-identities now h r q.conn up)

-- The hold that a call gets.
hold_from-held_as :
    (now : ℕ) (id identity tool preview : String) (origin : Option String) (within : Option ℕ)
    (q q1 : ApprovalQueue) (h : Hold)
    → hold_from now id identity tool preview origin within q ≡ (none, q1)
    → find (is_hold id) q1.holds ≡ some h
    → h ≡ held_as id identity tool origin
hold_from-held_as now id identity tool preview origin within q q1 h begun there =
    let more : q1.holds ≡ held_as id identity tool origin ∷ q.holds =
      subst (Begun q (held_as id identity tool origin)) begun
        (hold_from-Begun now id identity tool preview origin within q) in
    let first : find (is_hold id) (held_as id identity tool origin ∷ q.holds) ≡ some h =
      ap (find (is_hold id)) (sym more) ∙ there in
    grind same_texts

-- Where a call comes to be held, the end of its wait changes the policy only where an answer that says
-- "always" is in its channel and the call has no origin, as a client's has none and one fired by hand has
-- one; then it writes the rule of that call's own client and tool, and no other. A timeout, a shutdown
-- and a one-off answer write none. The database is taken to answer at the end of the wait.
pub hold_from-finish :
    (now : ℕ) (id identity tool preview : String) (origin : Option String) (within : Option ℕ)
    (q q1 : ApprovalQueue) (h : Hold) (later : ℕ) (expired : Bool) (ch : Channel)
    (q2 : ApprovalQueue)
    → hold_from now id identity tool preview origin within q ≡ (none, q1)
    → find (is_hold id) q1.holds ≡ some h
    → q2.conn.up ≡ true
    → (finish later expired (record h { channel = ch }) q2).1.conn.db.identities
      ≡ rules_after later identity tool q2.conn.db (if is_some origin then none else asked ch)
hold_from-finish now id identity tool preview origin within q q1 h later expired ch q2 begun there
      up =
    let same = hold_from-held_as now id identity tool preview origin within q q1 h begun there in
    subst
      (λ x.
        (finish later expired (record x { channel = ch }) q2).1.conn.db.identities
        ≡ rules_after later identity tool q2.conn.db (if is_some origin then none else asked ch))
      (sym same) (by_origin origin)
  where
    by_origin :
        (o : Option String)
        → (finish later expired
            (record (held_as id identity tool o) { channel = ch })
            q2).1.conn.db.identities
          ≡ rules_after later identity tool q2.conn.db (if is_some o then none else asked ch)
    by_origin none =
        finish-identities later expired (record (held_as id identity tool none) { channel = ch }) q2
          up
    by_origin (some s) =
        finish-identities later expired
          (record (held_as id identity tool (some s)) { channel = ch }) q2 up
