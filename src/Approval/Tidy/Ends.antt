-- ===== src/Approval/Tidy/Ends.antt =====
-- The end of a hold, and an answer given.
use mathlib.Core.Path.{subst}
use mcp_gatehound.Base.{
  ℕ, String, Bool, not, ◌&&◌, none, ◌∷◌, ◌==◌, ◌≡◌, refl, sym, ◌∙◌, arith, any, update_where, All,
  All-map, any-update, inl, inr, Bool-cases, Option-cases, ok, err, if◌then◌else◌,
}
use mcp_gatehound.Store.{Conn}
use mcp_gatehound.Store.Rules.{set_decision}
use mcp_gatehound.Store.Requests.{log_admin, log_request}
use mcp_gatehound.Store.Pending.{remove_pending}
use mcp_gatehound.Approval.{
  Hold, ApprovalQueue, pending_resolved, finish, resolve, is_hold, drop_id, write, remember_answer,
  wait_result, Resolution, persisted, log_decision, outcome_of, sent,
}
use mcp_gatehound.Approval.Steps.{cards}
use mcp_gatehound.Approval.Tidy.{IsHeld, IsTidy, All-kept, drop_held-IsTidy, same-IsHeld}

remember_answer-kept :
    (now : ℕ) (h : Hold) (r : Resolution) (c : Conn)
    → ((remember_answer now h r c).db.pending ≡ c.db.pending)
      × ((remember_answer now h r c).up ≡ c.up)
unfolding remember_answer set_decision log_admin log_request
remember_answer-kept now h r c = elim (Option-cases (if h.remember then persisted r else none)) [
  | inl quiet ↦ rw (quiet, remember_answer) (refl, refl)
  | inr (d, always) ↦ elim (Bool-cases c.up) [
    | inl on ↦ (ground arith, ground arith)
    | inr off ↦ (ground arith, ground arith)
  ]
]

pub finish-IsTidy :
    (now : ℕ) (expired : Bool) (h : Hold) (q : ApprovalQueue)
    → IsTidy q
    → IsTidy (finish now expired h q).1
unfolding finish
finish-IsTidy now expired h q v = elim (Option-cases (wait_result expired h.channel)) [
  | inl open' ↦ rw (open', finish) v
  | inr (ok r, got) ↦
      let kept = remember_answer-kept now h r q.conn in
      rw (got, finish)
        (drop_held-IsTidy h.id (log_decision (outcome_of r))
          (record q { conn = remember_answer now h r q.conn })
          (record {
            up = kept.1 ∙ v.up;
            rows = subst (All (λ p. IsHeld q.holds p.id)) (sym kept.0) v.rows;
            waiters = v.waiters;
            shown = v.shown;
          }))
  | inr (err outcome, got) ↦ rw (got, finish) (drop_held-IsTidy h.id (log_decision outcome) q v)
]

pub resolve-IsTidy :
    (id : String) (r : Resolution) (q : ApprovalQueue) → IsTidy q → IsTidy (resolve id r q).1
unfolding resolve remove_pending cards
resolve-IsTidy id r q v =
    let senders =
      All-kept (IsHeld q.holds) (IsHeld q.holds) (λ w. not (w == id)) q.waiters (λ w k e. e)
        v.waiters in
    elim (Bool-cases (any (λ w. w == id) q.waiters && any (is_hold id) q.holds)) [
      | inl there ↦
          let still =
            same-IsHeld (update_where (is_hold id) (λ h. record h { channel = sent r })) q.holds
              (λ j.
                any-update (is_hold j) (is_hold id) (λ h. record h { channel = sent r }) q.holds
                  (λ h. refl)) in
          rw (there, resolve)
            (record {
              up = v.up;
              rows = All-map _ _ q.conn.db.pending (λ p e. still p.id e) v.rows;
              waiters = All-map _ _ (drop_id id q.waiters) (λ w e. still w e) senders;
              shown = All-map _ _ (cards q.events) (λ w e. still w e) v.shown;
            })
      | inr gone ↦ rw (gone, resolve) (undelivered senders)
    ]
  where
    undelivered :
        All (IsHeld q.holds) (drop_id id q.waiters)
        → IsTidy (record q {
          waiters = drop_id id q.waiters;
          conn = write (remove_pending id) q.conn;
          events = pending_resolved id "gone" ∷ q.events;
        })
    undelivered senders = rw v.up (record {
      up = refl;
      rows =
          All-kept (λ p. IsHeld q.holds p.id) (λ p. IsHeld q.holds p.id) (λ p. not (p.id == id))
            q.conn.db.pending (λ p k e. e) v.rows;
      waiters = senders;
      shown =
          All-kept (IsHeld q.holds) (IsHeld q.holds) (λ w. not (w == id)) (cards q.events)
            (λ w k e. e) v.shown;
    })
