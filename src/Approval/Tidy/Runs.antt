-- ===== src/Approval/Tidy/Runs.antt =====
-- The queue over any order of steps.
use mathlib.Core.Path.{subst}
use mcp_gatehound.Base.{
  ℕ, String, true, false, not, ◌&&◌, List, [], ◌∷◌, ◌==◌, ◌≡◌, refl, sym, arith, any, find, retain,
  map, All, All-map, inl, inr, Bool-cases, Option-cases,
}
use mcp_gatehound.Store.{Conn, PendingRow}
use mcp_gatehound.Store.Pending.{remove_pending, clear_pending}
use mcp_gatehound.Approval.{
  ApprovalQueue, new, resolve, cancel_all, is_hold, drop_id, hang_up, Resolution,
}
use mcp_gatehound.Approval.Steps.{
  Step, holds_call, looks, hangs_up, answers, shuts_down, step, run, cards,
}
use mcp_gatehound.Approval.Tidy.{IsHeld, IsTidy, drop_held-IsTidy, same-IsHeld, any-hang_up}
use mcp_gatehound.Approval.Tidy.Adds.{hold_from-IsTidy}
use mcp_gatehound.Approval.Tidy.Ends.{finish-IsTidy, resolve-IsTidy}

cancel_all-IsTidy : (q : ApprovalQueue) → IsTidy q → IsTidy (cancel_all q)
unfolding cancel_all clear_pending
cancel_all-IsTidy q v =
    let still = same-IsHeld (map (hang_up q.waiters)) q.holds (any-hang_up q.waiters q.holds) in
    rw (v.up, cancel_all)
      (record {
        up = refl;
        rows = tt;
        waiters = tt;
        shown = All-map _ _ (cards q.events) (λ w e. still w e) v.shown;
      })

step-IsTidy : (s : ℕ × Step) (q : ApprovalQueue) → IsTidy q → IsTidy (step s q)
unfolding step
step-IsTidy (now, holds_call id identity tool preview origin within) q v =
    elim (Bool-cases (any (is_hold id) q.holds)) [
      | inl taken ↦ rw (taken, step) v
      | inr fresh ↦
          rw (fresh, step) (hold_from-IsTidy now id identity tool preview origin within q v)
    ]
step-IsTidy (now, looks id expired) q v = elim (Option-cases (find (is_hold id) q.holds)) [
  | inl gone ↦ rw (gone, step) v
  | inr (h, there) ↦ rw (there, step) (finish-IsTidy now expired h q v)
]
step-IsTidy (now, hangs_up id) q v = elim (Bool-cases (any (is_hold id) q.holds)) [
  | inl there ↦ rw (there, step) (drop_held-IsTidy id "cancelled" q v)
  | inr gone ↦ rw (gone, step) v
]
step-IsTidy (now, answers id r) q v = resolve-IsTidy id r q v
step-IsTidy (now, shuts_down) q v = cancel_all-IsTidy q v

run-IsTidy : (steps : List (ℕ × Step)) (q : ApprovalQueue) → IsTidy q → IsTidy (run steps q)
unfolding run
run-IsTidy [] q v = v
run-IsTidy (s ∷ steps) q v = run-IsTidy steps (step s q) (step-IsTidy s q v)

none_held : (ids : List String) → All (IsHeld []) ids → ids ≡ []
none_held [] h = refl
none_held (id ∷ ids) (e, h) = cc

no_rows : (rows : List PendingRow) → All (λ p. IsHeld [] p.id) rows → rows ≡ []
no_rows [] h = refl
no_rows (p ∷ rows) (e, h) = cc

-- In whatever order calls are held, answered, given up, timed out and shut down, each row of the
-- pending table, each waiter and each card on screen is that of a call that is still held, where the
-- table was empty at the start and the database answers.
pub run-new-IsTidy :
    (c : Conn) (secs : ℕ) (steps : List (ℕ × Step))
    → c.up ≡ true
    → c.db.pending ≡ []
    → IsTidy (run steps (new c secs))
unfolding new cards
run-new-IsTidy c secs steps up empty = run-IsTidy steps (new c secs) (record {
  up = up;
  rows = subst (All (λ (p : PendingRow). IsHeld [] p.id)) (sym empty) tt;
  waiters = tt;
  shown = tt;
})

-- When, after such a history, no call is held any more, no row, no waiter and no card is left.
pub run_idle :
    (c : Conn) (secs : ℕ) (steps : List (ℕ × Step))
    → c.up ≡ true
    → c.db.pending ≡ []
    → (run steps (new c secs)).holds ≡ []
    → ((run steps (new c secs)).conn.db.pending ≡ [])
      × ((run steps (new c secs)).waiters ≡ [])
      × (cards (run steps (new c secs)).events ≡ [])
run_idle c secs steps up empty idle =
    let tidy = run-new-IsTidy c secs steps up empty in
    (
      no_rows _ (
          subst
            (λ hs.
              All (λ (p : PendingRow). IsHeld hs p.id) (run steps (new c secs)).conn.db.pending)
            idle tidy.rows),
      none_held _
          (subst (λ hs. All (IsHeld hs) (run steps (new c secs)).waiters) idle tidy.waiters),
      none_held _
          (subst (λ hs. All (IsHeld hs) (cards (run steps (new c secs)).events)) idle tidy.shown),
    )

-- An answer that reaches no waiting call leaves no row, no card and no waiter of its id, where the
-- database answers, and writes no rule.
pub resolve_undelivered :
    (id : String) (r : Resolution) (q : ApprovalQueue)
    → (resolve id r q).0 ≡ false
    → q.conn.up ≡ true
    → (any (λ p. p.id == id) (resolve id r q).1.conn.db.pending ≡ false)
      × (any (λ w. w == id) (cards (resolve id r q).1.events) ≡ false)
      × (any (λ w. w == id) (resolve id r q).1.waiters ≡ false)
      × ((resolve id r q).1.conn.db.identities ≡ q.conn.db.identities)
unfolding resolve remove_pending cards
resolve_undelivered id r q e up =
    elim (Bool-cases (any (λ w. w == id) q.waiters && any (is_hold id) q.holds)) [
      | inl there ↦ absurd (ground arith)
      | inr gone ↦
          rw (gone, resolve, up)
            (rows_gone q.conn.db.pending, gone_ids (cards q.events), gone_ids q.waiters, refl)
    ]
  where
    gone_ids : (ids : List String) → any (λ w. w == id) (drop_id id ids) ≡ false
    gone_ids [] = refl
    gone_ids (w ∷ ids) = ground (arith, gone_ids ids)

    rows_gone :
        (rows : List PendingRow)
        → any (λ p. p.id == id) (retain (λ p. not (p.id == id)) rows) ≡ false
    rows_gone [] = refl
    rows_gone (p ∷ rows) = ground (arith, rows_gone rows)
