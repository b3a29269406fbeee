-- ===== src/Approval/Tidy/Adds.antt =====
-- A call that is held.
use mathlib.Core.Path.{subst}
use mcp_gatehound.Base.{
  ℕ, String, not, Option, some, [], ◌∷◌, ◌++◌, ◌==◌, ◌≡◌, refl, sym, arith, any, All-map,
  All-append, inl, inr, ◌⊎◌, Bool-cases, eqb, is_some,
}
use mcp_gatehound.Store.{PendingRow}
use mcp_gatehound.Store.Pending.{add_pending, remove_pending, clear_pending}
use mcp_gatehound.Store.Pending
use mcp_gatehound.Approval.{
  Hold, ApprovalQueue, pending_added, hold_from, drop_id, wait_for, waiting,
}
use mcp_gatehound.Approval.Steps.{cards}
use mcp_gatehound.Approval.Tidy.{IsHeld, IsTidy, All-kept, IsHeld-more, IsHeld-first}

abbrev added : Hold → PendingRow → ApprovalQueue → ApprovalQueue
added h row q = record q {
  conn = record q.conn { db = record q.conn.db { pending = q.conn.db.pending ++ row ∷ [] } };
  waiters = h.id ∷ drop_id h.id q.waiters;
  holds = h ∷ q.holds;
  events = pending_added row ∷ q.events;
}

added-IsTidy :
    (h : Hold) (row : PendingRow) (q : ApprovalQueue)
    → row.id ≡ h.id
    → IsTidy q
    → IsTidy (added h row q)
unfolding cards
added-IsTidy h row q same v = record {
  up = v.up;
  rows =
      All-append (λ p. IsHeld (h ∷ q.holds) p.id) q.conn.db.pending (row ∷ [])
        (All-map (λ p. IsHeld q.holds p.id) (λ p. IsHeld (h ∷ q.holds) p.id) q.conn.db.pending
          (λ p e. IsHeld-more h q.holds p.id e) v.rows)
        (subst (IsHeld (h ∷ q.holds)) (sym same) (IsHeld-first h q.holds), tt);
  waiters = (
    IsHeld-first h q.holds,
    All-kept (IsHeld q.holds) (IsHeld (h ∷ q.holds)) (λ w. not (w == h.id)) q.waiters
        (λ w k e. IsHeld-more h q.holds w e) v.waiters,
  );
  shown = (
    subst (IsHeld (h ∷ q.holds)) (sym same) (IsHeld-first h q.holds),
    All-map (IsHeld q.holds) (IsHeld (h ∷ q.holds)) (cards q.events)
        (λ w e. IsHeld-more h q.holds w e) v.shown,
  );
}

module _ (now : ℕ) (id identity tool preview : String) (origin : Option String) (within : Option ℕ)
    (q : ApprovalQueue) where
  new_hold : Hold
  new_hold = record {
    id = id;
    identity = identity;
    tool = tool;
    remember = not (is_some origin);
    channel = waiting;
  }

  new_row : PendingRow
  new_row = record {
    id = id;
    ts = now;
    identity = identity;
    tool = tool;
    args_preview = some preview;
    origin = origin;
  }

  hold_from-cases :
      ((hold_from now id identity tool preview origin within q).1 ≡ q)
      ⊎ ((hold_from now id identity tool preview origin within q).1 ≡ added new_hold new_row q)
  unfolding hold_from add_pending new_hold new_row
  hold_from-cases = elim (Bool-cases (eqb (wait_for within q) 0)) [
    | inl none' ↦ inl (ground arith)
    | inr some' ↦ elim (Bool-cases q.conn.up) [
      | inr down ↦ inl (ground arith)
      | inl up ↦ elim (Bool-cases (any (Pending.has_id id) q.conn.db.pending)) [
        | inl taken ↦ inl (ground arith)
        | inr free ↦ inr (ground arith)
      ]
    ]
  ]

  pub hold_from-IsTidy :
      IsTidy q → IsTidy (hold_from now id identity tool preview origin within q).1
  unfolding new_hold new_row
  hold_from-IsTidy v = elim hold_from-cases [
    | inl e ↦ rw e v
    | inr e ↦ rw e (added-IsTidy new_hold new_row q refl v)
  ]
