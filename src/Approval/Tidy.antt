-- ===== src/Approval/Tidy.antt =====
-- What cards, rows and waiters have to do with the calls that are held.
pub mod Adds
pub mod Ends
pub mod Runs
use mathlib.Core.Path.{subst}
use mcp_gatehound.Base.{
  same_texts, ℕ, String, Bool, true, false, not, ◌&&◌, Option, some, none, List, [], ◌∷◌, ◌++◌,
  ◌==◌, ◌≡◌, ◌≢◌, refl, sym, ap, ◌∙◌, arith, eq_iff, any, find, retain, update_where, map, All,
  All-map, All-append, any-update, any-map, inl, inr, ◌⊎◌, Bool-cases, Option-cases, Result-cases,
  Result, ok, err, if◌then◌else◌, eqb, is_some,
}
use mcp_gatehound.Store.{Db, Conn, PendingRow}
use mcp_gatehound.Store.Rules.{set_decision}
use mcp_gatehound.Store.Requests.{log_admin, log_request}
use mcp_gatehound.Store.Pending.{add_pending, remove_pending, clear_pending}
use mcp_gatehound.Store.Pending
use mcp_gatehound.Approval.{
  Hold, ApprovalQueue, Event, pending_added, pending_resolved, new, hold_from, drop_held, finish,
  resolve, cancel_all, is_hold, drop_id, write, wait_for, remember_answer, wait_result, hang_up,
  Resolution, persisted, emit, log_decision, outcome_of, waiting, sent, sender_gone, Channel,
}
use mcp_gatehound.Approval.Steps.{
  Step, holds_call, looks, hangs_up, answers, shuts_down, step, run, cards, looking,
}

-- A call of this id is held.
abbrev pub IsHeld : List Hold → String → Type 0
IsHeld holds id = any (is_hold id) holds ≡ true

-- The database answers, and each row of `pending`, each waiter and each card is that of a held call.
pub record IsTidy (q : ApprovalQueue) : Type 0 where
  pub up : q.conn.up ≡ true
  pub rows : All (λ p. IsHeld q.holds p.id) q.conn.db.pending
  pub waiters : All (IsHeld q.holds) q.waiters
  pub shown : All (IsHeld q.holds) (cards q.events)

pub All-kept {ℓ κ μ} :
    {A : Type ℓ} (P : A → Type κ) (Q : A → Type μ) (p : A → Bool) (xs : List A)
    → ((x : A) → p x ≡ true → P x → Q x)
    → All P xs
    → All Q (retain p xs)
All-kept P Q p [] k h = tt
All-kept P Q p (x ∷ xs) k (px, h) = elim (Bool-cases (p x)) [
  | inl t ↦ rw t (k x t px, All-kept P Q p xs k h)
  | inr f ↦ rw f (All-kept P Q p xs k h)
]

pub IsHeld-more :
    (h : Hold) (holds : List Hold) (id : String) → IsHeld holds id → IsHeld (h ∷ holds) id
IsHeld-more h holds id e = ground arith

pub IsHeld-first : (h : Hold) (holds : List Hold) → IsHeld (h ∷ holds) h.id
IsHeld-first h holds = grind same_texts

pub IsHeld-retain :
    (id j : String) (holds : List Hold)
    → id ≢ j
    → IsHeld holds j
    → IsHeld (retain (λ h. not (is_hold id h)) holds) j
IsHeld-retain id j [] ne e = e
IsHeld-retain id j (h ∷ holds) ne e = grind (same_texts, IsHeld-retain id j holds ne)

pub differs : (a b : String) → not (a == b) ≡ true → b ≢ a
differs a b e same = grind same_texts

-- The end of a hold takes away what stands for it and leaves the others'.
pub drop_held-IsTidy :
    (id outcome : String) (q : ApprovalQueue) → IsTidy q → IsTidy (drop_held id outcome q)
unfolding drop_held remove_pending cards
drop_held-IsTidy id outcome q v = rw v.up (record {
  up = refl;
  rows =
      All-kept (λ p. IsHeld q.holds p.id)
        (λ p. IsHeld (retain (λ h. not (is_hold id h)) q.holds) p.id) (λ p. not (p.id == id))
        q.conn.db.pending (λ p k e. IsHeld-retain id p.id q.holds (differs p.id id k) e) v.rows;
  waiters =
      All-kept (IsHeld q.holds) (IsHeld (retain (λ h. not (is_hold id h)) q.holds))
        (λ w. not (w == id)) q.waiters (λ w k e. IsHeld-retain id w q.holds (differs w id k) e)
        v.waiters;
  shown =
      All-kept (IsHeld q.holds) (IsHeld (retain (λ h. not (is_hold id h)) q.holds))
        (λ w. not (w == id)) (cards q.events)
        (λ w k e. IsHeld-retain id w q.holds (differs w id k) e) v.shown;
})

-- The same calls held, row for row the same ids.
pub same-IsHeld :
    (f : List Hold → List Hold) (holds : List Hold)
    → ((id : String) → any (is_hold id) (f holds) ≡ any (is_hold id) holds)
    → (id : String) → IsHeld holds id
    → IsHeld (f holds) id
same-IsHeld f holds e id h = e id ∙ h

-- Losing a sender keeps the ids.
pub any-hang_up :
    (waiters : List String) (hs : List Hold) (id : String)
    → any (is_hold id) (map (hang_up waiters) hs) ≡ any (is_hold id) hs
any-hang_up waiters [] id = refl
any-hang_up waiters (h ∷ hs) id = ground (arith, kept, any-hang_up waiters hs id)
  where
    kept : is_hold id (hang_up waiters h) ≡ is_hold id h
    kept = elim (Bool-cases (any (λ w. w == h.id) waiters)) [
      | inl t ↦ rw t refl
      | inr f ↦ rw f refl
    ]
