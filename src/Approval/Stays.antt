-- ===== src/Approval/Stays.antt =====
-- A held call over what happens to the queue before its own end.
use mcp_gatehound.Base.{
  same_texts, ℕ, String, Bool, true, not, Option, some, none, List, [], ◌∷◌, ◌==◌, ◌≡◌, ◌≢◌, refl,
  ◌∙◌, arith, any, any-update, all, find, Bool-cases, Option-cases, Result-cases, ok, err, inl, inr,
  eqb, ◌&&◌, is_some,
}
use mcp_gatehound.Store.Pending.{add_pending}
use mcp_gatehound.Approval.{
  Hold, ApprovalQueue, hold_from, drop_held, finish, wait_result, outcome_of, log_decision,
  remember_answer, resolve, cancel_all, is_hold, wait_for, Outcome, allowed, waiting,
}
use mcp_gatehound.Approval.Steps.{Step, holds_call, looks, hangs_up, answers, shuts_down, step, run}
use mcp_gatehound.Approval.Tidy.{IsHeld, IsHeld-more, IsHeld-retain, any-hang_up}

-- It is not the end of the hold of this id.
abbrev pub spares : String → ℕ × Step → Bool
spares id (now, looks j expired) = not (j == id)
spares id (now, hangs_up j) = not (j == id)
spares id (now, _) = true

find-is_hold : (j : String) (hs : List Hold) (h : Hold) → find (is_hold j) hs ≡ some h → h.id ≡ j
find-is_hold j [] h e = cc
find-is_hold j (x ∷ hs) h e = grind (same_texts, find-is_hold j hs h)

drop_held-IsHeld :
    (id outcome j : String) (q : ApprovalQueue)
    → id ≢ j
    → IsHeld q.holds j
    → IsHeld (drop_held id outcome q).holds j
unfolding drop_held
drop_held-IsHeld id outcome j q ne e = IsHeld-retain id j q.holds ne e

finish-IsHeld :
    (now : ℕ) (expired : Bool) (h : Hold) (q : ApprovalQueue) (j : String)
    → h.id ≢ j
    → IsHeld q.holds j
    → IsHeld (finish now expired h q).1.holds j
unfolding finish
finish-IsHeld now expired h q j ne e = elim (Option-cases (wait_result expired h.channel)) [
  | inl open' ↦ rw (open', finish) e
  | inr (ok r, got) ↦
      rw (got, finish)
        (drop_held-IsHeld h.id (log_decision (outcome_of r)) j
          (record q { conn = remember_answer now h r q.conn }) ne e)
  | inr (err outcome, got) ↦
      rw (got, finish) (drop_held-IsHeld h.id (log_decision outcome) j q ne e)
]

-- What `hold_from` keeps of a call.
abbrev pub held_as : (id identity tool : String) → Option String → Hold
held_as id identity tool origin = record {
  id = id;
  identity = identity;
  tool = tool;
  remember = not (is_some origin);
  channel = waiting;
}

-- What a hold starts with: an outcome at once, which is no approval, or a call that is held.
abbrev pub Begun : ApprovalQueue → Hold → Option Outcome × ApprovalQueue → Type 0
Begun q h (some outcome, q') = (outcome ≢ allowed) × (q'.holds ≡ q.holds)
Begun q h (none, q') = q'.holds ≡ h ∷ q.holds

pub hold_from-Begun :
    (now : ℕ) (id identity tool preview : String) (origin : Option String) (within : Option ℕ)
    (q : ApprovalQueue)
    → Begun q
        (held_as id identity tool origin)
        (hold_from now id identity tool preview origin within q)
unfolding hold_from
hold_from-Begun now id identity tool preview origin within q =
    elim (Bool-cases (eqb (wait_for within q) 0)) [
      | inl yes' ↦ rw (yes', hold_from) ((λ e. cc), refl)
      | inr no' ↦ elim (Bool-cases q.conn.up) [
        | inr down ↦ rw (no', down, hold_from) ((λ e. cc), refl)
        | inl up ↦ elim (Result-cases (add_pending now id identity tool preview origin q.conn.db)) [
          | inl (db, e) ↦ rw (no', up, e, hold_from) refl
          | inr (f, e) ↦ rw (no', up, e, hold_from) ((λ a. cc), refl)
        ]
      ]
    ]

Begun-IsHeld :
    (q : ApprovalQueue) (h : Hold) (r : Option Outcome × ApprovalQueue) (j : String)
    → Begun q h r
    → IsHeld q.holds j
    → IsHeld r.1.holds j
Begun-IsHeld q h (some outcome, q') j (refused, same) e = rw same e
Begun-IsHeld q h (none, q') j more e = rw more (IsHeld-more h q.holds j e)

step-IsHeld :
    (id : String) (s : ℕ × Step) (q : ApprovalQueue)
    → spares id s ≡ true
    → IsHeld q.holds id
    → IsHeld (step s q).holds id
unfolding step resolve cancel_all
step-IsHeld id (now, holds_call j identity tool preview origin within) q spared e =
    elim (Bool-cases (any (is_hold j) q.holds)) [
      | inl taken ↦ rw (taken, step) e
      | inr fresh ↦
          rw (fresh, step)
            (Begun-IsHeld q (held_as j identity tool origin) _ id
              (hold_from-Begun now j identity tool preview origin within q) e)
    ]
step-IsHeld id (now, looks j expired) q spared e = elim (Option-cases (find (is_hold j) q.holds)) [
  | inl gone ↦ rw (gone, step) e
  | inr (h, there) ↦
      rw (there, step)
        (finish-IsHeld now expired h q id (grind (same_texts, find-is_hold j q.holds h there)) e)
]
step-IsHeld id (now, hangs_up j) q spared e = elim (Bool-cases (any (is_hold j) q.holds)) [
  | inl there ↦ rw (there, step) (drop_held-IsHeld j "cancelled" id q (grind same_texts) e)
  | inr gone ↦ rw (gone, step) e
]
step-IsHeld id (now, answers j r) q spared e =
    elim (Bool-cases (any (λ w. w == j) q.waiters && any (is_hold j) q.holds)) [
      | inl got ↦
          rw (got, step, resolve) (any-update (is_hold id) (is_hold j) _ q.holds (λ h. refl) ∙ e)
      | inr lost ↦ rw (lost, step, resolve) e
    ]
step-IsHeld id (now, shuts_down) q spared e = any-hang_up q.waiters q.holds id ∙ e

pub run-IsHeld :
    (id : String) (steps : List (ℕ × Step)) (q : ApprovalQueue)
    → all (spares id) steps ≡ true
    → IsHeld q.holds id
    → IsHeld (run steps q).holds id
unfolding run
run-IsHeld id [] q spared e = e
run-IsHeld id (s ∷ steps) q spared e =
    run-IsHeld id steps (step s q) (ground arith) (step-IsHeld id s q (ground arith) e)
