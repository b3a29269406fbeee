-- ===== src/Approval/Approved.antt =====
-- What it takes for a held call to be let through: an approval that was given to it.
use mcp_gatehound.Base.{
  same_texts, ℕ, String, Bool, true, false, not, ◌&&◌, Option, some, none, List, [], ◌∷◌, ◌==◌, ◌≡◌,
  ◌≢◌, refl, ◌∙◌, arith, any, find, map, retain, update_where, Bool-cases, Option-cases, Result, ok,
  err, inl, inr, if◌then◌else◌, eq_iff,
}
use mcp_gatehound.Approval.{
  Hold, ApprovalQueue, Resolution, allow_once, allow_always, reject, reject_always, Channel,
  waiting, sent, sender_gone, drop_held, finish, wait_result, outcome_of, log_decision,
  remember_answer, resolve, cancel_all, is_hold, hang_up, Outcome, allowed, allows,
}
use mcp_gatehound.Approval.Steps.{Step, holds_call, looks, hangs_up, answers, shuts_down, step, run}
use mcp_gatehound.Approval.Stays.{Begun, held_as, hold_from-Begun}

abbrev pub is_yes : Resolution → Bool
is_yes allow_once = true
is_yes allow_always = true
is_yes _ = false

-- A human says yes to the call of this id.
abbrev pub says_yes : String → ℕ × Step → Bool
says_yes id (now, answers j r) = (j == id) && is_yes r
says_yes id (now, _) = false

abbrev pub holds_yes : Channel → Bool
holds_yes (sent r) = is_yes r
holds_yes _ = false

-- The call of this id has a yes in its channel.
abbrev pub has_yes : String → List Hold → Bool
has_yes id [] = false
has_yes id (h ∷ hs) = if is_hold id h then holds_yes h.channel else has_yes id hs

has_yes-gone :
    (id : String) (hs : List Hold) → has_yes id (retain (λ h. not (is_hold id h)) hs) ≡ false
has_yes-gone id [] = refl
has_yes-gone id (h ∷ hs) = ground (arith, has_yes-gone id hs)

has_yes-retain :
    (id j : String) (hs : List Hold)
    → j ≢ id
    → has_yes id (retain (λ h. not (is_hold j h)) hs) ≡ has_yes id hs
has_yes-retain id j [] ne = refl
has_yes-retain id j (h ∷ hs) ne = grind (same_texts, has_yes-retain id j hs ne)

has_yes-answer :
    (id j : String) (r : Resolution) (hs : List Hold)
    → ((j == id) && is_yes r) ≡ false
    → has_yes id hs ≡ false
    → has_yes id (update_where (is_hold j) (λ h. record h { channel = sent r }) hs) ≡ false
has_yes-answer id j r [] other no' = refl
has_yes-answer id j r (h ∷ hs) other no' = elim (Bool-cases (is_hold j h)) [
  | inl there ↦
      rw there (ground (arith, has_yes-answer id j r hs other, eq_iff h.id j, eq_iff j id))
  | inr gone ↦ rw gone (ground (arith, has_yes-answer id j r hs other))
]

has_yes-hang_up :
    (id : String) (waiters : List String) (hs : List Hold)
    → has_yes id hs ≡ false
    → has_yes id (map (hang_up waiters) hs) ≡ false
has_yes-hang_up id waiters [] no' = refl
has_yes-hang_up id waiters (h ∷ hs) no' = elim (Bool-cases (any (λ w. w == h.id) waiters)) [
  | inl t ↦ rw t (ground (arith, has_yes-hang_up id waiters hs))
  | inr f ↦ rw f (ground (arith, has_yes-hang_up id waiters hs))
]

drop_held-no :
    (id j outcome : String) (q : ApprovalQueue)
    → has_yes id q.holds ≡ false
    → has_yes id (drop_held j outcome q).holds ≡ false
unfolding drop_held
drop_held-no id j outcome q no' = elim (Bool-cases (j == id)) [
  | inl same ↦ let e : j ≡ id = (eq_iff j id).0 same in rw e (has_yes-gone id q.holds)
  | inr other ↦ has_yes-retain id j q.holds (grind same_texts) ∙ no'
]

finish-no :
    (now : ℕ) (expired : Bool) (h : Hold) (q : ApprovalQueue) (id : String)
    → has_yes id q.holds ≡ false
    → has_yes id (finish now expired h q).1.holds ≡ false
unfolding finish
finish-no now expired h q id no' = elim (Option-cases (wait_result expired h.channel)) [
  | inl open' ↦ rw (open', finish) no'
  | inr (ok r, got) ↦
      rw (got, finish)
        (drop_held-no id h.id (log_decision (outcome_of r))
          (record q { conn = remember_answer now h r q.conn }) no')
  | inr (err outcome, got) ↦ rw (got, finish) (drop_held-no id h.id (log_decision outcome) q no')
]

Begun-no :
    (q : ApprovalQueue) (j identity tool : String) (origin : Option String)
    (r : Option Outcome × ApprovalQueue) (id : String)
    → Begun q (held_as j identity tool origin) r
    → has_yes id q.holds ≡ false
    → has_yes id r.1.holds ≡ false
Begun-no q j identity tool origin (some outcome, q') id (refused, same) no' = rw same no'
Begun-no q j identity tool origin (none, q') id more no' = rw more (ground arith)

step-no :
    (id : String) (s : ℕ × Step) (q : ApprovalQueue)
    → says_yes id s ≡ false
    → has_yes id q.holds ≡ false
    → has_yes id (step s q).holds ≡ false
unfolding step resolve cancel_all
step-no id (now, holds_call j identity tool preview origin within) q quiet no' =
    elim (Bool-cases (any (is_hold j) q.holds)) [
      | inl taken ↦ rw (taken, step) no'
      | inr fresh ↦
          rw (fresh, step)
            (Begun-no q j identity tool origin _ id
              (hold_from-Begun now j identity tool preview origin within q) no')
    ]
step-no id (now, looks j expired) q quiet no' = elim (Option-cases (find (is_hold j) q.holds)) [
  | inl gone ↦ rw (gone, step) no'
  | inr (h, there) ↦ rw (there, step) (finish-no now expired h q id no')
]
step-no id (now, hangs_up j) q quiet no' = elim (Bool-cases (any (is_hold j) q.holds)) [
  | inl there ↦ rw (there, step) (drop_held-no id j "cancelled" q no')
  | inr gone ↦ rw (gone, step) no'
]
step-no id (now, answers j r) q quiet no' =
    elim (Bool-cases (any (λ w. w == j) q.waiters && any (is_hold j) q.holds)) [
      | inl got ↦ rw (got, step, resolve) (has_yes-answer id j r q.holds quiet no')
      | inr lost ↦ rw (lost, step, resolve) no'
    ]
step-no id (now, shuts_down) q quiet no' = has_yes-hang_up id q.waiters q.holds no'

-- Without a yes to the call of this id, its channel never holds one.
pub run-no :
    (id : String) (steps : List (ℕ × Step)) (q : ApprovalQueue)
    → any (says_yes id) steps ≡ false
    → has_yes id q.holds ≡ false
    → has_yes id (run steps q).holds ≡ false
unfolding run
run-no id [] q quiet no' = no'
run-no id (s ∷ steps) q quiet no' =
    run-no id steps (step s q) (ground arith) (step-no id s q (ground arith) no')

pub has_yes-find :
    (id : String) (hs : List Hold) (h : Hold)
    → find (is_hold id) hs ≡ some h
    → has_yes id hs ≡ false
    → holds_yes h.channel ≡ false
has_yes-find id [] h there no' = cc
has_yes-find id (x ∷ hs) h there no' = elim (Bool-cases (is_hold id x)) [
  | inl here ↦ let same : x ≡ h = ground arith in rw (← same) (ground arith)
  | inr later ↦ has_yes-find id hs h (ground arith) (ground arith)
]

refused_by :
    (expired : Bool) (ch : Channel)
    → holds_yes ch ≡ false
    → (o : Result Outcome Resolution) → wait_result expired ch ≡ some o
    → (elim o [ ok r ↦ outcome_of r | err e ↦ e ]) ≢ allowed
unfolding allows
refused_by expired (sent allow_once) no' o got e = cc
refused_by expired (sent allow_always) no' o got e = cc
refused_by expired (sent reject) no' o got e = ground arith
refused_by expired (sent reject_always) no' o got e = ground arith
refused_by expired sender_gone no' o got e = ground arith
refused_by true waiting no' o got e = ground arith
refused_by false waiting no' o got e = cc

-- A wait ends with leave to act only by a yes.
pub finish-refused :
    (now : ℕ) (expired : Bool) (h : Hold) (q : ApprovalQueue)
    → holds_yes h.channel ≡ false
    → (finish now expired h q).0 ≢ some allowed
unfolding finish
finish-refused now expired h q no' = elim (Option-cases (wait_result expired h.channel)) [
  | inl open' ↦ rw (open', finish) (λ e. cc)
  | inr (ok r, got) ↦
      rw (got, finish) (λ e. refused_by expired h.channel no' (ok r) got (some_inj e))
  | inr (err outcome, got) ↦
      rw (got, finish) (λ e. refused_by expired h.channel no' (err outcome) got (some_inj e))
]
  where
    some_inj : {a b : Outcome} → some a ≡ some b → a ≡ b
    some_inj e = cc
