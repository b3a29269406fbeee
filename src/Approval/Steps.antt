-- ===== src/Approval/Steps.antt =====
-- What can happen to the queue of crates/gatehound-core/src/approval.rs, in any order, and what is seen of it.
use mcp_gatehound.Base.{
  ℕ, String, Bool, Option, some, none, List, [], ◌∷◌, any, find, if◌then◌else◌,
}
use mcp_gatehound.Approval.{
  ApprovalQueue, Event, Hold, Resolution, cancel_all, drop_held, drop_id, finish, hold_from,
  is_hold, pending_added, pending_resolved, resolve,
}

-- What can happen to the queue: a call is held, a held call looks at its channel or its timeout, its
-- caller hangs up, an answer is given, the gateway shuts down.
pub data Step : Type 0 where
  holds_call :
      (id identity tool preview : String) (origin : Option String) (within : Option ℕ) → Step
  looks : (id : String) (expired : Bool) → Step
  hangs_up : (id : String) → Step
  answers : (id : String) → Resolution → Step
  shuts_down : Step

abbrev pub looking : ℕ → Bool → ApprovalQueue → Option Hold → ApprovalQueue
looking now expired q none = q
looking now expired q (some h) = (finish now expired h q).1

unfoldable pub step : ℕ × Step → ApprovalQueue → ApprovalQueue
step (now, holds_call id identity tool preview origin within) q =
    if any (is_hold id) q.holds
    then q
    else (hold_from now id identity tool preview origin within q).1
step (now, looks id expired) q = looking now expired q (find (is_hold id) q.holds)
step (now, hangs_up id) q = if any (is_hold id) q.holds then drop_held id "cancelled" q else q
step (now, answers id r) q = (resolve id r q).1
step (now, shuts_down) q = cancel_all q

unfoldable pub run : List (ℕ × Step) → ApprovalQueue → ApprovalQueue
run [] q = q
run (s ∷ steps) q = run steps (step s q)

-- The cards on screen, by the events that a shell was sent.
unfoldable pub cards : List Event → List String
cards [] = []
cards (pending_added row ∷ es) = row.id ∷ cards es
cards (pending_resolved id outcome ∷ es) = drop_id id (cards es)
