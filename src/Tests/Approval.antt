-- ===== src/Tests/Approval.antt =====
-- A queue in which one call is answered, one hangs up and one waits.
use mcp_gatehound.Approval.{wait_for}
use mcp_gatehound.Store.Pending.{add_pending}
use mcp_gatehound.Base.{ℕ, true, false, some, none, List, [], ◌∷◌, ◌≡◌, refl}
use mcp_gatehound.Store.{empty_db, Conn}
use mcp_gatehound.Approval.{Hold, allow_always, reject, sent, waiting, new, finish}
use mcp_gatehound.Approval.Steps.{Step, holds_call, looks, hangs_up, answers, run}
use mcp_gatehound.Approval.{hold_from, ApprovalQueue}
use mcp_gatehound.Approval.Outcomes.{hold_from-finish}
use mcp_gatehound.Approval.Tidy.{IsTidy}
use mcp_gatehound.Approval.Tidy.Runs.{run-new-IsTidy}

abbrev fresh : Conn
fresh = record { db = empty_db; up = true }

abbrev steps : List (ℕ × Step)
steps =
    (1, holds_call "h1" "bot" "write" "{}" none none)
    ∷ (2, holds_call "h2" "eve" "write" "{}" none (some 4000))
    ∷ (3, holds_call "h3" "owner" "write" "{}" (some "debug") none)
    ∷ (4, answers "h1" allow_always)
    ∷ (5, looks "h1" false)
    ∷ (6, hangs_up "h2")
    ∷ (7, answers "h2" reject)
    ∷ []

run-new-IsTidy_example : IsTidy (run steps (new fresh 60))
run-new-IsTidy_example = run-new-IsTidy fresh 60 steps refl refl

abbrev last_steps : List (ℕ × Step)
last_steps = (8, hangs_up "h3") ∷ []

abbrev by_hand : Hold
by_hand = record {
  id = "h3";
  identity = "owner";
  tool = "write";
  remember = false;
  channel = waiting;
}

abbrev begun : ApprovalQueue
begun = (hold_from 8 "h3" "owner" "write" "{}" (some "debug") none (new fresh 60)).1

hold_from-finish_example :
    (finish 9 false
      (record by_hand { channel = sent allow_always })
      (new fresh 60)).1.conn.db.identities
    ≡ []
unfolding new hold_from wait_for add_pending
hold_from-finish_example =
    hold_from-finish 8 "h3" "owner" "write" "{}" (some "debug") none (new fresh 60) begun by_hand 9
      false (sent allow_always) (new fresh 60) refl refl refl
