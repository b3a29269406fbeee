-- ===== src/Gateway/Announced.antt =====
-- What the gateway says of its status over a run.
use mcp_gatehound.Base.{
  String, Bool, true, not, ◌&&◌, Option, some, none, List, [], ◌∷◌, ◌≡◌, refl, Bool-cases, inl, inr,
}
use mcp_gatehound.Gateway.{
  GatewayStatus, paused, listening, degraded, same_status, Shown, at_start, set_status,
  check_health, Turn, comes_up, looks, is_stopped, turn, turns,
}

abbrev pub latest : List (GatewayStatus × Option String) → GatewayStatus
latest [] = paused
latest ((status, detail) ∷ before) = status

-- Each announcement differs from the one before it, and the first from the status at the start.
abbrev pub are_changes : List (GatewayStatus × Option String) → Bool
are_changes [] = true
are_changes ((status, detail) ∷ before) =
    not (same_status (latest before) status) && are_changes before

abbrev pub IsCurrent : Shown → Type 0
IsCurrent s = (latest s.announced ≡ s.status) × (are_changes s.announced ≡ true)

set_status-IsCurrent :
    (status : GatewayStatus) (detail : Option String) (s : Shown)
    → IsCurrent s
    → IsCurrent (set_status status detail s)
unfolding set_status
set_status-IsCurrent status detail s (last, changes) =
    elim (Bool-cases (same_status s.status status)) [
      | inl yes' ↦ rw yes' (last, changes)
      | inr no' ↦ rw no' (refl, rw (last, no', changes) refl)
    ]

turn-IsCurrent : (t : Turn) (s : Shown) → IsCurrent s → IsCurrent (turn t s)
unfolding turn check_health
turn-IsCurrent comes_up s h = set_status-IsCurrent listening none s h
turn-IsCurrent (looks []) s h = set_status-IsCurrent listening none (record s { unhealthy = [] }) h
turn-IsCurrent (looks (u ∷ us)) s h =
    set_status-IsCurrent degraded _ (record s { unhealthy = u ∷ us }) h
turn-IsCurrent is_stopped s h = set_status-IsCurrent paused (some "stopped") s h

turns-run : (ts : List Turn) (s : Shown) → IsCurrent s → IsCurrent (turns ts s)
turns-run [] s h = h
turns-run (t ∷ ts) s h = turns-run ts (turn t s) (turn-IsCurrent t s h)

-- In whatever order the listener comes up, the upstreams are looked at and the gateway stops, whoever
-- follows its announcements knows its status, and none of them repeats the one before it.
pub turns-IsCurrent : (ts : List Turn) → IsCurrent (turns ts at_start)
turns-IsCurrent ts = turns-run ts at_start (refl, refl)
