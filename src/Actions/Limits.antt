-- ===== src/Actions/Limits.antt =====
-- crates/gatehound-core/src/actions/proxy.rs: the hourly cap and the gap between calls. An `Instant` is
-- its number of milliseconds. The lock on the window is held from `acquire` to the end of the call, so
-- calls through one limiter follow each other.
pub mod Window
use mcp_gatehound.Base.{
  ℕ, ◌+◌, ◌-◌, ◌*◌, String, Bool, Option, some, none, List, [], ◌∷◌, ◌++◌, Result, ok, err, ltb,
  leb, length, retain, if◌then◌else◌,
}
use mcp_gatehound.Config.{RateLimit}

abbrev pub hour_ms : ℕ
hour_ms = 3600 * 1000

abbrev pub is_recent : ℕ → ℕ → Bool
is_recent now t = ltb (now - t) hour_ms

pub record RateLimiter : Type 0 where
  pub limit : RateLimit
  pub recent : List ℕ

unfoldable pub new : RateLimit → RateLimiter
new limit = record { limit = limit; recent = [] }

abbrev pub last : List ℕ → Option ℕ
last [] = none
last (t ∷ []) = some t
last (t ∷ u ∷ ts) = last (u ∷ ts)

-- How long to sleep before the call.
unfoldable pub spacing_left : RateLimit → ℕ → Option ℕ → ℕ
spacing_left limit now none = 0
spacing_left limit now (some t) =
    let spacing = limit.min_spacing_secs * 1000 in
    let since = now - t in if ltb since spacing then spacing - since else 0

-- The time slept, or that the cap is spent; and the window, from which the past hour's end drops out.
unfoldable pub acquire : ℕ → RateLimiter → Result String ℕ × RateLimiter
acquire now rl =
    let recent = retain (is_recent now) rl.recent in
    let kept = record rl { recent = recent } in
    if leb rl.limit.per_hour (length recent)
    then (err "rate limit reached", kept)
    else (ok (spacing_left rl.limit now (last recent)), kept)

unfoldable pub commit : ℕ → RateLimiter → RateLimiter
commit now rl = record rl { recent = rl.recent ++ now ∷ [] }
