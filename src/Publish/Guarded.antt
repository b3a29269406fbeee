-- ===== src/Publish/Guarded.antt =====
-- What stands in front of a gateway that is published.
use mathlib.Core.Path.{subst}
use mcp_gatehound.Base.{
  String, Bool, true, false, ◌||◌, Option, some, none, List, [], ◌≡◌, ◌≢◌, refl, sym, inl, inr, ok,
  is_some, Bool-cases, if◌then◌else◌,
}
use mcp_gatehound.Auth.Factors.{AuthConfig, AccessConfig}
use mcp_gatehound.Publish.{
  PublishVia, nowhere, auto, cloudflare, tailscale, Reach, loopback, tailnet, internet,
  PublishConfig, carries_a_factor, intended_reach, unguarded, check, nothing, second_factor_of,
}
use mcp_gatehound.Publish.Publisher.{
  PublishState, published, not_published, failed, reach_of, new, Step, run,
}
use mcp_gatehound.Publish.Reached.{Sound, run-new-Sound}

check-passed :
    (cfg : PublishConfig) (auth : AuthConfig)
    → check cfg auth ≡ ok []
    → (carries_a_factor (intended_reach cfg) || is_some auth.access) ≡ true
unfolding check
check-passed cfg auth passed =
    elim (Bool-cases (carries_a_factor (intended_reach cfg) || is_some auth.access)) [
      | inl fine ↦ fine
      | inr bare ↦ absurd (
          refuses cfg.via cfg.tailscaled.funnel (
            subst (λ b. (if b then ok [] else unguarded cfg.via cfg.tailscaled.funnel) ≡ ok []) bare
              passed))
    ]
  where
    refuses : (via : PublishVia) (funnel : Bool) → unguarded via funnel ≡ ok [] → ⊥
    refuses tailscale true e = cc
    refuses tailscale false e = cc
    refuses cloudflare funnel e = cc
    refuses auto funnel e = cc
    refuses nowhere funnel e = cc

second_factor-there :
    (a : Option AccessConfig) (reach : Reach)
    → (carries_a_factor reach || is_some a) ≡ true
    → second_factor_of a reach ≢ nothing
unfolding second_factor_of carries_a_factor
second_factor-there (some a) reach there e = cc
second_factor-there none loopback there e = cc
second_factor-there none tailnet there e = cc
second_factor-there none internet there e = cc

anyway : (a : Option AccessConfig) → (carries_a_factor loopback || is_some a) ≡ true
unfolding carries_a_factor
anyway a = refl

-- A configuration that passes the check without a warning never has a gateway that can be reached with
-- the bearer token alone, whatever happens to its publisher and in whatever order.
pub run-guarded :
    (var : String → Option String) (cfg : PublishConfig) (auth : AuthConfig) (addr : String)
    (steps : List Step)
    → check cfg auth ≡ ok []
    → second_factor_of auth.access (reach_of (run var steps (new cfg addr)).state) ≢ nothing
unfolding reach_of
run-guarded var cfg auth addr steps passed =
    by_state (run var steps (new cfg addr)).state (run var steps (new cfg addr)).child
      (run-new-Sound var cfg addr steps)
  where
    ways : (carries_a_factor (intended_reach cfg) || is_some auth.access) ≡ true
    ways = check-passed cfg auth passed

    alone : second_factor_of auth.access loopback ≢ nothing
    alone = second_factor-there auth.access loopback (anyway auth.access)

    by_state :
        (s : PublishState) (child : Bool)
        → Sound (intended_reach cfg) s child
        → second_factor_of auth.access (reach_of s) ≢ nothing
    by_state (published q) child (goes, process) =
        second_factor-there auth.access q.reach
          (subst (λ r. (carries_a_factor r || is_some auth.access) ≡ true) (sym goes) ways)
    by_state not_published child h = alone
    by_state (failed via e) child h = alone
