-- ===== src/Publish.antt =====
-- crates/gatehound-core/src/publish.rs: how the loopback listener may be reached, and the rule that the
-- public internet needs a second factor.
pub mod Launch
pub mod Publisher
pub mod Reached
pub mod Guarded
pub mod Argv
use mcp_gatehound.Base.{
  ℕ, String, Bool, true, false, ◌||◌, Option, some, none, List, [], ◌∷◌, ◌+++◌, Result, ok, err,
  is_some, if◌then◌else◌,
}
use mcp_gatehound.Auth.Factors.{AuthConfig, AccessConfig}

pub data PublishVia : Type 0 where
  nowhere auto cloudflare tailscale : PublishVia

unfoldable pub as_str : PublishVia → String
as_str nowhere = "none"
as_str auto = "auto"
as_str cloudflare = "cloudflare"
as_str tailscale = "tailscale"

pub data Reach : Type 0 where
  loopback tailnet internet : Reach

unfoldable pub carries_a_factor : Reach → Bool
carries_a_factor internet = false
carries_a_factor _ = true

pub record CloudflareConfig : Type 0 where
  pub token_env : Option String
  pub token : Option String
  pub hostname : Option String

pub record TailscaleConfig : Type 0 where
  pub https_port : ℕ
  pub funnel : Bool

pub record PublishConfig : Type 0 where
  pub via : PublishVia
  pub binary : Option String
  pub cloudflared : CloudflareConfig
  pub tailscaled : TailscaleConfig

abbrev pub default_https_port : ℕ
default_https_port = 443

unfoldable pub default_publish : PublishConfig
default_publish = record {
  via = auto;
  binary = none;
  cloudflared = record { token_env = none; token = none; hostname = none };
  tailscaled = record { https_port = default_https_port; funnel = false };
}

abbrev pub reach_by : PublishVia → Bool → Reach
reach_by nowhere funnel = loopback
reach_by auto funnel = internet
reach_by cloudflare funnel = internet
reach_by tailscale true = internet
reach_by tailscale false = tailnet

-- What the configuration would expose the gateway to, before anything is started.
unfoldable pub intended_reach : PublishConfig → Reach
intended_reach cfg = reach_by cfg.via cfg.tailscaled.funnel

-- The public internet with one factor, and through what.
pub data Exposed : Type 0 where
  exposed_through : (what : String) → Exposed

abbrev pub auto_warning : String
auto_warning =
    "publish.via is \"auto\": if this machine is set up for a tunnel the gateway will be on the public internet with the bearer token as its only factor. Configure [auth.access], or set publish.via = \"none\" or \"tailscale\"."

abbrev pub unguarded : PublishVia → Bool → Result Exposed (List String)
unguarded tailscale true = err (exposed_through "Tailscale Funnel")
unguarded cloudflare funnel = err (exposed_through "a Cloudflare Tunnel")
unguarded _ funnel = ok (auto_warning ∷ [])

-- The warnings, or the refusal.
unfoldable pub check : PublishConfig → AuthConfig → Result Exposed (List String)
check cfg auth =
    if carries_a_factor (intended_reach cfg) || is_some auth.access
    then ok []
    else unguarded cfg.via cfg.tailscaled.funnel

pub data SecondFactor : Type 0 where
  access : (team_domain : String) → SecondFactor
  by_reach : Reach → SecondFactor
  nothing : SecondFactor

unfoldable pub second_factor_of : Option AccessConfig → Reach → SecondFactor
second_factor_of (some a) reach = access a.team_domain
second_factor_of none reach = if carries_a_factor reach then by_reach reach else nothing

unfoldable pub second_factor : PublishConfig → AuthConfig → SecondFactor
second_factor cfg auth = second_factor_of auth.access (intended_reach cfg)

unfoldable pub describe : SecondFactor → String
describe (access team_domain) = "Cloudflare Access (" +++ team_domain +++ ")"
describe (by_reach loopback) = "not needed — nothing off this machine can reach it"
describe (by_reach _) = "not needed — a device had to join your tailnet to get here"
describe nothing = "NONE — the bearer token is the only thing in the way"
