-- ===== src/Publish/Launch.antt =====
-- crates/gatehound-core/src/publish.rs: the command that publishes the listener, and the address that
-- Tailscale answers on.
use mcp_gatehound.Base.{
  ℕ, String, Option, some, none, List, [], ◌∷◌, ◌+++◌, Result, ok, ◌>>=◌, or_fail, eqb, is_empty,
  trim, if◌then◌else◌,
}
use mcp_gatehound.Base.Texts.{decimal, behind_last, trim_end_matches}
use mcp_gatehound.Json.{Value, get}
use mcp_gatehound.Config.Arguments.Numbers.{parse_unsigned}
use mcp_gatehound.Protocol.{text_in}
use mcp_gatehound.Publish.{
  PublishVia, nowhere, auto, cloudflare, tailscale, Reach, internet, tailnet, PublishConfig,
}

pub data Lifetime : Type 0 where
  daemon configures : Lifetime

pub record Launch : Type 0 where
  pub program : String
  pub args : List String
  pub env : List (String × String)
  pub reach : Reach
  pub via : String
  pub lifetime : Lifetime
  pub stop_args : List String

abbrev or_name : Option String → String → String
or_name none d = d
or_name (some s) d = s

unfoldable pub program_for : PublishConfig → String → String
program_for cfg default = or_name cfg.binary default

abbrev filled : Option String → Option String
filled none = none
filled (some s) = if is_empty s then none else some s

abbrev trimmed : Option String → Option String
trimmed none = none
trimmed (some s) = filled (some (trim s))

abbrev looked_up : (String → Option String) → Option String → Option String
looked_up var none = none
looked_up var (some k) = var k

abbrev first_some : Option String → Option String → Option String
first_some (some a) b = some a
first_some none b = b

-- `var` is the environment.
unfoldable pub cloudflare_token : (String → Option String) → PublishConfig → Option String
cloudflare_token var cfg =
    first_some (trimmed cfg.cloudflared.token) (trimmed (looked_up var cfg.cloudflared.token_env))

abbrev token_env : Option String → List (String × String)
token_env none = ("TUNNEL_METRICS", "127.0.0.1:0") ∷ []
token_env (some token) = ("TUNNEL_TOKEN", token) ∷ ("TUNNEL_METRICS", "127.0.0.1:0") ∷ []

abbrev tunnel : (String → Option String) → PublishConfig → Launch
tunnel var cfg = record {
  program = program_for cfg "cloudflared";
  args = "tunnel" ∷ "--no-autoupdate" ∷ "run" ∷ [];
  env = token_env (cloudflare_token var cfg);
  reach = internet;
  via = "cloudflare";
  lifetime = daemon;
  stop_args = [];
}

abbrev served : PublishConfig → ℕ → Launch
served cfg port =
    let verb = if cfg.tailscaled.funnel then "funnel" else "serve" in
    let target = "localhost:" +++ decimal port in
    let https = "--https=" +++ decimal cfg.tailscaled.https_port in
    record {
      program = program_for cfg "tailscale";
      args = verb ∷ https ∷ target ∷ [];
      env = [];
      reach = if cfg.tailscaled.funnel then internet else tailnet;
      via = "tailscale";
      lifetime = configures;
      stop_args = verb ∷ https ∷ target ∷ "off" ∷ [];
    }

abbrev pub launch_via : (String → Option String) → PublishConfig → PublishVia → ℕ → Option Launch
launch_via var cfg nowhere port = none
launch_via var cfg cloudflare port = some (tunnel var cfg)
launch_via var cfg auto port = some (tunnel var cfg)
launch_via var cfg tailscale port = some (served cfg port)

pub data NoPort : Type 0 where
  no_port : (listen_addr : String) → NoPort

unfoldable pub launch :
    (String → Option String) → PublishConfig → String → Result NoPort (Option Launch)
launch var cfg listen_addr =
    or_fail (parse_unsigned 65535 (behind_last b':' listen_addr)) (no_port listen_addr) >>= λ port.
    ok (launch_via var cfg cfg.via port)

abbrev without_dots : Option String → Option String
without_dots none = none
without_dots (some s) = filled (some (trim_end_matches b'.' s))

abbrev dns_name : Option Value → Option String
dns_name none = none
dns_name (some self) = without_dots (text_in (get "DNSName" self))

abbrev address : ℕ → Option String → Option String
address port none = none
address port (some dns) = some (
    if eqb port 443
    then "https://" +++ dns +++ "/mcp"
    else "https://" +++ dns +++ ":" +++ decimal port +++ "/mcp")

-- Of a status that was parsed.
unfoldable pub tailscale_url : Value → ℕ → Option String
tailscale_url v https_port = address https_port (dns_name (get "Self" v))
