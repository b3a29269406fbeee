-- ===== src/Config/Environment.antt =====
-- crates/gatehound-core/src/config.rs: the environment over a configuration, and what of it goes back to
-- the file.

pub mod Slots
pub mod Restored
use mcp_gatehound.Base.{
  ℕ, ◌-◌, ◌^◌, max, String, Bool, true, false, not, ◌&&◌, Option, some, none, List, [], ◌∷◌, ◌++◌,
  ◌==◌, any, find, map, retain, is_empty, trim, to_ascii_lowercase, strip_prefix, split_from, zero,
  suc, len, if◌then◌else◌,
}
use mcp_gatehound.Base.Texts.{trim_end_matches}
use mcp_gatehound.Config.{ToolConfig, RateLimit}
use mcp_gatehound.Config.Arguments.Numbers.{parse_unsigned, is_number_up_to, digits_value}
use mcp_gatehound.Auth.Factors.{AccessConfig, AuthConfig}
use mcp_gatehound.Publish.{PublishVia, nowhere, auto, cloudflare, tailscale, PublishConfig}
use mcp_gatehound.Config.Settings.{
  Config, Days, days, days_negative, UpstreamConfig, UpstreamKind, http, mcp, Secret, bearer,
  tunnel, upstream, EnvSecret, find_upstream,
}

-- `s.split(',')`, trimmed, without what is empty
unfoldable pub split_list : String → List String
split_list v = retain (λ s. not (is_empty s)) (map trim (split_from b',' "" v))

unfoldable pub secret_slots : Config → List Secret
secret_slots cfg = bearer ∷ tunnel ∷ map (λ u. upstream u.name) cfg.upstreams

abbrev pub kind_secret : UpstreamKind → Option String
kind_secret (http h) = some h.token
kind_secret (mcp m) = m.bearer_token

abbrev pub upstream_secret : Option UpstreamConfig → Option String
upstream_secret none = none
upstream_secret (some u) = kind_secret u.kind

unfoldable pub secret : Secret → Config → Option String
secret bearer cfg = cfg.auth.bearer_token
secret tunnel cfg = cfg.publish.cloudflared.token
secret (upstream name) cfg = upstream_secret (find_upstream cfg.upstreams name)

abbrev pub or_blank : Option String → String
or_blank none = ""
or_blank (some s) = s

abbrev pub put_secret : Option String → UpstreamKind → UpstreamKind
put_secret value (http h) = http (record h { token = or_blank value })
put_secret value (mcp m) = mcp (record m { bearer_token = value })

-- The first upstream of the name.
abbrev pub set_first : String → Option String → List UpstreamConfig → List UpstreamConfig
set_first name value [] = []
set_first name value (u ∷ us) =
    let rest = set_first name value us in
    if u.name == name then record u { kind = put_secret value u.kind } ∷ us else u ∷ rest

unfoldable pub set_secret : Secret → Option String → Config → Config
set_secret bearer value cfg = record cfg { auth = record cfg.auth { bearer_token = value } }
set_secret tunnel value cfg = record cfg {
  publish = record cfg.publish { cloudflared = record cfg.publish.cloudflared { token = value } };
}
set_secret (upstream name) value cfg = record cfg { upstreams = set_first name value cfg.upstreams }

abbrev pub same_text : Option String → Option String → Bool
same_text none none = true
same_text (some a) (some b) = a == b
same_text _ _ = false

abbrev pub same_slot : Secret → Secret → Bool
same_slot bearer bearer = true
same_slot tunnel tunnel = true
same_slot (upstream a) (upstream b) = a == b
same_slot _ _ = false

abbrev pub put_back : List EnvSecret → Config → Config
put_back [] out = out
put_back (e ∷ es) out =
    put_back es (if same_text (secret e.slot out) e.env then set_secret e.slot e.file out else out)

-- The configuration as its file should hold it.
unfoldable pub for_disk : Config → Config
for_disk cfg = record (put_back cfg.from_env cfg) { from_env = [] }

abbrev or_else_text : Option String → String → String
or_else_text none d = d
or_else_text (some s) d = s

abbrev some_or : Option String → Option String → Option String
some_or none old = old
some_or (some v) old = some v

abbrev number_or : Option String → ℕ → ℕ
number_or none old = old
number_or (some v) old = elim (parse_unsigned (2 ^ 64 - 1) v) [ none ↦ old | some n ↦ n ]

abbrev signed : ℕ → Days
signed zero = days 0
signed (suc n) = days_negative n

-- `str::parse::<i64>`
abbrev parse_days : String → Option Days
parse_days s = elim (strip_prefix "-" s) [
  | none ↦ elim (parse_unsigned (2 ^ 63 - 1) s) [ none ↦ none | some n ↦ some (days n) ]
  | some r ↦ if is_number_up_to (2 ^ 63) r then some (signed (digits_value 0 r)) else none
]

abbrev days_or : Option String → Days → Days
days_or none old = old
days_or (some v) old = elim (parse_days v) [ none ↦ old | some n ↦ n ]

-- `trim_start_matches("https://").trim_end_matches('/')`
abbrev strip_scheme : ℕ → String → String
strip_scheme zero h = h
strip_scheme (suc n) h = elim (strip_prefix "https://" h) [
  | none ↦ h
  | some rest ↦ strip_scheme n rest
]

abbrev team : String → String
team v = trim_end_matches b'/' (strip_scheme (len v) v)

abbrev access_from : Option String → Option String → Option AccessConfig → Option AccessConfig
access_from (some t) (some aud) old = some (record { team_domain = team t; aud = aud })
access_from (some t) none (some a) = some (record a { team_domain = team t })
access_from none (some aud) (some a) = some (record a { aud = aud })
access_from _ _ old = old

abbrev list_or : Option String → List String → List String
list_or none old = old
list_or (some v) old = split_list v

abbrev via_named : String → PublishVia → PublishVia
via_named v old =
    if v == "none"
    then nowhere
    else if v == "auto"
    then auto
    else if v == "cloudflare"
    then cloudflare
    else if v == "tailscale"
    then tailscale
    else old

abbrev via_from : Option String → PublishVia → PublishVia
via_from none old = old
via_from (some v) old = via_named (to_ascii_lowercase v) old

module _ (var : String → Option String) where
  abbrev from_name : Option String → Option String
  from_name none = none
  from_name (some k) = var k

  abbrev kind_from : UpstreamKind → UpstreamKind
  kind_from (http h) = http (record h { token = or_else_text (from_name h.token_env) h.token })
  kind_from (mcp m) =
      mcp (record m { bearer_token = some_or (from_name m.token_env) m.bearer_token })

  abbrev pub upstream_from : UpstreamConfig → UpstreamConfig
  upstream_from u = record u { kind = kind_from u.kind }

  abbrev limited : Option String → ToolConfig → ToolConfig
  limited none t = t
  limited (some v) t = elim (parse_unsigned (2 ^ 64 - 1) v) [
    | none ↦ t
    | some n ↦ elim t.rate_limit [
      | none ↦ t
      | some rl ↦ record t { rate_limit = some (record rl { per_hour = max n 1 }) }
    ]
  ]

  unfoldable pub apply_env_values : Config → Config
  apply_env_values cfg = record cfg {
    listen_addr = or_else_text (var "LISTEN_ADDR") cfg.listen_addr;
    db_path = some_or (var "DB_PATH") cfg.db_path;
    approval_timeout_secs = number_or (var "APPROVAL_TIMEOUT_SECS") cfg.approval_timeout_secs;
    log_retention_days = days_or (var "LOG_RETENTION_DAYS") cfg.log_retention_days;
    auth = record cfg.auth {
      bearer_token = some_or (var "GATEHOUND_TOKEN") cfg.auth.bearer_token;
      access = access_from (var "CF_ACCESS_TEAM_DOMAIN") (var "CF_ACCESS_AUD") cfg.auth.access;
      allowed_identities = list_or (var "ALLOWED_EMAILS") cfg.auth.allowed_identities;
    };
    publish = record cfg.publish {
      via = via_from (var "PUBLISH_VIA") cfg.publish.via;
      cloudflared = record cfg.publish.cloudflared {
        token =
            some_or (var "CLOUDFLARE_TUNNEL_TOKEN")
              (some_or (from_name cfg.publish.cloudflared.token_env) cfg.publish.cloudflared.token);
      };
    };
    upstreams = map upstream_from cfg.upstreams;
    tools = map (limited (var "SEND_LIMIT_PER_HOUR")) cfg.tools;
  }

  -- What stood in each slot before, against what stands there now.
  abbrev pub remember : Config → List (Secret × Option String) → List EnvSecret → List EnvSecret
  remember now [] known = known
  remember now ((slot, file) ∷ rest) known = remember now rest (
      if not (same_text (secret slot now) file) && not (any (λ e. same_slot e.slot slot) known)
      then known ++ record { slot = slot; file = file; env = secret slot now } ∷ []
      else known)

  unfoldable pub apply_env_from : Config → Config
  apply_env_from cfg =
      let before = map (λ slot. (slot, secret slot cfg)) (secret_slots cfg) in
      let now = apply_env_values cfg in record now { from_env = remember now before now.from_env }
