-- ===== src/Config/Settings.antt =====
-- crates/gatehound-core/src/config.rs: a whole configuration, its upstreams, seeds and defaults.
use mcp_gatehound.Base.{ℕ, String, Option, some, none, List, [], ◌==◌, find}
use mcp_gatehound.Decision.{Decision}
use mcp_gatehound.Config.{ToolConfig}
use mcp_gatehound.Auth.Factors.{AuthConfig}
use mcp_gatehound.Publish.{PublishConfig, default_publish}
use mcp_gatehound.Scripts.{ScriptDef}
use mcp_gatehound.Scripts.Files.{FilePath, path_of}
use mcp_gatehound.Upstreams.Http.{HttpAuth, HttpOp}

pub record HttpSettings : Type 0 where
  pub base_url : String
  pub auth : HttpAuth
  pub token : String
  pub token_env : Option String
  pub ops : List (String × HttpOp)
  pub timeout_secs : ℕ
  pub health_path : Option String

pub record McpSettings : Type 0 where
  pub url : String
  pub bearer_token : Option String
  pub token_env : Option String

pub data UpstreamKind : Type 0 where
  http : HttpSettings → UpstreamKind
  mcp : McpSettings → UpstreamKind

pub record UpstreamConfig : Type 0 where
  pub name : String
  pub kind : UpstreamKind

pub record IdentitySeed : Type 0 where
  pub identity : String
  pub tool : String
  pub decision : Decision

-- Where a credential stands.
pub data Secret : Type 0 where
  bearer tunnel : Secret
  upstream : (name : String) → Secret

-- One credential that the environment supplied, with what the file held.
pub record EnvSecret : Type 0 where
  pub slot : Secret
  pub file : Option String
  pub env : Option String

-- A signed number of days; `days_negative n` is -(n + 1).
pub data Days : Type 0 where
  days days_negative : ℕ → Days

pub record Config : Type 0 where
  pub listen_addr : String
  pub db_path : Option String
  pub approval_timeout_secs : ℕ
  pub call_deadline_secs : Option ℕ
  pub log_retention_days : Days
  pub server_name : String
  pub auth : AuthConfig
  pub upstreams : List UpstreamConfig
  pub tools : List ToolConfig
  pub identities : List IdentitySeed
  pub scripts : List ScriptDef
  pub publish : PublishConfig
  pub base_dir : Option FilePath
  pub from_env : List EnvSecret

abbrev pub default_bearer_identity : String
default_bearer_identity = "bearer"

unfoldable pub default_auth : AuthConfig
default_auth = record {
  bearer_token = none;
  access = none;
  allowed_identities = [];
  bearer_identity = default_bearer_identity;
}

unfoldable pub default_config : Config
default_config = record {
  listen_addr = "127.0.0.1:8790";
  db_path = none;
  approval_timeout_secs = 60;
  call_deadline_secs = none;
  log_retention_days = days 30;
  server_name = "mcp-gatehound";
  auth = default_auth;
  upstreams = [];
  tools = [];
  identities = [];
  scripts = [];
  publish = default_publish;
  base_dir = none;
  from_env = [];
}

unfoldable pub find_upstream : List UpstreamConfig → String → Option UpstreamConfig
find_upstream us name = find (λ u. u.name == name) us

unfoldable pub find_script : List ScriptDef → String → Option ScriptDef
find_script ds name = find (λ d. d.name == name) ds

abbrev or_here : Option FilePath → FilePath
or_here none = path_of "."
or_here (some p) = p

unfoldable pub script_dir : Config → FilePath
script_dir cfg = or_here cfg.base_dir
