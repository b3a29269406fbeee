-- ===== src/Config.antt =====
-- crates/gatehound-core/src/config.rs: tools, their arguments and actions. `ExecSpec` stands in
-- Config, with `ScriptSpec` of crates/gatehound-core/src/scripts.rs.
pub mod Arguments
pub mod Description
pub mod Settings
pub mod Environment
pub mod Commands
pub mod Load
pub mod Validate
use mcp_gatehound.Base.{ℕ, String, Bool, true, false, Option, some, none, List, ◌==◌, find}
use mcp_gatehound.Json.{Value}

-- A second command for a call that takes too long.
pub record ExecFallback : Type 0 where
  pub after_secs : ℕ
  pub args : List String
  pub label : String

pub record ExecSpec : Type 0 where
  pub cmd : String
  pub args : List String
  pub stdin : Option String
  pub timeout_secs : ℕ
  pub max_output_bytes : ℕ
  pub max_concurrency : ℕ
  pub env : List (String × String)
  pub cwd : Option String
  pub fallback : Option ExecFallback

pub record ScriptSpec : Type 0 where
  pub script : String
  pub args : List String
  pub stdin : Option String
  pub timeout_secs : ℕ
  pub max_output_bytes : ℕ
  pub max_concurrency : ℕ
  pub env : List (String × String)
  pub cwd : Option String

pub data Action : Type 0 where
  proxy : (upstream op : String) → Action
  exec : ExecSpec → Action
  script : ScriptSpec → Action

unfoldable pub kind : Action → String
kind (proxy upstream op) = "proxy"
kind (exec spec) = "exec"
kind (script spec) = "script"

unfoldable pub upstream_of : Action → Option String
upstream_of (proxy upstream op) = some upstream
upstream_of _ = none

-- `Action::script`
unfoldable pub script_of : Action → Option String
script_of (script spec) = some spec.script
script_of _ = none

pub record RateLimit : Type 0 where
  pub per_hour : ℕ
  pub min_spacing_secs : ℕ

pub data ArgKind : Type 0 where
  string integer number boolean : ArgKind

pub record ArgumentDef : Type 0 where
  pub name : String
  pub description : String
  pub required : Bool
  pub kind : ArgKind

pub record ToolConfig : Type 0 where
  pub name : String
  pub description : String
  pub arguments : List ArgumentDef
  pub input_schema : Option Value
  pub action : Action
  pub rate_limit : Option RateLimit
  pub idempotent : Bool
  pub read_only : Bool

-- `Config::tool`
unfoldable pub tool : List ToolConfig → String → Option ToolConfig
tool tools name = find (λ t. t.name == name) tools

abbrev pub idempotency_key : String
idempotency_key = "idempotency_key"
