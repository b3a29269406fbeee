-- ===== src/Tests/Settings.antt =====
-- A configuration with one upstream that takes its credential from the environment.
use mcp_gatehound.Config.Load.{dir_of}
use mcp_gatehound.Config.Environment.{apply_env_values}
use mcp_gatehound.Config.Validate.{validate_arguments}
use mcp_gatehound.Config.Settings.{find_upstream}
use mcp_gatehound.Publish.{carries_a_factor, check, intended_reach}
use mcp_gatehound.Config.Environment.{secret_slots}
use mcp_gatehound.Base.{String, Option, false, some, none, [], ◌∷◌, ◌==◌, ◌≡◌, refl, if◌then◌else◌}
use mcp_gatehound.Decision.{allow}
use mcp_gatehound.Config.{ToolConfig, proxy}
use mcp_gatehound.Config.Settings.{
  Config, UpstreamConfig, mcp, upstream, default_config, default_auth,
}
use mcp_gatehound.Config.Environment.{secret, for_disk, apply_env_from}
use mcp_gatehound.Config.Load.{LoadError, env, with_identity, load}
use mcp_gatehound.Config.Load.Loaded.{IsLoaded, load-IsLoaded}
use mcp_gatehound.Scripts.Files.{FilePath, path_of}
use mcp_gatehound.Base.{Result, ok}
use mcp_gatehound.Config.Validate.{Machine, validate}
use mcp_gatehound.Config.Validate.Accepted.{IsAccepted, validate-IsAccepted}
use mcp_gatehound.Publish.{default_publish, nowhere}

abbrev notes : UpstreamConfig
notes = record {
  name = "notes";
  kind = mcp (record { url = "http://127.0.0.1/"; bearer_token = none; token_env = some "NOTES" });
}

abbrev put : ToolConfig
put = record {
  name = "put";
  description = "";
  arguments = [];
  input_schema = none;
  action = proxy "notes" "put";
  rate_limit = none;
  idempotent = false;
  read_only = false;
}

abbrev cfg : Config
cfg = record default_config {
  auth = record default_auth { bearer_token = some "0123456789abcdef" };
  upstreams = notes ∷ [];
  tools = put ∷ [];
  identities = record { identity = "bot"; tool = "put"; decision = allow } ∷ [];
  publish = record default_publish { via = nowhere };
}

abbrev machine : Machine
machine = record {
  digest = λ bs. "";
  disk = record { canonical = λ p. none; is_directory = λ p. false; texts = [] };
  resolves = λ cmd. false;
}

validate-IsAccepted_example : IsAccepted machine cfg []
unfolding validate default_auth default_config validate_arguments find_upstream check
    carries_a_factor intended_reach
validate-IsAccepted_example = validate-IsAccepted machine cfg [] refl

abbrev var : String → Option String
var name = if name == "NOTES" then some "secret" else none

abbrev source : Option (FilePath × Result LoadError Config)
source = some (path_of "/srv/gatehound.toml", ok cfg)

abbrev file : Config
file = record cfg { base_dir = some (path_of "/srv") }

abbrev loaded : Config
loaded = with_identity (apply_env_from (env var) file)

load-IsLoaded_example :
    IsLoaded machine var file loaded
    × (secret (upstream "notes") (for_disk loaded) ≡ secret (upstream "notes") file)
unfolding dir_of load validate apply_env_from apply_env_values default_auth env default_config
    validate_arguments find_upstream check carries_a_factor intended_reach secret_slots
load-IsLoaded_example =
    load-IsLoaded machine var source file loaded (upstream "notes") refl refl refl refl
