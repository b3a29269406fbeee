-- ===== src/Config/Load.antt =====
-- crates/gatehound-core/src/config.rs: `Config::load`, the way from a file and the environment to a
-- configuration. Reading the file and parsing its TOML are arguments.
pub mod Loaded
use mcp_gatehound.Base.{
  String, Bool, true, false, not, ◌&&◌, Option, some, none, List, [], ◌∷◌, Result, ok, err, ◌>>=◌,
  is_empty, trim, if◌then◌else◌,
}
use mcp_gatehound.Config.Settings.{Config, default_config, default_bearer_identity}
use mcp_gatehound.Config.Environment.{apply_env_from}
use mcp_gatehound.Config.Validate.{Machine, Invalid, validate}
use mcp_gatehound.Scripts.Files.{FilePath, path_of, split_last}

pub data LoadError : Type 0 where
  unreadable unparsable : (text : String) → LoadError
  invalid : Invalid → LoadError

abbrev pub filled : Option String → Option String
filled none = none
filled (some v) = if is_empty (trim v) then none else some (trim v)

-- A variable of the environment, none where it is blank.
unfoldable pub env : (String → Option String) → String → Option String
env raw key = filled (raw key)

abbrev parent_or_here : Bool → Option (List String × String) → FilePath
parent_or_here absolute none = path_of "."
parent_or_here false (some ([], name)) = path_of "."
parent_or_here absolute (some (front, name)) = record { absolute = absolute; parts = front }

-- The directory that holds a file, the working directory where the file is named bare.
unfoldable pub dir_of : FilePath → FilePath
dir_of p = parent_or_here p.absolute (split_last p.parts)

-- The configuration before the environment, from a path with what came of reading and parsing it.
abbrev pub from_file : Option (FilePath × Result LoadError Config) → Result LoadError Config
from_file none = ok default_config
from_file (some (p, parsed)) = parsed >>= λ cfg. ok (record cfg { base_dir = some (dir_of p) })

-- A blank name for the holder of the token is no name.
abbrev pub with_identity : Config → Config
with_identity cfg =
    if is_empty (trim cfg.auth.bearer_identity)
    then record cfg { auth = record cfg.auth { bearer_identity = default_bearer_identity } }
    else cfg

abbrev checked : Machine → Config → Result LoadError Config
checked m cfg = elim (validate m cfg) [ ok warnings ↦ ok cfg | err e ↦ err (invalid e) ]

unfoldable pub load :
    Machine
    → (String → Option String)
    → Option (FilePath × Result LoadError Config)
    → Result LoadError Config
load m raw file = from_file file >>= λ cfg. checked m (with_identity (apply_env_from (env raw) cfg))
