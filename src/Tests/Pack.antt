-- ===== src/Tests/Pack.antt =====
-- The import of a pack with one upstream, and its export.
use mcp_gatehound.Pack.Merge.{consent}
use mcp_gatehound.Pack.{carries_scripts}
use mcp_gatehound.Config.Validate.{validate}
use mcp_gatehound.Publish.{carries_a_factor, check, intended_reach}
use mcp_gatehound.Base.{
  ℕ, String, Bool, true, false, some, none, List, [], ◌∷◌, ◌≡◌, refl, is_some, ◌⊎◌,
}
use mcp_gatehound.Config.{ToolConfig, proxy}
use mcp_gatehound.Config.Settings.{Config, UpstreamConfig, http, default_config, default_auth}
use mcp_gatehound.Publish.{default_publish, nowhere}
use mcp_gatehound.Scripts.{python3}
use mcp_gatehound.Scripts.Files.{Disk}
use mcp_gatehound.Upstreams.Http.{bearer}
use mcp_gatehound.Pack.{Pack, upstreams_checked}
use mcp_gatehound.Pack.Merge.{ImportOptions, merge}
use mcp_gatehound.Pack.Merge.Kept.{Imported, merge-Imported}
use mcp_gatehound.Pack.Merge.Consent.{IsConsented, merge-IsConsented}
use mcp_gatehound.Pack as Pack
use mcp_gatehound.Config.Validate.{Machine}

abbrev notes : UpstreamConfig
notes = record {
  name = "notes";
  kind = http (record {
    base_url = "http://127.0.0.1/";
    auth = bearer;
    token = "";
    token_env = some "GATEHOUND_NOTES_TOKEN";
    ops = [];
    timeout_secs = 30;
    health_path = none;
  });
}

abbrev with_secret : UpstreamConfig
with_secret = record {
  name = "notes";
  kind = http (record {
    base_url = "http://127.0.0.1/";
    auth = bearer;
    token = "s3cret";
    token_env = none;
    ops = [];
    timeout_secs = 30;
    health_path = none;
  });
}

abbrev parcel : Pack
parcel = record {
  meta = record { name = "notes"; description = ""; version = "1"; requires_env = [] };
  upstreams = notes ∷ [];
  tools = [];
  identities = [];
  scripts = [];
}

abbrev with_script : Pack
with_script = record parcel {
  scripts =
      record {
        name = "go";
        interpreter = python3;
        source = "print(1)";
        sha256 = "";
        description = "";
      }
      ∷ [];
}

abbrev cfg : Config
cfg = record default_config {
  auth = record default_auth { bearer_token = some "0123456789abcdef" };
  publish = record default_publish { via = nowhere };
}

abbrev disk : Disk
disk = record { canonical = λ p. none; is_directory = λ p. false; texts = [] }

abbrev digest : List ℕ → String
digest bs = ""

abbrev resolves : String → Bool
resolves cmd = false

abbrev options : ImportOptions
options = record {
  replace = false;
  base_dir = none;
  allow_scripts = false;
  allow_dangerous_scripts = false;
}

merge-Imported_example :
    Imported digest resolves parcel options cfg refl
      (merge digest resolves cfg disk parcel options).1
unfolding merge consent carries_scripts default_config validate default_auth check carries_a_factor
    intended_reach
merge-Imported_example = merge-Imported digest resolves parcel options cfg refl disk refl

merge-IsConsented_example :
    IsConsented digest resolves with_script options
    ⊎ ((is_some (merge digest resolves cfg disk with_script options).0 ≡ true)
        × (((merge digest resolves cfg disk with_script options).1.config ≡ cfg)
            × ((merge digest resolves cfg disk with_script options).1.disk ≡ disk)))
merge-IsConsented_example = merge-IsConsented digest resolves with_script options cfg disk

abbrev look : ToolConfig
look = record {
  name = "look";
  description = "";
  arguments = [];
  input_schema = none;
  action = proxy "notes" "look";
  rate_limit = none;
  idempotent = false;
  read_only = true;
}

abbrev serving : UpstreamConfig
serving = record {
  name = "notes";
  kind = http (record {
    base_url = "http://127.0.0.1/";
    auth = bearer;
    token = "s3cret";
    token_env = none;
    ops = ("look", record { method = "GET"; path = "/"; query = []; body = none }) ∷ [];
    timeout_secs = 30;
    health_path = none;
  });
}

abbrev full : Config
full = record cfg { upstreams = serving ∷ []; tools = look ∷ [] }

abbrev shared : UpstreamConfig
shared = record {
  name = "notes";
  kind = http (record {
    base_url = "http://127.0.0.1/";
    auth = bearer;
    token = "";
    token_env = some "GATEHOUND_NOTES_TOKEN";
    ops = ("look", record { method = "GET"; path = "/"; query = []; body = none }) ∷ [];
    timeout_secs = 30;
    health_path = none;
  });
}

abbrev exported : Pack
exported = record parcel {
  meta = record {
    name = "notes";
    description = "";
    version = "1";
    requires_env = "GATEHOUND_NOTES_TOKEN" ∷ [];
  };
  upstreams = shared ∷ [];
  tools = look ∷ [];
}

abbrev machine : Machine
machine = record { digest = digest; disk = disk; resolves = resolves }
