-- ===== src/Tests/Gateway.antt =====
-- The start of a gateway with one command and one seed.
use mcp_gatehound.Config.Validate.{validate_arguments}
use mcp_gatehound.Publish.{carries_a_factor, check, intended_reach}
use mcp_gatehound.Actions.Exec.Run.{gateway_secret_vars, with_arguments, withholding, within}
use mcp_gatehound.Base.{
  ◌≤◌, String, Option, true, false, some, none, List, [], ◌∷◌, ◌≡◌, refl, ok, All, or_else,
}
use mcp_gatehound.Decision.{deny}
use mcp_gatehound.Auth.Access.{Jose}
use mcp_gatehound.Config.{ToolConfig, ExecSpec, exec}
use mcp_gatehound.Config.Settings.{Config, UpstreamConfig, default_config, default_auth}
use mcp_gatehound.Config.Validate.{Machine, validate}
use mcp_gatehound.Publish.{default_publish, nowhere}
use mcp_gatehound.Store.{Db, empty_db}
use mcp_gatehound.Store.Rules.{select_decision}
use mcp_gatehound.Actions.Exec.{get_var}
use mcp_gatehound.Actions.Exec.Run.{ExecRunner, Process, process, run, set_all, child_env}
use mcp_gatehound.Gateway.{ActionEngine, build, build_engine}
use mcp_gatehound.Gateway.Seeded.{first_seed, SameRest, select-build}
use mcp_gatehound.Gateway.Secretive.{super_token, engine-Secretive}
use mcp_gatehound.Gateway.Timely.{engine-InTime}

abbrev jose : Jose
jose = record {
  JwkSet = String;
  Jwk = String;
  Key = String;
  find_jwk = λ set kid. none;
  header_kid = λ token. none;
  decoding_key = λ jwk. none;
  decode = λ now token key audience issuer leeway. none;
}

abbrev digest : String → String
digest s = s

abbrev search : ExecSpec
search = record {
  cmd = "search";
  args = "{q}" ∷ [];
  stdin = none;
  timeout_secs = 120;
  max_output_bytes = 4096;
  max_concurrency = 1;
  env = [];
  cwd = none;
  fallback = some (record { args = "{q}" ∷ []; after_secs = 20; label = "cached" });
}

abbrev search_tool : ToolConfig
search_tool = record {
  name = "search";
  description = "";
  arguments = [];
  input_schema = none;
  action = exec search;
  rate_limit = none;
  idempotent = false;
  read_only = true;
}

abbrev cfg : Config
cfg = record default_config {
  auth = record default_auth { bearer_token = some "0123456789abcdef" };
  call_deadline_secs = some 55;
  tools = search_tool ∷ [];
  identities = record { identity = "bot"; tool = "search"; decision = deny } ∷ [];
  publish = record default_publish { via = nowhere };
}

abbrev machine : Machine
machine = record {
  digest = λ bs. "";
  disk = record { canonical = λ p. none; is_directory = λ p. false; texts = [] };
  resolves = λ cmd. true;
}

abbrev no_refusal : UpstreamConfig → Option String
no_refusal u = none

abbrev runner : ExecRunner
runner = record {
  spec = search;
  declared = [];
  withheld = "GATEHOUND_TOKEN" ∷ "CLOUDFLARE_TUNNEL_TOKEN" ∷ [];
  deadline = some 55000;
}

abbrev engine : ActionEngine
engine = record { execs = ("search", runner) ∷ []; limits = [] }

abbrev never : List String → Option String → Process
never argv stdin = process none [] [] 0

abbrev ruled : Db
ruled = record empty_db {
  identities =
      record {
        identity = "bot";
        tool = "search";
        decision = "allow";
        created_at = 1;
        updated_at = 1;
      }
      ∷ [];
}

valid : validate machine cfg ≡ ok []
unfolding validate default_auth default_config validate_arguments check carries_a_factor
    intended_reach
valid = refl

built : build_engine no_refusal machine cfg ≡ ok engine
unfolding build_engine default_config within withholding with_arguments default_publish
    gateway_secret_vars
built = refl

engine-InTime_example :
    All
      (λ ((name, r) : String × ExecRunner). (run r (("q", "cats") ∷ []) 1000 never).1 ≤ 55000)
      engine.execs
engine-InTime_example =
    engine-InTime machine cfg 55 refl refl (("q", "cats") ∷ []) 1000 never no_refusal engine []
      valid built

abbrev no_path : String → Option String
no_path p = none

abbrev inherited : List (String × String)
inherited = ("GATEHOUND_TOKEN", "0123456789abcdef") ∷ []

engine-Secretive_example :
    All
      (λ ((n, r) : String × ExecRunner).
        get_var "GATEHOUND_TOKEN" (child_env r no_path inherited)
        ≡ get_var "GATEHOUND_TOKEN" (set_all r r.spec.env []))
      engine.execs
engine-Secretive_example =
    engine-Secretive no_refusal machine cfg engine "GATEHOUND_TOKEN" no_path inherited built
      super_token

select-build_example :
    (select_decision (build jose digest no_refusal machine 9 cfg ruled).1.identities "bot" "search"
      ≡ or_else
          (select_decision ruled.identities "bot" "search")
          (first_seed cfg.identities "bot" "search"))
    × SameRest (build jose digest no_refusal machine 9 cfg ruled).1 (record ruled { pending = [] })
select-build_example =
    select-build jose digest no_refusal machine 9 cfg ruled [] "bot" "search" valid
