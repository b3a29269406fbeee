-- ===== src/Tests/Publish.antt =====
-- A machine on a tailnet, and one behind a named tunnel.
use mcp_gatehound.Publish.{carries_a_factor}
use mcp_gatehound.Base.{true, false, String, Option, some, none, List, [], ◌∷◌, ◌≢◌, refl}
use mcp_gatehound.Config.Settings.{default_auth}
use mcp_gatehound.Publish.{
  PublishConfig, CloudflareConfig, tailscale, cloudflare, intended_reach, check, second_factor_of,
  nothing,
}
use mcp_gatehound.Publish.Publisher.{Step, Backend, runs, starts, is_asked, new, run, reach_of}
use mcp_gatehound.Publish.Guarded.{run-guarded}
use mcp_gatehound.Publish.Reached.{Sound, run-new-Sound}

abbrev tailnet_only : PublishConfig
tailnet_only = record {
  via = tailscale;
  binary = none;
  cloudflared = record { token_env = none; token = none; hostname = none };
  tailscaled = record { https_port = 443; funnel = false };
}

abbrev no_var : String → Option String
no_var = λ name. none

abbrev served : Backend
served = runs (record {
  lines = [];
  in_window = some "0";
  success = true;
  status = "0";
  stderr = "";
  answer = none;
})

abbrev steps : List Step
steps = starts served ∷ is_asked none ∷ []

run-new-Sound_example :
    Sound
      (intended_reach tailnet_only)
      (run no_var steps (new tailnet_only "127.0.0.1:8790")).state
      (run no_var steps (new tailnet_only "127.0.0.1:8790")).child
run-new-Sound_example = run-new-Sound no_var tailnet_only "127.0.0.1:8790" steps

run-guarded_example :
    second_factor_of default_auth.access
      (reach_of (run no_var steps (new tailnet_only "127.0.0.1:8790")).state)
    ≢ nothing
unfolding check carries_a_factor intended_reach
run-guarded_example = run-guarded no_var tailnet_only default_auth "127.0.0.1:8790" steps refl

abbrev tunnel : PublishConfig
tunnel = record tailnet_only { via = cloudflare }

abbrev with_token : CloudflareConfig
with_token = record { token_env = none; token = some "t"; hostname = none }
