-- ===== src/Publish/Argv.antt =====
-- What a publishing command shows to every user of the machine.
use mcp_gatehound.Base.{
  ℕ, String, Option, some, none, List, ◌≡◌, refl, Result, ok, err, Option-cases, inl, inr,
}
use mcp_gatehound.Base.Texts.{behind_last}
use mcp_gatehound.Config.Arguments.Numbers.{parse_unsigned}
use mcp_gatehound.Publish.{
  PublishVia, nowhere, auto, cloudflare, tailscale, CloudflareConfig, PublishConfig,
}
use mcp_gatehound.Publish.Launch.{Launch, NoPort, launch, launch_via}

abbrev argv_of : Option Launch → Option (String × List String × List String)
argv_of none = none
argv_of (some l) = some (l.program, l.args, l.stop_args)

-- The program and its arguments, to start and to stop: what a list of processes shows.
abbrev pub argv : Result NoPort (Option Launch) → Option (String × List String × List String)
argv (err e) = none
argv (ok o) = argv_of o

argv-via :
    (var else_var : String → Option String) (cfg : PublishConfig) (other : CloudflareConfig)
    (via : PublishVia) (port : ℕ)
    → argv_of (launch_via var cfg via port)
      ≡ argv_of (launch_via else_var (record cfg { cloudflared = other }) via port)
unfolding mcp_gatehound.Publish.Launch.program_for
argv-via var else_var cfg other nowhere port = refl
argv-via var else_var cfg other auto port = refl
argv-via var else_var cfg other cloudflare port = refl
argv-via var else_var cfg other tailscale port = refl

-- The command lines that publish and that undo it do not depend on the tunnel's token, on whether there
-- is one, or on anything in the environment that it is read from.
pub argv-launch :
    (var else_var : String → Option String) (cfg : PublishConfig) (other : CloudflareConfig)
    (addr : String)
    → argv (launch var cfg addr) ≡ argv (launch else_var (record cfg { cloudflared = other }) addr)
unfolding launch
argv-launch var else_var cfg other addr =
    elim (Option-cases (parse_unsigned 65535 (behind_last b':' addr))) [
      | inl bad ↦ rw (bad, launch) refl
      | inr (port, there) ↦ rw (there, launch) (argv-via var else_var cfg other cfg.via port)
    ]
