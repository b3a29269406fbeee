-- ===== src/Gateway.antt =====
-- crates/gatehound-core/src/lib.rs: the gateway as a whole, from its start to its stop, with
-- `ActionEngine::build` of crates/gatehound-core/src/actions/mod.rs and the status of
-- crates/gatehound-core/src/events.rs. Sockets and timers are not here: each step of the health monitor and
-- the pruner is a function.
pub mod Shell
pub mod Seeded
pub mod Announced
pub mod Engine
pub mod Secretive
pub mod Timely
use mcp_gatehound.Base.{
  ℕ, ◌*◌, ◌+++◌, String, Bool, true, false, Option, some, none, List, [], ◌∷◌, ◌==◌, ◌++◌, Result,
  ok, err, ◌>>=◌, or_fail, map, min, max, any, guard, ◌>>◌, is_some, not, if◌then◌else◌,
}
use mcp_gatehound.Json.{Value, obj}
use mcp_gatehound.Config.{ToolConfig, Action, proxy, exec, script, RateLimit, ExecSpec, ScriptSpec}
use mcp_gatehound.Config.Settings.{Config, IdentitySeed, UpstreamConfig, find_script, script_dir}
use mcp_gatehound.Config.Validate.{Machine, Invalid, validate}
use mcp_gatehound.Config.Description.{joined}
use mcp_gatehound.Store.{Db, Conn, RequestLog}
use mcp_gatehound.Store.Pending.{clear_pending}
use mcp_gatehound.Store.Rules.{seed_decision}
use mcp_gatehound.Store.Requests.{get_request, recent_requests, recent_calls}
use mcp_gatehound.Auth.Access.{Jose}
use mcp_gatehound.Auth.Factors.{Authenticator, with_tokens}
use mcp_gatehound.Auth.Factors as Factors
use mcp_gatehound.Approval.{ApprovalQueue}
use mcp_gatehound.Approval as Queue
use mcp_gatehound.Policy as Rules
use mcp_gatehound.Actions.Limits.{RateLimiter}
use mcp_gatehound.Actions.Limits as Limits
use mcp_gatehound.Actions.Exec.Run.{ExecRunner, with_arguments, withholding, within}
use mcp_gatehound.Scripts.{ScriptDef, ScriptError}
use mcp_gatehound.Scripts.Files.{lower}
use mcp_gatehound.Mcp.{Gateway, Course, CallOutcome, debug}
use mcp_gatehound.Mcp.Call.{run_call}

pub data GatewayStatus : Type 0 where
  listening paused degraded : GatewayStatus

unfoldable pub colour : GatewayStatus → String
colour listening = "ok"
colour paused = "paused"
colour degraded = "degraded"

abbrev pub same_status : GatewayStatus → GatewayStatus → Bool
same_status listening listening = true
same_status paused paused = true
same_status degraded degraded = true
same_status _ _ = false

-- The status with what was announced of it, the latest first.
pub record Shown : Type 0 where
  pub status : GatewayStatus
  pub unhealthy : List String
  pub announced : List (GatewayStatus × Option String)

abbrev pub at_start : Shown
at_start = record { status = paused; unhealthy = []; announced = [] }

unfoldable pub set_status : GatewayStatus → Option String → Shown → Shown
set_status status detail s =
    if same_status s.status status
    then s
    else record s { status = status; announced = (status, detail) ∷ s.announced }

abbrev noticed : List String → Shown → Shown
noticed [] s = set_status listening none s
noticed (u ∷ us) s = set_status degraded (some ("not answering: " +++ joined (u ∷ us))) s

-- One round of the health monitor, with the upstreams that do not answer.
unfoldable pub check_health : List String → Shown → Shown
check_health down s = noticed down (record s { unhealthy = down })

-- What its runtime does to the status: the listener comes up, a round of the monitor, the stop.
pub data Turn : Type 0 where
  comes_up : Turn
  looks : (down : List String) → Turn
  is_stopped : Turn

unfoldable pub turn : Turn → Shown → Shown
turn comes_up s = set_status listening none s
turn (looks down) s = check_health down s
turn is_stopped s = set_status paused (some "stopped") s

abbrev pub turns : List Turn → Shown → Shown
turns [] s = s
turns (t ∷ ts) s = turns ts (turn t s)

pub data BuildError : Type 0 where
  refused : Invalid → BuildError
  no_bearer : (text : String) → BuildError
  no_client : (upstream text : String) → BuildError
  upstream_twice : (name : String) → BuildError
  not_registered : (tool script : String) → BuildError
  unplaced : ScriptError → BuildError

pub record ActionEngine : Type 0 where
  pub execs : List (String × ExecRunner)
  pub limits : List (String × RateLimiter)

abbrev pub seconds : Option ℕ → Option ℕ
seconds none = none
seconds (some s) = some (s * 1000)

abbrev pub listed : Option String → List String
listed none = []
listed (some s) = s ∷ []

module _ (m : Machine) (cfg : Config) where
  -- A tool's runner, with what it may not see and the gateway's deadline.
  abbrev pub runner_of : ToolConfig → ExecSpec → ExecRunner
  runner_of t spec =
      within (seconds cfg.call_deadline_secs)
        (withholding (listed cfg.publish.cloudflared.token_env) (with_arguments spec t.arguments))

  abbrev pub lowered : ToolConfig → ScriptSpec → Option ScriptDef → Result BuildError ExecSpec
  lowered t spec none = err (not_registered t.name spec.script)
  lowered t spec (some def) = elim (lower m.disk.canonical m.resolves spec def (script_dir cfg)) [
    | ok spec' ↦ ok spec'
    | err e ↦ err (unplaced e)
  ]

  abbrev pub exec_of : ToolConfig → Action → Result BuildError (List (String × ExecRunner))
  exec_of t (exec spec) = ok ((t.name, runner_of t spec) ∷ [])
  exec_of t (script spec) = lowered t spec (find_script cfg.scripts spec.script) >>= λ spec'.
      ok ((t.name, runner_of t spec') ∷ [])
  exec_of t (proxy upstream op) = ok []

  abbrev limit_of : String → Option RateLimit → List (String × RateLimiter)
  limit_of name none = []
  limit_of name (some limit) = (name, Limits.new limit) ∷ []

  abbrev pub with_tool : ToolConfig → List (String × ExecRunner) → ActionEngine → ActionEngine
  with_tool t execs e = record {
    execs = execs ++ e.execs;
    limits = limit_of t.name t.rate_limit ++ e.limits;
  }

  abbrev pub engine_of : List ToolConfig → Result BuildError ActionEngine
  engine_of [] = ok (record { execs = []; limits = [] })
  engine_of (t ∷ ts) =
      let rest = engine_of ts in
      exec_of t t.action >>= λ execs. rest >>= λ e. ok (with_tool t execs e)

-- `Upstreams::from_config`; what it takes to set up a client is an argument, its refusal a text.
abbrev pub upstreams_from :
    (UpstreamConfig → Option String)
    → List String
    → List UpstreamConfig
    → Result BuildError (Unit {0})
upstreams_from refusal seen [] = ok tt
upstreams_from refusal seen (u ∷ us) =
    let rest = upstreams_from refusal (u.name ∷ seen) us in
    elim (refusal u) [
      | some text ↦ err (no_client u.name text)
      | none ↦ guard (not (any (λ n. n == u.name) seen)) (upstream_twice u.name) >> rest
    ]

-- The engine's maps: the last of a name is the one that is there, and a configuration names each once.
unfoldable pub build_engine :
    (UpstreamConfig → Option String) → Machine → Config → Result BuildError ActionEngine
build_engine refusal m cfg = upstreams_from refusal [] cfg.upstreams >> engine_of m cfg cfg.tools

abbrev pub limiter_in : List (String × RateLimiter) → String → Option RateLimiter
limiter_in [] name = none
limiter_in ((n, l) ∷ more) name = if n == name then some l else limiter_in more name

abbrev pub seed_all : ℕ → List IdentitySeed → Db → Db
seed_all now [] db = db
seed_all now (s ∷ more) db = seed_all now more (seed_decision now s.identity s.tool s.decision db)

module _ (j : Jose) (digest : String → String) where
  pub record Whole : Type 0 where
    pub cfg : Config
    pub gateway : Gateway
    pub auth : Authenticator j digest
    pub engine : ActionEngine
    pub shown : Shown

  abbrev authenticator : Config → Conn → Result BuildError (Authenticator j digest)
  authenticator cfg store = elim (Factors.new j digest cfg.auth) [
    | ok a ↦ ok (with_tokens j digest store a)
    | err text ↦ err (no_bearer text)
  ]

  abbrev assembled : Config → ℕ → Conn → Authenticator j digest → ActionEngine → Whole
  assembled cfg now store auth engine = record {
    cfg = cfg;
    gateway = record {
      tools = cfg.tools;
      call_deadline_secs = cfg.call_deadline_secs;
      default = (Rules.new store).default;
      queue = Queue.new store cfg.approval_timeout_secs;
      limits = limiter_in engine.limits;
      now_ms = now * 1000;
      acts = 0;
    };
    auth = auth;
    engine = engine;
    shown = at_start;
  }

  -- What the database holds once the gateway has opened it.
  abbrev pub opened : ℕ → Config → Db → Db
  opened now cfg db = seed_all now cfg.identities (clear_pending db).1

  -- The gateway, or why there is none, and the database behind it.
  unfoldable pub build :
      (UpstreamConfig → Option String) → Machine → ℕ → Config → Db → Result BuildError Whole × Db
  build refusal m now cfg db = elim (validate m cfg) [
    | err e ↦ (err (refused e), db)
    | ok warnings ↦ (
      authenticator cfg (record { db = opened now cfg db; up = true }) >>= λ auth.
          build_engine refusal m cfg >>= λ engine.
          ok (assembled cfg now (record { db = opened now cfg db; up = true }) auth engine),
      opened now cfg db,
    )
  ]
