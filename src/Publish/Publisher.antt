-- ===== src/Publish/Publisher.antt =====
-- crates/gatehound-core/src/publish.rs: `Publisher`, the backend that runs while the gateway is up. What a
-- child process does is the argument of the step in which it does it.
use mcp_gatehound.Base.{
  ℕ, zero, suc, len, String, Bool, true, false, not, ◌||◌, Option, some, none, List, [], ◌∷◌, ◌+++◌,
  ◌==◌, Result, ok, err, is_empty, trim, strip_prefix, to_ascii_lowercase, contains_text,
  if◌then◌else◌,
}
use mcp_gatehound.Json.{Value}
use mcp_gatehound.Publish.{Reach, loopback, PublishConfig, as_str}
use mcp_gatehound.Publish.Launch.{
  Launch, Lifetime, daemon, configures, NoPort, no_port, launch, tailscale_url,
}

pub record Published : Type 0 where
  pub via : String
  pub reach : Reach
  pub url : Option String
  pub confirmed : Bool

pub data PublishState : Type 0 where
  not_published : PublishState
  published : Published → PublishState
  failed : (via error : String) → PublishState

unfoldable pub reach_of : PublishState → Reach
reach_of (published p) = p.reach
reach_of _ = loopback

-- What a backend says once it carries traffic.
unfoldable pub ready_marker : String → Option String
ready_marker via = if via == "cloudflare" then some "registered tunnel connection" else none

-- `child` is there while a process is owned.
pub record Publisher : Type 0 where
  pub cfg : PublishConfig
  pub listen_addr : String
  pub child : Bool
  pub state : PublishState
  pub last_line : Option String
  pub ready : Bool

unfoldable pub new : PublishConfig → String → Publisher
new cfg listen_addr = record {
  cfg = cfg;
  listen_addr = listen_addr;
  child = false;
  state = not_published;
  last_line = none;
  ready = false;
}

abbrev is_marked : Option String → String → Bool
is_marked none line = false
is_marked (some marker) line = contains_text marker (to_ascii_lowercase line)

-- One line of the backend's standard error.
unfoldable pub drain_line : String → String → Publisher → Publisher
drain_line via raw p =
    let line = trim raw in
    if is_empty line
    then p
    else record p { last_line = some line; ready = p.ready || is_marked (ready_marker via) line }

abbrev pub drain : String → List String → Publisher → Publisher
drain via [] p = p
drain via (line ∷ more) p = drain via more (drain_line via line p)

abbrev pub set : PublishState → Publisher → Publisher
set next p = record p { state = next }

-- What a process does that was spawned: the lines that it writes in the daemon's window and the status by
-- which it ended there, if it did; for a command that is waited for, how it ended; and what Tailscale
-- answers when it is asked for its status.
pub record Run : Type 0 where
  pub lines : List String
  pub in_window : Option String
  pub success : Bool
  pub status : String
  pub stderr : String
  pub answer : Option Value

pub data Backend : Type 0 where
  cannot_run : (error : String) → Backend
  runs : Run → Backend

abbrev why_failed : String → String → String
why_failed status stderr = if is_empty (trim stderr) then "exited " +++ status else trim stderr

abbrev said : String → String → Option String → String
said status between none = between +++ "(" +++ status +++ ")"
said status between (some line) = between +++ "(" +++ status +++ "): " +++ line

-- `trim_start_matches("https://")`
abbrev trim_scheme : ℕ → String → String
trim_scheme zero h = h
trim_scheme (suc n) h = elim (strip_prefix "https://" h) [
  | none ↦ h
  | some rest ↦ trim_scheme n rest
]

abbrev without_scheme : String → String
without_scheme h = trim_scheme (len h) h

abbrev public_url : Option String → Option String
public_url none = none
public_url (some h) = some ("https://" +++ without_scheme h +++ "/mcp")

-- `discover_url`, by the status that Tailscale answered with
unfoldable pub discover_url : PublishConfig → Launch → Option Value → Option String
discover_url cfg l none = none
discover_url cfg l (some status) =
    if not (l.via == "tailscale") then none else tailscale_url status cfg.tailscaled.https_port

-- The command has run to its end.
abbrev pub configured : Launch → Backend → Publisher → PublishState
configured l (cannot_run e) p = failed l.via ("could not run: " +++ e)
configured l (runs r) p =
    if not r.success
    then failed l.via (why_failed r.status r.stderr)
    else published (record {
      via = l.via;
      reach = l.reach;
      url = discover_url p.cfg l r.answer;
      confirmed = true;
    })

-- The daemon's window is over.
abbrev pub watched : Launch → Option String → Publisher → Publisher
watched l (some status) p = set (failed l.via (said status "exited immediately " p.last_line)) p
watched l none p =
    set
      (published (record {
        via = l.via;
        reach = l.reach;
        url = public_url p.cfg.cloudflared.hostname;
        confirmed = p.ready;
      }))
      (record p { child = true })

abbrev pub spawn : Launch → Backend → Publisher → Publisher
spawn l (cannot_run e) p = set (failed l.via ("could not start: " +++ e)) p
spawn l (runs r) p = watched l r.in_window (drain l.via r.lines (record p { ready = false }))

abbrev pub launched : Lifetime → Launch → Backend → Publisher → Publisher
launched configures l b p = set (configured l b p) p
launched daemon l b p = spawn l b p

abbrev pub started : Backend → Publisher → Result NoPort (Option Launch) → Publisher
started b p (ok none) = set not_published p
started b p (ok (some l)) = launched l.lifetime l b p
started b p (err (no_port addr)) =
    set (failed (as_str p.cfg.via) ("listen_addr '" +++ addr +++ "' has no port to publish")) p

unfoldable pub start : (String → Option String) → Backend → Publisher → Publisher
start var b p = started b p (launch var p.cfg p.listen_addr)

abbrev pub confirmed_now : Bool → PublishState → PublishState
confirmed_now ready (published q) = published (record q { confirmed = q.confirmed || ready })
confirmed_now ready s = s

abbrev exited : String → Option String → String
exited status none = "the backend exited (" +++ status +++ "); the gateway is loopback only"
exited status (some line) =
    "the backend exited (" +++ status +++ "); the gateway is loopback only. Last it said: " +++ line

abbrev pub gave_up : String → Option String → PublishState → PublishState
gave_up status line (published q) = failed q.via (exited status line)
gave_up status line s = s

-- What is true now: `ended` is the status of a process that has exited since, where one is owned.
unfoldable pub ask_state : Option String → Publisher → Publisher
ask_state none p = set (confirmed_now p.ready p.state) p
ask_state (some status) p =
    if p.child
    then record p {
      child = false;
      state = gave_up status p.last_line (confirmed_now p.ready p.state);
    }
    else set (confirmed_now p.ready p.state) p

-- A daemon is killed, and a configured backend is told to stop: the arguments of the command that is run.
abbrev undo : Result NoPort (Option Launch) → List String
undo (ok (some l)) = elim l.lifetime [ daemon ↦ [] | configures ↦ l.stop_args ]
undo _ = []

unfoldable pub stop : (String → Option String) → Publisher → List String × Publisher
stop var p = (
  undo (launch var p.cfg p.listen_addr),
  set not_published (record p { child = false; last_line = none; ready = false }),
)

-- What can happen to a publisher, in any order.
pub data Step : Type 0 where
  starts : Backend → Step
  says : (via line : String) → Step
  is_asked : (ended : Option String) → Step
  stops : Step

unfoldable pub step : (String → Option String) → Step → Publisher → Publisher
step var (starts b) p = start var b p
step var (says via line) p = drain_line via line p
step var (is_asked ended) p = ask_state ended p
step var stops p = (stop var p).1

unfoldable pub run : (String → Option String) → List Step → Publisher → Publisher
run var [] p = p
run var (s ∷ ss) p = run var ss (step var s p)
