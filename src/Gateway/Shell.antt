-- ===== src/Gateway/Shell.antt =====
-- crates/gatehound-core/src/lib.rs: what a shell drives: a call fired by hand, what a window reads of the log, and the catalog of tools.
use mcp_gatehound.Base.{
  ℕ, ◌+++◌, String, Bool, true, false, Option, some, none, List, [], ◌∷◌, Result, ok, err, map, min,
  max, guard, ◌>>◌, is_some, if◌then◌else◌,
}
use mcp_gatehound.Json.{Value, obj, null, str, num, bool, unsigned, field, end}
use mcp_gatehound.Config.{ArgumentDef, kind, upstream_of, script_of}
use mcp_gatehound.Config.Arguments.{schema}
use mcp_gatehound.Actions.Exec.{preview_argv}
use mcp_gatehound.Config.{ToolConfig, Action, proxy, exec, script, RateLimit, ExecSpec}
use mcp_gatehound.Config.Settings.{Config, find_script, script_dir}
use mcp_gatehound.Config.Validate.{Machine}
use mcp_gatehound.Store.{Db, Conn, RequestLog}
use mcp_gatehound.Store.Requests.{get_request, recent_requests, recent_calls}
use mcp_gatehound.Scripts.Files.{lower}
use mcp_gatehound.Mcp.{Gateway, Course, CallOutcome, debug}
use mcp_gatehound.Mcp.Call.{run_call}

pub data FireError : Type 0 where
  not_an_object : FireError
  database_down : FireError
  not_in_log : (id : ℕ) → FireError

abbrev is_object : Value → Bool
is_object (obj fs) = true
is_object _ = false

abbrev known : Conn → Option ℕ → Result FireError (Unit {0})
known c none = ok tt
known c (some id) =
    if c.up then guard (is_some (get_request id c.db)) (not_in_log id) else err database_down

-- A tool fired by hand, as the owner: what came of it, none where its waiter went away, or why it was not.
unfoldable pub fire :
    Course
    → String
    → String
    → Value
    → Option ℕ
    → Gateway
    → Result FireError (Option CallOutcome) × Gateway
fire c owner tool args replay_of g =
    elim (guard (is_object args) not_an_object >> known g.queue.conn replay_of) [
      | err e ↦ (err e, g)
      | ok _ ↦
          (let (outcome, g') =
              run_call c
                (record {
                  identity = owner;
                  token_id = none;
                  name = tool;
                  args = args;
                  origin = debug replay_of;
                })
                g in
            (ok outcome, g'))
    ]

abbrev clamped : ℕ → ℕ
clamped limit = min 1000 (max 1 limit)

unfoldable pub gateway_requests : ℕ → Db → List RequestLog
gateway_requests limit db = recent_requests (clamped limit) db

unfoldable pub gateway_calls : ℕ → Db → List RequestLog
gateway_calls limit db = recent_calls (clamped limit) db

abbrev spaced : List String → String
spaced [] = ""
spaced (s ∷ []) = s
spaced (s ∷ t ∷ ss) = s +++ " " +++ spaced (t ∷ ss)

abbrev shown_exec : List ArgumentDef → ExecSpec → Option String
shown_exec declared spec = some (spaced (preview_argv spec declared))

-- The command line that a tool would run, where one can be shown.
abbrev command_of : Machine → Config → ToolConfig → Action → Option String
command_of m cfg t (exec spec) = shown_exec t.arguments spec
command_of m cfg t (proxy upstream op) = none
command_of m cfg t (script spec) = elim (find_script cfg.scripts spec.script) [
  | none ↦ none
  | some def ↦ elim (lower m.disk.canonical m.resolves spec def (script_dir cfg)) [
    | ok lowered ↦ shown_exec t.arguments lowered
    | err e ↦ none
  ]
]

abbrev text_or_null : Option String → Value
text_or_null none = null
text_or_null (some s) = str s

abbrev limit_value : Option RateLimit → Value
limit_value none = null
limit_value (some l) = obj (
    field "min_spacing_secs" (num (unsigned l.min_spacing_secs))
      (field "per_hour" (num (unsigned l.per_hour)) end))

abbrev entry : Machine → Config → ToolConfig → Value
entry m cfg t = obj (
    field "action" (str (kind t.action)) (
      field "command" (text_or_null (command_of m cfg t t.action)) (
        field "description" (str t.description) (
          field "idempotent" (bool t.idempotent) (
            field "name" (str t.name) (
              field "rate_limit" (limit_value t.rate_limit) (
                field "read_only" (bool t.read_only) (
                  field "schema" (schema t) (
                    field "script" (text_or_null (script_of t.action))
                      (field "upstream" (text_or_null (upstream_of t.action)) end))))))))))

unfoldable pub catalog : Machine → Config → List Value
catalog m cfg = map (entry m cfg) cfg.tools
