-- ===== src/Config/Validate.antt =====
-- crates/gatehound-core/src/config.rs: what a configuration must be for the gateway to start.
pub mod Accepted
use Prim.Native.Char.{Char, code}
use mcp_gatehound.Base.{
  ℕ, String, len, Bool, true, false, not, ◌&&◌, ◌||◌, Option, some, none, List, [], ◌∷◌, ◌++◌, ◌==◌,
  any, flat_map, Result, ok, err, ◌>>=◌, ◌>>◌, guard, leb, eqb, is_empty, is_some, is_digit,
  all_chars, trim, if◌then◌else◌,
}
use mcp_gatehound.Config.{
  ToolConfig, Action, proxy, exec, script, ExecSpec, ExecFallback, ScriptSpec, ArgumentDef,
}
use mcp_gatehound.Config.Settings.{
  Config, UpstreamConfig, UpstreamKind, http, mcp, IdentitySeed, find_upstream, find_script,
}
use mcp_gatehound.Actions.Exec.{placeholders}
use mcp_gatehound.Auth.Factors.{AccessConfig, AuthConfig}
use mcp_gatehound.Publish.{Exposed, check}
use mcp_gatehound.Scripts.{ScriptDef, ScriptError, valid_name, starts_with_dash}
use mcp_gatehound.Scripts.Files.{FilePath, Disk, verify}
use mcp_gatehound.Upstreams.Http.Calls.{find_op}

pub data Invalid : Type 0 where
  short_token access_incomplete : Invalid
  bad_script_name : ScriptError → Invalid
  duplicate_script duplicate_tool : (name : String) → Invalid
  both_schemas unnamed_argument : (tool : String) → Invalid
  bad_argument duplicate_argument undeclared_placeholder : (tool argument : String) → Invalid
  unknown_upstream unknown_op : (tool name : String) → Invalid
  empty_command no_concurrency bad_fallback late_fallback unresolved_command :
      (tool : String) → Invalid
  unregistered_script : (tool script : String) → Invalid
  bad_script : (tool : String) → ScriptError → Invalid
  exposed : Exposed → Invalid
  unknown_tool : (identity tool : String) → Invalid

abbrev pub Valid : Type 0
Valid = Result Invalid (Unit {0})

abbrev pub blame {ℓ κ} : {E : Type ℓ} {A : Type κ} → (E → Invalid) → Result E A → Result Invalid A
blame f (ok a) = ok a
blame f (err e) = err (f e)

abbrev is_argument_char : Char → Bool
is_argument_char c =
    let n = code c in
    (leb b'a' n && leb n b'z')
    || ((leb b'A' n && leb n b'Z') || (is_digit c || (eqb n b'_' || eqb n b'-')))

abbrev pub is_listed : List String → String → Bool
is_listed seen name = any (λ s. s == name) seen

-- The names of the arguments, trimmed, or what is wrong with one.
abbrev argument_names : String → List String → List ArgumentDef → Result Invalid (List String)
argument_names tool seen [] = ok seen
argument_names tool seen (a ∷ more) =
    let name = trim a.name in
    guard (not (is_empty name)) (unnamed_argument tool)
    >> guard (all_chars is_argument_char name && not (starts_with_dash name))
        (bad_argument tool name)
    >> guard (not (is_listed seen name)) (duplicate_argument tool name)
    >> argument_names tool (name ∷ seen) more

abbrev opt_list {ℓ} : {A : Type ℓ} → Option A → List A
opt_list none = []
opt_list (some a) = a ∷ []

abbrev fallback_args : Option ExecFallback → List String
fallback_args none = []
fallback_args (some f) = f.args

abbrev templates : Action → List String
templates (exec spec) = spec.args ++ (opt_list spec.stdin ++ fallback_args spec.fallback)
templates (script spec) = spec.args ++ opt_list spec.stdin
templates (proxy upstream op) = []

abbrev all_declared : String → List String → List String → Valid
all_declared tool seen [] = ok tt
all_declared tool seen (p ∷ ps) =
    guard (is_listed seen p) (undeclared_placeholder tool p) >> all_declared tool seen ps

abbrev arguments_valid : ToolConfig → List ArgumentDef → Valid
arguments_valid t [] = ok tt
arguments_valid t (a ∷ more) =
    guard (not (is_some t.input_schema)) (both_schemas t.name)
    >> (argument_names t.name [] (a ∷ more) >>= λ seen.
        all_declared t.name seen (flat_map placeholders (templates t.action)))

unfoldable pub validate_arguments : ToolConfig → Valid
validate_arguments t = arguments_valid t t.arguments

-- What validation asks of the machine: the files, the digest, and which commands resolve.
pub record Machine : Type 0 where
  pub digest : List ℕ → String
  pub disk : Disk
  pub resolves : String → Bool

module _ (m : Machine) (cfg : Config) where
  abbrev pub declares : String → String → UpstreamKind → Valid
  declares tool op (http h) = guard (is_some (find_op op h.ops)) (unknown_op tool op)
  declares tool op (mcp s) = ok tt

  abbrev pub reached : String → String → String → Option UpstreamConfig → Valid
  reached tool upstream op none = err (unknown_upstream tool upstream)
  reached tool upstream op (some u) = declares tool op u.kind

  -- A fallback that starts at the deadline or later never answers.
  abbrev pub in_time : ℕ → Option ℕ → Bool
  in_time after none = true
  in_time after (some d) = not (leb d after)

  abbrev pub fallback_valid : String → Option ExecFallback → Valid
  fallback_valid tool none = ok tt
  fallback_valid tool (some f) =
      guard (not (eqb f.after_secs 0) && not (is_empty (trim f.label))) (bad_fallback tool)
      >> guard (in_time f.after_secs cfg.call_deadline_secs) (late_fallback tool)

  abbrev pub on_disk : String → ScriptDef → Option FilePath → Valid
  on_disk tool def none = ok tt
  on_disk tool def (some dir) = blame (bad_script tool) (verify m.digest m.disk dir def)

  abbrev pub registered : String → String → Option ScriptDef → Valid
  registered tool name none = err (unregistered_script tool name)
  registered tool name (some def) = on_disk tool def cfg.base_dir

  abbrev pub action_valid : String → Action → Valid
  action_valid tool (proxy upstream op) =
      reached tool upstream op (find_upstream cfg.upstreams upstream)
  action_valid tool (exec spec) =
      guard (not (is_empty (trim spec.cmd))) (empty_command tool)
      >> guard (not (eqb spec.max_concurrency 0)) (no_concurrency tool)
      >> fallback_valid tool spec.fallback
      >> guard (m.resolves spec.cmd) (unresolved_command tool)
  action_valid tool (script spec) =
      guard (not (eqb spec.max_concurrency 0)) (no_concurrency tool)
      >> registered tool spec.script (find_script cfg.scripts spec.script)

  unfoldable pub tools_valid : List String → List ToolConfig → Valid
  tools_valid seen [] = ok tt
  tools_valid seen (t ∷ ts) =
      guard (not (is_listed seen t.name)) (duplicate_tool t.name)
      >> validate_arguments t
      >> action_valid t.name t.action
      >> tools_valid (t.name ∷ seen) ts

  unfoldable pub scripts_valid : List String → List ScriptDef → Valid
  scripts_valid seen [] = ok tt
  scripts_valid seen (sc ∷ more) =
      blame bad_script_name (valid_name sc.name)
      >> guard (not (is_listed seen sc.name)) (duplicate_script sc.name)
      >> scripts_valid (sc.name ∷ seen) more

  pub seeds_valid : List IdentitySeed → Valid
  seeds_valid [] = ok tt
  seeds_valid (i ∷ more) =
      guard (i.tool == "*" || any (λ t. t.name == i.tool) cfg.tools)
        (unknown_tool i.identity i.tool)
      >> seeds_valid more

  abbrev pub token_of : Option String → String
  token_of none = ""
  token_of (some t) = t

  abbrev access_valid : Option AccessConfig → Valid
  access_valid none = ok tt
  access_valid (some a) = guard (not (is_empty a.team_domain || is_empty a.aud)) access_incomplete

  -- The warnings about publishing, which are printed.
  unfoldable pub validate : Result Invalid (List String)
  unfolding tools_valid scripts_valid seeds_valid
  validate =
      guard (leb 16 (len (token_of cfg.auth.bearer_token))) short_token
      >> access_valid cfg.auth.access
      >> scripts_valid [] cfg.scripts
      >> tools_valid [] cfg.tools
      >> (blame exposed (check cfg.publish cfg.auth) >>= λ warnings.
          seeds_valid cfg.identities >> ok warnings)
