-- ===== src/Pack/Export.antt =====
-- crates/gatehound-core/src/pack.rs: a pack made of a configuration, and the local files that a pack names.
pub mod Clean
pub mod Passes
use Prim.Native.Char.{Char, code}
use Prim.Native.String as Str
use mcp_gatehound.Base.{
  ℕ, zero, suc, ◌-◌, String, Bool, true, false, not, ◌&&◌, ◌||◌, Option, some, none, List, [], ◌∷◌,
  ◌++◌, ◌+++◌, ◌==◌, any, find, filter_map, map, retain, length, Result, ok, err, ◌>>=◌, or_fail,
  eqb, leb, is_empty, is_some, is_digit, strip_prefix, contains_text, bytes, insert_by, sort_by,
  if◌then◌else◌,
}
use mcp_gatehound.Config.{ToolConfig, Action, proxy, exec, script, ExecSpec, upstream_of, script_of}
use mcp_gatehound.Config.Settings.{
  Config, UpstreamConfig, UpstreamKind, http, mcp, IdentitySeed, script_dir,
}
use mcp_gatehound.Scripts.{ScriptDef, ScriptError}
use mcp_gatehound.Scripts.Files.{FilePath, Disk, read_body}
use mcp_gatehound.Store.Rules.{str_before}
use mcp_gatehound.Pack.{
  Pack, PackMeta, PackScript, PackError, bad_script, no_tool, not_exec, no_argument,
}

abbrev upper_char : Char → Char
upper_char c =
    if leb b'a' (code c) && leb (code c) b'z'
    then Str.char_at "ABCDEFGHIJKLMNOPQRSTUVWXYZ" (code c - b'a')
    else c

abbrev slug_char : Char → Char
slug_char c =
    let n = code c in
    if (leb b'a' n && leb n b'z') || ((leb b'A' n && leb n b'Z') || is_digit c)
    then upper_char c
    else Str.char_at "_" 0

abbrev slug : String → String
slug Str.[] = ""
slug (Str.◌∷◌ c s) = Str.◌∷◌ (slug_char c) (slug s)

unfoldable pub env_var_name : String → String
env_var_name upstream = "GATEHOUND_" +++ slug upstream +++ "_TOKEN"

abbrev or_new : Bool → String → Option String → Option String
or_new had name (some k) = some k
or_new had name none = if had then some (env_var_name name) else none

-- The credential is left behind, and the variable that stands for it is named.
abbrev kind_stripped : String → UpstreamKind → UpstreamKind
kind_stripped name (http h) =
    http (record h { token = ""; token_env = or_new (not (is_empty h.token)) name h.token_env })
kind_stripped name (mcp m) =
    mcp (record m {
      bearer_token = none;
      token_env = or_new (is_some m.bearer_token) name m.token_env;
    })

abbrev pub stripped : UpstreamConfig → UpstreamConfig
stripped u = record u { kind = kind_stripped u.name u.kind }

abbrev kind_env : UpstreamKind → Option String
kind_env (http h) = h.token_env
kind_env (mcp m) = m.token_env

abbrev env_of : UpstreamConfig → Option String
env_of u = kind_env u.kind

-- `dedup()`: no two neighbours alike
abbrev dedup : List String → List String
dedup [] = []
dedup (s ∷ []) = s ∷ []
dedup (s ∷ t ∷ ss) = let rest = dedup (t ∷ ss) in if s == t then rest else s ∷ rest

abbrev other_names : List ToolConfig → List ToolConfig → Bool
other_names (t ∷ ts) (u ∷ us) = not (t.name == u.name) || other_names ts us
other_names _ _ = false

unfoldable pub tools_were_chosen : List ToolConfig → Config → Bool
tools_were_chosen chosen cfg =
    not (eqb (length chosen) (length cfg.tools)) || other_names chosen cfg.tools

abbrev pub is_wanted : List (Option String) → String → Bool
is_wanted [] name = false
is_wanted (none ∷ more) name = is_wanted more name
is_wanted (some w ∷ more) name = (w == name) || is_wanted more name

abbrev packed_one : (List ℕ → String) → ScriptDef → String → PackScript
packed_one digest def source = record {
  name = def.name;
  interpreter = def.interpreter;
  source = source;
  sha256 = digest (bytes source);
  description = def.description;
}

abbrev read_one : Result ScriptError String → Result PackError String
read_one (ok s) = ok s
read_one (err e) = err (bad_script e)

-- Reading fails for the whole pack where it fails for one script.
pub packed :
    (List ℕ → String) → Disk → FilePath → List ScriptDef → Result PackError (List PackScript)
packed digest d base [] = ok []
packed digest d base (def ∷ defs) =
    let rest = packed digest d base defs in
    read_one (read_body d base def) >>= λ source.
    rest >>= λ more. ok (packed_one digest def source ∷ more)

unfoldable pub build :
    (List ℕ → String) → Disk → Config → String → String → List ToolConfig → Result PackError Pack
unfolding packed
build digest d cfg name description chosen =
    let scoped = tools_were_chosen chosen cfg in
    let upstreams = map stripped (
      retain (λ u. not scoped || is_wanted (map (λ t. upstream_of t.action) chosen) u.name)
        cfg.upstreams) in
    let defs =
      retain
        (λ (def : ScriptDef).
          not scoped || is_wanted (map (λ t. script_of t.action) chosen) def.name)
        cfg.scripts in
    packed digest d (script_dir cfg) defs >>= λ scripts. ok (record {
      meta = record {
        name = name;
        description = description;
        version = "1";
        requires_env = dedup (sort_by str_before (filter_map env_of upstreams));
      };
      upstreams = upstreams;
      tools = chosen;
      identities = retain (λ i. not scoped || any (λ t. t.name == i.tool) chosen) cfg.identities;
      scripts = scripts;
    })

unfoldable pub export : (List ℕ → String) → Disk → Config → String → String → Result PackError Pack
export digest d cfg name description = build digest d cfg name description cfg.tools

abbrev pub choose : List ToolConfig → List String → Result PackError (List ToolConfig)
choose tools [] = ok []
choose tools (want ∷ more) =
    let rest = choose tools more in
    or_fail (find (λ t. t.name == want) tools) (no_tool want) >>= λ t. rest >>= λ ts. ok (t ∷ ts)

unfoldable pub export_tools :
    (List ℕ → String) → Disk → Config → String → String → List String → Result PackError Pack
export_tools digest d cfg name description tools =
    choose cfg.tools tools >>= λ chosen. build digest d cfg name description chosen

pub data MissingFileKind : Type 0 where
  command : MissingFileKind
  argument : (index : ℕ) → MissingFileKind
  working_directory : MissingFileKind

pub record MissingFile : Type 0 where
  pub tool : String
  pub kind : MissingFileKind
  pub declared : String
  pub flag : Option String

unfoldable pub looks_like_path : String → Bool
looks_like_path cmd = contains_text "/" cmd || contains_text "\\" cmd

abbrev as_flag : Option String → Option String
as_flag none = none
as_flag (some s) = if is_some (strip_prefix "-" s) then some s else none

-- What exists here, and which commands resolve.
module _ (exists : String → Bool) (resolves : String → Bool) where
  abbrev is_absent_argument : String → Bool
  is_absent_argument arg =
      is_some (strip_prefix "/" arg) && (not (contains_text "{" arg) && not (exists arg))

  abbrev missing_arguments : String → ℕ → Option String → List String → List MissingFile
  missing_arguments tool i before [] = []
  missing_arguments tool i before (arg ∷ args) =
      let rest = missing_arguments tool (suc i) (some arg) args in
      if is_absent_argument arg
      then record { tool = tool; kind = argument i; declared = arg; flag = as_flag before } ∷ rest
      else rest

  abbrev missing_command : String → String → List MissingFile
  missing_command tool cmd =
      if (if looks_like_path cmd then not (exists cmd) else not (resolves cmd))
      then record { tool = tool; kind = command; declared = cmd; flag = none } ∷ []
      else []

  abbrev missing_cwd : String → Option String → List MissingFile
  missing_cwd tool none = []
  missing_cwd tool (some cwd) =
      if exists cwd
      then []
      else record { tool = tool; kind = working_directory; declared = cwd; flag = none } ∷ []

  abbrev missing_of : String → Action → List MissingFile
  missing_of tool (exec spec) =
      missing_command tool spec.cmd
      ++ (missing_arguments tool 0 none spec.args ++ missing_cwd tool spec.cwd)
  missing_of tool _ = []

  abbrev missing_in : List ToolConfig → List MissingFile
  missing_in [] = []
  missing_in (t ∷ ts) = missing_of t.name t.action ++ missing_in ts

  unfoldable pub missing_files : Pack → List MissingFile
  missing_files p = missing_in p.tools

abbrev set_at : ℕ → String → List String → Option (List String)
set_at n s [] = none
set_at zero s (a ∷ others) = some (s ∷ others)
set_at (suc n) s (a ∷ others) = elim (set_at n s others) [
  | none ↦ none
  | some rest ↦ some (a ∷ rest)
]

abbrev pointed : String → MissingFileKind → String → ExecSpec → Result PackError ExecSpec
pointed tool command s spec = ok (record spec { cmd = s })
pointed tool (argument i) s spec =
    or_fail (set_at i s spec.args) (no_argument tool i) >>= λ args. ok (record spec { args = args })
pointed tool working_directory s spec = ok (record spec { cwd = some s })

abbrev repointed : ToolConfig → MissingFileKind → String → Action → Result PackError ToolConfig
repointed t kind s (exec spec) =
    pointed t.name kind s spec >>= λ spec'. ok (record t { action = exec spec' })
repointed t kind s _ = err (not_exec t.name)

abbrev resolve_in : MissingFile → String → List ToolConfig → Result PackError (List ToolConfig)
resolve_in m s [] = err (no_tool m.tool)
resolve_in m s (t ∷ ts) =
    let rest = resolve_in m s ts in
    if t.name == m.tool
    then (repointed t m.kind s t.action >>= λ t'. ok (t' ∷ ts))
    else (rest >>= λ ts'. ok (t ∷ ts'))

-- Point a missing file at somewhere that it is.
unfoldable pub resolve_file : Pack → MissingFile → String → Result PackError Pack
resolve_file p m s = resolve_in m s p.tools >>= λ tools. ok (record p { tools = tools })
