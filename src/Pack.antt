-- ===== src/Pack.antt =====
-- crates/gatehound-core/src/pack.rs: packs of upstreams, tools, seeds and scripts; the check of one that
-- was read, and what an operator is told of it.
pub mod Place
pub mod Merge
pub mod Export
use mcp_gatehound.Base.{
  ℕ, String, len, Bool, true, false, not, ◌&&◌, ◌||◌, Option, some, none, List, [], ◌∷◌, ◌++◌,
  ◌+++◌, ◌==◌, any, map, retain, Result, ok, err, ◌>>◌, guard, leb, is_empty, is_some, trim, bytes,
  if◌then◌else◌,
}
use mcp_gatehound.Config.{ToolConfig, upstream_of, script_of}
use mcp_gatehound.Config.Settings.{Config, UpstreamConfig, UpstreamKind, http, mcp, IdentitySeed}
use mcp_gatehound.Config.Validate.{Invalid}
use mcp_gatehound.Scripts.{Interpreter, ScriptDef, ScriptError, valid_name, max_script_bytes}
use mcp_gatehound.Scripts.Files.{same_letters}
use mcp_gatehound.Scripts.Review.{Review, review_of, has_danger}

pub record PackMeta : Type 0 where
  pub name : String
  pub description : String
  pub version : String
  pub requires_env : List String

pub record PackScript : Type 0 where
  pub name : String
  pub interpreter : Interpreter
  pub source : String
  pub sha256 : String
  pub description : String

pub record Pack : Type 0 where
  pub meta : PackMeta
  pub upstreams : List UpstreamConfig
  pub tools : List ToolConfig
  pub identities : List IdentitySeed
  pub scripts : List PackScript

pub data PackError : Type 0 where
  no_name : PackError
  inline_token : (upstream : String) → PackError
  bad_script : ScriptError → PackError
  script_twice script_edited script_too_big : (name : String) → PackError
  undefined_upstream undefined_script : (tool name : String) → PackError
  scripts_not_allowed : (pack : String) → PackError
  dangerous_not_allowed : (names : List String) → PackError
  script_exists upstream_exists tool_exists : (name : String) → PackError
  invalid : Invalid → PackError
  no_tool not_exec : (name : String) → PackError
  no_argument : (name : String) (index : ℕ) → PackError

module _ (digest : List ℕ → String) where
  unfoldable pub review : PackScript → Review
  review sc = review_of digest sc.name sc.interpreter sc.source

  abbrev pub Checked : Type 0
  Checked = Result PackError (Unit {0})

  abbrev pub upstream_checked : String → UpstreamKind → Checked
  upstream_checked name (http h) =
      guard (is_empty h.token || is_some h.token_env) (inline_token name)
  upstream_checked name (mcp m) = ok tt

  pub upstreams_checked : List UpstreamConfig → Checked
  upstreams_checked [] = ok tt
  upstreams_checked (u ∷ us) = upstream_checked u.name u.kind >> upstreams_checked us

  abbrev blamed : Result ScriptError (Unit {0}) → Checked
  blamed (ok u) = ok u
  blamed (err e) = err (bad_script e)

  pub scripts_checked : List String → List PackScript → Checked
  scripts_checked seen [] = ok tt
  scripts_checked seen (sc ∷ more) =
      blamed (valid_name sc.name)
      >> guard (not (any (λ s. s == sc.name) seen)) (script_twice sc.name)
      >> guard
          (is_empty (trim sc.sha256) || same_letters (digest (bytes sc.source)) (trim sc.sha256))
          (script_edited sc.name)
      >> guard (leb (len sc.source) max_script_bytes) (script_too_big sc.name)
      >> scripts_checked (sc.name ∷ seen) more

  abbrev pub has_upstream : Pack → String → Option String → Checked
  has_upstream p tool none = ok tt
  has_upstream p tool (some name) =
      guard (any (λ u. u.name == name) p.upstreams) (undefined_upstream tool name)

  abbrev pub has_script : Pack → String → Option String → Checked
  has_script p tool none = ok tt
  has_script p tool (some name) =
      guard (any (λ sc. sc.name == name) p.scripts) (undefined_script tool name)

  pub tools_checked : Pack → List ToolConfig → Checked
  tools_checked p [] = ok tt
  tools_checked p (t ∷ ts) =
      has_upstream p t.name (upstream_of t.action)
      >> has_script p t.name (script_of t.action)
      >> tools_checked p ts

  unfoldable pub check : Pack → Checked
  unfolding upstreams_checked scripts_checked tools_checked
  check p =
      guard (not (is_empty (trim p.meta.name))) no_name
      >> upstreams_checked p.upstreams
      >> scripts_checked [] p.scripts
      >> tools_checked p p.tools

  unfoldable pub carries_scripts : Pack → Bool
  carries_scripts p = elim p.scripts [ [] ↦ false | sc ∷ more ↦ true ]

  unfoldable pub reviews : Pack → List Review
  reviews p = map review p.scripts

  unfoldable pub dangerous : Pack → List String
  dangerous p = map (λ (sc : PackScript). sc.name) (retain (λ sc. has_danger (review sc)) p.scripts)

abbrev is_set : Option String → Bool
is_set none = false
is_set (some v) = not (is_empty v)

unfoldable pub missing_env : (String → Option String) → Pack → List String
missing_env var p = retain (λ k. not (is_set (var k))) p.meta.requires_env

abbrev clashes : (what : String) → List String → List String → List String
clashes what here [] = []
clashes what here (n ∷ ns) =
    let rest = clashes what here ns in if any (λ h. h == n) here then (what +++ n) ∷ rest else rest

-- What is used here already.
unfoldable pub collisions : Config → Pack → List String
collisions cfg p =
    clashes "the upstream " (map (λ (u : UpstreamConfig). u.name) cfg.upstreams)
      (map (λ (u : UpstreamConfig). u.name) p.upstreams)
    ++ (clashes "the tool " (map (λ (t : ToolConfig). t.name) cfg.tools)
          (map (λ (t : ToolConfig). t.name) p.tools)
        ++ clashes "the script " (map (λ (d : ScriptDef). d.name) cfg.scripts)
            (map (λ (sc : PackScript). sc.name) p.scripts))
