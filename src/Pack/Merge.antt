-- ===== src/Pack/Merge.antt =====
-- crates/gatehound-core/src/pack.rs: `merge` and `plan`, what an import changes. The configuration and the
-- disk are as far along as the import came where it is refused on the way.
pub mod Additive
pub mod Scripted
pub mod Kept
pub mod Consent
use mcp_gatehound.Base.{
  ℕ, String, Bool, true, false, not, ◌&&◌, Option, some, none, List, [], ◌∷◌, ◌++◌, ◌+++◌, ◌==◌,
  any, Result, ok, err, bytes, if◌then◌else◌,
}
use mcp_gatehound.Config.{ToolConfig}
use mcp_gatehound.Config.Settings.{Config, UpstreamConfig, IdentitySeed}
use mcp_gatehound.Config.Validate.{Machine, validate, Invalid}
use mcp_gatehound.Scripts.{ScriptDef, ScriptError, pack}
use mcp_gatehound.Scripts.Files.{FilePath, Disk, save}
use mcp_gatehound.Pack.{
  Pack, PackScript, PackError, bad_script, scripts_not_allowed, dangerous_not_allowed,
  script_exists, upstream_exists, tool_exists, invalid, carries_scripts, dangerous,
}
use mcp_gatehound.Pack.Place.{Placed, place_one, place_all, same_seed, seed_all}

pub record Applied : Type 0 where
  pub upstreams : List String
  pub tools : List String
  pub identities : List String
  pub scripts : List String
  pub replaced : List String

abbrev pub nothing_applied : Applied
nothing_applied = record {
  upstreams = [];
  tools = [];
  identities = [];
  scripts = [];
  replaced = [];
}

pub record ImportOptions : Type 0 where
  pub replace : Bool
  pub base_dir : Option FilePath
  pub allow_scripts : Bool
  pub allow_dangerous_scripts : Bool

unfoldable pub replacing : Bool → ImportOptions
replacing replace = record {
  replace = replace;
  base_dir = none;
  allow_scripts = false;
  allow_dangerous_scripts = false;
}

-- Where an import is.
pub record Merged : Type 0 where
  pub config : Config
  pub disk : Disk
  pub applied : Applied

abbrev pub and_then :
    Option PackError × Merged → (Merged → Option PackError × Merged) → Option PackError × Merged
and_then (some e, s) next = (some e, s)
and_then (none, s) next = next s

module _ (digest : List ℕ → String) (resolves : String → Bool) where
  -- The record of a pack's script: saved below the directory, or in a dry run as it would be.
  abbrev pub registered :
      String → Option FilePath → PackScript → Disk → Result ScriptError (ScriptDef × Disk)
  registered pack_name none sc d = ok (
    record {
      name = sc.name;
      interpreter = sc.interpreter;
      sha256 = digest (bytes sc.source);
      description = sc.description;
      origin = pack pack_name;
    },
    d,
  )
  registered pack_name (some dir) sc d =
      save digest dir sc.name sc.interpreter sc.source sc.description (pack pack_name) d

  abbrev pub recorded :
      Bool
      → Result ScriptError (ScriptDef × Disk)
      → Placed ScriptDef
      → Disk
      → Option PackError × (Placed ScriptDef × Disk)
  recorded replace (err e) p d = (some (bad_script e), (p, d))
  recorded replace (ok (def, d')) p d =
      let (failure, p') =
        place_one (λ (x : ScriptDef). x.name) script_exists "script " replace def p in
      (failure, (p', d'))

  -- One script: a name that is taken is refused before anything is written.
  abbrev pub script_one :
      Bool
      → String
      → Option FilePath
      → PackScript
      → Placed ScriptDef
      → Disk
      → Option PackError × (Placed ScriptDef × Disk)
  script_one replace pack_name dir sc p d =
      if any (λ (x : ScriptDef). x.name == sc.name) p.items && not replace
      then (some (script_exists sc.name), (p, d))
      else recorded replace (registered pack_name dir sc d) p d

  pub script_all :
      Bool
      → String
      → Option FilePath
      → List PackScript
      → Placed ScriptDef
      → Disk
      → Option PackError × (Placed ScriptDef × Disk)
  script_all replace pack_name dir [] p d = (none, (p, d))
  script_all replace pack_name dir (sc ∷ more) p d =
      let (failure, (p', d')) = script_one replace pack_name dir sc p d in
      elim failure [
        | none ↦ script_all replace pack_name dir more p' d'
        | some e ↦ (some e, (p', d'))
      ]

  abbrev pub is_none : List String → Bool
  is_none [] = true
  is_none (n ∷ ns) = false

  -- Somebody else's code needs consent, and the code that the review calls dangerous needs it twice.
  unfoldable pub consent : Pack → ImportOptions → Option PackError
  consent p o =
      if carries_scripts digest p
      then if not o.allow_scripts
        then some (scripts_not_allowed p.meta.name)
        else if not (is_none (dangerous digest p)) && not o.allow_dangerous_scripts
        then some (dangerous_not_allowed (dangerous digest p))
        else none
      else none

  abbrev pub scripts_step : Pack → ImportOptions → Merged → Option PackError × Merged
  scripts_step p o s =
      let (failure, (q, d)) =
        script_all o.replace p.meta.name o.base_dir p.scripts
          (record { items = s.config.scripts; added = []; replaced = s.applied.replaced }) s.disk in
      (
        failure,
        record {
          config = record s.config { scripts = q.items };
          disk = d;
          applied = record s.applied { scripts = q.added; replaced = q.replaced };
        },
      )

  abbrev pub upstreams_step : Pack → ImportOptions → Merged → Option PackError × Merged
  upstreams_step p o s =
      let (failure, q) =
        place_all (λ (u : UpstreamConfig). u.name) upstream_exists "upstream " o.replace p.upstreams
          (record { items = s.config.upstreams; added = []; replaced = s.applied.replaced }) in
      (
        failure,
        record s {
          config = record s.config { upstreams = q.items };
          applied = record s.applied { upstreams = q.added; replaced = q.replaced };
        },
      )

  abbrev pub tools_step : Pack → ImportOptions → Merged → Option PackError × Merged
  tools_step p o s =
      let (failure, q) =
        place_all (λ (t : ToolConfig). t.name) tool_exists "tool " o.replace p.tools
          (record { items = s.config.tools; added = []; replaced = s.applied.replaced }) in
      (
        failure,
        record s {
          config = record s.config { tools = q.items };
          applied = record s.applied { tools = q.added; replaced = q.replaced };
        },
      )

  abbrev pub seeds_step : Pack → Merged → Merged
  seeds_step p s =
      let q =
        seed_all p.identities (record { items = s.config.identities; added = []; replaced = [] }) in
      record s {
        config = record s.config { identities = q.items };
        applied = record s.applied { identities = q.added };
      }

  abbrev pub failure_of : Result Invalid (List String) → Option PackError
  failure_of (ok warnings) = none
  failure_of (err e) = some (invalid e)

  abbrev pub validated : Merged → Option PackError × Merged
  validated s = (
    failure_of (validate (record { digest = digest; disk = s.disk; resolves = resolves }) s.config),
    s,
  )

  abbrev pub consented :
      Option PackError → Pack → ImportOptions → Merged → Option PackError × Merged
  consented (some e) p o s = (some e, s)
  consented none p o s =
      and_then (and_then (and_then (scripts_step p o s) (upstreams_step p o)) (tools_step p o))
        (λ t. validated (seeds_step p t))

  unfoldable pub merge : Config → Disk → Pack → ImportOptions → Option PackError × Merged
  unfolding place_all script_all
  merge cfg d p o =
      consented (consent p o) p o (record { config = cfg; disk = d; applied = nothing_applied })

  -- What an import would change: the same merge, on a copy that belongs to no directory.
  unfoldable pub plan : Config → Disk → Pack → Bool → Option PackError × Applied
  plan cfg d p replace =
      let (failure, s) =
        merge (record cfg { base_dir = none }) d p
          (record {
            replace = replace;
            base_dir = none;
            allow_scripts = true;
            allow_dangerous_scripts = true;
          }) in
      (failure, s.applied)
