-- ===== src/Pack/Export/Passes.antt =====
-- An exported pack against the check of an import.
use mcp_gatehound.Base.{ℕ, String, true, List, [], ◌∷◌, ◌==◌, ◌≡◌, any, trim, leb, len}
use mcp_gatehound.Config.Settings.{Config, UpstreamConfig}
use mcp_gatehound.Config.Validate.{Machine}
use mcp_gatehound.Scripts.{ScriptDef, max_script_bytes}
use mcp_gatehound.Scripts.Files.{FilePath}
use mcp_gatehound.Pack.{Pack, PackScript}
use mcp_gatehound.Pack.Export.{packed_one}

module _ (m : Machine) (cfg : Config) (base : FilePath)
    (hex : (b : List ℕ) → trim (m.digest b) ≡ m.digest b) where
  -- What `packed` makes of a script that is there.
  data Packed : List ScriptDef → List PackScript → Type 0 where
    none_packed : Packed [] []
    one_packed :
        {def : ScriptDef} {defs : List ScriptDef} {more : List PackScript} (source : String)
        → leb (len source) max_script_bytes ≡ true
        → Packed defs more
        → Packed (def ∷ defs) (packed_one m.digest def source ∷ more)

  -- The pack has every upstream and script of the configuration, by name.
  record HasAll (p : Pack) : Type 0 where
    upstreams :
        (name : String)
        → any (λ (u : UpstreamConfig). u.name == name) p.upstreams
          ≡ any (λ (u : UpstreamConfig). u.name == name) cfg.upstreams
    scripts :
        (name : String)
        → any (λ (sc : PackScript). sc.name == name) p.scripts
          ≡ any (λ (def : ScriptDef). def.name == name) cfg.scripts
