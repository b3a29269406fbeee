-- ===== src/Gateway/Engine.antt =====
-- What holds of every runner of an engine: what holds of each tool's.
use mathlib.Core.Path.{subst}
use mcp_gatehound.Base.{
  String, Option, List, [], ◌∷◌, ◌≡◌, All, All-append, Result, ok, err, ◌>>=◌, ◌>>◌,
}
use mcp_gatehound.Config.{ToolConfig}
use mcp_gatehound.Config.Settings.{Config, UpstreamConfig}
use mcp_gatehound.Config.Validate.{Machine}
use mcp_gatehound.Actions.Exec.Run.{ExecRunner}
use mcp_gatehound.Gateway.{
  BuildError, ActionEngine, exec_of, with_tool, engine_of, upstreams_from, build_engine,
}

module _ (P : String × ExecRunner → Type 0) where
  abbrev pub Each : Result BuildError (List (String × ExecRunner)) → Type 0
  Each (ok xs) = All P xs
  Each (err e) = Unit

  abbrev pub EachOf : Result BuildError ActionEngine → Type 0
  EachOf (ok e) = All P e.execs
  EachOf (err e) = Unit

module _ (m : Machine) (cfg : Config) (P : String × ExecRunner → Type 0) where
  both :
      (t : ToolConfig) (r : Result BuildError (List (String × ExecRunner)))
      (rest : Result BuildError ActionEngine)
      → Each P r
      → EachOf P rest
      → EachOf P (r >>= λ execs. rest >>= λ e. ok (with_tool m cfg t execs e))
  both t (ok xs) (ok e) h k = All-append P xs e.execs h k
  both t (ok xs) (err e) h k = tt
  both t (err e) rest h k = tt

  engine_of-EachOf :
      (ts : List ToolConfig)
      → All (λ t. Each P (exec_of m cfg t t.action)) ts
      → EachOf P (engine_of m cfg ts)
  engine_of-EachOf [] h = tt
  engine_of-EachOf (t ∷ ts) (h, hs) =
      both t (exec_of m cfg t t.action) (engine_of m cfg ts) h (engine_of-EachOf ts hs)

  built :
      (e : ActionEngine) (r : Result BuildError (Unit {0})) (rest : Result BuildError ActionEngine)
      → (r >> rest) ≡ ok e
      → EachOf P rest
      → All P e.execs
  built e (ok _) rest same h = subst (EachOf P) same h
  built e (err f) rest same h = cc

  pub engine-All :
      (refusal : UpstreamConfig → Option String) (e : ActionEngine)
      → build_engine refusal m cfg ≡ ok e
      → All (λ t. Each P (exec_of m cfg t t.action)) cfg.tools
      → All P e.execs
  unfolding build_engine
  engine-All refusal e same each =
      built e (upstreams_from refusal [] cfg.upstreams) (engine_of m cfg cfg.tools) same
        (engine_of-EachOf cfg.tools each)
