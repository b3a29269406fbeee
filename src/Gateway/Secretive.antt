-- ===== src/Gateway/Secretive.antt =====
-- What the commands of a gateway see of its credentials.
use mcp_gatehound.Base.{
  same_texts, String, Bool, true, false, not, ◌||◌, ◌&&◌, Option, some, none, List, [], ◌∷◌, ◌++◌,
  ◌==◌, ◌≡◌, refl, any, All, Result, ok, err, ◌>>=◌, is_empty, Bool-cases, inl, inr, arith,
}
use mcp_gatehound.Config.{ToolConfig, Action, proxy, exec, script, ExecSpec}
use mcp_gatehound.Config.Settings.{Config, UpstreamConfig, find_script}
use mcp_gatehound.Config.Validate.{Machine}
use mcp_gatehound.Actions.Exec.{get_var}
use mcp_gatehound.Actions.Exec.Run.{
  ExecRunner, gateway_secret_vars, withhold_all, with_arguments, withholding, within, set_all,
  child_env,
}
use mcp_gatehound.Actions.Exec.Run.Withheld.{child_env-withheld}
use mcp_gatehound.Gateway.Engine.{Each, engine-All}
use mcp_gatehound.Gateway.{
  BuildError, ActionEngine, listed, runner_of, lowered, exec_of, build_engine,
}

-- The variables that hold the gateway's own credentials.
pub data IsSecret (token_env : Option String) : String → Type 0 where
  super_token : IsSecret token_env "GATEHOUND_TOKEN"
  tunnel_token : IsSecret token_env "CLOUDFLARE_TUNNEL_TOKEN"
  chosen : (name : String) → token_env ≡ some name → is_empty name ≡ false → IsSecret token_env name

any-more :
    (p : String → Bool) (n : String) (ws : List String) → any p (ws ++ n ∷ []) ≡ (any p ws || p n)
any-more p n [] = ground arith
any-more p n (w ∷ ws) = ground (arith, any-more p n ws)

withheld-stays :
    (k : String) (o : Option String) (ws : List String)
    → any (λ w. w == k) ws ≡ true
    → any (λ w. w == k) (withhold_all (listed o) ws) ≡ true
withheld-stays k none ws there = there
withheld-stays k (some n) ws there =
    elim (Bool-cases (not (is_empty n) && not (any (λ w. w == n) ws))) [
      | inl yes' ↦ rw (yes', any-more (λ w. w == k) n ws, there) refl
      | inr no' ↦ rw no' there
    ]

withheld-chosen :
    (k : String) (ws : List String)
    → is_empty k ≡ false
    → any (λ w. w == k) (withhold_all (listed (some k)) ws) ≡ true
withheld-chosen k ws filled = elim (Bool-cases (any (λ w. w == k) ws)) [
  | inl there ↦ withheld-stays k (some k) ws there
  | inr fresh ↦ rw (filled, fresh, any-more (λ w. w == k) k ws) (grind same_texts)
]

withheld-all :
    (o : Option String) (k : String)
    → IsSecret o k
    → any (λ w. w == k) (withhold_all (listed o) gateway_secret_vars) ≡ true
unfolding gateway_secret_vars
withheld-all o _ super_token = withheld-stays "GATEHOUND_TOKEN" o _ refl
withheld-all o _ tunnel_token = withheld-stays "CLOUDFLARE_TUNNEL_TOKEN" o _ refl
withheld-all o k (chosen _ same filled) = rw same (withheld-chosen k gateway_secret_vars filled)

module _ (m : Machine) (cfg : Config) (P : String × ExecRunner → Type 0)
    (holds : (t : ToolConfig) (spec : ExecSpec) → P (t.name, runner_of m cfg t spec)) where
  exec_of-Each : (t : ToolConfig) (a : Action) → Each P (exec_of m cfg t a)
  exec_of-Each t (exec spec) = (holds t spec, tt)
  exec_of-Each t (proxy upstream op) = tt
  exec_of-Each t (script spec) =
      of_lowered (lowered m cfg t spec (find_script cfg.scripts spec.script))
    where
      of_lowered :
          (r : Result BuildError ExecSpec)
          → Each P (r >>= λ spec'. ok ((t.name, runner_of m cfg t spec') ∷ []))
      of_lowered (ok spec') = (holds t spec', tt)
      of_lowered (err e) = tt

  Each-tool : (ts : List ToolConfig) → All (λ t. Each P (exec_of m cfg t t.action)) ts
  Each-tool [] = tt
  Each-tool (t ∷ ts) = (exec_of-Each t t.action, Each-tool ts)

-- No command of a gateway inherits a credential of the gateway's own, be it under the fixed names or under
-- the one that the operator chose for the tunnel's token: what it finds there is what its tool's own
-- environment sets, if anything.
pub engine-Secretive :
    (refusal : UpstreamConfig → Option String) (m : Machine) (cfg : Config) (e : ActionEngine)
    (name : String) (child_path : String → Option String) (inherited : List (String × String))
    → build_engine refusal m cfg ≡ ok e
    → IsSecret cfg.publish.cloudflared.token_env name
    → All
        (λ ((n, r) : String × ExecRunner).
          get_var name (child_env r child_path inherited) ≡ get_var name (set_all r r.spec.env []))
        e.execs
unfolding within withholding with_arguments
engine-Secretive refusal m cfg e name child_path inherited same secret =
    engine-All m cfg _ refusal e same (
      Each-tool m cfg _
        (λ t spec.
          child_env-withheld (runner_of m cfg t spec) name
            (withheld-all cfg.publish.cloudflared.token_env name secret) child_path inherited)
        cfg.tools)
