-- ===== src/Gateway/Timely.antt =====
-- When the commands of a gateway with a call deadline are over.
use mathlib.Core.Path.{subst}
use mcp_gatehound.Base.{
  ℕ, ◌*◌, ◌≤◌, String, true, false, Option, some, none, List, [], ◌∷◌, ◌≡◌, refl, sym, All, Result,
  ok, err, ◌>>=◌, ltb, eqb, arith,
}
use mcp_gatehound.Config.{
  ToolConfig, Action, proxy, exec, script, ExecSpec, ScriptSpec, ExecFallback,
}
use mcp_gatehound.Config.Settings.{Config, UpstreamConfig, find_script, script_dir}
use mcp_gatehound.Config.Validate.{Machine, validate, tools_valid, action_valid, fallback_valid}
use mcp_gatehound.Scripts.{ScriptDef, ScriptError}
use mcp_gatehound.Scripts.Files.{lower, contained, relative_path}
use mcp_gatehound.Actions.Exec.{Vars}
use mcp_gatehound.Actions.Exec.Run.{ExecRunner, Process, with_arguments, withholding, within, run}
use mcp_gatehound.Actions.Exec.Run.Bounded.{Prompt, run_bounded}
use mcp_gatehound.Gateway.{unplaced, ActionEngine, runner_of, lowered, exec_of, build_engine}
use mcp_gatehound.Gateway.Engine.{Each, engine-All}

abbrev Plain : Result ScriptError ExecSpec → Type 0
Plain (ok spec) = spec.fallback ≡ none
Plain (err e) = Unit

bind-Plain :
    (c : Result ScriptError (List String)) (f : List String → ExecSpec)
    → ((p : List String) → (f p).fallback ≡ none)
    → Plain (c >>= λ p. ok (f p))
bind-Plain (ok p) f plain = plain p
bind-Plain (err e) f plain = tt

module _ (m : Machine) (cfg : Config) (d : ℕ) (known : cfg.call_deadline_secs ≡ some d)
    (some_time : ltb 0 d ≡ true) where
  runner-deadline :
      (t : ToolConfig) (spec : ExecSpec) → (runner_of m cfg t spec).deadline ≡ some (d * 1000)
  unfolding within withholding with_arguments
  runner-deadline t spec =
      let more : eqb (d * 1000) 0 ≡ false = ground arith in rw (known, more) refl

  fallback-Prompt :
      (tool : String) (f : Option ExecFallback)
      → fallback_valid m cfg tool f ≡ ok tt
      → Prompt (d * 1000) f
  fallback-Prompt tool none valid = tt
  fallback-Prompt tool (some f) valid = ground (arith, known)

  module _ (vars : Vars) (slot : ℕ) (acts : List String → Option String → Process) where
    abbrev InTime : String × ExecRunner → Type 0
    InTime (name, r) = (run r vars slot acts).1 ≤ d * 1000

    exec-InTime :
        (t : ToolConfig) (spec : ExecSpec)
        → Prompt (d * 1000) spec.fallback
        → InTime (t.name, runner_of m cfg t spec)
    unfolding within withholding with_arguments
    exec-InTime t spec prompt =
        run_bounded (runner_of m cfg t spec) (d * 1000) (runner-deadline t spec) vars slot acts
          prompt

    lower-InTime :
        (t : ToolConfig) (r : Result ScriptError ExecSpec)
        → Plain r
        → Each InTime (
            elim r [ ok spec' ↦ ok spec' | err e ↦ err (unplaced e) ] >>= λ spec'.
            ok ((t.name, runner_of m cfg t spec') ∷ []))
    lower-InTime t (ok spec) plain =
        (exec-InTime t spec (subst (Prompt (d * 1000)) (sym plain) tt), tt)
    lower-InTime t (err e) plain = tt

    script-InTime :
        (t : ToolConfig) (spec : ScriptSpec) (o : Option ScriptDef)
        → Each InTime
            (lowered m cfg t spec o >>= λ spec'. ok ((t.name, runner_of m cfg t spec') ∷ []))
    unfolding lower
    script-InTime t spec none = tt
    script-InTime t spec (some def) =
        lower-InTime t (lower m.disk.canonical m.resolves spec def (script_dir cfg)) (
          bind-Plain (contained m.disk.canonical (script_dir cfg) (relative_path def)) _
            (λ p. refl))

    tool-InTime :
        (t : ToolConfig) (a : Action)
        → action_valid m cfg t.name a ≡ ok tt
        → Each InTime (exec_of m cfg t a)
    tool-InTime t (proxy upstream op) valid = tt
    tool-InTime t (exec spec) valid =
        (exec-InTime t spec (fallback-Prompt t.name spec.fallback (ground arith)), tt)
    tool-InTime t (script spec) valid = script-InTime t spec (find_script cfg.scripts spec.script)

    tools-InTime :
        (seen : List String) (ts : List ToolConfig)
        → tools_valid m cfg seen ts ≡ ok tt
        → All (λ t. Each InTime (exec_of m cfg t t.action)) ts
    unfolding tools_valid
    tools-InTime seen [] valid = tt
    tools-InTime seen (t ∷ ts) valid =
        (tool-InTime t t.action (ground arith), tools-InTime (t.name ∷ seen) ts (ground arith))

    -- In a gateway with a call deadline, whose configuration passed validation, the command of any tool,
    -- script or not, is over by that deadline: whatever the call's arguments, whenever a slot is free, and
    -- whatever the processes do, also where the command or its fallback never ends.
    pub engine-InTime :
        (refusal : UpstreamConfig → Option String) (e : ActionEngine) (warnings : List String)
        → validate m cfg ≡ ok warnings
        → build_engine refusal m cfg ≡ ok e
        → All InTime e.execs
    unfolding validate
    engine-InTime refusal e warnings valid same =
        engine-All m cfg InTime refusal e same (tools-InTime [] cfg.tools (ground arith))
