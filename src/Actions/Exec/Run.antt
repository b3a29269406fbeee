-- ===== src/Actions/Exec/Run.antt =====
-- crates/gatehound-core/src/actions/exec.rs: the run of a command, with its queue, its timeouts, its fallback
-- and the environment that it is given. Times are milliseconds from the moment the call asks for a slot;
-- what a process does is an argument.

pub mod Bounded
pub mod Withheld
use mcp_gatehound.Base.{
  ℕ, ◌+◌, ◌-◌, ◌*◌, max, String, Bool, true, false, not, ◌&&◌, Option, some, none, List, [], ◌∷◌,
  ◌++◌, ◌==◌, any, retain, Result, ok, err, ◌>>=◌, leb, ltb, eqb, is_empty, take_chars,
  if◌then◌else◌,
}
use mcp_gatehound.Config.{ExecSpec, ExecFallback, ArgumentDef}
use mcp_gatehound.Actions.Exec.{ExecError, Vars, get_var, render, build_argv, read_capped}

abbrev pub max_stderr_bytes : ℕ
max_stderr_bytes = 4096

unfoldable pub gateway_secret_vars : List String
gateway_secret_vars = "GATEHOUND_TOKEN" ∷ "CLOUDFLARE_TUNNEL_TOKEN" ∷ []

pub record ExecRunner : Type 0 where
  pub spec : ExecSpec
  pub declared : List ArgumentDef
  pub withheld : List String
  -- in milliseconds
  pub deadline : Option ℕ

unfoldable pub with_arguments : ExecSpec → List ArgumentDef → ExecRunner
with_arguments spec declared = record {
  spec = spec;
  declared = declared;
  withheld = gateway_secret_vars;
  deadline = none;
}

abbrev positive : Option ℕ → Option ℕ
positive none = none
positive (some d) = if eqb d 0 then none else some d

unfoldable pub within : Option ℕ → ExecRunner → ExecRunner
within deadline r = record r { deadline = positive deadline }

abbrev withhold_one : String → List String → List String
withhold_one name withheld =
    if not (is_empty name) && not (any (λ w. w == name) withheld)
    then withheld ++ name ∷ []
    else withheld

abbrev pub withhold_all : List String → List String → List String
withhold_all [] withheld = withheld
withhold_all (n ∷ ns) withheld = withhold_all ns (withhold_one n withheld)

unfoldable pub withholding : List String → ExecRunner → ExecRunner
withholding names r = record r { withheld = withhold_all names r.withheld }

pub record ExecOutput : Type 0 where
  pub stdout : List ℕ
  pub stderr : List ℕ
  pub truncated : Bool
  pub fallback : Option String

pub data RunError : Type 0 where
  bad_template : ExecError → RunError
  not_started : (cmd : String) (deadline_ms : ℕ) → RunError
  not_spawned : (cmd : String) → RunError
  not_found : (cmd : String) (detail : List ℕ) → RunError
  stopped : (cmd : String) (deadline_ms : ℕ) → RunError
  timed_out : (cmd : String) (secs : ℕ) → RunError
  -- the message shows the first characters of what it wrote
  exited : (cmd : String) (code : ℕ) (detail : List ℕ) → RunError

-- A process that could not be started, or one that ends after a while or never, with what it wrote
-- and its exit code; a signal that ended it is a code above 255.
pub data Process : Type 0 where
  no_process : Process
  process : (ends_ms : Option ℕ) (out errs : List (List ℕ)) (code : ℕ) → Process

abbrev pub Ended : Type 0
Ended = Result RunError ExecOutput × ℕ

module _ (r : ExecRunner) where
  -- The tool's own timeout, and what is left of the deadline where that is less.
  abbrev pub own : ℕ
  own = max 1 r.spec.timeout_secs * 1000

  abbrev pub left_of : ℕ → Option ℕ
  left_of elapsed = elim r.deadline [
    | none ↦ none
    | some d ↦ if ltb (d - elapsed) own then some (d - elapsed) else none
  ]

  abbrev pub limit_of : Option ℕ → ℕ
  limit_of none = own
  limit_of (some left) = left

  abbrev too_late : Option ℕ → RunError
  too_late none = timed_out r.spec.cmd r.spec.timeout_secs
  too_late (some left) = stopped r.spec.cmd (elim r.deadline [ none ↦ 0 | some d ↦ d ])

  abbrev collected : List (List ℕ) → List (List ℕ) → ℕ → Result RunError ExecOutput
  collected out errs code =
      let (kept, dropped) = read_capped (max 1 r.spec.max_output_bytes) out [] false in
      let heard = (read_capped max_stderr_bytes errs [] false).0 in
      if eqb code 127
      then err (not_found r.spec.cmd heard)
      else if eqb code 0
      then ok (record { stdout = kept; stderr = heard; truncated = dropped; fallback = none })
      else err (exited r.spec.cmd code heard)

  abbrev pub watched : ℕ → Option ℕ → Process → Ended
  watched elapsed left no_process = (err (not_spawned r.spec.cmd), elapsed)
  watched elapsed left (process none out errs code) = (err (too_late left), elapsed + limit_of left)
  watched elapsed left (process (some ms) out errs code) =
      if leb ms (limit_of left)
      then (collected out errs code, elapsed + ms)
      else (err (too_late left), elapsed + limit_of left)

  -- The outcome, and when it is there.
  unfoldable pub spawn_collect : ℕ → Process → Ended
  spawn_collect elapsed p = watched elapsed (left_of elapsed) p

  abbrev pub queued_until : Option ℕ → ℕ → Process → Ended
  queued_until none slot p = spawn_collect slot p
  queued_until (some d) slot p =
      if leb slot d then spawn_collect slot p else (err (not_started r.spec.cmd d), d)

  -- `slot` is when a slot is free.
  unfoldable pub run_queued : ℕ → Process → Ended
  run_queued slot p = queued_until r.deadline slot p

  abbrev pub labelled : String → Ended → Ended
  labelled label (err e, at) = (err e, at)
  labelled label (ok out, at) = (ok (record out { fallback = some label }), at)

  -- The command, and the fallback where the command has not answered within its budget.
  abbrev pub raced : Option ExecFallback → ℕ → Process → Process → Ended
  raced none slot p q = run_queued slot p
  raced (some f) slot p q =
      let done = run_queued slot p in
      if leb done.1 (f.after_secs * 1000)
      then done
      else labelled f.label (spawn_collect (f.after_secs * 1000) q)

  abbrev filled {ℓ} : {A : Type ℓ} → Result ExecError A → Result RunError A
  filled (ok a) = ok a
  filled (err e) = err (bad_template e)

  abbrev stdin_of : Option String → Vars → Result RunError (Option String)
  stdin_of none vars = ok none
  stdin_of (some t) vars = filled (render t vars) >>= λ s. ok (some s)

  abbrev fallback_argv : Option ExecFallback → Vars → Result RunError (List String)
  fallback_argv none vars = ok []
  fallback_argv (some f) vars =
      filled (build_argv (record r.spec { args = f.args; fallback = none }) r.declared vars)

  -- The two command lines and the input, before anything runs.
  abbrev pub Filled : Type 0
  Filled = List String × Option String × List String

  abbrev filled_with : List String → Option String → List String → Result RunError Filled
  filled_with argv stdin second = ok (argv, stdin, second)

  abbrev prepared : Vars → Result RunError Filled
  prepared vars = filled (build_argv r.spec r.declared vars) >>= λ argv.
      stdin_of r.spec.stdin vars >>= λ stdin.
      fallback_argv r.spec.fallback vars >>= λ second. filled_with argv stdin second

  abbrev pub spawned : (List String → Option String → Process) → ℕ → Result RunError Filled → Ended
  spawned acts slot (err e) = (err e, 0)
  spawned acts slot (ok (argv, stdin, second)) =
      raced r.spec.fallback slot (acts argv stdin) (acts second stdin)

  -- Every command line is filled before anything runs; it decides what the processes do.
  unfoldable pub run : Vars → ℕ → (List String → Option String → Process) → Ended
  run vars slot acts = spawned acts slot (prepared vars)

  abbrev pub set_all : List (String × String) → Vars → Vars
  set_all [] env = env
  set_all ((k, v) ∷ more) env = set_all more ((k, v) ∷ env)

  abbrev pub without : Vars → Vars
  without env = retain (λ kv. not (any (λ w. w == kv.0) r.withheld)) env

  abbrev pub with_path : (String → Option String) → Vars → Vars
  with_path child_path env =
      if any (λ w. w == "PATH") r.withheld then env else (elim (get_var "PATH" env) [
        | none ↦ env
        | some p ↦ elim (child_path p) [ none ↦ env | some q ↦ ("PATH", q) ∷ env ]
      ])

  -- What the child finds in its environment; `child_path` puts the command's directory in front.
  unfoldable pub child_env : (String → Option String) → Vars → Vars
  child_env child_path inherited = set_all r.spec.env (with_path child_path (without inherited))
