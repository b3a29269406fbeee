-- ===== src/Actions/Exec/Run/Bounded.antt =====
-- When a command's run is over, and which variables reach it.
use mcp_gatehound.Base.{
  ℕ, ◌-◌, ◌*◌, ◌≤◌, String, Option, some, none, List, ◌≡◌, refl, Result, ok, err, leb, ltb,
  Bool-cases, inl, inr, arith,
}
use mcp_gatehound.Config.{ExecFallback}
use mcp_gatehound.Actions.Exec.{Vars}
use mcp_gatehound.Actions.Exec.Run.{
  RunError, ExecRunner, Process, no_process, process, Ended, left_of, limit_of, own, spawn_collect,
  run_queued, queued_until, raced, labelled, run, spawned, Filled,
}

-- A fallback that starts before the deadline.
abbrev pub Prompt : ℕ → Option ExecFallback → Type 0
Prompt d none = Unit
Prompt d (some f) = f.after_secs * 1000 ≤ d

within_left :
    (o : ℕ) (d elapsed : ℕ) (r : ExecRunner)
    → own r ≡ o
    → r.deadline ≡ some d
    → limit_of r (left_of r elapsed) ≤ d - elapsed
within_left o d elapsed r same known = rw known (elim (Bool-cases (ltb (d - elapsed) (own r))) [
  | inl yes' ↦ rw yes' (ground arith)
  | inr no' ↦ rw no' (ground arith)
])

module _ (r : ExecRunner) (d : ℕ) (known : r.deadline ≡ some d) where
  limit-left : (elapsed : ℕ) → limit_of r (left_of r elapsed) ≤ d - elapsed
  limit-left elapsed = within_left (own r) d elapsed r refl known

  spawn-bounded : (elapsed : ℕ) (p : Process) → elapsed ≤ d → (spawn_collect r elapsed p).1 ≤ d
  unfolding spawn_collect
  spawn-bounded elapsed no_process early = early
  spawn-bounded elapsed (process none out errs code) early = ground (arith, limit-left elapsed)
  spawn-bounded elapsed (process (some ms) out errs code) early =
      elim (Bool-cases (leb ms (limit_of r (left_of r elapsed)))) [
        | inl yes' ↦ rw yes' (ground (arith, limit-left elapsed))
        | inr no' ↦ rw no' (ground (arith, limit-left elapsed))
      ]

  until-bounded :
      (o : Option ℕ) → o ≡ some d → (slot : ℕ) (p : Process) → (queued_until r o slot p).1 ≤ d
  until-bounded none same slot p = ground arith
  until-bounded (some e) same slot p = elim (Bool-cases (leb slot e)) [
    | inl yes' ↦ rw yes' (spawn-bounded slot p (ground arith))
    | inr no' ↦ rw no' (ground arith)
  ]

  queued-bounded : (slot : ℕ) (p : Process) → (run_queued r slot p).1 ≤ d
  unfolding run_queued
  queued-bounded slot p = until-bounded r.deadline known slot p

  labelled-bounded : (label : String) (done : Ended) → done.1 ≤ d → (labelled r label done).1 ≤ d
  labelled-bounded label (ok out, at) early = early
  labelled-bounded label (err e, at) early = early

  raced-bounded :
      (f : Option ExecFallback) (slot : ℕ) (p q : Process) → Prompt d f → (raced r f slot p q).1 ≤ d
  raced-bounded none slot p q prompt = queued-bounded slot p
  raced-bounded (some f) slot p q prompt =
      elim (Bool-cases (leb (run_queued r slot p).1 (f.after_secs * 1000))) [
        | inl yes' ↦ rw yes' (queued-bounded slot p)
        | inr no' ↦
            rw no' (labelled-bounded f.label _ (spawn-bounded (f.after_secs * 1000) q prompt))
      ]

  spawned-bounded :
      (acts : List String → Option String → Process) (slot : ℕ) (ready : Result RunError (Filled r))
      → Prompt d r.spec.fallback
      → (spawned r acts slot ready).1 ≤ d
  spawned-bounded acts slot (err e) prompt = ground arith
  spawned-bounded acts slot (ok (argv, stdin, second)) prompt =
      raced-bounded r.spec.fallback slot (acts argv stdin) (acts second stdin) prompt

  -- Where a call has a deadline, and its fallback, if it has one, starts no later than it, the run is
  -- over by the deadline: whatever its arguments, whenever a slot is free, and whatever the processes
  -- do, also where one never ends.
  pub run_bounded :
      (vars : Vars) (slot : ℕ) (acts : List String → Option String → Process)
      → Prompt d r.spec.fallback
      → (run r vars slot acts).1 ≤ d
  unfolding run
  run_bounded vars slot acts prompt = spawned-bounded acts slot _ prompt
