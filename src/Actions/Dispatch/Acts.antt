-- ===== src/Actions/Dispatch/Acts.antt =====
-- What the actions of one call do to the database and to the count of acts.
use mcp_gatehound.Base.{
  ℕ, suc, String, ◌≡◌, ◌⊎◌, refl, ap, ◌∙◌, arith, ok, inl, inr, Option-cases, Result-cases,
}
use mcp_gatehound.Json.{Value}
use mcp_gatehound.Config.{ToolConfig, Action, ExecSpec, ScriptSpec, proxy, exec, script}
use mcp_gatehound.Actions.Limits.{acquire}
use mcp_gatehound.Actions.Dispatch.{
  Surroundings, World, perform, perform_exec, perform_limited, acquire_slot, commit_slot,
  scalar_vars,
}

Action-cases :
    (a : Action)
    → ((upstream : String) × (op : String) × (a ≡ proxy upstream op))
      ⊎ (((spec : ExecSpec) × (a ≡ exec spec)) ⊎ ((spec : ScriptSpec) × (a ≡ script spec)))
Action-cases (proxy upstream op) = inl (upstream, op, refl)
Action-cases (exec spec) = inr (inl (spec, refl))
Action-cases (script spec) = inr (inr (spec, refl))

-- The database is as it was, or as other calls left it; and there was one act at most.
pub data After (s : Surroundings) (w : World) : World → Type 0 where
  same : (u : World) → u.conn ≡ w.conn → u.acts ≡ w.acts → After s w u
  later : (u : World) (n : ℕ) → u.conn ≡ s.meantime n w.conn → u.acts ≡ suc w.acts → After s w u

module _ (s : Surroundings) (t : ToolConfig) (args : Value) where
  acquire_slot-conn :
      (w : World) → ((acquire_slot t w).1.conn ≡ w.conn) × ((acquire_slot t w).1.acts ≡ w.acts)
  unfolding acquire_slot
  acquire_slot-conn w = elim (Option-cases (w.limits t.name)) [
    | inl free ↦ rw (free, acquire_slot) (refl, refl)
    | inr (rl, there) ↦ elim (Result-cases (acquire w.now_ms rl).0) [
      | inl (wait, got) ↦ rw (there, acquire_slot, got) (refl, refl)
      | inr (m, spent) ↦ rw (there, acquire_slot, spent) (refl, refl)
    ]
  ]

  commit_slot-conn :
      (w : World) → ((commit_slot t w).conn ≡ w.conn) × ((commit_slot t w).acts ≡ w.acts)
  unfolding commit_slot
  commit_slot-conn w = elim (Option-cases (w.limits t.name)) [
    | inl free ↦ rw (free, commit_slot) (refl, refl)
    | inr (rl, there) ↦ rw (there, commit_slot) (refl, refl)
  ]

  perform_exec-After : (w : World) → After s w (perform_exec s t.name args w).1
  perform_exec-After w = elim (Option-cases (s.runner t.name)) [
    | inl missing ↦ rw (missing, perform_exec) (same _ refl refl)
    | inr (run, there) ↦ elim (Result-cases (scalar_vars s.number_text args)) [
      | inl (vars, good) ↦ rw (there, perform_exec, good) (later _ w.acts refl refl)
      | inr (m, bad) ↦ rw (there, perform_exec, bad) (same _ refl refl)
    ]
  ]

  perform-After : (w : World) → After s w (perform s t args w).1
  unfolding perform
  perform-After w = elim (Action-cases t.action) [
    | inl (upstream, op, e) ↦ elim (Option-cases (s.upstream upstream)) [
      | inl missing ↦ rw (e, perform, missing) (same _ refl refl)
      | inr (call, there) ↦ rw (e, perform, there) (later _ w.acts refl refl)
    ]
    | inr (inl (spec, e)) ↦ rw (e, perform) (perform_exec-After w)
    | inr (inr (spec, e)) ↦ rw (e, perform) (perform_exec-After w)
  ]

  moved :
      (w v u x : World)
      → v.conn ≡ w.conn
      → v.acts ≡ w.acts
      → u.conn ≡ x.conn
      → u.acts ≡ x.acts
      → After s v x
      → After s w u
  moved w v u x e f g h (same x' c a) = same u (g ∙ (c ∙ e)) (h ∙ (a ∙ f))
  moved w v u x e f g h (later x' n c a) =
      later u n (g ∙ (c ∙ ap (s.meantime n) e)) (h ∙ (a ∙ ap suc f))

  pub perform_limited-After : (w : World) → After s w (perform_limited s t args w).1
  unfolding perform_limited
  perform_limited-After w =
      let slot = acquire_slot-conn w in
      elim (Result-cases (acquire_slot t w).0) [
        | inr (m, spent) ↦ rw (spent, perform_limited) (same _ slot.0 slot.1)
        | inl (u, got) ↦
            let w1 = (acquire_slot t w).1 in
            let w2 = (perform s t args w1).1 in
            elim (Result-cases (perform s t args w1).0) [
              | inl (v, good) ↦
                  rw (got, perform_limited, good)
                    (moved w w1 _ w2 slot.0 slot.1 (commit_slot-conn w2).0 (commit_slot-conn w2).1
                      (perform-After w1))
              | inr (m, bad) ↦
                  rw (got, perform_limited, bad)
                    (moved w w1 w2 w2 slot.0 slot.1 refl refl (perform-After w1))
            ]
      ]

  -- A result behind the limiter is one of the action's own.
  pub perform_limited_result :
      (w : World) (v : Value)
      → (perform_limited s t args w).0 ≡ ok v
      → (u : World) × ((perform s t args u).0 ≡ ok v)
  unfolding perform_limited
  perform_limited_result w v e = elim (Result-cases (acquire_slot t w).0) [
    | inr (m, spent) ↦ absurd (ground arith)
    | inl (u, got) ↦ elim (Result-cases (perform s t args (acquire_slot t w).1).0) [
      | inr (m, bad) ↦ absurd (ground arith)
      | inl (r, good) ↦ ((acquire_slot t w).1, ground arith)
    ]
  ]
