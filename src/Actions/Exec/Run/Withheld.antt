-- ===== src/Actions/Exec/Run/Withheld.antt =====
-- Which variables reach a command.
use mcp_gatehound.Base.{
  same_texts, String, true, false, Option, some, none, List, [], ◌∷◌, ◌==◌, ◌≡◌, refl, any,
  Bool-cases, inl, inr,
}
use mcp_gatehound.Actions.Exec.{Vars, get_var}
use mcp_gatehound.Actions.Exec.Run.{ExecRunner, set_all, without, with_path, child_env}

set_all-alike :
    (r : ExecRunner) (k : String) (xs : List (String × String)) (a b : Vars)
    → get_var k a ≡ get_var k b
    → get_var k (set_all r xs a) ≡ get_var k (set_all r xs b)
set_all-alike r k [] a b same = same
set_all-alike r k ((n, v) ∷ xs) a b same =
    set_all-alike r k xs ((n, v) ∷ a) ((n, v) ∷ b) (get-put k n v a b same)
  where
    get-put :
        (k n v : String) (a b : Vars)
        → get_var k a ≡ get_var k b
        → get_var k ((n, v) ∷ a) ≡ get_var k ((n, v) ∷ b)
    get-put k n v a b same = rw same refl

module _ (r : ExecRunner) (k : String) (hidden : any (λ w. w == k) r.withheld ≡ true) where
  get-without : (env : Vars) → get_var k (without r env) ≡ none
  get-without [] = refl
  get-without ((n, v) ∷ env) = elim (Bool-cases (any (λ w. w == n) r.withheld)) [
    | inl yes' ↦ rw yes' (get-without env)
    | inr no' ↦ rw no' (grind (same_texts, get-without env, hidden, no'))
  ]

  get-with_path :
      (child_path : String → Option String) (env : Vars)
      → get_var k env ≡ none
      → get_var k (with_path r child_path env) ≡ none
  get-with_path child_path env there = elim (Bool-cases (any (λ w. w == "PATH") r.withheld)) [
    | inl yes' ↦ rw yes' there
    | inr no' ↦ rw no' (by_path no' (get_var "PATH" env))
  ]
    where
      by_new :
          any (λ w. w == "PATH") r.withheld ≡ false
          → (o : Option String)
          → get_var k (elim o [ none ↦ env | some q ↦ ("PATH", q) ∷ env ]) ≡ none
      by_new shown none = there
      by_new shown (some q) = grind (same_texts, hidden, shown, there)

      by_path :
          any (λ w. w == "PATH") r.withheld ≡ false
          → (o : Option String)
          → get_var k (elim o [
            | none ↦ env
            | some p ↦ elim (child_path p) [ none ↦ env | some q ↦ ("PATH", q) ∷ env ]
          ])
            ≡ none
      by_path shown none = there
      by_path shown (some p) = by_new shown (child_path p)

  -- A variable that is withheld reaches a command only as the tool's own environment sets it, whatever the
  -- gateway's environment holds for it.
  pub child_env-withheld :
      (child_path : String → Option String) (inherited : Vars)
      → get_var k (child_env r child_path inherited) ≡ get_var k (set_all r r.spec.env [])
  unfolding child_env
  child_env-withheld child_path inherited =
      set_all-alike r k r.spec.env (with_path r child_path (without r inherited)) []
        (get-with_path child_path (without r inherited) (get-without inherited))
