-- ===== src/Actions/Exec/Argv.antt =====
-- What a command line can be made of.
use mcp_gatehound.Base.{
  ◌≤◌, String, len, Bool, true, false, not, ◌&&◌, some, none, List, [], ◌∷◌, ◌++◌, ◌+++◌, ◌≡◌, refl,
  sym, ap, ◌∙◌, arith, ok, ◌>>=◌, ◌>>◌, guard, >>=-eq-ok, All, is_some, ltb, Bool-cases,
  Option-cases, inl, inr, ◌⊎◌,
}
use mcp_gatehound.Config.{ExecSpec, ArgumentDef}
use mcp_gatehound.Actions.Exec.{
  max_argv_value_bytes, ExecError, required, Vars, get_var, render, has_nul, push_checked,
  starts_dash, is_plain_number, appended, check_given, push_rendered, push_templates, push_pair,
  push_pairs, build_argv,
}

-- An element that may stand in a command line: short, and no NUL byte in it.
abbrev pub IsElement : String → Type 0
IsElement s = (len s ≤ max_argv_value_bytes) × (has_nul s ≡ false)

-- One element for each template, which starts with a dash only where the template does or where it is a
-- plain negative number.
pub data Rendered (vars : Vars) : List String → List String → Type 0 where
  nothing : Rendered vars [] []
  element :
      {arg e : String} {args es : List String}
      → render arg vars ≡ ok e
      → ((starts_dash e ≡ false) ⊎ ((starts_dash arg ≡ true) ⊎ (is_plain_number e ≡ true)))
      → IsElement e
      → Rendered vars args es
      → Rendered vars (arg ∷ args) (e ∷ es)

-- A flag and its value for each argument that was given.
pub data Pairs (vars : Vars) : List ArgumentDef → List String → Type 0 where
  no_more : Pairs vars [] []
  absent :
      {a : ArgumentDef} {defs : List ArgumentDef} {es : List String}
      → get_var a.name vars ≡ none
      → Pairs vars defs es
      → Pairs vars (a ∷ defs) es
  given :
      {a : ArgumentDef} {defs : List ArgumentDef} {es : List String} {value : String}
      → get_var a.name vars ≡ some value
      → IsElement ("--" +++ a.name)
      → IsElement value
      → Pairs vars defs es
      → Pairs vars (a ∷ defs) (("--" +++ a.name) ∷ value ∷ es)

push_checked_sound :
    (value : String) (argv out : List String)
    → push_checked value argv ≡ ok out
    → IsElement value × (out ≡ argv ++ value ∷ [])
unfolding push_checked
push_checked_sound value argv out e = elim (Bool-cases (ltb max_argv_value_bytes (len value))) [
  | inl long ↦ absurd (ground arith)
  | inr short ↦ elim (Bool-cases (has_nul value)) [
    | inl nul ↦ absurd (ground arith)
    | inr clean ↦ ((ground arith, clean), ground arith)
  ]
]

guard-ok : (b : Bool) (x : ExecError) {u : Unit {0}} → guard b x ≡ ok u → b ≡ true
guard-ok true x e = refl
guard-ok false x e = cc

push_rendered_sound :
    (arg : String) (vars : Vars) (argv out : List String)
    → push_rendered arg vars argv ≡ ok out
    → (e : String) × (render arg vars ≡ ok e)
      × ((starts_dash e ≡ false) ⊎ ((starts_dash arg ≡ true) ⊎ (is_plain_number e ≡ true)))
      × IsElement e
      × (out ≡ argv ++ e ∷ [])
unfolding push_rendered
push_rendered_sound arg vars argv out h =
    let (e, rendered, rest) = >>=-eq-ok (render arg vars) _ h in
    let (u, guarded, pushed) = >>=-eq-ok (guard _ _) _ rest in
    let fine = guard-ok _ _ guarded in
    let (fits, same) = push_checked_sound e argv out pushed in
    (e, rendered, dash e fine, fits, same)
  where
    dash :
        (e : String)
        → not (starts_dash e && (not (starts_dash arg) && not (is_plain_number e))) ≡ true
        → (starts_dash e ≡ false) ⊎ ((starts_dash arg ≡ true) ⊎ (is_plain_number e ≡ true))
    dash e fine = elim (Bool-cases (starts_dash e)) [
      | inr none' ↦ inl none'
      | inl some' ↦ elim (Bool-cases (starts_dash arg)) [
        | inl own ↦ inr (inl own)
        | inr other ↦ inr (inr (ground arith))
      ]
    ]

append_assoc : (xs ys zs : List String) → (xs ++ ys) ++ zs ≡ xs ++ (ys ++ zs)
append_assoc [] ys zs = refl
append_assoc (x ∷ xs) ys zs = ap (λ us. x ∷ us) (append_assoc xs ys zs)

append_nil : (xs : List String) → xs ++ [] ≡ xs
append_nil [] = refl
append_nil (x ∷ xs) = ap (λ ys. x ∷ ys) (append_nil xs)

push_templates_sound :
    (args : List String) (vars : Vars) (argv out : List String)
    → push_templates args vars argv ≡ ok out
    → (es : List String) × Rendered vars args es × (out ≡ argv ++ es)
unfolding push_templates
push_templates_sound [] vars argv out h = ([], nothing, ground (arith, append_nil argv))
push_templates_sound (arg ∷ args) vars argv out h =
    let (next, pushed, rest) = >>=-eq-ok (push_rendered arg vars argv) _ h in
    let (e, rendered, dash, fits, same) = push_rendered_sound arg vars argv next pushed in
    let (es, all', same') = push_templates_sound args vars next out rest in
    (
      e ∷ es,
      element rendered dash fits all',
      same' ∙ (ap (λ xs. xs ++ es) same ∙ append_assoc argv (e ∷ []) es),
    )

push_pairs_sound :
    (defs : List ArgumentDef) (vars : Vars) (argv out : List String)
    → push_pairs defs vars argv ≡ ok out
    → (es : List String) × Pairs vars defs es × (out ≡ argv ++ es)
unfolding push_pairs push_pair
push_pairs_sound [] vars argv out h = ([], no_more, ground (arith, append_nil argv))
push_pairs_sound (a ∷ defs) vars argv out h =
    let (next, first, rest) = >>=-eq-ok (push_pair a vars argv) _ h in
    let (es, all', same'') = push_pairs_sound defs vars next out rest in
    elim (Option-cases (get_var a.name vars)) [
      | inl missing ↦
          let same : argv ≡ next = ground arith in
          (es, absent missing all', same'' ∙ ap (λ xs. xs ++ es) (sym same))
      | inr (value, there) ↦
          let pushed : (push_checked ("--" +++ a.name) argv >>= push_checked value) ≡ ok next =
            ground arith in
          let (mid, flag, pushed') = >>=-eq-ok (push_checked ("--" +++ a.name) argv) _ pushed in
          let (fits, same) = push_checked_sound ("--" +++ a.name) argv mid flag in
          let (fits', same') = push_checked_sound value mid next pushed' in
          (
            ("--" +++ a.name) ∷ value ∷ es,
            given there fits fits' all',
            same''
                ∙ (ap (λ xs. xs ++ es) (same' ∙ ap (λ xs. xs ++ value ∷ []) same)
                    ∙ (append_assoc (argv ++ ("--" +++ a.name) ∷ []) (value ∷ []) es
                        ∙ append_assoc argv (("--" +++ a.name) ∷ []) (value ∷ es))),
          )
    ]

-- Every command line that is built has one element for each of the configured templates, then a flag
-- and a value for each declared argument that the templates do not place and the caller gave. No
-- element is over 4096 bytes or has a NUL byte, and none of the first kind starts with a dash unless
-- its template does or it is a plain negative number, so that no value becomes a second element or, in the
-- place of a template, an option. The value behind a flag is the caller's as it stands.
pub build_argv_sound :
    (spec : ExecSpec) (declared : List ArgumentDef) (vars : Vars) (argv : List String)
    → build_argv spec declared vars ≡ ok argv
    → (front : List String) × (back : List String) × (argv ≡ front ++ back)
      × Rendered vars spec.args front
      × Pairs vars (appended spec declared) back
unfolding build_argv
build_argv_sound spec declared vars argv h =
    let (front, placed, rest) =
      >>=-eq-ok (check_given declared vars >> push_templates spec.args vars []) _ h in
    let (u, given', placed') = >>=-eq-ok (check_given declared vars) _ placed in
    let (es, all', same) = push_templates_sound spec.args vars [] front placed' in
    let (back, pairs, same') = push_pairs_sound (appended spec declared) vars front argv rest in
    (es, back, same' ∙ ap (λ xs. xs ++ back) same, all', pairs)

-- A command line is refused for a required argument that is missing, whatever the templates say.
pub build_argv_missing :
    (spec : ExecSpec) (declared : List ArgumentDef) (vars : Vars) (argv : List String)
    → build_argv spec declared vars ≡ ok argv
    → All (λ a. (a.required ≡ false) ⊎ (is_some (get_var a.name vars) ≡ true)) declared
unfolding build_argv check_given
build_argv_missing spec declared vars argv h =
    let (front, placed, rest) =
      >>=-eq-ok (check_given declared vars >> push_templates spec.args vars []) _ h in
    let (u, given', placed') = >>=-eq-ok (check_given declared vars) _ placed in
    each declared u given'
  where
    each :
        (defs : List ArgumentDef) (u : Unit {0})
        → check_given defs vars ≡ ok u
        → All (λ a. (a.required ≡ false) ⊎ (is_some (get_var a.name vars) ≡ true)) defs
    each [] u e = tt
    each (a ∷ defs) u e =
        let (u', guarded, rest) =
          >>=-eq-ok
            (guard (not (a.required && not (is_some (get_var a.name vars)))) (required a.name)) _
            e in
        let fine = guard-ok _ _ guarded in
        (
          elim (Bool-cases a.required) [ inl yes' ↦ inr (ground arith) | inr no' ↦ inl no' ],
          each defs u rest,
        )
