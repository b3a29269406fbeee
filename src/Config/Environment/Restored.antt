-- ===== src/Config/Environment/Restored.antt =====
-- What of the environment goes back to the configuration's file.
use mathlib.Core.Path.{subst}
use mcp_gatehound.Base.{
  String, Bool, true, false, not, ◌&&◌, Option, List, [], ◌∷◌, ◌++◌, ◌==◌, ◌≡◌, refl, sym, ap, ◌∙◌,
  ◌⊎◌, any, find, map, All, All-append, All-map, All-find, is_some, is_some-find, Distinct,
  Distinct-append, Bool-cases, Option-cases, inl, inr, arith, if◌then◌else◌,
}
use mcp_gatehound.Config.Settings.{
  Config, UpstreamConfig, UpstreamKind, http, mcp, Secret, bearer, tunnel, upstream, EnvSecret,
  find_upstream,
}
use mcp_gatehound.Config.Environment.{
  secret_slots, secret, same_text, same_slot, put_back, for_disk, apply_env_values, remember,
  apply_env_from, upstream_from,
}
use mcp_gatehound.Config.Environment.Slots.{
  holds, holds_upstream, holds_kind, fitted-secret, same_slot_sound, same_slot_refl,
  same_text_sound,
}
use mcp_gatehound.Config.Environment.Slots.Back.{
  of_slot, same_entry, put_back-at, noting, secret-noting, put_back-noting,
}

module _ (var : String → Option String) where
  upstream_from-holds :
      (name : String) (us : List UpstreamConfig)
      → holds_upstream (find_upstream (map (upstream_from var) us) name)
        ≡ holds_upstream (find_upstream us name)
  unfolding find_upstream
  upstream_from-holds name [] = refl
  upstream_from-holds name (u ∷ us) = elim (Bool-cases (u.name == name)) [
    | inl here ↦ rw (here, find_upstream) (by_kind u.kind)
    | inr there ↦ rw (there, find_upstream) (upstream_from-holds name us)
  ]
    where
      by_kind :
          (k : UpstreamKind)
          → holds_kind (upstream_from var (record { name = name; kind = k })).kind ≡ holds_kind k
      by_kind (http h) = refl
      by_kind (mcp m) = refl

  holds-env : (t : Secret) (cfg : Config) → holds t (apply_env_values var cfg) ≡ holds t cfg
  unfolding apply_env_values
  holds-env bearer cfg = refl
  holds-env tunnel cfg = refl
  holds-env (upstream name) cfg = upstream_from-holds name cfg.upstreams

  module _ (cfg now : Config) where
    abbrev with_file : Secret → Secret × Option String
    with_file slot = (slot, secret slot cfg)

    -- An entry says what its slot holds now and held in the file.
    abbrev IsTrue : EnvSecret → Type 0
    IsTrue e = (e.env ≡ secret e.slot now) × (e.file ≡ secret e.slot cfg)

    abbrev entry : Secret → EnvSecret
    entry slot = record { slot = slot; file = secret slot cfg; env = secret slot now }

    abbrev is_new : Secret → List EnvSecret → Bool
    is_new slot known =
        not (same_text (secret slot now) (secret slot cfg))
        && not (any (λ e. same_slot e.slot slot) known)

    abbrev after : Secret → List EnvSecret → List EnvSecret
    after slot known = if is_new slot known then known ++ entry slot ∷ [] else known

    after_sound :
        (slot : Secret) (known : List EnvSecret)
        → Distinct same_entry known × All IsTrue known
        → Distinct same_entry (after slot known) × All IsTrue (after slot known)
    after_sound slot known (distinct, true') = elim (Bool-cases (is_new slot known)) [
      | inr old ↦ rw old (distinct, true')
      | inl new ↦ rw new (
        Distinct-append same_entry known (entry slot) distinct (ground arith),
        All-append IsTrue known (entry slot ∷ []) true' ((refl, refl), tt),
      )
    ]

    remember_sound :
        (slots : List Secret) (known : List EnvSecret)
        → Distinct same_entry known × All IsTrue known
        → Distinct same_entry (remember var now (map with_file slots) known)
          × All IsTrue (remember var now (map with_file slots) known)
    remember_sound [] known h = h
    remember_sound (slot ∷ slots) known h =
        remember_sound slots (after slot known) (after_sound slot known h)

    any-append_left :
        (t : Secret) (xs ys : List EnvSecret)
        → any (of_slot t) xs ≡ true
        → any (of_slot t) (xs ++ ys) ≡ true
    any-append_left t [] ys h = cc
    any-append_left t (x ∷ xs) ys h = ground (arith, any-append_left t xs ys)

    any-append_right :
        (t : Secret) (xs : List EnvSecret) (y : EnvSecret)
        → of_slot t y ≡ true
        → any (of_slot t) (xs ++ y ∷ []) ≡ true
    any-append_right t [] y h = ground arith
    any-append_right t (x ∷ xs) y h = ground (arith, any-append_right t xs y)

    after-keeps :
        (t slot : Secret) (known : List EnvSecret)
        → any (of_slot t) known ≡ true
        → any (of_slot t) (after slot known) ≡ true
    after-keeps t slot known h = elim (Bool-cases (is_new slot known)) [
      | inl new ↦ rw new (any-append_left t known (entry slot ∷ []) h)
      | inr old ↦ rw old h
    ]

    remember-keeps :
        (t : Secret) (slots : List Secret) (known : List EnvSecret)
        → any (of_slot t) known ≡ true
        → any (of_slot t) (remember var now (map with_file slots) known) ≡ true
    remember-keeps t [] known h = h
    remember-keeps t (slot ∷ slots) known h =
        remember-keeps t slots (after slot known) (after-keeps t slot known h)

    covered :
        (t slot : Secret) (known : List EnvSecret)
        → slot ≡ t
        → (any (of_slot t) (after slot known) ≡ true) ⊎ (secret t now ≡ secret t cfg)
    covered t slot known same = elim (Bool-cases (is_new slot known)) [
      | inl new ↦
          let here : of_slot t (entry slot) ≡ true =
            subst (λ x. same_slot slot x ≡ true) same (same_slot_refl slot) in
          inl (rw new (any-append_right t known (entry slot) here))
      | inr old ↦ elim (Bool-cases (same_text (secret slot now) (secret slot cfg))) [
        | inl kept ↦ inr (
            subst (λ x. secret x now ≡ secret x cfg) same
              (same_text_sound (secret slot now) (secret slot cfg) kept))
        | inr changed ↦
            let known_one : any (λ e. same_slot e.slot slot) known ≡ true = ground arith in
            inl (rw old (subst (λ x. any (of_slot x) known ≡ true) same known_one))
      ]
    ]

    remember-covers :
        (t : Secret) (slots : List Secret) (known : List EnvSecret)
        → any (λ s. same_slot s t) slots ≡ true
        → (any (of_slot t) (remember var now (map with_file slots) known) ≡ true)
          ⊎ (secret t now ≡ secret t cfg)
    remember-covers t [] known there = cc
    remember-covers t (slot ∷ slots) known there = elim (Bool-cases (same_slot slot t)) [
      | inl here ↦ elim (covered t slot known (same_slot_sound slot t here)) [
        | inl in_it ↦ inl (remember-keeps t slots (after slot known) in_it)
        | inr unchanged ↦ inr unchanged
      ]
      | inr later ↦ remember-covers t slots (after slot known) (ground arith)
    ]

    entries : List EnvSecret
    entries = remember var now (map with_file (secret_slots cfg)) []

    envs :
        (t : Secret) (es : List EnvSecret)
        → All IsTrue es
        → All (λ e. (of_slot t e ≡ false) ⊎ (e.env ≡ secret t now)) es
    envs t es h =
        All-map IsTrue (λ e. (of_slot t e ≡ false) ⊎ (e.env ≡ secret t now)) es
          (λ e (env, file). elim (Bool-cases (of_slot t e)) [
            | inr off ↦ inl off
            | inl on ↦ inr (subst (λ x. e.env ≡ secret x now) (same_slot_sound e.slot t on) env)
          ])
          h

    back :
        (t : Secret)
        → holds t now ≡ holds t cfg
        → any (λ s. same_slot s t) (secret_slots cfg) ≡ true
        → secret t (put_back entries now) ≡ secret t cfg
    unfolding entries
    back t same_kind there =
        let (distinct, true') = remember_sound (secret_slots cfg) [] (tt, tt) in
        put_back-at t entries now distinct (envs t entries true')
        ∙ elim (Option-cases (find (of_slot t) entries)) [
          | inr (e, found) ↦
              let (on, (env, file)) = All-find IsTrue (of_slot t) entries e found true' in
              let held : e.file ≡ secret t cfg =
                subst (λ x. e.file ≡ secret x cfg) (same_slot_sound e.slot t on) file in
              rw found (rw (held, same_kind) (fitted-secret t cfg))
          | inl absent ↦ elim (remember-covers t (secret_slots cfg) [] there) [
            | inr unchanged ↦ rw absent unchanged
            | inl in_it ↦
                let there' : any (of_slot t) entries ≡ true = in_it in
                let none_there : any (of_slot t) entries ≡ false =
                  sym (is_some-find (of_slot t) entries) ∙ ap is_some absent in
                absurd (ground arith)
          ]
        ]

  kept : (cfg : Config) → (apply_env_values var cfg).from_env ≡ cfg.from_env
  unfolding apply_env_values
  kept cfg = refl

  -- A configuration that was loaded and then saved again keeps in its file, in each place that holds a
  -- credential, what the file had there before, whatever the environment supplied in its place.
  pub for_disk-apply :
      (cfg : Config) (t : Secret)
      → cfg.from_env ≡ []
      → any (λ s. same_slot s t) (secret_slots cfg) ≡ true
      → secret t (for_disk (apply_env_from var cfg)) ≡ secret t cfg
  unfolding entries for_disk apply_env_from
  for_disk-apply cfg t fresh there =
      let now = apply_env_values var cfg in
      let known = remember var now (map (with_file cfg now) (secret_slots cfg)) now.from_env in
      let same : known ≡ entries cfg now =
        ap (remember var now (map (with_file cfg now) (secret_slots cfg))) (kept cfg ∙ fresh) in
      secret-noting [] t (put_back known (noting known now))
      ∙ (ap (secret t) (put_back-noting known known now)
          ∙ (secret-noting known t (put_back known now)
              ∙ (ap (λ es. secret t (put_back es now)) same
                  ∙ back cfg now t (holds-env t cfg) there)))
