-- ===== src/Config/Environment/Slots/Back.antt =====
-- What each slot of a credential holds once the file's values are back.
use mathlib.Core.Path.{subst}
use mcp_gatehound.Base.{
  same_texts, String, Bool, true, false, ◌||◌, Option, some, none, List, [], ◌∷◌, ◌==◌, ◌≡◌, refl,
  sym, ap, ◌∙◌, ◌⊎◌, any, find, All, Distinct, Bool-cases, inl, inr, arith, if◌then◌else◌,
}
use mcp_gatehound.Config.Settings.{Config, Secret, bearer, tunnel, upstream, EnvSecret}
use mcp_gatehound.Config.Environment.{secret, set_secret, same_text, same_slot, put_back}
use mcp_gatehound.Config.Environment.Slots.{
  Holds, fitted, holds, holds-set, same_slot_sound, same_text_iff_refl, secret-set_other,
  secret-set_same,
}

abbrev put_one : EnvSecret → Config → Config
put_one e out = if same_text (secret e.slot out) e.env then set_secret e.slot e.file out else out

holds-put_one : (t : Secret) (e : EnvSecret) (out : Config) → holds t (put_one e out) ≡ holds t out
holds-put_one t e out = elim (Bool-cases (same_text (secret e.slot out) e.env)) [
  | inl same ↦ rw same (holds-set e.slot t e.file out)
  | inr changed ↦ rw changed refl
]

secret-put_other :
    (t : Secret) (e : EnvSecret) (out : Config)
    → same_slot e.slot t ≡ false
    → secret t (put_one e out) ≡ secret t out
secret-put_other t e out apart = elim (Bool-cases (same_text (secret e.slot out) e.env)) [
  | inl same ↦ rw same (secret-set_other e.slot t e.file out apart)
  | inr changed ↦ rw changed refl
]

abbrev pub of_slot : Secret → EnvSecret → Bool
of_slot t e = same_slot e.slot t

put_back-untouched :
    (t : Secret) (es : List EnvSecret) (out : Config)
    → any (of_slot t) es ≡ false
    → secret t (put_back es out) ≡ secret t out
put_back-untouched t [] out none_ = refl
put_back-untouched t (e ∷ es) out none_ =
    put_back-untouched t es (put_one e out) (ground arith) ∙ secret-put_other t e out (ground arith)

abbrev pub same_entry : EnvSecret → EnvSecret → Bool
same_entry e f = same_slot e.slot f.slot

put_one-same :
    (t : Secret) (e : EnvSecret) (out : Config)
    → of_slot t e ≡ true
    → e.env ≡ secret t out
    → secret t (put_one e out) ≡ fitted (holds t out) e.file
put_one-same t e out here env =
    let slot : e.slot ≡ t = same_slot_sound e.slot t here in
    let same : same_text (secret e.slot out) e.env ≡ true =
      subst (λ x. same_text (secret x out) e.env ≡ true) (sym slot)
        (subst (λ v. same_text (secret t out) v ≡ true) (sym env)
          (same_text_iff_refl (secret t out))) in
    rw same (
      subst (λ x. secret t (set_secret x e.file out) ≡ fitted (holds t out) e.file) (sym slot)
        (secret-set_same t e.file out))

text_comm : (a b : String) → (a == b) ≡ (b == a)
text_comm a b = grind same_texts

same_slot_comm : (a b : Secret) → same_slot a b ≡ same_slot b a
same_slot_comm bearer bearer = refl
same_slot_comm bearer tunnel = refl
same_slot_comm bearer (upstream n) = refl
same_slot_comm tunnel bearer = refl
same_slot_comm tunnel tunnel = refl
same_slot_comm tunnel (upstream n) = refl
same_slot_comm (upstream n) bearer = refl
same_slot_comm (upstream n) tunnel = refl
same_slot_comm (upstream n) (upstream k) = text_comm n k

any-turned : (e : EnvSecret) (es : List EnvSecret) → any (of_slot e.slot) es ≡ any (same_entry e) es
any-turned e [] = refl
any-turned e (f ∷ fs) =
    ap (λ b. b || any (of_slot e.slot) fs) (same_slot_comm f.slot e.slot)
    ∙ ap (λ b. same_entry e f || b) (any-turned e fs)

none_of :
    (t : Secret) (e : EnvSecret) (es : List EnvSecret)
    → of_slot t e ≡ true
    → any (same_entry e) es ≡ false
    → any (of_slot t) es ≡ false
none_of t e es here fresh =
    subst (λ x. any (of_slot x) es ≡ false) (same_slot_sound e.slot t here)
      (any-turned e es ∙ fresh)

-- What changes no slot and is in no slot's way does not matter to putting values back.
module _ (f : Config → Config) (same : (t : Secret) (c : Config) → secret t (f c) ≡ secret t c)
    (set : (t : Secret) (v : Option String) (c : Config)
      → set_secret t v (f c) ≡ f (set_secret t v c)) where
  put_one-beside : (e : EnvSecret) (c : Config) → put_one e (f c) ≡ f (put_one e c)
  put_one-beside e c =
      ap (λ v. if same_text v e.env then set_secret e.slot e.file (f c) else f c) (same e.slot c)
      ∙ by_test (same_text (secret e.slot c) e.env)
    where
      by_test :
          (b : Bool)
          → (if b then set_secret e.slot e.file (f c) else f c)
            ≡ f (if b then set_secret e.slot e.file c else c)
      by_test true = set e.slot e.file c
      by_test false = refl

  pub put_back-beside : (es : List EnvSecret) (c : Config) → put_back es (f c) ≡ f (put_back es c)
  put_back-beside [] c = refl
  put_back-beside (e ∷ es) c =
      ap (put_back es) (put_one-beside e c) ∙ put_back-beside es (put_one e c)

-- Such as what is known of the environment, and whose the token is.
abbrev pub noting : List EnvSecret → Config → Config
noting es c = record c { from_env = es }

abbrev pub naming : String → Config → Config
naming n c = record c { auth = record c.auth { bearer_identity = n } }

pub secret-noting :
    (es : List EnvSecret) (t : Secret) (c : Config) → secret t (noting es c) ≡ secret t c
unfolding secret
secret-noting es bearer c = refl
secret-noting es tunnel c = refl
secret-noting es (upstream n) c = refl

set-noting :
    (es : List EnvSecret) (t : Secret) (v : Option String) (c : Config)
    → set_secret t v (noting es c) ≡ noting es (set_secret t v c)
unfolding set_secret
set-noting es bearer v c = refl
set-noting es tunnel v c = refl
set-noting es (upstream n) v c = refl

pub secret-naming :
    (name : String) (t : Secret) (c : Config) → secret t (naming name c) ≡ secret t c
unfolding secret
secret-naming name bearer c = refl
secret-naming name tunnel c = refl
secret-naming name (upstream n) c = refl

set-naming :
    (name : String) (t : Secret) (v : Option String) (c : Config)
    → set_secret t v (naming name c) ≡ naming name (set_secret t v c)
unfolding set_secret
set-naming name bearer v c = refl
set-naming name tunnel v c = refl
set-naming name (upstream n) v c = refl

pub put_back-noting :
    (es fs : List EnvSecret) (c : Config) → put_back fs (noting es c) ≡ noting es (put_back fs c)
put_back-noting es = put_back-beside (noting es) (secret-noting es) (set-noting es)

pub put_back-naming :
    (name : String) (es : List EnvSecret) (c : Config)
    → put_back es (naming name c) ≡ naming name (put_back es c)
put_back-naming name = put_back-beside (naming name) (secret-naming name) (set-naming name)

-- What a slot holds once the file's values are back.
abbrev pub restored : Holds → Option String → Option EnvSecret → Option String
restored k now none = now
restored k now (some e) = fitted k e.file

pub put_back-at :
    (t : Secret) (es : List EnvSecret) (out : Config)
    → Distinct same_entry es
    → All (λ e. (of_slot t e ≡ false) ⊎ (e.env ≡ secret t out)) es
    → secret t (put_back es out) ≡ restored (holds t out) (secret t out) (find (of_slot t) es)
put_back-at t [] out distinct envs = refl
put_back-at t (e ∷ es) out (fresh, distinct) (env, envs) = elim (Bool-cases (of_slot t e)) [
  | inl here ↦
      let rest = put_back-untouched t es (put_one e out) (none_of t e es here fresh) in
      rw here (rest ∙ put_one-same t e out here (env_of env here))
  | inr there ↦
      let kept = secret-put_other t e out there in
      let rest =
        put_back-at t es (put_one e out) distinct
          (subst (λ v. All (λ f. (of_slot t f ≡ false) ⊎ (f.env ≡ v)) es) (sym kept) envs) in
      rw there (
        rest
        ∙ (ap (λ k. restored k (secret t (put_one e out)) (find (of_slot t) es))
              (holds-put_one t e out)
            ∙ ap (λ v. restored (holds t out) v (find (of_slot t) es)) kept))
]
  where
    env_of :
        (of_slot t e ≡ false) ⊎ (e.env ≡ secret t out) → of_slot t e ≡ true → e.env ≡ secret t out
    env_of (inl off) on = absurd (ground arith)
    env_of (inr same) on = same
