-- ===== src/Pack/Export/Clean.antt =====
-- What a pack takes with it of the configuration that it is made of.
use mathlib.Core.Path.{subst}
use mcp_gatehound.Base.{
  ℕ, String, Bool, true, false, not, ◌||◌, none, List, [], ◌∷◌, ◌==◌, ◌≡◌, refl, sym, ap, ◌∙◌, any,
  any-map, map, retain, All, ok, err, >>=-eq-ok, Bool-cases, ◌⊎◌, inl, inr, eq_iff,
}
use mcp_gatehound.Config.{ToolConfig, upstream_of, script_of}
use mcp_gatehound.Config.Settings.{Config, UpstreamConfig, UpstreamKind, http, mcp, script_dir}
use mcp_gatehound.Scripts.{ScriptDef}
use mcp_gatehound.Scripts.Files.{Disk}
use mcp_gatehound.Pack.{Pack, upstream_checked, upstreams_checked}
use mcp_gatehound.Pack.Export.{stripped, tools_were_chosen, is_wanted, packed, build}

abbrev IsBareKind : UpstreamKind → Type 0
IsBareKind (http h) = h.token ≡ ""
IsBareKind (mcp m) = m.bearer_token ≡ none

-- No credential is written in an upstream.
abbrev pub IsBare : UpstreamConfig → Type 0
IsBare u = IsBareKind u.kind

pub stripped-IsBare : (us : List UpstreamConfig) → All IsBare (map stripped us)
stripped-IsBare [] = tt
stripped-IsBare (u ∷ us) = (by_kind u.name u.kind, stripped-IsBare us)
  where
    by_kind :
        (name : String) (k : UpstreamKind) → IsBare (stripped (record { name = name; kind = k }))
    by_kind name (http h) = refl
    by_kind name (mcp m) = refl

pub bare-checked :
    (digest : List ℕ → String) (us : List UpstreamConfig)
    → All IsBare us
    → upstreams_checked digest us ≡ ok tt
unfolding upstreams_checked
bare-checked digest [] bare = refl
bare-checked digest (u ∷ us) (here, bare) =
    rw (by_kind u.name u.kind here) (bare-checked digest us bare)
  where
    by_kind :
        (name : String) (k : UpstreamKind) → IsBareKind k → upstream_checked digest name k ≡ ok tt
    by_kind name (http h) empty = rw empty refl
    by_kind name (mcp m) empty = refl

any-retain_all :
    {A : Type 0} (p q : A → Bool) (xs : List A)
    → ((x : A) → p x ≡ true → q x ≡ true)
    → any p (retain q xs) ≡ any p xs
any-retain_all p q [] h = refl
any-retain_all p q (x ∷ xs) h = elim (Bool-cases (p x)) [
  | inl here ↦ rw (h x here, here) refl
  | inr there ↦ elim (Bool-cases (q x)) [
    | inl kept ↦ rw (kept, there) (any-retain_all p q xs h)
    | inr dropped ↦ rw (dropped, there) (any-retain_all p q xs h)
  ]
]

-- A built pack carries no credential in any upstream, so that the check of an import finds none; its
-- tools are those that were chosen; and an upstream of the configuration that one of them uses is in it.
pub build-IsBare :
    (digest : List ℕ → String) (d : Disk) (cfg : Config) (name description : String)
    (chosen : List ToolConfig) (p : Pack) (used : String)
    → build digest d cfg name description chosen ≡ ok p
    → (All IsBare p.upstreams × (upstreams_checked digest p.upstreams ≡ ok tt))
      × ((p.tools ≡ chosen)
          × ((is_wanted (map (λ (t : ToolConfig). upstream_of t.action) chosen) used ≡ false)
              ⊎ (any (λ (u : UpstreamConfig). u.name == used) p.upstreams
                  ≡ any (λ (u : UpstreamConfig). u.name == used) cfg.upstreams)))
unfolding build
build-IsBare digest d cfg name description chosen p used built =
    let scoped = tools_were_chosen chosen cfg in
    let keeps : UpstreamConfig → Bool =
      λ u. not scoped || is_wanted (map (λ (t : ToolConfig). upstream_of t.action) chosen) u.name in
    let kept = retain keeps cfg.upstreams in
    let defs =
      retain
        (λ (def : ScriptDef).
          not scoped || is_wanted (map (λ (t : ToolConfig). script_of t.action) chosen) def.name)
        cfg.scripts in
    let (scripts, read, h) = >>=-eq-ok (packed digest d (script_dir cfg) defs) _ built in
    let ups : map stripped kept ≡ p.upstreams =
      ap (λ r. elim r [ ok x ↦ x.upstreams | err e ↦ p.upstreams ]) h in
    let bare : All IsBare p.upstreams = subst (All IsBare) ups (stripped-IsBare kept) in
    (
      (bare, bare-checked digest p.upstreams bare),
      (
        sym (ap (λ r. elim r [ ok x ↦ x.tools | err e ↦ p.tools ]) h),
        elim (Bool-cases (is_wanted (map (λ (t : ToolConfig). upstream_of t.action) chosen) used)) [
          | inr unused ↦ inl unused
          | inl wanted ↦ inr (
              ap (any (λ (u : UpstreamConfig). u.name == used)) (sym ups)
              ∙ (any-map (λ (u : UpstreamConfig). u.name == used) stripped kept
                  ∙ any-retain_all (λ (u : UpstreamConfig). u.name == used) keeps cfg.upstreams
                      (λ u named. kept_by scoped (
                        subst
                          (λ n.
                            is_wanted (map (λ (t : ToolConfig). upstream_of t.action) chosen) n
                            ≡ true)
                          (sym ((eq_iff u.name used).0 named)) wanted))))
        ],
      ),
    )
  where
    kept_by : (scoped : Bool) {b : Bool} → b ≡ true → (not scoped || b) ≡ true
    kept_by true wanted = wanted
    kept_by false wanted = refl
