-- ===== src/Config/Environment/Slots.antt =====
-- The slots of credentials in a configuration, and what putting values back into them changes.
pub mod Back
use mathlib.Core.Path.{subst}
use mcp_gatehound.Base.{
  String, Bool, true, false, ◌||◌, Option, some, none, List, [], ◌∷◌, ◌==◌, ◌≡◌, refl, sym, ap, ◌∙◌,
  ◌⊎◌, any, find, All, Distinct, Bool-cases, inl, inr, arith, eq_iff, eq_refl, if◌then◌else◌,
}
use mcp_gatehound.Config.Settings.{
  Config, UpstreamConfig, UpstreamKind, http, mcp, Secret, bearer, tunnel, upstream, EnvSecret,
  find_upstream,
}
use mcp_gatehound.Config.Environment.{
  secret, kind_secret, or_blank, upstream_secret, put_secret, set_first, set_secret, same_text,
  same_slot, put_back,
}

pub same_slot_sound : (a b : Secret) → same_slot a b ≡ true → a ≡ b
same_slot_sound bearer bearer e = refl
same_slot_sound bearer tunnel e = cc
same_slot_sound bearer (upstream n) e = cc
same_slot_sound tunnel bearer e = cc
same_slot_sound tunnel tunnel e = refl
same_slot_sound tunnel (upstream n) e = cc
same_slot_sound (upstream n) bearer e = cc
same_slot_sound (upstream n) tunnel e = cc
same_slot_sound (upstream n) (upstream k) e = ap upstream ((eq_iff n k).0 e)

pub same_slot_refl : (a : Secret) → same_slot a a ≡ true
same_slot_refl bearer = refl
same_slot_refl tunnel = refl
same_slot_refl (upstream n) = eq_refl n

pub same_text_iff_refl : (a : Option String) → same_text a a ≡ true
same_text_iff_refl none = refl
same_text_iff_refl (some s) = eq_refl s

pub same_text_sound : (a b : Option String) → same_text a b ≡ true → a ≡ b
same_text_sound none none e = refl
same_text_sound none (some t) e = cc
same_text_sound (some s) none e = cc
same_text_sound (some s) (some t) e = ap some ((eq_iff s t).0 e)

-- What a slot can hold: anything, a text, or nothing.
pub data Holds : Type 0 where
  anything texts nothing : Holds

abbrev pub holds_kind : UpstreamKind → Holds
holds_kind (http h) = texts
holds_kind (mcp m) = anything

abbrev pub holds_upstream : Option UpstreamConfig → Holds
holds_upstream none = nothing
holds_upstream (some u) = holds_kind u.kind

abbrev pub holds : Secret → Config → Holds
holds bearer cfg = anything
holds tunnel cfg = anything
holds (upstream name) cfg = holds_upstream (find_upstream cfg.upstreams name)

abbrev pub fitted : Holds → Option String → Option String
fitted anything v = v
fitted texts v = some (or_blank v)
fitted nothing v = none

pub fitted-secret : (s : Secret) (cfg : Config) → fitted (holds s cfg) (secret s cfg) ≡ secret s cfg
unfolding secret
fitted-secret bearer cfg = refl
fitted-secret tunnel cfg = refl
fitted-secret (upstream name) cfg = by_upstream (find_upstream cfg.upstreams name)
  where
    by_upstream :
        (o : Option UpstreamConfig)
        → fitted (holds_upstream o) (upstream_secret o) ≡ upstream_secret o
    by_upstream none = refl
    by_upstream (some u) = by_kind u.kind
      where
        by_kind : (k : UpstreamKind) → fitted (holds_kind k) (kind_secret k) ≡ kind_secret k
        by_kind (http h) = refl
        by_kind (mcp m) = refl

holds-put : (v : Option String) (k : UpstreamKind) → holds_kind (put_secret v k) ≡ holds_kind k
holds-put v (http h) = refl
holds-put v (mcp m) = refl

kind_secret-put :
    (v : Option String) (k : UpstreamKind) → kind_secret (put_secret v k) ≡ fitted (holds_kind k) v
kind_secret-put v (http h) = refl
kind_secret-put v (mcp m) = refl

-- Setting the first upstream of a name, as it is found again.
set_first-holds :
    (name other : String) (v : Option String) (us : List UpstreamConfig)
    → holds_upstream (find_upstream (set_first name v us) other)
      ≡ holds_upstream (find_upstream us other)
unfolding find_upstream
set_first-holds name other v [] = refl
set_first-holds name other v (u ∷ us) = elim (Bool-cases (u.name == name)) [
  | inl here ↦ elim (Bool-cases (u.name == other)) [
    | inl found ↦ rw (here, find_upstream, found) (holds-put v u.kind)
    | inr not_found ↦ rw (here, find_upstream, not_found) refl
  ]
  | inr there ↦ elim (Bool-cases (u.name == other)) [
    | inl found ↦ rw (there, find_upstream, found) refl
    | inr not_found ↦ rw (there, find_upstream, not_found) (set_first-holds name other v us)
  ]
]

set_first-same :
    (name : String) (v : Option String) (us : List UpstreamConfig)
    → upstream_secret (find_upstream (set_first name v us) name)
      ≡ fitted (holds_upstream (find_upstream us name)) v
unfolding find_upstream
set_first-same name v [] = refl
set_first-same name v (u ∷ us) = elim (Bool-cases (u.name == name)) [
  | inl here ↦ rw (here, find_upstream, here) (kind_secret-put v u.kind)
  | inr there ↦ rw (there, find_upstream, there) (set_first-same name v us)
]

set_first-other :
    (name other : String) (v : Option String) (us : List UpstreamConfig)
    → (name == other) ≡ false
    → find_upstream (set_first name v us) other ≡ find_upstream us other
unfolding find_upstream
set_first-other name other v [] ne = refl
set_first-other name other v (u ∷ us) ne = elim (Bool-cases (u.name == name)) [
  | inl here ↦
      let e : u.name ≡ name = (eq_iff u.name name).0 here in
      let apart : (u.name == other) ≡ false = subst (λ n. (n == other) ≡ false) (sym e) ne in
      rw (here, find_upstream, apart) refl
  | inr there ↦ elim (Bool-cases (u.name == other)) [
    | inl found ↦ rw (there, find_upstream, found) refl
    | inr not_found ↦ rw (there, find_upstream, not_found) (set_first-other name other v us ne)
  ]
]

pub holds-set :
    (s t : Secret) (v : Option String) (cfg : Config) → holds t (set_secret s v cfg) ≡ holds t cfg
unfolding set_secret
holds-set bearer bearer v cfg = refl
holds-set bearer tunnel v cfg = refl
holds-set bearer (upstream n) v cfg = refl
holds-set tunnel bearer v cfg = refl
holds-set tunnel tunnel v cfg = refl
holds-set tunnel (upstream n) v cfg = refl
holds-set (upstream n) bearer v cfg = refl
holds-set (upstream n) tunnel v cfg = refl
holds-set (upstream n) (upstream k) v cfg = set_first-holds n k v cfg.upstreams

pub secret-set_same :
    (s : Secret) (v : Option String) (cfg : Config)
    → secret s (set_secret s v cfg) ≡ fitted (holds s cfg) v
unfolding set_secret secret
secret-set_same bearer v cfg = refl
secret-set_same tunnel v cfg = refl
secret-set_same (upstream n) v cfg = set_first-same n v cfg.upstreams

pub secret-set_other :
    (s t : Secret) (v : Option String) (cfg : Config)
    → same_slot s t ≡ false
    → secret t (set_secret s v cfg) ≡ secret t cfg
unfolding set_secret secret
secret-set_other bearer bearer v cfg e = cc
secret-set_other bearer tunnel v cfg e = refl
secret-set_other bearer (upstream n) v cfg e = refl
secret-set_other tunnel bearer v cfg e = refl
secret-set_other tunnel tunnel v cfg e = cc
secret-set_other tunnel (upstream n) v cfg e = refl
secret-set_other (upstream n) bearer v cfg e = refl
secret-set_other (upstream n) tunnel v cfg e = refl
secret-set_other (upstream n) (upstream k) v cfg e =
    ap upstream_secret (set_first-other n k v cfg.upstreams e)
