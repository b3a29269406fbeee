-- ===== src/Config/Load/Loaded.antt =====
-- What a loaded configuration is.
use mathlib.Core.Path.{subst}
use mcp_gatehound.Base.{
  String, true, false, Option, List, [], ◌≡◌, refl, sym, ap, ◌∙◌, any, Result, ok, is_empty, trim,
  or_else, arith, Bool-cases, Result-cases, inl, inr,
}
use mcp_gatehound.Config.Settings.{Config, Secret, default_bearer_identity}
use mcp_gatehound.Config.Environment.{
  apply_env_from, apply_env_values, secret, secret_slots, same_slot, put_back, for_disk,
}
use mcp_gatehound.Config.Environment.Slots.Back.{
  naming, secret-noting, secret-naming, put_back-naming,
}
use mcp_gatehound.Config.Environment.Restored.{for_disk-apply}
use mcp_gatehound.Config.Validate.{Machine, validate}
use mcp_gatehound.Config.Validate.Accepted.{IsAccepted, validate-IsAccepted}
use mcp_gatehound.Scripts.Files.{FilePath}
use mcp_gatehound.Config.Load.{LoadError, env, from_file, with_identity, checked, load}

with_identity-named :
    (cfg : Config) → is_empty (trim (with_identity cfg).auth.bearer_identity) ≡ false
with_identity-named cfg = elim (Bool-cases (is_empty (trim cfg.auth.bearer_identity))) [
  | inl blank ↦ rw blank refl
  | inr named ↦ rw named named
]

with_identity-token : (cfg : Config) → (with_identity cfg).auth.bearer_token ≡ cfg.auth.bearer_token
with_identity-token cfg = ground arith

apply-token :
    (var : String → Option String) (cfg : Config)
    → (apply_env_from var cfg).auth.bearer_token
      ≡ or_else (var "GATEHOUND_TOKEN") cfg.auth.bearer_token
unfolding apply_env_from apply_env_values
apply-token var cfg = refl

-- Naming the holder of the token is in no slot's way.
for_disk-with_identity :
    (cfg : Config) (t : Secret) → secret t (for_disk (with_identity cfg)) ≡ secret t (for_disk cfg)
unfolding for_disk
for_disk-with_identity cfg t = elim (Bool-cases (is_empty (trim cfg.auth.bearer_identity))) [
  | inr named ↦ rw named refl
  | inl blank ↦ rw blank (
      secret-noting [] t (put_back cfg.from_env (naming default_bearer_identity cfg))
      ∙ (ap (secret t) (put_back-naming default_bearer_identity cfg.from_env cfg)
          ∙ (secret-naming default_bearer_identity t (put_back cfg.from_env cfg)
              ∙ sym (secret-noting [] t (put_back cfg.from_env cfg)))))
]

checked-ok :
    (m : Machine) (c cfg : Config)
    → checked m c ≡ ok cfg
    → (c ≡ cfg) × (warnings : List String) × (validate m c ≡ ok warnings)
checked-ok m c cfg e = elim (Result-cases (validate m c)) [
  | inl (warnings, valid) ↦ (ground arith, warnings, valid)
  | inr (f, invalid) ↦ cc
]

-- What a loaded configuration is, for the file's contents with the defaults in place.
pub record IsLoaded (m : Machine) (raw : String → Option String) (file cfg : Config) : Type 0 where
  pub accepted : (warnings : List String) × IsAccepted m cfg warnings
  pub named : is_empty (trim cfg.auth.bearer_identity) ≡ false
  pub token : cfg.auth.bearer_token ≡ or_else (env raw "GATEHOUND_TOKEN") file.auth.bearer_token

-- A configuration that loads passed validation, names the holder of its token, and has the token of the
-- environment where there is one, else the file's. In each place that holds a credential, what is written
-- back is what the file had there.
pub load-IsLoaded :
    (m : Machine) (raw : String → Option String)
    (source : Option (FilePath × Result LoadError Config)) (file cfg : Config) (t : Secret)
    → from_file source ≡ ok file
    → load m raw source ≡ ok cfg
    → file.from_env ≡ []
    → any (λ s. same_slot s t) (secret_slots file) ≡ true
    → IsLoaded m raw file cfg × (secret t (for_disk cfg) ≡ secret t file)
unfolding load
load-IsLoaded m raw source file cfg t there loaded fresh slot =
    let now : Config = apply_env_from (env raw) file in
    let (same, warnings, valid) = checked-ok m (with_identity now) cfg (rw there at loaded) in
    subst (λ c. IsLoaded m raw file c × (secret t (for_disk c) ≡ secret t file)) same
      (
        record {
          accepted = (warnings, validate-IsAccepted m (with_identity now) warnings valid);
          named = with_identity-named now;
          token = with_identity-token now ∙ apply-token (env raw) file;
        },
        for_disk-with_identity now t ∙ for_disk-apply (env raw) file t fresh slot,
      )
