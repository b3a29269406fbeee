-- ===== src/Auth/Factors.antt =====
-- crates/gatehound-core/src/auth.rs: both factors, and whom a request authenticates as.
pub mod Sound
use mcp_gatehound.Base.{
  ℕ, String, Bool, true, false, not, ◌&&◌, Option, some, none, List, [], ◌∷◌, ◌==◌, Result, ok, err,
  any, is_some, is_empty, trim, to_ascii_lowercase, map, retain, if◌then◌else◌, or_fail, ◌>>=◌,
}
use mcp_gatehound.Secrets.{eq_secret}
use mcp_gatehound.Tokens.{split, secret_matches}
use mcp_gatehound.Store.{Conn, StoreError, query}
use mcp_gatehound.Store.Tokens.{active_token, touch_token}
use mcp_gatehound.Auth.Headers.{HeaderMap, bearer, access_token}
use mcp_gatehound.Auth.Failure.{
  AuthError, missing_bearer, bad_bearer, missing_access_token, bad_access_token, not_allowed,
}
use mcp_gatehound.Auth.Access.{Jose, Verifier, Network, verify}

pub record AccessConfig : Type 0 where
  pub team_domain : String
  pub aud : String

pub record AuthConfig : Type 0 where
  pub bearer_token : Option String
  pub bearer_identity : String
  pub allowed_identities : List String
  pub access : Option AccessConfig

pub record Caller : Type 0 where
  pub identity : String
  pub token_id : Option String

abbrev pub or_default {ℓ} : {A : Type ℓ} → Option A → A → A
or_default none d = d
or_default (some a) d = a

-- `self.allowed.is_empty()`
abbrev pub no_list : List String → Bool
no_list [] = true
no_list (x ∷ xs) = false

abbrev pub id_of : Option (String × String) → Option String
id_of none = none
id_of (some (id, identity)) = some id

abbrev pub identity_of : Option (String × String) → Option String
identity_of none = none
identity_of (some (id, identity)) = some identity

module _ (j : Jose) (digest : String → String) where
  pub record Authenticator : Type 0 where
    pub bearer : String
    pub bearer_identity : String
    pub allowed : List String
    pub access : Option (Verifier j)
    pub tokens : Option Conn

  abbrev verifier_of : Option AccessConfig → Option (Verifier j)
  verifier_of none = none
  verifier_of (some a) =
      some (record { team_domain = a.team_domain; audience = a.aud; cache = none; fetches = 0 })

  unfoldable pub new : AuthConfig → Result String Authenticator
  new cfg = do
    bearer ← or_fail cfg.bearer_token "no bearer token configured (set GATEHOUND_TOKEN)"
    ok (record {
      bearer = bearer;
      bearer_identity = cfg.bearer_identity;
      allowed =
          retain (λ s. not (is_empty s))
            (map (λ s. to_ascii_lowercase (trim s)) cfg.allowed_identities);
      access = verifier_of cfg.access;
      tokens = none;
    })

  unfoldable pub with_tokens : Conn → Authenticator → Authenticator
  with_tokens store a = record a { tokens = some store }

  unfoldable pub access_required : Authenticator → Bool
  access_required a = is_some a.access

  unfoldable pub label : Authenticator → String
  label a = if is_some a.access then "cloudflare-access + bearer" else "bearer only"

  -- A token's row against the secret that came with its id; the row is marked as used.
  abbrev check_row :
      ℕ
      → String
      → String
      → Conn
      → Result StoreError (Option (String × String))
      → Result AuthError (Option (String × String)) × Option Conn
  check_row now id secret c (err e) = (err bad_bearer, some c)
  check_row now id secret c (ok none) = (err bad_bearer, some c)
  check_row now id secret c (ok (some (stored, identity))) =
      if not (secret_matches digest secret stored)
      then (err bad_bearer, some c)
      else (ok (some (id, identity)), some (record c { db = touch_token now id c.db }))

  abbrev check_halves :
      ℕ
      → Option Conn
      → Option (String × String)
      → Result AuthError (Option (String × String)) × Option Conn
  check_halves now tokens none = (ok none, tokens)
  check_halves now none (some (id, secret)) = (err bad_bearer, none)
  check_halves now (some c) (some (id, secret)) =
      check_row now id secret c (query c (λ db. active_token db id))

  -- The id and identity behind a presented token, none where it is not of an issued token's form.
  unfoldable pub resolve_issued :
      ℕ → String → Option Conn → Result AuthError (Option (String × String)) × Option Conn
  resolve_issued now presented tokens = check_halves now tokens (split presented)

  -- The identity that Access vouches for, against the list of those allowed in.
  pub admit : Authenticator → Option (String × String) → String → Result AuthError Caller
  admit a issued identity =
      let listed = any (λ x. x == to_ascii_lowercase identity) a.allowed in
      if not (no_list a.allowed) && not listed
      then err (not_allowed identity)
      else ok
          (record { identity = or_default (identity_of issued) identity; token_id = id_of issued })

  -- The second factor, where it is configured.
  pub second_factor :
      Network j
      → ℕ
      → HeaderMap
      → Option (String × String)
      → Authenticator
      → Result AuthError Caller × Authenticator
  second_factor net now headers issued a = elim a.access [
    | none ↦ (
      ok (record {
        identity = or_default (identity_of issued) a.bearer_identity;
        token_id = id_of issued;
      }),
      a,
    )
    | some v ↦ elim (access_token headers) [
      | none ↦ (err missing_access_token, a)
      | some jwt ↦
          let (verified, v') = verify j net now jwt v in
          let a' = record a { access = some v' } in
          elim verified [
            | err e ↦ (err (bad_access_token e), a')
            | ok identity ↦ (admit a issued identity, a')
          ]
    ]
  ]

  -- The first factor: an issued token, or the configured one.
  pub first_factor :
      Network j → ℕ → HeaderMap → String → Authenticator → Result AuthError Caller × Authenticator
  first_factor net now headers token a =
      let (issued, tokens') = resolve_issued now token a.tokens in
      let a' = record a { tokens = tokens' } in
      elim issued [
        | err e ↦ (err e, a')
        | ok none ↦
            if not (eq_secret token a.bearer)
            then (err bad_bearer, a')
            else second_factor net now headers none a'
        | ok (some who) ↦ second_factor net now headers (some who) a'
      ]

  unfoldable pub authenticate :
      Network j → ℕ → HeaderMap → Authenticator → Result AuthError Caller × Authenticator
  unfolding first_factor second_factor admit
  authenticate net now headers a = elim (bearer headers) [
    | none ↦ (err missing_bearer, a)
    | some token ↦ first_factor net now headers token a
  ]
