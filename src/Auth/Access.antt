-- ===== src/Auth/Access.antt =====
-- crates/gatehound-core/src/auth.rs: the Cloudflare Access token, and the cached key set behind it.
-- Keys, signatures and claims are the `jsonwebtoken` crate's, and a fetch is the network's answer.
pub mod Verified
use mcp_gatehound.Base.{
  ℕ, suc, ◌-◌, String, Bool, true, false, Option, some, none, ◌+++◌, Result, ok, err, ◌>>=◌,
  or_fail, ltb, is_some, is_empty, or_else, trim, to_ascii_lowercase, if◌then◌else◌,
}

abbrev pub jwks_ttl : ℕ
jwks_ttl = 3600

abbrev pub leeway_secs : ℕ
leeway_secs = 30

pub record AccessClaims : Type 0 where
  pub email : Option String
  pub common_name : Option String
  pub sub : Option String

abbrev named : Option String → Option String
named none = none
named (some s) = let t = trim s in if is_empty t then none else some t

abbrev lowered : Option String → Option String
lowered none = none
lowered (some s) = some (to_ascii_lowercase s)

-- A person's address, else a service token's name, else the subject.
unfoldable pub claimed_identity : AccessClaims → Option String
claimed_identity c = or_else (lowered (named c.email)) (or_else (named c.common_name) (named c.sub))

-- What the crate answers. `decode` checks the RS256 signature by the key, the audience, the issuer, and
-- the expiry at a time with a leeway.
pub record Jose : Type 1 where
  pub JwkSet : Type 0
  pub Jwk : Type 0
  pub Key : Type 0
  pub find_jwk : JwkSet → String → Option Jwk
  pub header_kid : String → Option (Option String)
  pub decoding_key : Jwk → Option Key
  pub decode :
      (now : ℕ) (token : String)
      → Key
      → (audience issuer : String) (leeway : ℕ) → Option AccessClaims

module _ (j : Jose) where
  -- `fetches` counts the requests made so far: the network answers the n-th by its n-th answer.
  pub record Verifier : Type 0 where
    pub team_domain : String
    pub audience : String
    pub cache : Option (ℕ × j.JwkSet)
    pub fetches : ℕ

  abbrev pub Network : Type 0
  Network = ℕ → Result String j.JwkSet

  unfoldable pub certs_url : Verifier → String
  certs_url v = "https://" +++ (v.team_domain +++ "/cdn-cgi/access/certs")

  unfoldable pub issuer : Verifier → String
  issuer v = "https://" +++ v.team_domain

  abbrev keep_fetched : ℕ → Verifier → Result String j.JwkSet → Result String j.JwkSet × Verifier
  keep_fetched now v (ok set) =
      (ok set, record v { cache = some (now, set); fetches = suc v.fetches })
  keep_fetched now v (err e) = (err e, record v { fetches = suc v.fetches })

  abbrev fetch : Network → ℕ → Verifier → Result String j.JwkSet × Verifier
  fetch net now v = keep_fetched now v (net v.fetches)

  -- The cached set while it is young, unless a refresh is forced.
  abbrev young : ℕ → Option (ℕ × j.JwkSet) → Option j.JwkSet
  young now none = none
  young now (some (at, set)) = if ltb (now - at) jwks_ttl then some set else none

  unfoldable pub jwks : Network → ℕ → Bool → Verifier → Result String j.JwkSet × Verifier
  jwks net now true v = fetch net now v
  jwks net now false v = elim (young now v.cache) [
    | some set ↦ (ok set, v)
    | none ↦ fetch net now v
  ]

  -- The checks behind the key set.
  unfoldable pub check_token : ℕ → Verifier → String → String → j.JwkSet → Result String String
  check_token now v token kid set = do
    jwk ← or_fail (j.find_jwk set kid) ("no Access signing key matches kid " +++ kid)
    key ← or_fail (j.decoding_key jwk) "building decoding key from JWK"
    claims ←
        or_fail (j.decode now token key v.audience (issuer v) leeway_secs) "Access token rejected"
    or_fail (claimed_identity claims) "Access token carries no email, common_name or sub"

  -- A second look at the keys where the first set lacks the key.
  unfoldable pub key_set : Network → ℕ → String → Verifier → Result String j.JwkSet × Verifier
  key_set net now kid v =
      let (first, v') = jwks net now false v in
      elim first [
        | err e ↦ (err e, v')
        | ok set ↦ if is_some (j.find_jwk set kid) then (ok set, v') else jwks net now true v'
      ]

  abbrev kid_of : Option (Option String) → Result String String
  kid_of none = err "malformed Access token header"
  kid_of (some none) = err "Access token has no kid"
  kid_of (some (some kid)) = ok kid

  unfoldable pub verify : Network → ℕ → String → Verifier → Result String String × Verifier
  verify net now token v = elim (kid_of (j.header_kid token)) [
    | err e ↦ (err e, v)
    | ok kid ↦
        let (found, v') = key_set net now kid v in (found >>= check_token now v' token kid, v')
  ]
