-- ===== src/Auth/Factors/Sound.antt =====
-- What a caller that got in has shown, and whom it is taken for.
use mcp_gatehound.Base.{
  ℕ, String, true, Option, some, none, List, ◌==◌, ◌≡◌, arith, ok, err, any, ◌⊎◌, inl, inr,
  Bool-cases, Option-cases, Result-cases, to_ascii_lowercase,
}
use mcp_gatehound.Secrets.{eq_secret, eq_secret_iff}
use mcp_gatehound.Tokens.{split, secret_matches}
use mcp_gatehound.Tokens.Format.{secret_matches_iff}
use mcp_gatehound.Store.{Conn}
use mcp_gatehound.Store.Tokens.{active_token}
use mcp_gatehound.Auth.Headers.{HeaderMap, bearer, access_token}
use mcp_gatehound.Auth.Failure.{bad_bearer}
use mcp_gatehound.Auth.Access.{Jose, Verifier, Network, verify}
use mcp_gatehound.Auth.Access.Verified.{IsVerified, verify_sound}
use mcp_gatehound.Auth.Factors.{
  Caller, Authenticator, resolve_issued, admit, second_factor, first_factor, authenticate,
  or_default, identity_of, id_of, no_list,
}

module _ (j : Jose) (digest : String → String) where
  -- The first factor: the configured token, or an issued one that is on record, not revoked, and whose
  -- secret has the digest on record. A token of an issued token's form is never the configured one.
  pub data FirstFactor (a : Authenticator j digest) (token : String)
      (issued : Option (String × String)) : Type 0 where
    configured : split token ≡ none → token ≡ a.bearer → issued ≡ none → FirstFactor a token issued
    on_record :
        (id secret who : String) (c : Conn)
        → split token ≡ some (id, secret)
        → a.tokens ≡ some c
        → active_token c.db id ≡ some (digest secret, who)
        → issued ≡ some (id, who)
        → FirstFactor a token issued

  abbrev pub IsAllowed : List String → String → Type 0
  IsAllowed allowed identity =
      (no_list allowed ≡ true) ⊎ (any (λ x. x == to_ascii_lowercase identity) allowed ≡ true)

  module _ (net : Network j) (now : ℕ) where
    -- The second: Access vouches for an identity that is allowed in, where Access is configured.
    pub data SecondFactor (a : Authenticator j digest) (headers : HeaderMap)
        (issued : Option (String × String)) (caller : Caller) : Type 0 where
      not_configured :
          a.access ≡ none
          → caller.identity ≡ or_default (identity_of issued) a.bearer_identity
          → SecondFactor a headers issued caller
      vouched :
          (v : Verifier j) (jwt identity : String)
          → a.access ≡ some v
          → access_token headers ≡ some jwt
          → IsVerified j net now v jwt identity
          → IsAllowed a.allowed identity
          → caller.identity ≡ or_default (identity_of issued) identity
          → SecondFactor a headers issued caller

    pub record IsGenuine (a : Authenticator j digest) (headers : HeaderMap) (caller : Caller)
        : Type 0 where
      pub token : String
      pub issued : Option (String × String)
      pub carried : bearer headers ≡ some token
      pub first : FirstFactor a token issued
      pub second : SecondFactor a headers issued caller
      pub token_id : caller.token_id ≡ id_of issued

    issued_sound :
        (a : Authenticator j digest) (token : String) (issued : Option (String × String))
        → (resolve_issued j digest now token a.tokens).0 ≡ ok issued
        → (issued ≡ none → token ≡ a.bearer)
        → FirstFactor a token issued
    unfolding resolve_issued
    issued_sound a token issued e super = elim (Option-cases (split token)) [
      | inl plain ↦ let none' : issued ≡ none = ground arith in configured plain (super none') none'
      | inr ((id, secret), shape) ↦ elim (Option-cases a.tokens) [
        | inl missing ↦ absurd (ground arith)
        | inr (c, there) ↦ elim (Bool-cases c.up) [
          | inr down ↦ absurd (ground arith)
          | inl up ↦ elim (Option-cases (active_token c.db id)) [
            | inl unknown ↦ absurd (ground arith)
            | inr ((stored, who), listed) ↦
                elim (Bool-cases (secret_matches digest secret stored)) [
                  | inr wrong ↦ absurd (ground arith)
                  | inl same ↦
                      let right = (secret_matches_iff digest secret stored).0 same in
                      on_record id secret who c shape there (rw right listed) (ground arith)
                ]
          ]
        ]
      ]
    ]

    admit_sound :
        (a : Authenticator j digest) (issued : Option (String × String)) (identity : String)
        (caller : Caller)
        → admit j digest a issued identity ≡ ok caller
        → IsAllowed a.allowed identity
          × (caller.identity ≡ or_default (identity_of issued) identity)
          × (caller.token_id ≡ id_of issued)
    unfolding admit
    admit_sound a issued identity caller e = elim (Bool-cases (no_list a.allowed)) [
      | inl open' ↦ (inl open', ground arith, ground arith)
      | inr listed ↦ elim (Bool-cases (any (λ x. x == to_ascii_lowercase identity) a.allowed)) [
        | inl found ↦ (inr found, ground arith, ground arith)
        | inr absent ↦ absurd (ground arith)
      ]
    ]

    second_sound :
        (a : Authenticator j digest) (headers : HeaderMap) (issued : Option (String × String))
        (caller : Caller)
        → (second_factor j digest net now headers issued a).0 ≡ ok caller
        → SecondFactor a headers issued caller × (caller.token_id ≡ id_of issued)
    unfolding second_factor
    second_sound a headers issued caller e = elim (Option-cases a.access) [
      | inl off ↦ (not_configured off (ground arith), ground arith)
      | inr (v, on) ↦ elim (Option-cases (access_token headers)) [
        | inl bare ↦ absurd (ground arith)
        | inr (jwt, sent) ↦ elim (Result-cases (verify j net now jwt v).0) [
          | inr (m, bad) ↦ absurd (ground arith)
          | inl (identity, good) ↦
              let r = admit_sound a issued identity caller (ground arith) in
              (
                vouched v jwt identity on sent (verify_sound j net now jwt identity v good) r.0 r.1,
                r.2,
              )
        ]
      ]
    ]

    same_second :
        (a : Authenticator j digest) (t : Option Conn) (headers : HeaderMap)
        (issued : Option (String × String)) (caller : Caller)
        → SecondFactor (record a { tokens = t }) headers issued caller
        → SecondFactor a headers issued caller
    same_second a t headers issued caller (not_configured off who) = not_configured off who
    same_second a t headers issued caller (vouched v jwt identity on sent good allowed who) =
        vouched v jwt identity on sent good allowed who

    -- A caller that is let in has shown both factors, and is known by its issued token's identity, else
    -- by the one that Access vouched for, else by the configured one.
    pub authenticate_sound :
        (a : Authenticator j digest) (headers : HeaderMap) (caller : Caller)
        → (authenticate j digest net now headers a).0 ≡ ok caller
        → IsGenuine a headers caller
    unfolding authenticate first_factor
    authenticate_sound a headers caller e = elim (Option-cases (bearer headers)) [
      | inl bare ↦ absurd (ground arith)
      | inr (token, carried) ↦
          let t' = (resolve_issued j digest now token a.tokens).1 in
          elim (Result-cases (resolve_issued j digest now token a.tokens).0) [
            | inr (m, bad) ↦ absurd (ground arith)
            | inl (none, plain) ↦ elim (Bool-cases (eq_secret token a.bearer)) [
              | inr wrong ↦ absurd (ground arith)
              | inl right ↦
                  let s =
                    second_sound (record a { tokens = t' }) headers none caller (ground arith) in
                  record {
                    token = token;
                    issued = none;
                    carried = carried;
                    first =
                        issued_sound a token none plain
                          (λ _. (eq_secret_iff token a.bearer).0 right);
                    second = same_second a t' headers none caller s.0;
                    token_id = s.1;
                  }
            ]
            | inl (some who, known) ↦
                let s =
                  second_sound (record a { tokens = t' }) headers (some who) caller
                    (ground arith) in
                record {
                  token = token;
                  issued = some who;
                  carried = carried;
                  first = issued_sound a token (some who) known (λ h. cc);
                  second = same_second a t' headers (some who) caller s.0;
                  token_id = s.1;
                }
          ]
    ]

    -- A token of an issued token's form whose id is unknown or revoked is refused. It is never compared
    -- with the configured token.
    pub authenticate_unknown :
        (a : Authenticator j digest) (headers : HeaderMap) (token id secret : String) (c : Conn)
        → bearer headers ≡ some token
        → split token ≡ some (id, secret)
        → a.tokens ≡ some c
        → active_token c.db id ≡ none
        → (authenticate j digest net now headers a).0 ≡ err bad_bearer
    unfolding authenticate first_factor resolve_issued
    authenticate_unknown a headers token id secret c carried shape there gone =
        elim (Bool-cases c.up) [ inl up ↦ ground arith | inr down ↦ ground arith ]
