-- ===== src/Auth/Access/Verified.antt =====
-- What a verified Access token rests on.
use mathlib.Core.Path.{ap₂}
use mcp_gatehound.Base.{
  ℕ, suc, ◌-◌, ◌+◌, ◌≤◌, ◌<◌, String, Bool, true, false, Option, some, none, Result, ok, err, ltb,
  is_some, ◌≡◌, refl, sym, ap, ◌∙◌, arith, inl, inr, Bool-cases, Option-cases, Result-cases,
  >>=-eq-ok, or_fail, or_fail-eq-ok,
}
use mcp_gatehound.Auth.Access.{
  jwks_ttl, leeway_secs, AccessClaims, claimed_identity, Jose, Verifier, Network, issuer, jwks,
  check_token, key_set, verify, fetch, young, kid_of,
}

module _ (j : Jose) (net : Network j) (now : ℕ) where
  -- A key set that may be relied on: the cached one while it is younger than the limit, or what the
  -- network answered to the next request or the one behind it.
  pub data IsTrusted (v : Verifier j) (set : j.JwkSet) : Type 0 where
    cached : (at : ℕ) → v.cache ≡ some (at, set) → now - at < jwks_ttl → IsTrusted v set
    fetched : (n : ℕ) → v.fetches ≤ n → n ≤ suc v.fetches → net n ≡ ok set → IsTrusted v set

  pub record IsVerified (v : Verifier j) (token identity : String) : Type 0 where
    pub kid : String
    pub set : j.JwkSet
    pub jwk : j.Jwk
    pub key : j.Key
    pub claims : AccessClaims
    pub headed : j.header_kid token ≡ some (some kid)
    pub trusted : IsTrusted v set
    pub found : j.find_jwk set kid ≡ some jwk
    pub decoding : j.decoding_key jwk ≡ some key
    pub signed : j.decode now token key v.audience (issuer j v) leeway_secs ≡ some claims
    pub named : claimed_identity claims ≡ some identity

  -- A request changes the cache and the count alone.
  pub record SameTeam (v w : Verifier j) : Type 0 where
    pub audience : w.audience ≡ v.audience
    pub issuer_kept : issuer j w ≡ issuer j v
    pub more : v.fetches ≤ w.fetches

  SameTeam-refl : (v : Verifier j) → SameTeam v v
  SameTeam-refl v = record { audience = refl; issuer_kept = refl; more = omega arith }

  SameTeam-trans : {u v w : Verifier j} → SameTeam u v → SameTeam v w → SameTeam u w
  SameTeam-trans a b = record {
    audience = b.audience ∙ a.audience;
    issuer_kept = b.issuer_kept ∙ a.issuer_kept;
    more = omega arith;
  }

  fetch-SameTeam : (v : Verifier j) → SameTeam v (fetch j net now v).1
  unfolding issuer
  fetch-SameTeam v = elim (Result-cases (net v.fetches)) [
    | inl (set, e) ↦ rw e (record { audience = refl; issuer_kept = refl; more = omega arith })
    | inr (m, e) ↦ rw e (record { audience = refl; issuer_kept = refl; more = omega arith })
  ]

  fetch-count : (v : Verifier j) → (fetch j net now v).1.fetches ≡ suc v.fetches
  fetch-count v = elim (Result-cases (net v.fetches)) [ inl (set, e) ↦ rw e | inr (m, e) ↦ rw e ]

  fetch_sound :
      (v : Verifier j) (set : j.JwkSet) → (fetch j net now v).0 ≡ ok set → net v.fetches ≡ ok set
  fetch_sound v set e = elim (Result-cases (net v.fetches)) [
    | inl (got, f) ↦ f ∙ (rw f at e)
    | inr (m, f) ↦ absurd_err (rw f at e)
  ]
    where
      absurd_err :
          {m : String} → ◌≡◌ {A = Result String j.JwkSet} (err m) (ok set) → net v.fetches ≡ ok set
      absurd_err bad = cc

  young_sound :
      (c : Option (ℕ × j.JwkSet)) (set : j.JwkSet)
      → young j now c ≡ some set
      → (at : ℕ) × (c ≡ some (at, set)) × (now - at < jwks_ttl)
  young_sound none set e = cc
  young_sound (some (at, got)) set e = elim (Bool-cases (ltb (now - at) jwks_ttl)) [
    | inl fresh ↦ (at, ap (λ o. pair at o) (rw fresh at e) ∙ refl, ground arith)
    | inr old ↦ absurd (ground arith)
  ]
    where
      pair : ℕ → Option j.JwkSet → Option (ℕ × j.JwkSet)
      pair n none = none
      pair n (some x) = some (n, x)

  jwks_sound :
      (force : Bool) (v : Verifier j) (set : j.JwkSet)
      → (jwks j net now force v).0 ≡ ok set
      → IsTrusted v set
  unfolding jwks
  jwks_sound true v set e = fetched v.fetches (omega arith) (omega arith) (fetch_sound v set e)
  jwks_sound false v set e = elim (Option-cases (young j now v.cache)) [
    | inl old ↦
        fetched v.fetches (omega arith) (omega arith) (fetch_sound v set (rw (old, jwks) at e))
    | inr (got, fresh) ↦
        let same : got ≡ set = ok_inj (rw (fresh, jwks) at e) in
        let y = young_sound v.cache set (fresh ∙ ap some same) in cached y.0 y.1 y.2
  ]
    where
      ok_inj : {a b : j.JwkSet} → ◌≡◌ {A = Result String j.JwkSet} (ok a) (ok b) → a ≡ b
      ok_inj h = cc

  jwks-SameTeam :
      (force : Bool) (v : Verifier j)
      → SameTeam v (jwks j net now force v).1 × ((jwks j net now force v).1.fetches ≤ suc v.fetches)
  unfolding jwks
  jwks-SameTeam true v = (fetch-SameTeam v, omega (arith, fetch-count v))
  jwks-SameTeam false v = elim (Option-cases (young j now v.cache)) [
    | inl old ↦ rw (old, jwks) (fetch-SameTeam v, omega (arith, fetch-count v))
    | inr (got, fresh) ↦ rw (fresh, jwks) (SameTeam-refl v, omega arith)
  ]

  -- The second look is one more request, and only after a set without the key.
  key_set_sound :
      (kid : String) (v : Verifier j) (set : j.JwkSet)
      → (key_set j net now kid v).0 ≡ ok set
      → IsTrusted v set
  unfolding key_set
  key_set_sound kid v set e = elim (Result-cases (jwks j net now false v).0) [
    | inr (m, failed) ↦ absurd_err (rw (failed, key_set) at e)
    | inl (first, got) ↦ elim (Bool-cases (is_some (j.find_jwk first kid))) [
      | inl has ↦ rw (ok_inj (rw (got, key_set, has) at e)) at (jwks_sound false v first got)
      | inr lacks ↦
          let w = jwks-SameTeam false v in
          fetched (jwks j net now false v).1.fetches w.0.more w.1 (
            unfold jwks in
            fetch_sound (jwks j net now false v).1 set (rw (got, key_set, lacks) at e))
    ]
  ]
    where
      ok_inj : {a b : j.JwkSet} → ◌≡◌ {A = Result String j.JwkSet} (ok a) (ok b) → a ≡ b
      ok_inj h = cc

      absurd_err :
          {m : String} → ◌≡◌ {A = Result String j.JwkSet} (err m) (ok set) → IsTrusted v set
      absurd_err bad = cc

  key_set-SameTeam :
      (kid : String) (v : Verifier j)
      → SameTeam v (key_set j net now kid v).1
        × ((key_set j net now kid v).1.fetches ≤ v.fetches + 2)
  unfolding key_set
  key_set-SameTeam kid v =
      let w = jwks-SameTeam false v in
      let u = jwks-SameTeam true (jwks j net now false v).1 in
      elim (Result-cases (jwks j net now false v).0) [
        | inr (m, failed) ↦ rw (failed, key_set) (w.0, omega arith)
        | inl (first, got) ↦ elim (Bool-cases (is_some (j.find_jwk first kid))) [
          | inl has ↦ rw (got, key_set, has) (w.0, omega arith)
          | inr lacks ↦ rw (got, key_set, lacks) (SameTeam-trans w.0 u.0, omega arith)
        ]
      ]

  kid_of_sound :
      (h : Option (Option String)) (kid : String) → kid_of j h ≡ ok kid → h ≡ some (some kid)
  kid_of_sound none kid e = cc
  kid_of_sound (some none) kid e = cc
  kid_of_sound (some (some k)) kid e = cc

  same_check :
      (v w : Verifier j) (token : String) (key : j.Key) (claims : AccessClaims)
      → SameTeam v w
      → j.decode now token key w.audience (issuer j w) leeway_secs ≡ some claims
      → j.decode now token key v.audience (issuer j v) leeway_secs ≡ some claims
  same_check v w token key claims same e =
      ap₂ (λ aud iss. j.decode now token key aud iss leeway_secs) (sym same.audience)
        (sym same.issuer_kept)
      ∙ e

  -- The checks behind a key set, taken apart.
  check_token_sound :
      (v w : Verifier j) (token kid identity : String) (set : j.JwkSet)
      → SameTeam v w
      → IsTrusted v set
      → j.header_kid token ≡ some (some kid)
      → check_token j now w token kid set ≡ ok identity
      → IsVerified v token identity
  unfolding check_token
  check_token_sound v w token kid identity set same trusted headed e =
      let (jwk, f, rest) = >>=-eq-ok (or_fail (j.find_jwk set kid) _) _ e in
      let (key, d, rest') = >>=-eq-ok (or_fail (j.decoding_key jwk) _) _ rest in
      let (claims, g, last) =
        >>=-eq-ok (or_fail (j.decode now token key w.audience (issuer j w) leeway_secs) _) _
          rest' in
      record {
        kid = kid;
        set = set;
        jwk = jwk;
        key = key;
        claims = claims;
        headed = headed;
        trusted = trusted;
        found = or_fail-eq-ok _ _ f;
        decoding = or_fail-eq-ok _ _ d;
        signed = same_check v w token key claims same (or_fail-eq-ok _ _ g);
        named = or_fail-eq-ok _ _ last;
      }

  -- An identity that `verify` returns was named by the claims of a token whose RS256 signature, audience,
  -- issuer and expiry were checked under the key that the token's header names, in a key set that was
  -- cached for less than an hour or fetched by this call's first or second request.
  pub verify_sound :
      (token identity : String) (v : Verifier j)
      → (verify j net now token v).0 ≡ ok identity
      → IsVerified v token identity
  unfolding verify
  verify_sound token identity v e = elim (Result-cases (kid_of j (j.header_kid token))) [
    | inr (m, bad) ↦ absurd_err (rw (bad, verify) at e)
    | inl (kid, headed) ↦
        let (set, found, checked) =
          >>=-eq-ok (key_set j net now kid v).0 _ (rw (headed, verify) at e) in
        check_token_sound v (key_set j net now kid v).1 token kid identity set
          (key_set-SameTeam kid v).0 (key_set_sound kid v set found)
          (kid_of_sound (j.header_kid token) kid headed) checked
  ]
    where
      absurd_err :
          {m : String}
          → ◌≡◌ {A = Result String String} (err m) (ok identity)
          → IsVerified v token identity
      absurd_err bad = cc

  -- One verification makes two requests for keys at most.
  pub verify_bounded :
      (token : String) (v : Verifier j) → (verify j net now token v).1.fetches ≤ v.fetches + 2
  unfolding verify
  verify_bounded token v = elim (Result-cases (kid_of j (j.header_kid token))) [
    | inl (kid, headed) ↦ rw (headed, verify) (key_set-SameTeam kid v).1
    | inr (m, bad) ↦ rw (bad, verify) (omega arith)
  ]
