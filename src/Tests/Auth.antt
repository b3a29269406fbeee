-- ===== src/Tests/Auth.antt =====
-- A caller with an issued token, behind Access.
use mcp_gatehound.Auth.Access.{check_token, claimed_identity, jwks, key_set}
use mcp_gatehound.Auth.Headers.{get_text}
use mcp_gatehound.Auth.Factors.{resolve_issued}
use mcp_gatehound.Store.Tokens.{select_active}
use mcp_gatehound.Tokens.{secret_matches}
use mcp_gatehound.Secrets.{eq_ct}
use mcp_gatehound.Base.{bytes}
use mcp_gatehound.Base.{String, true, some, none, [], ◌∷◌, refl, ok, ◌==◌, if◌then◌else◌}
use mcp_gatehound.Store.{Db, empty_db}
use mcp_gatehound.Store.Tokens.{active_token}
use mcp_gatehound.Tokens.{split}
use mcp_gatehound.Auth.Headers.{HeaderMap, bearer, access_token}
use mcp_gatehound.Auth.Access.{AccessClaims, Jose, Verifier, Network, verify}
use mcp_gatehound.Auth.Access.Verified.{IsVerified, verify_sound}
use mcp_gatehound.Auth.Factors.{Caller, Authenticator, authenticate}
use mcp_gatehound.Auth.Factors.Sound.{IsGenuine, authenticate_sound}

abbrev claims : AccessClaims
claims = record { email = some "Ann@Example.com"; common_name = none; sub = none }

-- One key, of id "k", that takes the token "jwt" until the time 1000.
abbrev jose : Jose
jose = record {
  JwkSet = String;
  Jwk = String;
  Key = String;
  find_jwk = λ set kid. if set == kid then some kid else none;
  header_kid = λ token. some (some "k");
  decoding_key = λ jwk. some jwk;
  decode = λ now token key audience issuer leeway. if token == "jwt" then some claims else none;
}

abbrev net : Network jose
net = λ n. ok "k"

abbrev verifier : Verifier jose
verifier = record { team_domain = "team.example"; audience = "aud"; cache = none; fetches = 0 }

abbrev db : Db
db = record empty_db {
  tokens =
      record {
        id = "a1";
        name = "phone";
        identity = "bot";
        digest = "s1";
        created_at = 1;
        last_used_at = none;
        revoked_at = none;
      }
      ∷ [];
}

abbrev digest : String → String
digest = λ s. s

abbrev gate : Authenticator jose digest
gate = record {
  bearer = "0123456789abcdef";
  bearer_identity = "owner";
  allowed = "ann@example.com" ∷ [];
  access = some verifier;
  tokens = some (record { db = db; up = true });
}

abbrev with_bearer : String → HeaderMap
with_bearer token =
    record { name = "authorization"; text = some token }
    ∷ record { name = "cf-access-jwt-assertion"; text = some "jwt" }
    ∷ []

abbrev caller : Caller
caller = record { identity = "bot"; token_id = some "a1" }

verify_sound_example : IsVerified jose net 7 verifier "jwt" "ann@example.com"
unfolding verify key_set jwks check_token claimed_identity
verify_sound_example = verify_sound jose net 7 "jwt" "ann@example.com" verifier refl

authenticate_sound_example :
    IsGenuine jose digest net 7 gate (with_bearer "Bearer ghd_a1_s1") caller
unfolding authenticate bearer get_text resolve_issued split active_token select_active
    secret_matches eq_ct bytes access_token verify key_set jwks check_token claimed_identity
authenticate_sound_example =
    authenticate_sound jose digest net 7 gate (with_bearer "Bearer ghd_a1_s1") caller refl
