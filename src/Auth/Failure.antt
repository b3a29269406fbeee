-- ===== src/Auth/Failure.antt =====
-- crates/gatehound-core/src/auth.rs: why a request was refused, and the challenge that tells it.
pub mod Challenge
use Prim.Native.Char.{Char, code}
use Prim.Native.String as Str
use mcp_gatehound.Base.{
  ℕ, zero, suc, String, Bool, true, false, not, ◌&&◌, ◌||◌, Option, some, none, ◌+++◌, ltb, leb,
  eqb, if◌then◌else◌,
}

pub data AuthError : Type 0 where
  missing_bearer bad_bearer missing_access_token : AuthError
  bad_access_token : String → AuthError
  not_allowed : String → AuthError

-- The characters that may stand in a quoted string.
abbrev pub is_quotable : Char → Bool
is_quotable c =
    let n = code c in
    ltb n 128 && (not (ltb n 32 || eqb n 127) && (not (eqb n b'"') && not (eqb n 92)))

-- `chars().filter(is_quotable).take(n)`
pub keep_quotable : ℕ → String → String
keep_quotable zero s = ""
keep_quotable (suc n) Str.[] = ""
keep_quotable (suc n) (Str.◌∷◌ c s) =
    let kept = Str.◌∷◌ c (keep_quotable n s) in
    let passed = keep_quotable (suc n) s in if is_quotable c then kept else passed

unfoldable pub quoted : String → String
unfolding keep_quotable
quoted value = keep_quotable 180 value

unfoldable pub reason : AuthError → String
reason missing_bearer = "no bearer token on request"
reason bad_bearer = "bearer token rejected"
reason missing_access_token =
    "no Cloudflare Access token on request; reach the gateway through its Access-protected hostname"
reason (bad_access_token e) = "Cloudflare Access token rejected: " +++ e
reason (not_allowed who) = who +++ " is authenticated but not permitted here"

abbrev pub error_code : AuthError → Option String
error_code missing_bearer = none
error_code bad_bearer = some "invalid_token"
error_code (bad_access_token _) = some "invalid_token"
error_code missing_access_token = some "invalid_request"
error_code (not_allowed _) = some "insufficient_scope"

abbrev pub in_quotes : String → String
in_quotes s = "\"" +++ (s +++ "\"")

abbrev with_code : Option String → AuthError → String
with_code none e = ""
with_code (some c) e =
    ", error=" +++ (in_quotes c +++ (", error_description=" +++ in_quotes (quoted (reason e))))

unfoldable pub challenge : AuthError → String → String
challenge e realm = "Bearer realm=" +++ (in_quotes (quoted realm) +++ with_code (error_code e) e)

-- 403 and not 401: the caller authenticated and is not permitted.
unfoldable pub forbidden : AuthError → Bool
forbidden (not_allowed _) = true
forbidden _ = false
