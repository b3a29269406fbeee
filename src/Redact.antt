-- ===== src/Redact.antt =====
-- crates/gatehound-core/src/redact.rs: what of arguments and results is written down. The printer of
-- `serde_json` is an argument.
pub mod Secrecy
pub mod Cap
use Prim.Native.Char.{Char, len_utf8}
use Prim.Native.String as Str
use mcp_gatehound.Base.{
  ℕ, ◌-◌, String, len, Bool, true, false, ◌||◌, List, [], ◌∷◌, ◌+++◌, any, is_some, strip_prefix,
  to_ascii_lowercase, leb, ltb, if◌then◌else◌,
}
use mcp_gatehound.Json.{Value, Fields, Items, null, bool, num, str, arr, obj, end, field, nil, cons}

abbrev pub redacted : String
redacted = "«redacted»"

abbrev pub preview_bytes : ℕ
preview_bytes = 512

abbrev pub log_bytes : ℕ
log_bytes = 4096

-- `k.contains(needle)`
abbrev contains : String → String → Bool
contains needle Str.[] = is_some (strip_prefix needle "")
contains needle (Str.◌∷◌ c s) =
    let here = is_some (strip_prefix needle (Str.◌∷◌ c s)) in here || contains needle s

abbrev needles : List String
needles =
    "token" ∷ "secret" ∷ "password" ∷ "passwd" ∷ "api_key" ∷ "apikey" ∷ "authorization" ∷ "cookie"
    ∷ "credential" ∷ "private_key" ∷ "bearer" ∷ "session" ∷ []

unfoldable pub is_secret_key : String → Bool
is_secret_key key = let k = to_ascii_lowercase key in any (λ needle. contains needle k) needles

unfoldable mutual
  pub redact : Value → Value
  redact (obj map) = obj (redact_fields map)
  redact (arr items) = arr (redact_items items)
  redact null = null
  redact (bool b) = bool b
  redact (num n) = num n
  redact (str s) = str s

  pub redact_fields : Fields → Fields
  redact_fields end = end
  redact_fields (field k v rest) =
      let inner = redact v in
      field k (if is_secret_key k then str redacted else inner) (redact_fields rest)

  pub redact_items : Items → Items
  redact_items nil = nil
  redact_items (cons v vs) = cons (redact v) (redact_items vs)

-- The whole characters that stand within the first `n` bytes.
pub whole_chars : ℕ → String → String
whole_chars n Str.[] = ""
whole_chars n (Str.◌∷◌ c s) =
    let rest = whole_chars (n - len_utf8 c) s in if leb (len_utf8 c) n then Str.◌∷◌ c rest else ""

abbrev pub ellipsis : String
ellipsis = "…"

unfoldable pub truncate : String → ℕ → String
unfolding whole_chars
truncate s max_bytes =
    if leb (len s) max_bytes
    then s
    else if ltb max_bytes (len ellipsis)
    then ""
    else whole_chars (max_bytes - len ellipsis) s +++ ellipsis

unfoldable pub for_log : (Value → String) → Value → ℕ → String
for_log to_string value max_bytes = truncate (to_string (redact value)) max_bytes
