-- ===== src/Protocol.antt =====
-- crates/gatehound-core/src/protocol.rs: the revision of MCP that a request speaks, what a request of
-- that revision must carry, and the stamp on its result.
pub mod Mirrored
pub mod Negotiated
pub mod Stamped
use mcp_gatehound.Base.{
  ℕ, String, Bool, true, false, not, Option, some, none, List, [], ◌∷◌, ◌++◌, ◌+++◌, ◌==◌, any,
  Result, ok, err, ◌>>=◌, ◌>>◌, or_fail, or_else, guard, is_some, strip_prefix, if◌then◌else◌,
}
use mcp_gatehound.Base.Texts.{strip_suffix}
use mcp_gatehound.Json.{
  Value, Fields, Items, obj, str, arr, num, unsigned, end, field, nil, cons, get, get_field,
  has_field, insert_field, as_str,
}
use mcp_gatehound.Auth.Headers.{HeaderMap, get_text, trimmed}

unfoldable pub modern_versions : List String
modern_versions = "2026-07-28" ∷ []

unfoldable pub legacy_versions : List String
legacy_versions = "2025-06-18" ∷ "2025-03-26" ∷ "2024-11-05" ∷ []

abbrev pub meta_protocol_version : String
meta_protocol_version = "io.modelcontextprotocol/protocolVersion"

abbrev pub meta_client_capabilities : String
meta_client_capabilities = "io.modelcontextprotocol/clientCapabilities"

abbrev pub meta_server_info : String
meta_server_info = "io.modelcontextprotocol/serverInfo"

abbrev pub list_ttl_ms : ℕ
list_ttl_ms = 60000

pub data Era : Type 0 where
  modern : (version : String) → Era
  legacy : Era

unfoldable pub is_modern : Era → Bool
is_modern (modern _) = true
is_modern legacy = false

-- The codes are negative; each is written as what it is below zero.
pub record ProtocolError : Type 0 where
  pub status : ℕ
  pub code_below : ℕ
  pub message : String
  pub error_data : Option Value

abbrev pub Checked : Type 0
Checked = Result ProtocolError (Unit {0})

unfoldable pub invalid_params : String → ProtocolError
invalid_params message = record {
  status = 400;
  code_below = 32602;
  message = message;
  error_data = none;
}

abbrev header_mismatch_code : ℕ
header_mismatch_code = 32020

abbrev unsupported_version_code : ℕ
unsupported_version_code = 32022

unfoldable pub header_mismatch : String → ProtocolError
header_mismatch message = record {
  status = 400;
  code_below = header_mismatch_code;
  message = message;
  error_data = none;
}

abbrev pub texts : List String → Items
texts [] = nil
texts (s ∷ ss) = cons (str s) (texts ss)

unfoldable pub unsupported_version : String → ProtocolError
unsupported_version requested = record {
  status = 400;
  code_below = unsupported_version_code;
  message = "Unsupported protocol version";
  error_data = some (
      obj
        (field "requested" (str requested) (field "supported" (arr (texts modern_versions)) end)));
}

abbrev as_object : Option Value → Option Fields
as_object (some (obj fs)) = some fs
as_object _ = none

unfoldable pub meta_of : Value → Option Fields
meta_of params = as_object (get "_meta" params)

abbrev pub text_in : Option Value → Option String
text_in none = none
text_in (some v) = as_str v

-- `headers.get(name)`, trimmed, where something is left
abbrev pub header : HeaderMap → String → Option String
header hs name = trimmed (get_text name hs)

abbrev decoded_inner : (String → Option String) → String → Option String → Option String
decoded_inner base64 raw none = some raw
decoded_inner base64 raw (some inner) = base64 inner

abbrev inner_of : Option String → Option String
inner_of none = none
inner_of (some r) = strip_suffix "?=" r

-- `base64` is the crate's decoding of the inner text, read as UTF-8.
unfoldable pub decode_header_value : (String → Option String) → String → Option String
decode_header_value base64 raw = decoded_inner base64 raw (inner_of (strip_prefix "=?base64?" raw))

abbrev pub contains : List String → String → Bool
contains versions v = any (λ u. u == v) versions

unfoldable pub classify : String → Option Era
classify version =
    if contains modern_versions version
    then some (modern version)
    else if contains legacy_versions version
    then some legacy
    else none

abbrev meta_text : Option Fields → Option String
meta_text none = none
meta_text (some meta) = text_in (get_field meta_protocol_version meta)

-- `meta_version`
abbrev pub version_in : Value → Option String
version_in params = meta_text (meta_of params)

abbrev pub mirrors : (missing : String) (named : String) (body : String) → Option String → Checked
mirrors missing named body none = err (header_mismatch missing)
mirrors missing named body (some v) = guard (v == body) (
    header_mismatch
      (named +++ " header value '" +++ v +++ "' does not match body value '" +++ body +++ "'"))

abbrev pub body_name : Value → String
body_name params = elim (text_in (get "name" params)) [ none ↦ "" | some s ↦ s ]

abbrev pub mirrors_decoded : Value → Option String → Checked
mirrors_decoded params none = err (header_mismatch "Mcp-Name header is not valid base64")
mirrors_decoded params (some decoded) = mirrors "" "Mcp-Name" (body_name params) (some decoded)

abbrev pub mirrors_name : (String → Option String) → Value → Option String → Checked
mirrors_name base64 params none = err (header_mismatch "Mcp-Name header is required for tools/call")
mirrors_name base64 params (some raw) = mirrors_decoded params (decode_header_value base64 raw)

unfoldable pub validate_headers :
    (String → Option String) → String → Value → HeaderMap → String → Checked
validate_headers base64 method params hs declared =
    mirrors "MCP-Protocol-Version header is required" "MCP-Protocol-Version" declared
      (header hs "mcp-protocol-version")
    >> mirrors "Mcp-Method header is required" "Mcp-Method" method (header hs "mcp-method")
    >> (if method == "tools/call" then mirrors_name base64 params (header hs "mcp-name") else ok tt)

abbrev pub meta_carries : String → Option String → Option Fields → Checked
meta_carries declared version none = err (
    invalid_params (
      "a " +++ declared +++ " request must carry params._meta with " +++ meta_protocol_version
      +++ " and " +++ meta_client_capabilities))
meta_carries declared version (some meta) =
    guard (is_some version)
      (invalid_params ("params._meta." +++ meta_protocol_version +++ " is required"))
    >> guard (has_field meta_client_capabilities meta)
        (invalid_params ("params._meta." +++ meta_client_capabilities +++ " is required"))

-- What is asked of a request whose declared version is of the given era.
abbrev pub held_to :
    (String → Option String) → String → Value → HeaderMap → String → Era → Result ProtocolError Era
held_to base64 method params hs declared legacy = ok legacy
held_to base64 method params hs declared (modern v) =
    meta_carries declared (version_in params) (meta_of params)
    >> validate_headers base64 method params hs declared
    >> ok (modern v)

abbrev pub settled :
    (String → Option String) → String → Value → HeaderMap → Option String → Result ProtocolError Era
settled base64 method params hs none = ok legacy
settled base64 method params hs (some declared) =
    or_fail (classify declared) (unsupported_version declared)
    >>= held_to base64 method params hs declared

unfoldable pub negotiate :
    (String → Option String) → String → Value → HeaderMap → Result ProtocolError Era
negotiate base64 method params hs =
    if method == "initialize"
    then ok legacy
    else settled base64 method params hs
        (or_else (version_in params) (header hs "mcp-protocol-version"))

-- `obj.entry("_meta").or_insert_with(..)`, and what becomes of an object there
abbrev pub meta_stamped : Value → Option Value → Value
meta_stamped info none = obj (field meta_server_info info end)
meta_stamped info (some (obj meta)) = obj (insert_field meta_server_info info meta)
meta_stamped info (some other) = other

abbrev pub server_info : String → String → Value
server_info name version = obj (field "name" (str name) (field "version" (str version) end))

abbrev pub stamped : String → String → Fields → Fields
stamped name version fs =
    let kept = insert_field "resultType" (str "complete") fs in
    insert_field "_meta" (meta_stamped (server_info name version) (get_field "_meta" kept)) kept

unfoldable pub finish : Era → String → String → Value → Value
finish (modern v) name version (obj fs) = obj (stamped name version fs)
finish era name version result = result

unfoldable pub cacheable : Era → Value → Value
cacheable (modern v) (obj fs) = obj (
    insert_field "cacheScope" (str "private")
      (insert_field "ttlMs" (num (unsigned list_ttl_ms)) fs))
cacheable era result = result

unfoldable pub all_versions : List String
all_versions = modern_versions ++ legacy_versions
