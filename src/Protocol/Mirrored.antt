-- ===== src/Protocol/Mirrored.antt =====
-- When the headers of a request say what its body says (`validate_headers`).
use mcp_gatehound.Base.{
  same_texts, String, Bool, true, false, Option, some, none, ◌==◌, ◌≡◌, refl, ap, ◌↔◌, ◌⊎◌, inl,
  inr, Result, ok, err, ◌>>◌, guard, Bool-cases, eq_iff, if◌then◌else◌,
}
use mcp_gatehound.Json.{Value}
use mcp_gatehound.Auth.Headers.{HeaderMap}
use mcp_gatehound.Protocol.{
  ProtocolError, Checked, header, decode_header_value, body_name, mirrors, mirrors_name,
  mirrors_decoded, validate_headers,
}

-- A call of a tool names it twice, and both name the same.
abbrev pub NamesTool : (String → Option String) → Value → HeaderMap → Type 0
NamesTool base64 params hs =
    (raw : String) × (header hs "mcp-name" ≡ some raw)
    × (decode_header_value base64 raw ≡ some (body_name params))

abbrev pub Mirrored : (String → Option String) → String → Value → HeaderMap → String → Type 0
Mirrored base64 method params hs v =
    (header hs "mcp-protocol-version" ≡ some v)
    × (header hs "mcp-method" ≡ some method)
    × (((method == "tools/call") ≡ false) ⊎ NamesTool base64 params hs)

guard_iff : (b : Bool) (e : ProtocolError) → (guard b e ≡ ok tt) ↔ (b ≡ true)
guard_iff true e = ((λ h. refl), λ h. refl)
guard_iff false e = ((λ h. cc), λ h. cc)

pub both_iff :
    (m : Checked) {A : Type 0} (k : Result ProtocolError A) (a : A)
    → ((m >> k) ≡ ok a) ↔ ((m ≡ ok tt) × (k ≡ ok a))
both_iff (ok tt) k a = ((λ h. (refl, h)), λ (x, h). h)
both_iff (err e) k a = ((λ h. cc), λ (x, h). cc)

mirrors_iff :
    (missing named body : String) (o : Option String)
    → (mirrors missing named body o ≡ ok tt) ↔ (o ≡ some body)
mirrors_iff missing named body none = ((λ h. cc), λ h. cc)
mirrors_iff missing named body (some v) = elim (Bool-cases (v == body)) [
  | inl same ↦ rw same ((λ h. ap some ((eq_iff v body).0 same)), λ h. refl)
  | inr other ↦ rw other ((λ h. cc), λ h. grind same_texts)
]

decoded_iff :
    (params : Value) (o : Option String)
    → (mirrors_decoded params o ≡ ok tt) ↔ (o ≡ some (body_name params))
decoded_iff params none = ((λ h. cc), λ h. cc)
decoded_iff params (some d) = mirrors_iff "" "Mcp-Name" (body_name params) (some d)

mirrors_name_iff :
    (base64 : String → Option String) (params : Value) (o : Option String)
    → (mirrors_name base64 params o ≡ ok tt) ↔ (
        (raw : String) × (o ≡ some raw)
        × (decode_header_value base64 raw ≡ some (body_name params)))
mirrors_name_iff base64 params none = ((λ h. cc), λ (raw, h, d). cc)
mirrors_name_iff base64 params (some raw) =
    let decoded = decoded_iff params (decode_header_value base64 raw) in
    ((λ h. (raw, refl, decoded.0 h)), λ (other, same, d). decoded.1 cc)

call_iff :
    (base64 : String → Option String) (params : Value) (hs : HeaderMap) (call : Bool)
    → ((if call then mirrors_name base64 params (header hs "mcp-name") else ok tt) ≡ ok tt)
      ↔ ((call ≡ false) ⊎ NamesTool base64 params hs)
call_iff base64 params hs true =
    let named = mirrors_name_iff base64 params (header hs "mcp-name") in
    ((λ h. inr (named.0 h)), λ d. elim d [ inl f ↦ cc | inr n ↦ named.1 n ])
call_iff base64 params hs false = ((λ h. inl refl), λ h. refl)

pub validate_headers_iff :
    (base64 : String → Option String) (method : String) (params : Value) (hs : HeaderMap)
    (v : String)
    → (validate_headers base64 method params hs v ≡ ok tt) ↔ Mirrored base64 method params hs v
unfolding validate_headers
validate_headers_iff base64 method params hs v =
    let version =
      mirrors_iff "MCP-Protocol-Version header is required" "MCP-Protocol-Version" v
        (header hs "mcp-protocol-version") in
    let named =
      mirrors_iff "Mcp-Method header is required" "Mcp-Method" method (header hs "mcp-method") in
    let call = call_iff base64 params hs (method == "tools/call") in
    let first =
      mirrors "MCP-Protocol-Version header is required" "MCP-Protocol-Version" v
        (header hs "mcp-protocol-version") in
    let second =
      mirrors "Mcp-Method header is required" "Mcp-Method" method (header hs "mcp-method") in
    let third : Checked =
      if method == "tools/call" then mirrors_name base64 params (header hs "mcp-name") else ok tt in
    let outer = both_iff (first >> second) third tt in
    let inner = both_iff first second tt in
    (
      (λ h.
          let (hd, c) = outer.0 h in let (a, b) = inner.0 hd in (version.0 a, named.0 b, call.0 c)),
      λ (a, b, c). outer.1 (inner.1 (version.1 a, named.1 b), call.1 c),
    )
