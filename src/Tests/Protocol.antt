-- ===== src/Tests/Protocol.antt =====
-- A list asked for in the newest revision, and requests of the handshake.
use mcp_gatehound.Base.{String, Option, some, none, [], ◌∷◌, ◌≡◌, ◌↔◌, refl, ok}
use mcp_gatehound.Base.{or_else}
use mcp_gatehound.Json.{Value, Fields, obj, str, arr, nil, field, end}
use mcp_gatehound.Auth.Headers.{HeaderMap}
use mcp_gatehound.Protocol.{modern, negotiate, version_in, header}
use mcp_gatehound.Protocol.Negotiated.{Served, Answered, negotiate-modern_iff, negotiate-Answered}

abbrev no_base64 : String → Option String
no_base64 = λ s. none

abbrev newest : String
newest = "2026-07-28"

abbrev params : Value
params = obj (
    field "_meta"
      (obj (
        field "io.modelcontextprotocol/clientCapabilities" (obj end)
          (field "io.modelcontextprotocol/protocolVersion" (str newest) end)))
      end)

abbrev headers : HeaderMap
headers =
    record { name = "mcp-protocol-version"; text = some newest }
    ∷ record { name = "mcp-method"; text = some "tools/list" }
    ∷ []

abbrev listed : Fields
listed = field "tools" (arr nil) end

negotiate-modern_iff_example :
    (negotiate no_base64 "tools/list" params headers ≡ ok (modern newest))
    ↔ Served no_base64 "tools/list" params headers newest
negotiate-modern_iff_example = negotiate-modern_iff no_base64 "tools/list" params headers newest

negotiate-Answered_example :
    Answered
      (or_else (version_in params) (header headers "mcp-protocol-version"))
      (negotiate no_base64 "tools/list" params headers)
negotiate-Answered_example = negotiate-Answered no_base64 "tools/list" params headers refl
