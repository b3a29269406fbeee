-- ===== src/Mcp/Replies.antt =====
-- crates/gatehound-core/src/mcp.rs: the replies of the MCP surface and what they are built from; with
-- `client_name` of crates/gatehound-core/src/auth.rs.
use mcp_gatehound.Base.{
  ℕ, ◌-◌, String, Bool, true, false, Option, some, none, List, [], ◌∷◌, Result, if◌then◌else◌,
  is_empty, take_chars,
}
use mcp_gatehound.Json.{
  Value, Items, Fields, obj, str, arr, num, bool, negative, end, field, nil, cons, get,
}
use mcp_gatehound.Config.{ToolConfig}
use mcp_gatehound.Config.Description.{client_description}
use mcp_gatehound.Config.Arguments.{schema}
use mcp_gatehound.Auth.Failure.{AuthError, forbidden, reason, challenge}
use mcp_gatehound.Protocol.{Era, ProtocolError, finish, legacy_versions, text_in, contains}
use mcp_gatehound.Mcp.{Course}

pub data Body : Type 0 where
  nothing : Body
  json : Value → Body

pub record Response : Type 0 where
  pub status : ℕ
  pub www_authenticate : Option String
  pub body : Body

-- `Json(v).into_response()`
abbrev pub replied : ℕ → Value → Response
replied status v = record { status = status; www_authenticate = none; body = json v }

-- What the handler uses of other crates: base64 read as UTF-8, the parser of serde_json with its
-- message, and whether a text may stand in a header.
pub record Outside : Type 0 where
  pub base64 : String → Option String
  pub parse : String → Result String Value
  pub fits_header : String → Bool
  pub pkg_version : String

-- -below, for a positive number
abbrev pub code_of : ℕ → Value
code_of below = num (negative (below - 1))

unfoldable pub rpc_error : Value → ℕ → String → Value
rpc_error id below message = obj (
    field "error" (obj (field "code" (code_of below) (field "message" (str message) end)))
      (field "id" id (field "jsonrpc" (str "2.0") end)))

unfoldable pub rpc_result : Value → Value → Value
rpc_result id result = obj (field "id" id (field "jsonrpc" (str "2.0") (field "result" result end)))

abbrev error_body : ProtocolError → Option Value → Fields
error_body e none = field "code" (code_of e.code_below) (field "message" (str e.message) end)
error_body e (some d) =
    field "code" (code_of e.code_below) (field "data" d (field "message" (str e.message) end))

unfoldable pub protocol_error : Value → ProtocolError → Response
protocol_error id e = replied e.status (
    obj (
      field "error" (obj (error_body e e.error_data))
        (field "id" id (field "jsonrpc" (str "2.0") end))))

abbrev text_block : String → Value
text_block text = arr (cons (obj (field "text" (str text) (field "type" (str "text") end))) nil)

abbrev pub stamp : Outside → String → Era → Value → Value
stamp o server_name era result = finish era server_name o.pkg_version result

unfoldable pub tool_ok : Outside → Course → String → Era → Value → Value → Value
tool_ok o c server_name era id payload = rpc_result id (
    stamp o server_name era (
      obj (
        field "content" (text_block (c.around.to_string payload))
          (field "isError" (bool false) (field "structuredContent" payload end)))))

abbrev structured : String → String → Value
structured message code = obj (
    if is_empty code
    then field "error" (str message) end
    else field "code" (str code) (field "error" (str message) end))

unfoldable pub tool_err : Outside → String → Era → Value → String → String → Value
tool_err o server_name era id message code = rpc_result id (
    stamp o server_name era (
      obj (
        field "content" (text_block message)
          (field "isError" (bool true) (field "structuredContent" (structured message code) end)))))

unfoldable pub refuse : Outside → String → AuthError → Response
refuse o realm e =
    let words = challenge e realm in
    record {
      status = if forbidden e then 403 else 401;
      www_authenticate = if o.fits_header words then some words else none;
      body = json (
          obj (
            field "error" (str (if forbidden e then "forbidden" else "unauthorized"))
              (field "reason" (str (reason e)) end)));
    }

abbrev inner_name : Option Value → Option String
inner_name none = none
inner_name (some info) = text_in (get "name" info)

abbrev first_64 : Option String → Option String
first_64 none = none
first_64 (some s) = some (take_chars 64 s)

unfoldable pub client_name : Value → Option String
client_name params = first_64 (inner_name (get "clientInfo" params))

abbrev pub or_text : Option String → String → String
or_text none d = d
or_text (some s) d = s

abbrev pub or_value : Option Value → Value → Value
or_value none d = d
or_value (some v) d = v

abbrev pub discover_instructions : String
discover_instructions =
    "Tools are bound to fixed actions by the gateway's configuration; a caller names a tool and never chooses an action. Every call is checked against a per-identity policy and recorded, a tool the policy holds waits for a human decision, and a tool marked idempotent requires an idempotency_key — repeating one replays the first result instead of acting again."

abbrev pub capabilities : Value
capabilities = obj (field "tools" (obj (field "listChanged" (bool false) end)) end)

-- The revision of the handshake: the one asked for, else the newest.
unfoldable pub handshake_version : Value → String
handshake_version params =
    let requested = or_text (text_in (get "protocolVersion" params)) "2025-06-18" in
    if contains legacy_versions requested then requested else "2025-06-18"

abbrev shown_tool : ToolConfig → Value
shown_tool t = obj (
    field "description" (str (client_description t))
      (field "inputSchema" (schema t) (field "name" (str t.name) end)))

abbrev pub shown : List ToolConfig → Items
shown [] = nil
shown (t ∷ ts) = cons (shown_tool t) (shown ts)
