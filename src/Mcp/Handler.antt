-- ===== src/Mcp/Handler.antt =====
-- crates/gatehound-core/src/mcp.rs: `handle_mcp`, from a request's headers and body to the response.
use mcp_gatehound.Base.{
  ◌/◌, String, Option, some, none, ◌+++◌, ◌==◌, Result, ok, err, length, if◌then◌else◌,
}
use mcp_gatehound.Json.{Value, obj, str, arr, field, end, null, get, is_null}
use mcp_gatehound.Store.{Conn, NewRequestLog, no_log}
use mcp_gatehound.Policy.{visible_tools}
use mcp_gatehound.Auth.Headers.{HeaderMap}
use mcp_gatehound.Auth.Failure.{AuthError, reason}
use mcp_gatehound.Auth.Access.{Jose, Network}
use mcp_gatehound.Auth.Factors.{Authenticator, Caller, authenticate, with_tokens}
use mcp_gatehound.Protocol.{
  Era, modern, legacy, ProtocolError, negotiate, cacheable, all_versions, texts, text_in, body_name,
}
use mcp_gatehound.Mcp.{Gateway, Course, Request, CallOutcome, client, log}
use mcp_gatehound.Mcp.Call.{run_call}
use mcp_gatehound.Mcp.Replies.{
  Response, Outside, nothing, replied, rpc_error, rpc_result, protocol_error, stamp, tool_ok,
  tool_err, refuse, client_name, or_text, or_value, capabilities, discover_instructions,
  handshake_version, shown,
}
use mcp_gatehound.Base.Texts.{decimal}

abbrev answered : Outside → Course → String → Era → Value → Option CallOutcome → Option Response
answered o c server_name era id none = none
answered o c server_name era id (some out) = some (
    replied 200 (elim out.result [
      | ok payload ↦ tool_ok o c server_name era id payload
      | err f ↦
          if f.code == "unknown_tool"
          then rpc_error id 32602 (c.text f.message)
          else tool_err o server_name era id (c.text f.message) f.code
    ]))

-- `call_tool` for a client; none where the caller hung up
unfoldable pub call_tool :
    Outside → Course → String → Era → Value → Request → Gateway → Option Response × Gateway
call_tool o c server_name era id r g =
    let (outcome, g') = run_call c r g in (answered o c server_name era id outcome, g')

-- A row about a caller's request.
abbrev pub about : Caller → String → Option String → NewRequestLog
about caller method client_named = record no_log {
  identity = some caller.identity;
  client_name = client_named;
  method = some method;
  status = some "ok";
  token_id = caller.token_id;
}

abbrev pub asked_of : Caller → Value → Request
asked_of caller params = record {
  identity = caller.identity;
  token_id = caller.token_id;
  name = body_name params;
  args = or_value (get "arguments" params) (obj end);
  origin = client;
}

-- The request's method, in the era that was negotiated.
unfoldable pub by_method :
    Outside
    → Course
    → String
    → Caller
    → Value
    → String
    → Value
    → Era
    → Gateway
    → Option Response × Gateway
by_method o c server_name caller id method params era g =
    let info = obj (field "name" (str server_name) (field "version" (str o.pkg_version) end)) in
    if method == "initialize"
    then (
      some (
          replied 200 (
            rpc_result id (
              stamp o server_name era (
                obj (
                  field "capabilities" capabilities (
                    field "instructions" (str discover_instructions) (
                      field "protocolVersion" (str (handshake_version params))
                        (field "serverInfo" info end)))))))),
      (log (about caller "initialize" (client_name params)) g).1,
    )
    else if method == "server/discover"
    then (
      some (
          replied 200 (
            rpc_result id (
              stamp o server_name era (
                cacheable era (
                  obj (
                    field "capabilities" capabilities (
                      field "instructions" (str discover_instructions)
                        (field "supportedVersions" (arr (texts all_versions)) end)))))))),
      (log (about caller "server/discover" (client_name params)) g).1,
    )
    else if method == "ping"
    then (some (replied 200 (rpc_result id (stamp o server_name era (obj end)))), g)
    else if method == "tools/list"
    then (let tools =
          visible_tools (record { store = g.queue.conn; default = g.default }) caller.identity
            g.tools in
        (
          some (
              replied 200 (
                rpc_result id (
                  stamp o server_name era
                    (cacheable era (obj (field "tools" (arr (shown tools)) end)))))),
          (log
              (record (about caller "tools/list" none) {
                response_json = some ("{\"tools\":" +++ decimal (length tools) +++ "}");
              })
              g).1,
        ))
    else if method == "tools/call"
    then call_tool o c server_name era id (asked_of caller params) g
    else if method == ""
    then (some (replied 200 (rpc_error id 32600 "invalid request: no method")), g)
    else (
      some (
          let message = "method not found: " +++ method in
          elim era [
            | modern v ↦
                protocol_error id (record {
                  status = 404;
                  code_below = 32601;
                  message = message;
                  error_data = none;
                })
            | legacy ↦ replied 200 (rpc_error id 32601 message)
          ]),
      g,
    )

unfoldable pub by_era :
    Outside
    → Course
    → String
    → Caller
    → Value
    → String
    → Value
    → Result ProtocolError Era
    → Gateway
    → Option Response × Gateway
by_era o c server_name caller id method params (err e) g = (
  some (protocol_error id e),
  (log
      (record (about caller method none) {
        status = some "error";
        decision = some "protocol";
        error = some e.message;
      })
      g).1,
)
by_era o c server_name caller id method params (ok era) g =
    by_method o c server_name caller id method params era g

-- A message that was read: one with no id, or a null one, is acknowledged and nothing more.
unfoldable pub by_id :
    Outside
    → Course
    → String
    → HeaderMap
    → Caller
    → Value
    → Option Value
    → Gateway
    → Option Response × Gateway
by_id o c server_name headers caller msg none g =
    (some (record { status = 202; www_authenticate = none; body = nothing }), g)
by_id o c server_name headers caller msg (some id) g =
    if is_null id
    then (some (record { status = 202; www_authenticate = none; body = nothing }), g)
    else (let method = or_text (text_in (get "method" msg)) "" in
        let params = or_value (get "params" msg) (obj end) in
        by_era o c server_name caller id method params (negotiate o.base64 method params headers) g)

unfoldable pub by_body :
    Outside
    → Course
    → String
    → HeaderMap
    → Caller
    → Result String Value
    → Gateway
    → Option Response × Gateway
by_body o c server_name headers caller (err e) g =
    (some (replied 400 (rpc_error null 32700 ("parse error: " +++ e))), g)
by_body o c server_name headers caller (ok msg) g =
    by_id o c server_name headers caller msg (get "id" msg) g

abbrev pub with_conn : Gateway → Option Conn → Gateway
with_conn g none = g
with_conn g (some conn) = record g { queue = record g.queue { conn = conn } }

module _ (j : Jose) (digest : String → String) where
  -- The gateway as it serves: what authenticates its requests shares its store.
  pub record Server : Type 0 where
    pub gateway : Gateway
    pub auth : Authenticator j digest
    pub server_name : String

  -- The request behind its authentication.
  unfoldable pub admitted :
      Outside
      → Course
      → HeaderMap
      → String
      → String
      → Result AuthError Caller
      → Gateway
      → Option Response × Gateway
  admitted o c headers body server_name (err e) g = (
    some (refuse o server_name e),
    (log
        (record no_log {
          method = some "auth";
          status = some "error";
          decision = some "unauthorized";
          error = some (reason e);
        })
        g).1,
  )
  admitted o c headers body server_name (ok caller) g =
      by_body o c server_name headers caller (o.parse body) g

  -- The response, none where the client hung up while its call was held, and the server behind it.
  unfoldable pub handle_mcp :
      Outside → Network j → Course → HeaderMap → String → Server → Option Response × Server
  handle_mcp o net c headers body s =
      let shared = with_tokens j digest s.gateway.queue.conn s.auth in
      let (who, a) = authenticate j digest net (s.gateway.now_ms / 1000) headers shared in
      let (response, g) =
        admitted o c headers body s.server_name who (with_conn s.gateway a.tokens) in
      (response, record s { gateway = g; auth = a })
