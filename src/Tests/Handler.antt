-- ===== src/Tests/Handler.antt =====
-- A whole request of a client that the policy allows, and a call of a tool that is hidden.
use mcp_gatehound.Policy.{resolve}
use mcp_gatehound.Approval.{new}
use mcp_gatehound.Store.Rules.{decision_for, select_decision}
use mcp_gatehound.Decision.{parse}
use mcp_gatehound.Config.{tool}
use mcp_gatehound.Mcp.{log}
use mcp_gatehound.Mcp.Call.{adjusted, let_through}
use mcp_gatehound.Policy.{resolve}
use mcp_gatehound.Store.Rules.{decision_for, select_decision}
use mcp_gatehound.Decision.{parse}
use mcp_gatehound.Actions.Dispatch.{acquire_slot, commit_slot, dispatch, perform, perform_limited}
use mcp_gatehound.Config.Arguments.{check_arguments}
use mcp_gatehound.Auth.Factors.{authenticate, resolve_issued, with_tokens}
use mcp_gatehound.Auth.Headers.{bearer, get_text}
use mcp_gatehound.Tokens.{split}
use mcp_gatehound.Secrets.{eq_secret}
use mcp_gatehound.Base.{bytes}
use mcp_gatehound.Mcp.Handler.{admitted, by_body, by_id, by_era, by_method, call_tool}
use mcp_gatehound.Json.{get, get_field}
use mcp_gatehound.Protocol.{negotiate, meta_of, classify}
use mcp_gatehound.Base.{String, false, some, none, [], ◌∷◌, ◌≡◌, refl, ok}
use mcp_gatehound.Json.{Value, obj, str, field, end}
use mcp_gatehound.Auth.Headers.{HeaderMap}
use mcp_gatehound.Auth.Access.{Jose, Network}
use mcp_gatehound.Mcp.Call.{run_call}
use mcp_gatehound.Mcp.Replies.{Outside}
use mcp_gatehound.Mcp.Handler.{Server, handle_mcp}
use mcp_gatehound.Mcp.Warranted.{IsWarranted, handle_mcp-IsWarranted}
use mcp_gatehound.Tests.Mcp.{gateway, course, no_longer_zero}

abbrev jose : Jose
jose = record {
  JwkSet = String;
  Jwk = String;
  Key = String;
  find_jwk = λ set kid. none;
  header_kid = λ token. none;
  decoding_key = λ jwk. none;
  decode = λ now token key audience issuer leeway. none;
}

abbrev digest : String → String
digest s = s

abbrev net : Network jose
net n = ok ""

abbrev message : Value
message = obj (
    field "id" (str "1") (
      field "method" (str "tools/call")
        (field "params" (obj (field "name" (str "write") end)) end)))

abbrev outside : Outside
outside = record {
  base64 = λ s. none;
  parse = λ body. ok message;
  fits_header = λ s. false;
  pkg_version = "1";
}

abbrev server : Server jose digest
server = record {
  gateway = gateway;
  auth = record {
    bearer = "0123456789abcdef";
    bearer_identity = "bot";
    allowed = [];
    access = none;
    tokens = none;
  };
  server_name = "gate";
}

abbrev headers : HeaderMap
headers = record { name = "authorization"; text = some "Bearer 0123456789abcdef" } ∷ []

acted : (handle_mcp jose digest outside net course headers "" server).1.gateway.acts ≡ 1
unfolding handle_mcp admitted authenticate bearer get_text resolve_issued split eq_secret bytes
    with_tokens by_body by_id get get_field by_era negotiate meta_of by_method call_tool classify
    run_call tool adjusted resolve new decision_for select_decision parse let_through dispatch
    check_arguments perform_limited acquire_slot perform log commit_slot
acted = refl

handle_mcp-IsWarranted_example : IsWarranted jose digest outside net course headers "" server
handle_mcp-IsWarranted_example =
    handle_mcp-IsWarranted jose digest outside net course headers "" server (no_longer_zero _ acted)
