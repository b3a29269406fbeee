-- ===== src/Mcp/Warranted.antt =====
-- What it takes for a request to make the gateway act: `handle_mcp` over authentication, the negotiated
-- revision and `run_call`.
use mcp_gatehound.Base.{
  ◌/◌, String, Bool, true, false, Option, some, none, ◌==◌, ◌≡◌, ◌≢◌, refl, ◌∙◌, ◌⊎◌, inl, inr,
  Result, ok, err, if◌then◌else◌, Bool-cases, eq_iff,
}
use mcp_gatehound.Json.{Value, obj, end, get, is_null}
use mcp_gatehound.Store.{Conn}
use mcp_gatehound.Auth.Headers.{HeaderMap}
use mcp_gatehound.Auth.Failure.{AuthError}
use mcp_gatehound.Auth.Access.{Jose, Network}
use mcp_gatehound.Auth.Factors.{Caller, authenticate, with_tokens}
use mcp_gatehound.Auth.Factors.Sound.{IsGenuine, authenticate_sound}
use mcp_gatehound.Protocol.{Era, ProtocolError, negotiate, text_in}
use mcp_gatehound.Mcp.{Gateway, Course}
use mcp_gatehound.Mcp.Permitted.{MayAct, may_act, log-acts}
use mcp_gatehound.Mcp.Replies.{Response, Outside, or_text, or_value}
use mcp_gatehound.Mcp.Handler.{
  call_tool, asked_of, by_method, by_era, by_id, by_body, with_conn, Server, admitted, handle_mcp,
}

abbrev pub method_of : Value → String
method_of msg = or_text (text_in (get "method" msg)) ""

abbrev pub params_of : Value → Value
params_of msg = or_value (get "params" msg) (obj end)

-- A caller's message that asks for a tool's call, in a revision that it satisfies, of a tool that the
-- caller may make act.
pub data CallsFor (o : Outside) (c : Course) (headers : HeaderMap) (caller : Caller) (msg : Value)
    (g : Gateway) : Type 0 where
  calls_for :
      (id : Value) (era : Era)
      → get "id" msg ≡ some id
      → is_null id ≡ false
      → method_of msg ≡ "tools/call"
      → negotiate o.base64 (method_of msg) (params_of msg) headers ≡ ok era
      → MayAct c (asked_of caller (params_of msg)) g
      → CallsFor o c headers caller msg g

-- It is warranted, or nothing was done.
abbrev Fine : Type 0 → Gateway → Option Response × Gateway → Type 0
Fine W g (response, g') = W ⊎ (g'.acts ≡ g.acts)

pick :
    (W : Type 0) (g : Gateway) (test : Bool) (x y : Option Response × Gateway)
    → ((test ≡ true) → Fine W g x)
    → Fine W g y
    → Fine W g (if test then x else y)
pick W g true x y here there = here refl
pick W g false x y here there = there

abbrev Asks : Course → Caller → String → Value → Gateway → Type 0
Asks c caller method params g = (method ≡ "tools/call") × MayAct c (asked_of caller params) g

by_method-Fine :
    (o : Outside) (c : Course) (name : String) (caller : Caller) (id : Value) (method : String)
    (params : Value) (era : Era) (g : Gateway)
    → Fine (Asks c caller method params g) g (by_method o c name caller id method params era g)
unfolding by_method call_tool
by_method-Fine o c name caller id method params era g =
    pick (Asks c caller method params g) g (method == "initialize") _ _ (λ e. inr (log-acts _ g))
      (pick (Asks c caller method params g) g (method == "server/discover") _ _
        (λ e. inr (log-acts _ g))
        (pick (Asks c caller method params g) g (method == "ping") _ _ (λ e. inr refl)
          (pick (Asks c caller method params g) g (method == "tools/list") _ _
            (λ e. inr (log-acts _ g))
            (pick (Asks c caller method params g) g (method == "tools/call") _ _ called (
              pick (Asks c caller method params g) g (method == "") _ _ (λ e. inr refl)
                (inr refl))))))
  where
    called :
        (method == "tools/call") ≡ true
        → Fine
            (Asks c caller method params g)
            g
            (call_tool o c name era id (asked_of caller params) g)
    called e = elim (may_act c (asked_of caller params) g) [
      | inl fine ↦ inl ((eq_iff method "tools/call").0 e, fine)
      | inr idle ↦ inr idle
    ]

by_era-Fine :
    (o : Outside) (c : Course) (name : String) (headers : HeaderMap) (caller : Caller)
    (msg id : Value) (r : Result ProtocolError Era) (g : Gateway)
    → get "id" msg ≡ some id
    → is_null id ≡ false
    → negotiate o.base64 (method_of msg) (params_of msg) headers ≡ r
    → Fine
        (CallsFor o c headers caller msg g)
        g
        (by_era o c name caller id (method_of msg) (params_of msg) r g)
unfolding by_era
by_era-Fine o c name headers caller msg id (err e) g there real asked = inr (log-acts _ g)
by_era-Fine o c name headers caller msg id (ok era) g there real asked =
    elim (by_method-Fine o c name caller id (method_of msg) (params_of msg) era g) [
      | inl (call, may) ↦ inl (calls_for id era there real call asked may)
      | inr idle ↦ inr idle
    ]

by_id-Fine :
    (o : Outside) (c : Course) (name : String) (headers : HeaderMap) (caller : Caller) (msg : Value)
    (id : Option Value) (g : Gateway)
    → get "id" msg ≡ id
    → Fine (CallsFor o c headers caller msg g) g (by_id o c name headers caller msg id g)
unfolding by_id
by_id-Fine o c name headers caller msg none g there = inr refl
by_id-Fine o c name headers caller msg (some id) g there = elim (Bool-cases (is_null id)) [
  | inl blank ↦ rw blank (inr refl)
  | inr real ↦ rw real (
      by_era-Fine o c name headers caller msg id
        (negotiate o.base64 (method_of msg) (params_of msg) headers) g there real refl)
]

module _ (j : Jose) (digest : String → String) where
  -- The gateway behind the authentication of a request, which may note the use of a token.
  abbrev pub at_call : Network j → HeaderMap → Server j digest → Gateway
  at_call net headers s =
      with_conn s.gateway
        (authenticate j digest net (s.gateway.now_ms / 1000) headers
          (with_tokens j digest s.gateway.queue.conn s.auth)).1.tokens

  -- A request whose sender showed the factors that are configured, and whose body calls for a tool that
  -- this sender may make act.
  pub data IsWarranted (o : Outside) (net : Network j) (c : Course) (headers : HeaderMap)
      (body : String) (s : Server j digest) : Type 0 where
    warranted :
        (caller : Caller) (msg : Value)
        → IsGenuine j digest net
            (s.gateway.now_ms / 1000)
            (with_tokens j digest s.gateway.queue.conn s.auth)
            headers
            caller
        → o.parse body ≡ ok msg
        → CallsFor o c headers caller msg (at_call net headers s)
        → IsWarranted o net c headers body s

  module _ (o : Outside) (net : Network j) (c : Course) (headers : HeaderMap) (body : String) where
    by_body-Fine :
        (name : String) (caller : Caller) (r : Result String Value) (g : Gateway)
        → o.parse body ≡ r
        → Fine
            ((msg : Value) × (o.parse body ≡ ok msg) × CallsFor o c headers caller msg g)
            g
            (by_body o c name headers caller r g)
    unfolding by_body
    by_body-Fine name caller (err e) g read = inr refl
    by_body-Fine name caller (ok msg) g read =
        elim (by_id-Fine o c name headers caller msg (get "id" msg) g refl) [
          | inl asks ↦ inl (msg, read, asks)
          | inr idle ↦ inr idle
        ]

    admitted-Fine :
        (s : Server j digest) (who : Result AuthError Caller)
        → (authenticate j digest net
            (s.gateway.now_ms / 1000)
            headers
            (with_tokens j digest s.gateway.queue.conn s.auth)).0
          ≡ who
        → Fine
            (IsWarranted o net c headers body s)
            (at_call net headers s)
            (admitted j digest o c headers body s.server_name who (at_call net headers s))
    unfolding admitted
    admitted-Fine s (err e) known = inr (log-acts _ (at_call net headers s))
    admitted-Fine s (ok caller) known =
        elim (by_body-Fine s.server_name caller (o.parse body) (at_call net headers s) refl) [
          | inr idle ↦ inr idle
          | inl (msg, read, asks) ↦ inl (
              warranted caller msg
                (authenticate_sound j digest net (s.gateway.now_ms / 1000)
                  (with_tokens j digest s.gateway.queue.conn s.auth) headers caller known)
                read asks)
        ]

    with_conn-acts : (g : Gateway) (conn : Option Conn) → (with_conn g conn).acts ≡ g.acts
    with_conn-acts g none = refl
    with_conn-acts g (some conn) = refl

    -- A request that makes the gateway act came from a sender who showed every factor that is configured;
    -- it is a call with an id, in a revision that it satisfies, of a tool that this gateway has and that its
    -- policy allows to that sender, or for which an "allow once" or "allow always" was given to this very
    -- call while it was held.
    pub handle_mcp-IsWarranted :
        (s : Server j digest)
        → (handle_mcp j digest o net c headers body s).1.gateway.acts ≢ s.gateway.acts
        → IsWarranted o net c headers body s
    unfolding handle_mcp
    handle_mcp-IsWarranted s acted =
        let shared = with_tokens j digest s.gateway.queue.conn s.auth in
        let who = authenticate j digest net (s.gateway.now_ms / 1000) headers shared in
        elim (admitted-Fine s who.0 refl) [
          | inl fine ↦ fine
          | inr idle ↦ absurd (acted (idle ∙ with_conn-acts s.gateway who.1.tokens))
        ]
