-- ===== src/Upstreams/Http/Calls.antt =====
-- crates/gatehound-core/src/upstreams/http.rs: `HttpUpstream`, the request of an operation and what is made
-- of the answer. The HTTP client is what lies between the two.
use mcp_gatehound.Base.{
  String, Bool, true, false, Option, some, none, List, [], ◌∷◌, ◌+++◌, ◌==◌, Result, ok, err, ◌>>=◌,
  or_fail, is_empty, trim, take_chars, if◌then◌else◌,
}
use mcp_gatehound.Base.Texts.{trim_end_matches}
use mcp_gatehound.Json.{Value, Num, null, str, as_str}
use mcp_gatehound.Upstreams.Http.{
  HttpAuth, no_auth, bearer, header, HttpOp, FillError, scalar, is_sole_placeholder, render_str,
  render,
}

pub record HttpUpstream : Type 0 where
  pub base : String
  pub token : String
  pub auth : HttpAuth
  pub ops : List (String × HttpOp)
  pub health_path : Option String

unfoldable pub new :
    String → String → HttpAuth → List (String × HttpOp) → Option String → HttpUpstream
new base_url token auth ops health_path = record {
  base = trim_end_matches b'/' base_url;
  token = token;
  auth = auth;
  ops = ops;
  health_path = health_path;
}

-- What is sent: the header that carries the credential is its name and value.
pub record HttpRequest : Type 0 where
  pub method : String
  pub url : String
  pub query : List (String × String)
  pub body : Option Value
  pub credential : Option (String × String)

pub data CallError : Type 0 where
  no_op : (op : String) → CallError
  bad_template : FillError → CallError
  bad_method unreachable : (text : String) → CallError
  refused : (method url status text : String) → CallError

unfoldable pub credential_of : HttpUpstream → Option (String × String)
credential_of u = elim u.auth [
  | no_auth ↦ none
  | bearer ↦ some ("authorization", "Bearer " +++ u.token)
  | header name ↦ some (name, u.token)
]

abbrev pub find_op : String → List (String × HttpOp) → Option HttpOp
find_op op [] = none
find_op op ((k, spec) ∷ rest) = if k == op then some spec else find_op op rest

abbrev filled {ℓ} : {A : Type ℓ} → Result FillError A → Result CallError A
filled (ok a) = ok a
filled (err e) = err (bad_template e)

abbrev text_of : Value → String
text_of v = elim (as_str v) [ none ↦ "" | some s ↦ s ]

abbrev with_param :
    String
    → String
    → Result FillError String
    → Result FillError (List (String × String))
    → Result FillError (List (String × String))
with_param k template (ok v) rest = rest >>= λ more. ok ((k, v) ∷ more)
with_param k template (err e) rest = err e

module _ (show : Num → String) where
  -- A parameter with a single placeholder that has no value is left off; one that is filled with what is
  -- no scalar is an error.
  abbrev param :
      Value
      → String
      → String
      → Result FillError Value
      → Result FillError (List (String × String))
      → Result FillError (List (String × String))
  param args k template (ok v) rest = with_param k template (scalar show v) rest
  param args k template (err e) rest = if is_sole_placeholder (str template) then rest else err e

  pub params : Value → List (String × String) → Result FillError (List (String × String))
  params args [] = ok []
  params args ((k, template) ∷ more) =
      let rest = params args more in
      param args k template (render_str show args template false) rest

  abbrev body_of : Value → Option Value → Result FillError (Option Value)
  body_of args none = ok none
  body_of args (some t) = render show args t false >>= λ b. ok (some b)

  abbrev request : HttpUpstream → Value → HttpOp → Result FillError HttpRequest
  request u args spec = render_str show args spec.path true >>= λ path.
      params args spec.query >>= λ query. body_of args spec.body >>= λ body. ok (record {
        method = spec.method;
        url = u.base +++ text_of path;
        query = query;
        body = body;
        credential = credential_of u;
      })

  -- `call`, as far as the request that is sent
  unfoldable pub call_request : HttpUpstream → String → Value → Result CallError HttpRequest
  unfolding params
  call_request u op args =
      or_fail (find_op op u.ops) (no_op op) >>= λ spec. filled (request u args spec)

-- How the other side answers, `success` for a status of 200 to 299.
pub data Reply : Type 0 where
  no_answer : Reply
  answered : (success : Bool) (status text : String) → Reply

-- `send`, behind the client: a method that the client takes for one, and the reply; `parse` is serde_json's.
unfoldable pub send :
    (String → Bool) → (String → Option Value) → Reply → HttpRequest → Result CallError Value
send is_method parse reply r =
    if is_method r.method
    then (elim reply [
      | no_answer ↦ err (unreachable r.url)
      | answered success status text ↦
          if success
          then ok (
              if is_empty (trim text)
              then null
              else elim (parse text) [ none ↦ str text | some v ↦ v ])
          else err (refused r.method r.url status (take_chars 400 text))
    ])
    else err (bad_method r.method)

-- The probe's request, where there is one.
unfoldable pub health_request : HttpUpstream → Option HttpRequest
health_request u = elim u.health_path [
  | none ↦ none
  | some path ↦ some (record {
    method = "GET";
    url = u.base +++ path;
    query = [];
    body = none;
    credential = credential_of u;
  })
]
